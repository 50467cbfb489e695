-- ===== src/Common/Proc.antt =====
-- A request as the calls that it makes through the ports, in order. A call is one atomic step of
-- some adapter; between two calls of a request others may run.
use mathlib.Core.Path.{◌≡◌, refl}
use mathlib.Core.Logic.{◌⊎◌}
use mathlib.Core.Bool.{Bool, true, false}
use mathlib.Core.List.{List, [], ◌∷◌}
use booking_concurrent.Common.Errors.{Error, Result, ok, err}

pub data Proc (Op : Type 0) (Reply : Op → Type 0) (A : Type 0) : Type 0 where
  ret : A → Proc Op Reply A
  call : (o : Op) → (Reply o → Proc Op Reply A) → Proc Op Reply A

abbrev pub map_error : {A : Type 0} → (Error → Error) → Result A → Result A
map_error f (ok a) = ok a
map_error f (err e) = err (f e)

module _ {Op : Type 0} {Reply : Op → Type 0} where
  abbrev pub bind : {A B : Type 0} → Proc Op Reply A → (A → Proc Op Reply B) → Proc Op Reply B
  bind (ret a) f = f a
  bind (call o k) f = call o (λ r. bind (k r) f)

  abbrev pub request : (o : Op) → Proc Op Reply (Reply o)
  request o = call o ret

  -- `if err != nil { return err }`
  abbrev pub or_return :
      {A B : Type 0} → (A → Proc Op Reply (Result B)) → Result A → Proc Op Reply (Result B)
  or_return k (ok a) = k a
  or_return k (err e) = ret (err e)

  infixl 5 ◌>>=◌ ◌>>◌
  abbrev pub ◌>>=◌ :
      {A B : Type 0}
      → Proc Op Reply (Result A)
      → (A → Proc Op Reply (Result B))
      → Proc Op Reply (Result B)
  m >>= k = bind m (or_return k)

  abbrev pub ◌>>◌ :
      {B : Type 0}
      → Proc Op Reply (Result (Unit {0}))
      → Proc Op Reply (Result B)
      → Proc Op Reply (Result B)
  m >> k = m >>= λ _. k

  -- Shut, so that a proof sees the test and the two branches.
  infix 1 when◌take◌otherwise◌
  unfoldable pub when◌take◌otherwise◌ :
      {A : Type 0} → Bool → Proc Op Reply A → Proc Op Reply A → Proc Op Reply A
  when true take p otherwise q = p
  when false take p otherwise q = q

  unfoldable pub reject_if : Bool → Error → Proc Op Reply (Result (Unit {0}))
  reject_if true e = ret (err e)
  reject_if false e = ret (ok tt)

  -- `if err != nil { return f(err) }`
  abbrev pub wrapping :
      {A : Type 0} → (Error → Error) → Proc Op Reply (Result A) → Proc Op Reply (Result A)
  wrapping f m = bind m (λ r. ret (map_error f r))

  abbrev pub lift : {A : Type 0} → Result A → Proc Op Reply (Result A)
  lift r = ret r

-- A call with the reply that it got.
abbrev pub Event : (Op : Type 0) → (Op → Type 0) → Type 0
Event Op Reply = (o : Op) × Reply o

abbrev pub In : {A : Type 0} → A → List A → Type 0
In x [] = ⊥
In x (y ∷ ys) = (x ≡ y) ⊎ In x ys

-- After the events so far, whatever the adapters reply: each call is allowed by those before it.
pub data Obeys {Op : Type 0} {Reply : Op → Type 0} (Rule : List (Event Op Reply) → Op → Type 0)
    {A : Type 0} : List (Event Op Reply) → Proc Op Reply A → Type 0 where
  done : (past : List (Event Op Reply)) (a : A) → Obeys Rule past (ret a)
  next :
      {past : List (Event Op Reply)} {o : Op} {k : Reply o → Proc Op Reply A}
      → Rule past o
      → ((r : Reply o) → Obeys Rule ((o, r) ∷ past) (k r))
      → Obeys Rule past (call o k)

module _ {Op : Type 0} {Reply : Op → Type 0} {Rule : List (Event Op Reply) → Op → Type 0} where
  pub Obeys-reject :
      {B : Type 0} {past : List (Event Op Reply)} {b : Bool} {e : Error}
      (k : Result (Unit {0}) → Proc Op Reply (Result B))
      → Obeys Rule past (k (err e))
      → (b ≡ false → Obeys Rule past (k (ok tt)))
      → Obeys Rule past (bind (reject_if b e) k)
  unfolding reject_if
  Obeys-reject {b = true} k g h = g
  Obeys-reject {b = false} k g h = h refl

  -- The same inside a part of the use case.
  pub Obeys-reject_in :
      {A B : Type 0} {past : List (Event Op Reply)} (b : Bool) (e : Error)
      (f : Result (Unit {0}) → Proc Op Reply (Result A)) (k : Result A → Proc Op Reply (Result B))
      → Obeys Rule past (bind (f (err e)) k)
      → (b ≡ false → Obeys Rule past (bind (f (ok tt)) k))
      → Obeys Rule past (bind (bind (reject_if b e) f) k)
  unfolding reject_if
  Obeys-reject_in true e f k g h = g
  Obeys-reject_in false e f k g h = h refl

  pub Obeys-when :
      {A : Type 0} {past : List (Event Op Reply)} {b : Bool} {p q : Proc Op Reply A}
      → (b ≡ true → Obeys Rule past p)
      → (b ≡ false → Obeys Rule past q)
      → Obeys Rule past (when b take p otherwise q)
  unfolding when◌take◌otherwise◌
  Obeys-when {b = true} h k = h refl
  Obeys-when {b = false} h k = k refl

  -- The end of a use case: the reply is passed on, or its error is.
  pub Obeys-return :
      {A B : Type 0} (past : List (Event Op Reply)) (f : A → Result B) (r : Result A)
      → Obeys Rule past (or_return (λ a. ret (f a)) r)
  Obeys-return past f (ok a) = done _ _
  Obeys-return past f (err e) = done _ _

  -- To answer with the result in another form makes no call.
  pub Obeys-bind_ret :
      {A B : Type 0} {past : List (Event Op Reply)} {p : Proc Op Reply A} (f : A → B)
      → Obeys Rule past p
      → Obeys Rule past (bind p (λ a. ret (f a)))
  Obeys-bind_ret f (done past a) = done past (f a)
  Obeys-bind_ret f (next allowed rest) = next allowed (λ r. Obeys-bind_ret f (rest r))

-- Whatever the adapters reply, the request ends as `Post` says of all its events and its result.
pub data Ends {Op : Type 0} {Reply : Op → Type 0} {A : Type 0}
    (Post : List (Event Op Reply) → A → Type 0)
    : List (Event Op Reply) → Proc Op Reply A → Type 0 where
  returns : {past : List (Event Op Reply)} {a : A} → Post past a → Ends Post past (ret a)
  calls :
      {past : List (Event Op Reply)} {o : Op} {k : Reply o → Proc Op Reply A}
      → ((r : Reply o) → Ends Post ((o, r) ∷ past) (k r))
      → Ends Post past (call o k)

module _ {Op : Type 0} {Reply : Op → Type 0} where
  pub Ends-when :
      {A : Type 0} {Post : List (Event Op Reply) → A → Type 0} {past : List (Event Op Reply)}
      {b : Bool} {p q : Proc Op Reply A}
      → (b ≡ true → Ends Post past p)
      → (b ≡ false → Ends Post past q)
      → Ends Post past (when b take p otherwise q)
  unfolding when◌take◌otherwise◌
  Ends-when {b = true} h k = h refl
  Ends-when {b = false} h k = k refl

  -- The end of a use case, where an error of the last call is wrapped and returned.
  pub Ends-wrapped :
      {A B : Type 0} (Post : List (Event Op Reply) → Result B → Type 0)
      (past : List (Event Op Reply)) (w : Error → Error) (f : A → Result B) (r : Result A)
      → ((a : A) → r ≡ ok a → Post past (f a))
      → ((e : Error) → Post past (err (w e)))
      → Ends Post past (or_return (λ a. ret (f a)) (map_error w r))
  Ends-wrapped Post past w f (ok a) good bad = returns (good a refl)
  Ends-wrapped Post past w f (err e) good bad = returns (bad e)
