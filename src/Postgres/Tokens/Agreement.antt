-- ===== src/Postgres/Tokens/Agreement.antt =====
-- `RefreshTokenRepo` of internal/adapters/postgres/repos_auth.go beside the ledger of
-- internal/adapters/memory/refreshtokenstore.go.
use booking_concurrent.Common.{
  none, ◌⊎◌, Option-cases, ok, err, sentinel, user_error, refresh_token_reused, false, ◌≡◌, refl,
  sym, ◌∙◌, subst, some, List, [], ◌∷◌, ◌++◌, Text, text_eq, text_eq_refl, text_eq_iff, arith,
  Bool-cases, inl, inr, All,
}
use booking_concurrent.Common.Trip.{answered}
use booking_concurrent.Common.Dict.{Dict, lookup, insert}
use booking_concurrent.Domain.Booking.{Time}
use booking_concurrent.Domain.User.{RefreshToken, reuse_is_theft, is_expired}
use booking_concurrent.Memory.RefreshTokenStore
use booking_concurrent.Memory.RefreshTokenStore.{revoke_row, succeed}
use booking_concurrent.Postgres.Sql.{Columns}
use booking_concurrent.Postgres.Tokens
use booking_concurrent.Postgres.Tokens.{
  Faults, token_by_hash, is_taken, revoke_rows, mark_replaced, commit, punish, successor, replace,
  rotate,
}

-- The table as a map from the hash, in the order of its rows.
abbrev pub index : List RefreshToken → Dict RefreshToken
index [] = []
index (row ∷ rows) = (row.token_hash, row) ∷ index rows

-- No two rows share their id, or their hash.
abbrev pub IsKeyed : List RefreshToken → Type 0
IsKeyed [] = Unit
IsKeyed (row ∷ rows) =
    All (λ x. (text_eq x.id row.id ≡ false) × (text_eq x.token_hash row.token_hash ≡ false)) rows
    × IsKeyed rows

lookup-index : (rows : List RefreshToken) (h : Text) → lookup h (index rows) ≡ token_by_hash rows h
unfolding lookup token_by_hash
lookup-index [] h = refl
lookup-index (row ∷ rows) h = ground (arith, lookup-index rows h)

index-revoke_rows :
    (rows : List RefreshToken) (at : Time) (f : Text)
    → index (revoke_rows rows at f) ≡ RefreshTokenStore.revoke_family (index rows) at f
unfolding revoke_rows RefreshTokenStore.revoke_family revoke_row
index-revoke_rows [] at f = refl
index-revoke_rows (row ∷ rows) at f = ground (arith, index-revoke_rows rows at f)

index-append :
    (rows : List RefreshToken) (t : RefreshToken)
    → is_taken rows t.id t.token_hash ≡ false
    → insert t.token_hash t (index rows) ≡ index (rows ++ t ∷ [])
unfolding insert is_taken
index-append [] t e = refl
index-append (row ∷ rows) t e = ground (arith, index-append rows t)

All-found {ℓ} :
    (P : RefreshToken → Type ℓ) (rows : List RefreshToken) (h : Text) (old : RefreshToken)
    → token_by_hash rows h ≡ some old
    → All P rows
    → P old
unfolding token_by_hash
All-found P [] h old e p = absurd (cc)
All-found P (row ∷ rows) h old e (p, ps) = elim (Bool-cases (text_eq row.token_hash h)) [
  | inl same ↦ let is : row ≡ old = ground arith in subst P is p
  | inr other ↦ All-found P rows h old (ground arith) ps
]

mark_replaced-none :
    (rows : List RefreshToken) (row : RefreshToken) (nid : Text)
    → All (λ x. (text_eq x.id row.id ≡ false) × (text_eq x.token_hash row.token_hash ≡ false)) rows
    → mark_replaced rows row.id nid ≡ rows
unfolding mark_replaced
mark_replaced-none [] row nid p = refl
mark_replaced-none (x ∷ rows) row nid (p, ps) = ground (arith, mark_replaced-none rows row nid ps)

index-mark_replaced :
    (rows : List RefreshToken) (h : Text) (old : RefreshToken) (nid : Text)
    → IsKeyed rows
    → token_by_hash rows h ≡ some old
    → index (mark_replaced rows old.id nid)
      ≡ insert h (record old { replaced_by = nid }) (index rows)
unfolding mark_replaced insert token_by_hash
index-mark_replaced [] h old nid k e = absurd (cc)
index-mark_replaced (row ∷ rows) h old nid (fresh, k) e =
    elim (Bool-cases (text_eq row.token_hash h)) [
      | inl same ↦ ground (
        arith,
        text_eq_iff row.token_hash h,
        text_eq_refl row.id,
        mark_replaced-none rows row nid fresh,
      )
      | inr other ↦
          let found : token_by_hash rows h ≡ some old = ground arith in
          ground
            (arith, All-found _ rows h old found fresh, index-mark_replaced rows h old nid k found)
    ]

found_not_taken :
    (rows : List RefreshToken) (h id hash : Text) (old : RefreshToken)
    → token_by_hash rows h ≡ some old
    → is_taken rows id hash ≡ false
    → text_eq old.id id ≡ false
unfolding token_by_hash is_taken
found_not_taken [] h id hash old e t = absurd (cc)
found_not_taken (row ∷ rows) h id hash old e t = ground (arith, found_not_taken rows h id hash old)

mark_replaced-append :
    (rows : List RefreshToken) (t : RefreshToken) (id nid : Text)
    → text_eq t.id id ≡ false
    → mark_replaced (rows ++ t ∷ []) id nid ≡ mark_replaced rows id nid ++ t ∷ []
unfolding mark_replaced
mark_replaced-append [] t id nid e = ground arith
mark_replaced-append (row ∷ rows) t id nid e = ground (arith, mark_replaced-append rows t id nid e)

is_taken-mark_replaced :
    (rows : List RefreshToken) (id nid i h : Text)
    → is_taken (mark_replaced rows id nid) i h ≡ is_taken rows i h
unfolding is_taken mark_replaced
is_taken-mark_replaced [] id nid i h = refl
is_taken-mark_replaced (row ∷ rows) id nid i h =
    ground (arith, is_taken-mark_replaced rows id nid i h)

replaced_rows :
    (rows : List RefreshToken) (h nid : Text) (old row : RefreshToken)
    → IsKeyed rows
    → token_by_hash rows h ≡ some old
    → is_taken rows row.id row.token_hash ≡ false
    → index (mark_replaced (rows ++ row ∷ []) old.id nid)
      ≡ insert row.token_hash row (insert h (record old { replaced_by = nid }) (index rows))
replaced_rows rows h nid old row k found free =
    let apart : text_eq row.id old.id ≡ false =
      ground (arith, found_not_taken rows h row.id row.token_hash old found free) in
    rw (mark_replaced-append rows row old.id nid apart) (
      rw (← index-mark_replaced rows h old nid k found) (
        sym (
          index-append (mark_replaced rows old.id nid) row
            (is_taken-mark_replaced rows old.id nid row.id row.token_hash ∙ free))))

memory_replace :
    (rows : List RefreshToken) (h : Text) (old next : RefreshToken)
    → RefreshTokenStore.replace (index rows) h old next
      ≡ insert next.token_hash
          (succeed old next)
          (insert h (record old { replaced_by = next.id }) (index rows))
unfolding RefreshTokenStore.replace
memory_replace rows h old next = refl

abbrev pub no_faults : Faults
no_faults = record {
  at_begin = false;
  at_lock = false;
  at_revoke = false;
  at_insert = false;
  at_mark = false;
  at_commit = answered;
}

-- A token once its row is written: created at the server's time, and expiring at what the column keeps
-- of its expiry.
abbrev pub as_stored : Columns → RefreshToken → Time → RefreshToken
as_stored c t at = record t {
  expires_at = c.instant t.expires_at;
  created_at = at;
  revoked_at = none;
  replaced_by = [];
}

-- What an active token comes to.
succeed_lem :
    (c : Columns) (rows : List RefreshToken) (at : Time) (h : Text) (old next : RefreshToken)
    → IsKeyed rows
    → c.uuid next.id ≡ some next.id
    → c.parsed next.id ≡ some next.id
    → is_taken rows next.id next.token_hash ≡ false
    → token_by_hash rows h ≡ some old
    → ((Tokens.succeed c no_faults rows at old next).0 ≡ ok (succeed old (as_stored c next at)))
      × (index (Tokens.succeed c no_faults rows at old next).1
          ≡ RefreshTokenStore.replace (index rows) h old (as_stored c next at))
unfolding Tokens.succeed successor replace commit
succeed_lem c rows at h old next keyed uuid parsed free found =
    rw (uuid, Tokens.succeed, successor)
      (rw (free, replace)
        (rw (parsed, replace)
          (
            refl,
            replaced_rows rows h next.id old (succeed old (as_stored c next at)) keyed found free
                ∙ sym (memory_replace rows h old (as_stored c next at)),
          )))

-- A `Rotate` of the repository that meets no fault is a `Rotate` of the ledger in memory, on each of
-- its branches, for the successor as its row has it: created at the server's time, and expiring at
-- what the column keeps of its expiry. The answer is the same, and so are the tokens under the same
-- hashes afterwards; but the server's clock, which may differ from the process's, stamps a revocation
-- for theft. No two rows share an id or a hash, and the successor's are new; its id is a UUID in
-- canonical form.
pub rotate-refines :
    (c : Columns) (rows : List RefreshToken) (now at : Time) (h : Text) (next : RefreshToken)
    → IsKeyed rows
    → c.uuid next.id ≡ some next.id
    → c.parsed next.id ≡ some next.id
    → is_taken rows next.id next.token_hash ≡ false
    → ((rotate c no_faults rows now at h next).0
        ≡ (RefreshTokenStore.rotate (index rows) now h (as_stored c next at)).0)
      × ((index (rotate c no_faults rows now at h next).1
            ≡ (RefreshTokenStore.rotate (index rows) now h (as_stored c next at)).1)
          ⊎ (((rotate c no_faults rows now at h next).0
                ≡ err (sentinel (user_error refresh_token_reused)))
              × (index (rotate c no_faults rows now at h next).1
                  ≡ (RefreshTokenStore.rotate (index rows) at h (as_stored c next at)).1)))
unfolding rotate punish commit RefreshTokenStore.rotate
rotate-refines c rows now at h next keyed uuid parsed free =
    elim (Option-cases (token_by_hash rows h)) [
      | inl unknown ↦
          let missing = lookup-index rows h ∙ unknown in
          rw (unknown, rotate) (rw (missing, RefreshTokenStore.rotate) (refl, inl refl))
      | inr (old, found) ↦
          let there = lookup-index rows h ∙ found in
          rw (found, rotate)
            (rw (there, RefreshTokenStore.rotate)
              (elim (Bool-cases (reuse_is_theft old)) [
                | inl stolen ↦ rw stolen (refl, inr (refl, index-revoke_rows rows at old.family_id))
                | inr fine ↦ rw fine (elim (Bool-cases (is_expired old now)) [
                  | inl late ↦ rw late (refl, inl refl)
                  | inr live ↦
                      let (answer, tokens) =
                        succeed_lem c rows at h old next keyed uuid parsed free found in
                      rw live (answer, inl tokens)
                ])
              ]))
    ]
