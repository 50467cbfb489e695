-- ===== src/Application/Auth/Accounts.antt =====
-- What the auth service may write: accounts, first tokens and revocations.
use booking_concurrent.Common.{
  ℕ, ◌+◌, ◌≡◌, refl, inl, inr, false, [], ◌∷◌, Text, text_eq, Result, ok, err,
}
use booking_concurrent.Common.Proc.{In, Ends, Obeys, done, next, Obeys-when}
use booking_concurrent.Domain.User.{
  User, Role, RefreshToken, validate_email, validate_password, validate_display_name,
}
use booking_concurrent.Domain.User.Emails.{IsEmail, validate_email_iff}
use booking_concurrent.Application.Auth.Sessions.{MintEnd, register-Ends_minted}
use booking_concurrent.Application.Auth.{
  Op, Events, Settings, user_create, issue_access_token, random_token, token_create, token_by_hash,
  token_revoke_family, new_uuid, hash_password, first_row, open_family, with_access, new_session,
  token_rotate, new_account, registered, enrol, named, guarded, addressed, register, close_family,
  logout,
}

-- What a registration is asked with.
pub record Form : Type 0 where
  pub email : Text
  pub password : Text
  pub display_name : Text

-- A new account has the form's address once normalized and the form's name once trimmed, is a
-- customer, and stores the hash that the hasher has made of the form's password, which is let in and
-- is not the address.
abbrev pub AccountLicence : Settings → Form → Events → User → Type 0
AccountLicence g form past u =
    In (hash_password form.password, ok u.password_hash) past
    × (validate_email g.unicode form.email ≡ ok u.email)
    × IsEmail u.email
    × (validate_password form.password ≡ ok tt)
    × (text_eq form.password u.email ≡ false)
    × (validate_display_name g.unicode form.display_name ≡ ok u.display_name)
    × (u.role ≡ Role.customer)

-- How many accounts and how many rows of tokens the request has asked for.
abbrev pub account_count : Events → ℕ
account_count [] = 0
account_count ((user_create u, r) ∷ past) = account_count past + 1
account_count (_ ∷ past) = account_count past

abbrev pub row_count : Events → ℕ
row_count [] = 0
row_count ((token_create t, r) ∷ past) = row_count past + 1
row_count (_ ∷ past) = row_count past

-- The one row that is written is for the account that the store has just created, which got an
-- access token. It has a fresh family, and stores only the hash of a token that was drawn.
abbrev pub TokenLicence : Settings → Events → RefreshToken → Type 0
TokenLicence g past t =
    (asked u : User) × (access token : Text) × In (user_create asked, ok u) past
    × In (issue_access_token u, ok access) past
    × In (random_token, ok token) past
    × In (new_uuid, t.family_id) past
    × (t.user_id ≡ u.id)
    × (t.token_hash ≡ g.hash_token token)
    × (row_count past ≡ 0)

-- Only the family of a token that was looked up is revoked.
abbrev pub RevokeLicence : Events → Text → Type 0
RevokeLicence past family_id =
    (token_hash : Text) × (row : RefreshToken) × In (token_by_hash token_hash, ok row) past
    × (family_id ≡ row.family_id)

-- A registration revokes nothing and rotates nothing, and creates one account at most.
abbrev pub MayRegister : Settings → Form → Events → Op → Type 0
MayRegister g form past (user_create u) = AccountLicence g form past u × (account_count past ≡ 0)
MayRegister g form past (token_create t) = TokenLicence g past t
MayRegister g form past (token_rotate h t) = ⊥
MayRegister g form past (token_revoke_family f) = ⊥
MayRegister g form past _ = Unit {0}

-- A logout revokes, and writes nothing else.
abbrev pub MayLogOut : Events → Op → Type 0
MayLogOut past (user_create u) = ⊥
MayLogOut past (token_create t) = ⊥
MayLogOut past (token_rotate h t) = ⊥
MayLogOut past (token_revoke_family f) = RevokeLicence past f
MayLogOut past _ = Unit {0}

new_session-Obeys :
    (g : Settings) (form : Form) (past : Events) (asked u : User)
    → In (user_create asked, ok u) past
    → row_count past ≡ 0
    → Obeys (MayRegister g form) past (new_session g u)
unfolding new_session with_access open_family
new_session-Obeys g form past asked u created none_yet = next {o = issue_access_token u} tt (elim [
  | err e ↦ done _ _
  | ok access ↦ next {o = random_token} tt (elim [
    | err e ↦ done _ _
    | ok token ↦ next tt λ t. next tt λ id. next tt λ family.
        next {o = token_create (first_row g u token t id family)}
          (
            asked,
            u,
            access,
            token,
            inr (inr (inr (inr (inr created)))),
            inr (inr (inr (inr (inl refl)))),
            inr (inr (inr (inl refl))),
            inl refl,
            refl,
            refl,
            none_yet,
          )
          (elim [ err e ↦ done _ _ | ok row ↦ done _ _ ])
  ])
])

registered-Obeys :
    (g : Settings) (form : Form) (past : Events) (asked : User) (r : Result User)
    → row_count past ≡ 0
    → Obeys (MayRegister g form) ((user_create asked, r) ∷ past) (registered g r)
unfolding registered
registered-Obeys g form past asked (err e) none_yet = done _ _
registered-Obeys g form past asked (ok u) none_yet =
    new_session-Obeys g form _ asked u (inl refl) none_yet

-- The checks of a form that passes all of them.
record IsChecked (g : Settings) (form : Form) (address name : Text) : Type 0 where
  email : validate_email g.unicode form.email ≡ ok address
  password : validate_password form.password ≡ ok tt
  differs : text_eq form.password address ≡ false
  display_name : validate_display_name g.unicode form.display_name ≡ ok name

enrol-Obeys :
    (g : Settings) (form : Form) (address name : Text) (r : Result Text)
    → IsChecked g form address name
    → Obeys
        (MayRegister g form)
        ((hash_password form.password, r) ∷ [])
        (enrol g address form.password name r)
unfolding enrol
enrol-Obeys g form address name (err e) c = done _ _
enrol-Obeys g form address name (ok hash) c =
    let shape = ((validate_email_iff g.unicode form.email address).0 c.email).1 in
    next {o = user_create (new_account address hash name)}
      ((inl refl, c.email, shape, c.password, c.differs, c.display_name, refl), refl)
      λ r. registered-Obeys g form _ _ r refl

named-Obeys :
    (g : Settings) (form : Form) (address : Text) (r : Result Text)
    → validate_display_name g.unicode form.display_name ≡ r
    → ((name : Text)
        → validate_display_name g.unicode form.display_name ≡ ok name
        → IsChecked g form address name)
    → Obeys (MayRegister g form) [] (named g address form.password r)
unfolding named
named-Obeys g form address (err e) named_so checked = done _ _
named-Obeys g form address (ok name) named_so checked =
    next tt λ r. enrol-Obeys g form address name r (checked name named_so)

guarded-Obeys :
    (g : Settings) (form : Form) (address : Text) (r : Result (Unit {0}))
    → validate_password form.password ≡ r
    → validate_email g.unicode form.email ≡ ok address
    → Obeys (MayRegister g form) [] (guarded g address form.password form.display_name r)
unfolding guarded
guarded-Obeys g form address (err e) let_in read = done _ _
guarded-Obeys g form address (ok _) let_in read =
    Obeys-when (λ _. done _ _)
      (λ differs.
        named-Obeys g form address (validate_display_name g.unicode form.display_name) refl
          (λ name e. record {
            email = read;
            password = let_in;
            differs = differs;
            display_name = e;
          }))

-- Whatever the adapters reply, `Register` asks for at most one account: a customer with the address
-- that it was given, well-formed and normalized, the name that it was given, trimmed, and the hash of
-- the password that it was given, which passes the policy and is not the address. It writes at most
-- one row of a token: the first of a fresh family, for the account that the store has created, with
-- the hash of a token that was drawn. It rotates and revokes nothing. A session that it returns has
-- its row stored, for the session's user and with the hash of its refresh token.
pub register-Obeys :
    (g : Settings) (form : Form)
    → Obeys (MayRegister g form) [] (register g form.email form.password form.display_name)
      × Ends (MintEnd g) [] (register g form.email form.password form.display_name)
unfolding register addressed
register-Obeys g form = (
  go (validate_email g.unicode form.email) refl,
  register-Ends_minted g form.email form.password form.display_name,
)
  where
    go :
        (r : Result Text)
        → validate_email g.unicode form.email ≡ r
        → Obeys (MayRegister g form) [] (addressed g form.password form.display_name r)
    go (err e) read = done _ _
    go (ok address) read = guarded-Obeys g form address (validate_password form.password) refl read

-- `Logout` revokes only the family of the token that was presented, and refuses no one whose token
-- is unknown, whatever the adapters reply.
pub logout-Obeys : (g : Settings) (presented : Text) → Obeys MayLogOut [] (logout g presented)
unfolding logout close_family
logout-Obeys g presented =
    Obeys-when (λ _. done _ _)
      λ _. next {o = token_by_hash (g.hash_token presented)} tt (elim [
        | err e ↦ Obeys-when (λ _. done _ _) (λ _. done _ _)
        | ok row ↦ next (g.hash_token presented, row, inl refl, refl) λ r. done _ _
      ])
