-- ===== src/Tests/Stores.antt =====
-- The stores, at one seat, one session and two payments.
use booking_concurrent.Common.{
  ◌≤◌, ◌≡◌, ◌≢◌, refl, none, some, [], ◌∷◌, Text, bytes, text_discrete, ok, arith, pos,
}
use booking_concurrent.Common.Dict.{lookup}
use booking_concurrent.Domain.Payment.{Payment, intent}
use booking_concurrent.Domain.User.{RefreshToken}
use booking_concurrent.Memory.PaymentStore.Money.{
  inserts, captures, fails, charge_count, charge_count-le-one,
}
use booking_concurrent.Memory.RefreshTokenStore
use booking_concurrent.Memory.RefreshTokenStore.{RefreshTokenStore, rotate}
use booking_concurrent.Memory.RefreshTokenStore.Families.{IsClosed}
use booking_concurrent.Memory.RefreshTokenStore.Rotations
use booking_concurrent.Memory.RefreshTokenStore.Rotations.{
  Call, rotates, revokes, creates, mint_count,
}
use booking_concurrent.Tests.Fixtures.{session, alice}

abbrev open_payment : Payment
open_payment = record {
  id = bytes "p";
  booking_session_id = session;
  gateway = bytes "fake";
  intent_id = bytes "pi";
  status = intent;
  amount_cents = pos 1200;
  currency = bytes "usd";
  created_at = 0;
  updated_at = 0;
}

charge_count-le-one_example :
    charge_count (bytes "pi") [] (
      inserts 1 (bytes "p") open_payment
      ∷ captures 2 (bytes "pi")
      ∷ captures 3 (bytes "pi")
      ∷ fails 4 (bytes "pi")
      ∷ [])
    ≤ 1
charge_count-le-one_example = charge_count-le-one (bytes "pi") [] (
    inserts 1 (bytes "p") open_payment
    ∷ captures 2 (bytes "pi")
    ∷ captures 3 (bytes "pi")
    ∷ fails 4 (bytes "pi")
    ∷ [])

abbrev token : Text → Text → Text → RefreshToken
token id hash replaced_by = record {
  id = id;
  user_id = alice;
  family_id = bytes "f";
  token_hash = hash;
  expires_at = 2000;
  created_at = 0;
  revoked_at = none;
  replaced_by = replaced_by;
}

abbrev ledger : RefreshTokenStore
ledger = (bytes "h", token (bytes "t") (bytes "h") []) ∷ []

mint_count-le-one_example :
    mint_count (bytes "h") ledger (
      rotates 1000 (bytes "h") (token (bytes "t2") (bytes "h2") [])
      ∷ rotates 1000 (bytes "h") (token (bytes "t3") (bytes "h3") [])
      ∷ [])
    ≤ 1
unfolding text_discrete
mint_count-le-one_example =
    Rotations.mint_count-le-one (bytes "h") ledger
      (rotates 1000 (bytes "h") (token (bytes "t2") (bytes "h2") [])
        ∷ rotates 1000 (bytes "h") (token (bytes "t3") (bytes "h3") [])
        ∷ [])
      ((refl, refl), ((refl, refl), tt))

abbrev other_token : RefreshToken
other_token = record {
  id = bytes "o";
  user_id = alice;
  family_id = bytes "g";
  token_hash = bytes "k";
  expires_at = 2000;
  created_at = 0;
  revoked_at = none;
  replaced_by = [];
}

abbrev half_closed : RefreshTokenStore
half_closed =
    (bytes "h", record (token (bytes "t") (bytes "h") []) { revoked_at = some 900 })
    ∷ (bytes "k", other_token)
    ∷ []

half_closed-IsClosed : IsClosed (bytes "f") half_closed
unfolding lookup
half_closed-IsClosed a p e same = ground arith

rotated_other :
    (rotate
      (Rotations.run half_closed (revokes 950 (bytes "f") ∷ []))
      1000
      (bytes "k")
      (token (bytes "t2") (bytes "h2") [])).0
    ≡ ok (RefreshTokenStore.succeed other_token (token (bytes "t2") (bytes "h2") []))
unfolding rotate lookup Rotations.run Rotations.apply RefreshTokenStore.revoke_family text_discrete
    RefreshTokenStore.revoke_row
rotated_other = refl

closed_for_good_example : bytes "g" ≢ bytes "f"
closed_for_good_example =
    Rotations.closed_for_good (bytes "f") half_closed (revokes 950 (bytes "f") ∷ []) 1000
      (bytes "k") (token (bytes "t2") (bytes "h2") [])
      (RefreshTokenStore.succeed other_token (token (bytes "t2") (bytes "h2") [])) (tt, tt)
      half_closed-IsClosed rotated_other
