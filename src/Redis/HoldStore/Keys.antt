-- ===== src/Redis/HoldStore/Keys.antt =====
-- The names of the keys of internal/adapters/redis/holdstore.go, and the fields of a session.
use booking_concurrent.Common.{◌≡◌, some, Text, text_eq, text_discrete, bytes, arith}
use booking_concurrent.Common.Dict.{Dict, lookup, lookup-insert}
use booking_concurrent.Common.Decimal.{itoa}
use booking_concurrent.Domain.Booking.{Hold}
use booking_concurrent.Memory.SeatKey.{seat_key}
use booking_concurrent.Redis.Server.{put_all}
use booking_concurrent.Redis.HoldStore.{session_key, session_fields, seat_key_of_fields, unix}

pub session_key-eq : (a b : Text) → text_eq (session_key a) (session_key b) ≡ text_eq a b
unfolding session_key
session_key-eq a b = ground arith

-- What a reader of the six fields finds once they are written, whatever was there.
pub record IsWritten (h : Hold) (fs : Dict Text) : Type 0 where
  pub screening : lookup (bytes "screening_id") fs ≡ some h.screening_id
  pub row : lookup (bytes "row") fs ≡ some h.seat.row
  pub num : lookup (bytes "num") fs ≡ some (itoa h.seat.number)
  pub user : lookup (bytes "user_id") fs ≡ some h.user_id
  pub token : lookup (bytes "hold_token") fs ≡ some h.hold_token
  pub expires : lookup (bytes "expires_at") fs ≡ some (itoa (unix h.expires_at))

pub fields-IsWritten : (h : Hold) (m : Dict Text) → IsWritten h (put_all (session_fields h) m)
unfolding put_all session_fields text_discrete
fields-IsWritten h m = record {
  screening = simp lookup-insert;
  row = simp lookup-insert;
  num = simp lookup-insert;
  user = simp lookup-insert;
  token = simp lookup-insert;
  expires = simp lookup-insert;
}

pub seat_key_of_fields-written :
    (h : Hold) (fs : Dict Text)
    → IsWritten h fs
    → seat_key_of_fields fs ≡ some (seat_key h.screening_id h.seat)
unfolding seat_key_of_fields seat_key
seat_key_of_fields-written h fs w = ground (arith, w.screening, w.row, w.num)
