-- ===== src/Tests/Services.antt =====
-- The services, the gateway, the seat keys and the grids, at one request.
use booking_concurrent.Common.{
  ℕ, ◌+◌, ◌*◌, ◌≤◌, ◌<◌, ◌≡◌, ◌≢◌, ◌↔◌, refl, Bool, true, false, none, some, [], ◌∷◌, Text, bytes,
  ok, err, sentinel, payment_error, webhook_invalid, arith, pos, length, All, ℤ,
}
use booking_concurrent.Common.Proc.{Obeys}
use booking_concurrent.Common.Decimal.{IsInt64}
use booking_concurrent.Domain.Booking.{Seat, new_seat}
use booking_concurrent.Domain.Booking.Seats.{IsSeat}
use booking_concurrent.Memory.SeatKey.{seat_key, parse_seat_key}
use booking_concurrent.Memory.SeatKey.Codec.{parse_seat_key-seat_key}
use booking_concurrent.Application.Booking.{confirm}
use booking_concurrent.Application.Payment.{create_intent, confirm_by_client, handle_webhook}
use booking_concurrent.Application.Licence.{Licensed}
use booking_concurrent.Application.Licence.Sales.{confirm-Obeys}
use booking_concurrent.Application.Licence.Charges.{
  create_intent-Obeys, confirm_by_client-Obeys, handle_webhook-Obeys,
}
use booking_concurrent.Gateway.{verify_webhook, sign_webhook, unix_epoch, parse_signature_header}
use booking_concurrent.Gateway.Webhook.{
  Authentic, verify_webhook-Authentic, verify_webhook-sign_webhook,
}
use booking_concurrent.Tests.Fixtures.{
  alice, session, seat_a1, codec, gateway, captured_event, plain,
}

confirm-Obeys_example : Obeys (Licensed alice) [] (confirm alice session)
confirm-Obeys_example = confirm-Obeys alice session

create_intent-Obeys_example : Obeys (Licensed alice) [] (create_intent alice session)
create_intent-Obeys_example = create_intent-Obeys alice session

confirm_by_client-Obeys_example : Obeys (Licensed alice) [] (confirm_by_client alice session)
confirm_by_client-Obeys_example = confirm_by_client-Obeys alice session

handle_webhook-Obeys_example :
    Obeys (Licensed []) [] (handle_webhook (bytes "event") (bytes "t=1,v1=6d6163"))
handle_webhook-Obeys_example = handle_webhook-Obeys [] (bytes "event") (bytes "t=1,v1=6d6163")

accepted :
    verify_webhook codec gateway unix_epoch (bytes "event") (bytes "t=5,v1=6d6163")
    ≡ ok captured_event
unfolding verify_webhook parse_signature_header booking_concurrent.Common.Strings.split
    booking_concurrent.Common.Strings.cut booking_concurrent.Common.text_discrete
    booking_concurrent.Common.Decimal.parse_int booking_concurrent.Common.Decimal.digits_value
    booking_concurrent.Common.Strings.hex_decode booking_concurrent.Common.Strings.hex_value
accepted = refl

verify_webhook-Authentic_example :
    (t : Text) × (v1 : Text) × (parse_signature_header (bytes "t=5,v1=6d6163") ≡ some (t, v1))
    × Authentic codec gateway unix_epoch (bytes "event") t v1 captured_event
verify_webhook-Authentic_example =
    verify_webhook-Authentic codec gateway unix_epoch (bytes "event") (bytes "t=5,v1=6d6163")
      captured_event accepted

verify_webhook-sign_webhook_example :
    verify_webhook codec gateway unix_epoch
      (sign_webhook codec gateway captured_event (pos 5)).0
      (sign_webhook codec gateway captured_event (pos 5)).1
    ≡ ok captured_event
verify_webhook-sign_webhook_example =
    verify_webhook-sign_webhook codec gateway captured_event unix_epoch 5 (omega arith)
      (omega arith) (omega arith) (λ e. cc) refl
      (λ k s. ((λ e. cc), (omega arith, (omega arith, (omega arith, tt)))))

seat_a1-IsSeat : IsSeat seat_a1
unfolding booking_concurrent.Domain.Booking.all_letters
seat_a1-IsSeat = record {
  letters = refl;
  some_letter = λ e. cc;
  at_most_three = omega arith;
  counted = refl;
}

parse_seat_key-seat_key_example :
    parse_seat_key plain (bytes "hall") (seat_key (bytes "hall") seat_a1) ≡ some seat_a1
parse_seat_key-seat_key_example =
    parse_seat_key-seat_key plain (bytes "hall") seat_a1 seat_a1-IsSeat (omega arith)
