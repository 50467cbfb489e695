-- ===== src/Http/Catalog.antt =====
-- internal/adapters/http/catalog.go and internal/adapters/http/health.go.
use booking_concurrent.Common.{
  Bool, true, false, List, [], ◌∷◌, map, Option, none, some, if◌then◌else◌, Text, bytes, ℤ, Result,
  ok, err,
}
use booking_concurrent.Common.Dict.{Dict, insert}
use booking_concurrent.Domain.Booking.{Time}
use booking_concurrent.Domain.Movie.{Movie, Screening}
use booking_concurrent.Application.Catalog.{Stores, movies, screenings}
use booking_concurrent.Http.{Response, answer, write_booking_error}

pub record MovieResponse : Type 0 where
  pub id : Text
  pub title : Text
  pub synopsis : Text
  pub duration_minutes : ℤ
  pub created_at : Time

pub record ScreeningResponse : Type 0 where
  pub id : Text
  pub movie_id : Text
  pub starts_at : Time
  pub rows : List Text
  pub seats_per_row : ℤ
  pub price_cents : ℤ
  pub created_at : Time

abbrev pub movie_dto : Movie → MovieResponse
movie_dto m = record {
  id = m.id;
  title = m.title;
  synopsis = m.synopsis;
  duration_minutes = m.duration_minutes;
  created_at = m.created_at;
}

abbrev pub screening_dto : Screening → ScreeningResponse
screening_dto s = record {
  id = s.id;
  movie_id = s.movie_id;
  starts_at = s.starts_at;
  rows = s.rows;
  seats_per_row = s.seats_per_row;
  price_cents = s.price_cents;
  created_at = s.created_at;
}

unfoldable pub listed_movies : Result (List Movie) → Response (List MovieResponse)
listed_movies (err e) = write_booking_error e
listed_movies (ok ms) = answer 200 (map movie_dto ms)

unfoldable pub list_movies_handler : Stores → Response (List MovieResponse)
list_movies_handler s = listed_movies (movies s)

unfoldable pub listed_screenings : Result (List Screening) → Response (List ScreeningResponse)
listed_screenings (err e) = write_booking_error e
listed_screenings (ok scs) = answer 200 (map screening_dto scs)

unfoldable pub list_screenings_handler : Stores → Text → Response (List ScreeningResponse)
list_screenings_handler s movie_id = listed_screenings (screenings s movie_id)

pub record ReadyResponse : Type 0 where
  pub status : Text
  pub checks : Dict Text

-- A check is its name and its answer: the text of its error, or none.
abbrev pub Check : Type 0
Check = Text × Option Text

unfoldable pub healthz_handler : Response Text
healthz_handler = answer 200 (bytes "ok")

-- The loop of `ReadyzHandler`, from what it has so far.
unfoldable pub run_checks : Bool → Dict Text → List Check → Bool × Dict Text
run_checks ready seen [] = (ready, seen)
run_checks ready seen ((name, none) ∷ rest) = run_checks ready (insert name (bytes "ok") seen) rest
run_checks ready seen ((name, some e) ∷ rest) = run_checks false (insert name e seen) rest

unfoldable pub readyz_handler : List Check → Response ReadyResponse
readyz_handler checks =
    let (ready, seen) = run_checks true [] checks in
    if ready
    then answer 200 (record { status = bytes "ready"; checks = seen })
    else answer 503 (record { status = bytes "unavailable"; checks = seen })
