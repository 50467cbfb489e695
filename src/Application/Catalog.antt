-- ===== src/Application/Catalog.antt =====
-- internal/application/catalog/catalog.go, over the answers of its two ports.
use booking_concurrent.Common.{List, Text, bytes, Result, ok, err, wrap}
use booking_concurrent.Domain.Movie.{Movie, Screening}

-- `MovieStore` and `ScreeningLister`
pub record Stores : Type 0 where
  pub list : Result (List Movie)
  pub get : Text → Result Movie
  pub list_by_movie : Text → Result (List Screening)

unfoldable pub movies : Stores → Result (List Movie)
movies s = elim s.list [ err e ↦ err (wrap (bytes "catalog: list movies: %w") e) | ok ms ↦ ok ms ]

unfoldable pub screenings : Stores → Text → Result (List Screening)
screenings s movie_id = elim (s.get movie_id) [
  | err e ↦ err e
  | ok _ ↦ elim (s.list_by_movie movie_id) [
    | err e ↦ err (wrap (bytes "catalog: list screenings: %w") e)
    | ok scs ↦ ok scs
  ]
]
