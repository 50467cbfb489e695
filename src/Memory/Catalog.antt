-- ===== src/Memory/Catalog.antt =====
-- internal/adapters/memory/moviestore.go and internal/adapters/memory/screeningstore.go. A store is
-- its map; a Go range over a map may take any order, and this one takes the entries' own.
use booking_concurrent.Common.{
  ◌≡◌, refl, Bool, ◌&&◌, List, [], ◌∷◌, none, some, if◌then◌else◌, Text, text_eq, ltb, Result, ok,
  err, sentinel, movie_error, movie_not_found, arith,
}
use booking_concurrent.Common.Dict.{Dict, lookup, insert}
use booking_concurrent.Common.Sorting.{
  text_lt, text_lt-asym, sort_by, IsSorted, count, count-sort_by, sort_by-IsSorted,
}
use booking_concurrent.Domain.Movie.{Movie, Screening}

abbrev pub MovieStore : Type 0
MovieStore = Dict Movie

abbrev pub ScreeningStore : Type 0
ScreeningStore = Dict Screening

unfoldable pub add_movie : MovieStore → Movie → MovieStore
add_movie s m = insert m.id m s

unfoldable pub add_screening : ScreeningStore → Screening → ScreeningStore
add_screening s sc = insert sc.id sc s

abbrev pub values : {A : Type 0} → Dict A → List A
values [] = []
values ((_, v) ∷ m) = v ∷ values m

abbrev pub by_title : Movie → Movie → Bool
by_title a b = text_lt a.title b.title

unfoldable pub list_movies : MovieStore → List Movie
list_movies s = sort_by by_title (values s)

unfoldable pub get_movie : MovieStore → Text → Result Movie
get_movie s id = elim (lookup id s) [
  | none ↦ err (sentinel (movie_error movie_not_found))
  | some m ↦ ok m
]

abbrev pub by_start : Screening → Screening → Bool
by_start a b = ltb a.starts_at b.starts_at

-- The loop of `ListByMovie`.
unfoldable pub screenings_of : List Screening → Text → List Screening
screenings_of [] movie_id = []
screenings_of (sc ∷ scs) movie_id =
    let rest = screenings_of scs movie_id in
    if text_eq sc.movie_id movie_id then sc ∷ rest else rest

unfoldable pub list_by_movie : ScreeningStore → Text → List Screening
list_by_movie s movie_id = sort_by by_start (screenings_of (values s) movie_id)

count-screenings_of :
    (p : Screening → Bool) (scs : List Screening) (movie_id : Text)
    → count by_start p (screenings_of scs movie_id)
      ≡ count by_start (λ sc. text_eq sc.movie_id movie_id && p sc) scs
unfolding count screenings_of
count-screenings_of p [] movie_id = refl {a = 0}
count-screenings_of p (sc ∷ scs) movie_id = ground (arith, count-screenings_of p scs movie_id)

-- The list of a movie's screenings is in the order of their starts, and has of every kind of
-- screening as many as the store has for the movie.
pub list_by_movie_lem :
    (s : ScreeningStore) (movie_id : Text) (p : Screening → Bool)
    → IsSorted by_start (list_by_movie s movie_id)
      × (count by_start p (list_by_movie s movie_id)
          ≡ count by_start (λ sc. text_eq sc.movie_id movie_id && p sc) (values s))
unfolding list_by_movie
list_by_movie_lem s movie_id p = (
  sort_by-IsSorted by_start (λ x y e. ground arith) (screenings_of (values s) movie_id),
  ground (
    arith,
    count-sort_by by_start p (screenings_of (values s) movie_id),
    count-screenings_of p (values s) movie_id,
  ),
)

-- The list of the movies is in the order of their titles, and has of every kind of movie as many as
-- the store has.
pub list_movies_lem :
    (s : MovieStore) (p : Movie → Bool)
    → IsSorted by_title (list_movies s)
      × (count by_title p (list_movies s) ≡ count by_title p (values s))
unfolding list_movies
list_movies_lem s p = (
  sort_by-IsSorted by_title (λ x y e. text_lt-asym x.title y.title e) (values s),
  count-sort_by by_title p (values s),
)
