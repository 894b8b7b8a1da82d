-- ===== src/Images/Tests.antt =====
-- Images at concrete inputs. The first mirror answers 404, the second delivers three bytes.
use rank_verse.Base.{
  ◌<◌, ℕ, ◌+◌, ◌≡◌, refl, true, Option, none, some, List, [], ◌∷◌, arith, if◌then◌else◌,
}
use rank_verse.Base.Text.{Text, codes, text_eq}
use rank_verse.Images.Flights
use rank_verse.Images.Flights.{Event, ask, settled, no_flights}
use rank_verse.Images.Flights.Laws.{Distinct, waiting, answers_to, asked, run-Distinct}
use rank_verse.Images.{Fetched, Proxy, Upstreams, load, get_image, is_image_path}
use rank_verse.Images.Delivered.{sent, expected, load-expected}
use rank_verse.Images.Again.{ReadsBack}
use rank_verse.Images.Address.{poster_src}

abbrev poster : Text
poster = codes "w300/a_b.jpg"

abbrev serve : Text → ℕ → Option Fetched × ℕ
serve url n =
    if text_eq url (codes "one/w300/a_b.jpg")
    then (some (record { status = 404; body = []; content_length = 0 }), n + 1)
    else (some (record { status = 200; body = 1 ∷ 2 ∷ 3 ∷ []; content_length = 3 }), n + 1)

-- A disk that holds one file.
abbrev read_one : Text → Option (List ℕ) → Option (List ℕ)
read_one name disk = disk

abbrev up : Upstreams (Option (List ℕ)) ℕ
up = record {
  fetch = serve;
  read_file = read_one;
  write_file = λ name body disk. some (some body);
  host = λ base. some base;
  bases = codes "one" ∷ codes "two" ∷ [];
  max_cache_bytes = 5;
}

abbrev fresh : Proxy (Option (List ℕ)) ℕ
fresh = record { cached_bytes = 0; disk = none; net = 0 }

second_mirror : (get_image up poster fresh).0.0 ≡ 200
unfolding get_image
second_mirror = refl

load-expected_example :
    (load up poster fresh).0
    ≡ expected up poster none (sent up (codes "one" ∷ codes "two" ∷ []) poster 0)
load-expected_example = load-expected up poster fresh

up-ReadsBack : ReadsBack up
up-ReadsBack name body before after e = cc

grown : fresh.cached_bytes < (load up poster fresh).1.cached_bytes
unfolding load
grown = omega arith

poster_valid : is_image_path poster ≡ true
unfolding is_image_path
poster_valid = refl

a_poster :
    poster_src (codes "/tmdb-img") (some (codes "/a.jpg")) (codes "w342")
    ≡ some (codes "/tmdb-img/w342/a.jpg")
unfolding poster_src rank_verse.Labels.Digits.Laws.read_digits
a_poster = refl

abbrev some_calls : List (Event ℕ)
some_calls =
    ask 1 poster ∷ ask 2 (codes "w300/c.png") ∷ ask 1 poster ∷ settled 0 7 ∷ ask 3 poster ∷ []

run-Distinct_example :
    Distinct (Flights.run some_calls no_flights).in_flight
    × (waiting 1 (Flights.run some_calls no_flights).in_flight
          + answers_to 1 (Flights.run some_calls no_flights).answered
        ≡ asked 1 some_calls)
run-Distinct_example = run-Distinct 1 some_calls

shared_load : (Flights.run some_calls no_flights).answered ≡ (1, 7) ∷ (1, 7) ∷ []
unfolding Flights.run
shared_load = refl
