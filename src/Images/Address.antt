-- ===== src/Images/Address.antt =====
-- frontend/lib/tmdb-image-url.ts, and `posterSrc` of frontend/lib/tournament.ts: where the browser
-- loads a poster from.
pub mod Served
use rank_verse.Base.{
  ℕ, leb, Bool, true, false, ◌==◌, ◌&&◌, not, Option, none, some, List, [], ◌∷◌, ◌++◌,
  if◌then◌else◌, length,
}
use rank_verse.Base.Text.{Text, codes, strip_end}
use rank_verse.Labels.Digits.{is_digit, decimal}
use rank_verse.Labels.Digits.Laws.{read_digits}
use rank_verse.Sitemap.Files.{after}
use rank_verse.Images.{cut, all_units}

abbrev pub tmdb_origin : Text
tmdb_origin = codes "https://image.tmdb.org/t/p/"

abbrev chosen_base : Option Text → Bool → Text
chosen_base none production = if production then codes "/tmdb-img" else []
chosen_base (some []) production = if production then codes "/tmdb-img" else []
chosen_base (some (c ∷ s)) production = c ∷ s

-- `PROXY_BASE`, by the environment's address and whether this is the production build.
unfoldable pub proxy_base : Option Text → Bool → Text
unfolding strip_end
proxy_base configured production = strip_end (λ c. c == b'/') (chosen_base configured production)

abbrev pub max_mirror_width : ℕ
max_mirror_width = 500

-- `/^w(\d+)$/` with a number up to the cap
abbrev pub is_capped : Text → Bool
is_capped [] = false
is_capped (c ∷ digits) =
    c == b'w'
    && (not (length digits == 0)
        && (all_units is_digit digits && leb (read_digits 0 digits) max_mirror_width))

unfoldable pub cap_tmdb_size : Text → Text
unfolding read_digits
cap_tmdb_size size = if is_capped size then size else codes "w" ++ decimal max_mirror_width

-- By the first slash; one at the front is none.
abbrev pub capped : Text → Option (Text × Text) → Text
capped rest none = rest
capped rest (some ([], file)) = rest
capped rest (some (c ∷ size, file)) = cap_tmdb_size (c ∷ size) ++ b'/' ∷ file

abbrev pub proxied : Text → Text → Option Text → Text
proxied base url none = url
proxied base url (some rest) = base ++ b'/' ∷ capped rest (cut b'/' rest)

-- Under a `PROXY_BASE`.
unfoldable pub proxy_tmdb_url : Text → Text → Text
unfolding cap_tmdb_size cut
proxy_tmdb_url [] url = url
proxy_tmdb_url (c ∷ base) url = proxied (c ∷ base) url (after tmdb_origin url)

-- Under a `PROXY_BASE`, with a size; an absent or empty address gives none.
unfoldable pub poster_src : Text → Option Text → Text → Option Text
unfolding proxy_tmdb_url
poster_src base none size = none
poster_src base (some []) size = none
poster_src base (some (c ∷ raw)) size =
    if c == b'/'
    then some (proxy_tmdb_url base (tmdb_origin ++ size ++ c ∷ raw))
    else some (c ∷ raw)
