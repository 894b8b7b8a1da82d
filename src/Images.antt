-- ===== src/Images.antt =====
-- frontend/lib/image-proxy.ts and frontend/app/tmdb-img/[...path]/route.ts: posters from the disk or
-- the first mirror that delivers. A body is a list of bytes. The network, the disk and `new URL` are
-- parameters, as are the mirrors and the most bytes to keep; `none` is what throws. A disk's file is
-- named within the cache's directory. Requests follow one another here; those that share a load are in
-- Images/Flights.
pub mod Load
pub mod Delivered
pub mod Again
pub mod Names
pub mod Address
pub mod Flights
mod Tests
use rank_verse.Base.{
  ℕ, zero, suc, ◌+◌, ◌==◌, leb, Bool, true, false, not, ◌&&◌, ◌||◌, Option, none, some, List, [],
  ◌∷◌, ◌++◌, if◌then◌else◌, length,
}
use rank_verse.Base.Text.{Text, codes, text_eq}
use rank_verse.Labels.Digits.{is_digit}
use rank_verse.Account.Retry.{is_ok}

abbrev pub all_units : (ℕ → Bool) → Text → Bool
all_units test [] = true
all_units test (c ∷ s) = test c && all_units test s

-- `[A-Za-z0-9_-]`
abbrev pub is_name_unit : ℕ → Bool
is_name_unit c =
    leb b'A' c && leb c b'Z' || leb b'a' c && leb c b'z' || is_digit c || c == b'_' || c == b'-'

abbrev pub push : ℕ → Option (Text × Text) → Option (Text × Text)
push c none = none
push c (some (before, after)) = some (c ∷ before, after)

-- What is before and after the first `mark`.
unfoldable pub cut : ℕ → Text → Option (Text × Text)
cut mark [] = none
cut mark (c ∷ s) = let rest = cut mark s in if c == mark then some ([], s) else push c rest

-- `\d{2,4}`
abbrev is_width : Text → Bool
is_width s = leb 2 (length s) && leb (length s) 4 && all_units is_digit s

abbrev pub is_size : Text → Bool
is_size [] = false
is_size (c ∷ s) = (c == b'w' || c == b'h') && is_width s || text_eq (c ∷ s) (codes "original")

abbrev is_extension : Text → Bool
is_extension s =
    text_eq s (codes "jpg")
    || text_eq s (codes "jpeg")
    || text_eq s (codes "png")
    || text_eq s (codes "webp")

abbrev pub is_file : Option (Text × Text) → Bool
is_file none = false
is_file (some (name, extension)) =
    not (length name == 0) && all_units is_name_unit name && is_extension extension

abbrev pub is_sized : Option (Text × Text) → Bool
is_sized none = false
is_sized (some (size, file)) = is_size size && is_file (cut b'.' file)

-- `IMAGE_PATH`
unfoldable pub is_image_path : Text → Bool
unfolding cut
is_image_path image_path = is_sized (cut b'/' image_path)

-- What is behind the last dot, or all there is.
unfoldable extension_of : Text → Text → Text
extension_of found [] = found
extension_of found (c ∷ s) = extension_of (if c == b'.' then s else found) s

unfoldable pub content_type_for : Text → Text
unfolding extension_of
content_type_for image_path =
    let ext = extension_of image_path image_path in
    if text_eq ext (codes "png")
    then codes "image/png"
    else if text_eq ext (codes "webp")
    then codes "image/webp"
    else codes "image/jpeg"

-- `replace`, of the first `a`
unfoldable pub replace_first : ℕ → ℕ → Text → Text
replace_first a b [] = []
replace_first a b (c ∷ s) = let rest = replace_first a b s in if c == a then b ∷ s else c ∷ rest

unfoldable pub cache_file : Text → Text
unfolding replace_first
cache_file image_path = replace_first b'/' b'_' image_path

-- A response whose body has come in; a `Content-Length` that is missing or no number is 0.
pub record Fetched : Type 0 where
  pub status : ℕ
  pub body : List ℕ
  pub content_length : ℕ

pub data Got : Type 0 where
  whole : List ℕ → Got
  missing broken : Got

-- `fetchUpstream`
unfoldable pub fetch_upstream : Option Fetched → Got
fetch_upstream none = broken
fetch_upstream (some res) =
    if res.status == 404
    then missing
    else if not (is_ok res.status)
    then broken
    else if length res.body == 0
        || not (res.content_length == 0) && not (length res.body == res.content_length)
    then broken
    else whole res.body

pub record FetchedImage : Type 0 where
  pub body : List ℕ
  pub content_type : Text
  pub source : Text

-- A rejected promise is `unavailable`, a resolved `null` is `not_there`.
pub data Loaded : Type 0 where
  image : FetchedImage → Loaded
  not_there unavailable : Loaded

pub record Proxy (D S : Type 0) : Type 0 where
  pub cached_bytes : ℕ
  pub disk : D
  pub net : S

pub record Upstreams (D S : Type 0) : Type 0 where
  pub fetch : Text → S → Option Fetched × S
  pub read_file : Text → D → Option (List ℕ)
  pub write_file : Text → List ℕ → D → Option D
  pub host : Text → Option Text
  pub bases : List Text
  pub max_cache_bytes : ℕ

module _ {D S : Type 0} (up : Upstreams D S) where
  abbrev pub stored : List ℕ → Option D → Proxy D S → Proxy D S
  stored body none st = st
  stored body (some d) st = record st { disk = d; cached_bytes = st.cached_bytes + length body }

  -- The disk after a delivery; a failed write costs only the cache.
  abbrev pub keep : Text → List ℕ → Proxy D S → Proxy D S
  keep image_path body st =
      let written = stored body (up.write_file (cache_file image_path) body st.disk) st in
      if leb (st.cached_bytes + length body) up.max_cache_bytes then written else st

  abbrev pub delivered : Text → List ℕ → Option Text → Loaded
  delivered image_path body none = unavailable
  delivered image_path body (some host) =
      image (record { body = body; content_type = content_type_for image_path; source = host })

  abbrev pub url_of : Text → Text → Text
  url_of base image_path = base ++ codes "/" ++ image_path

  abbrev pub one_if_missing : Got → ℕ
  one_if_missing missing = 1
  one_if_missing _ = 0

  abbrev pub on_got : Text → Text → Got → Loaded × Proxy D S → Proxy D S → Loaded × Proxy D S
  on_got base image_path (whole body) next st =
      (delivered image_path body (up.host base), keep image_path body st)
  on_got base image_path missing next st = next
  on_got base image_path broken next st = next

  -- The loop over the mirrors, with how many have answered 404.
  unfoldable pub try_upstreams : List Text → Text → ℕ → Proxy D S → Loaded × Proxy D S
  unfolding fetch_upstream
  try_upstreams [] image_path absent st =
      (if absent == length up.bases then not_there else unavailable, st)
  try_upstreams (base ∷ rest) image_path absent st =
      let r = up.fetch (url_of base image_path) st.net in
      let got = fetch_upstream r.0 in
      let after = record st { net = r.1 } in
      let next = try_upstreams rest image_path (absent + one_if_missing got) after in
      on_got base image_path got next after

  abbrev pub by_file : Text → Option (List ℕ) → Proxy D S → Loaded × Proxy D S
  by_file image_path none st = try_upstreams up.bases image_path 0 st
  by_file image_path (some body) st = (delivered image_path body (some (codes "cache")), st)

  unfoldable pub load : Text → Proxy D S → Loaded × Proxy D S
  unfolding try_upstreams cache_file
  load image_path st = by_file image_path (up.read_file (cache_file image_path) st.disk) st

  abbrev pub status_of : Loaded → ℕ
  status_of (image i) = 200
  status_of not_there = 404
  status_of unavailable = 502

  -- The route's `GET`: its status and the image, if any.
  unfoldable pub get_image : Text → Proxy D S → (ℕ × Loaded) × Proxy D S
  unfolding load is_image_path
  get_image image_path st =
      let r = load image_path st in
      if is_image_path image_path then ((status_of r.0, r.0), r.1) else ((404, not_there), st)

  unfoldable pub get_all : List Text → Proxy D S → Proxy D S
  unfolding get_image
  get_all [] st = st
  get_all (image_path ∷ rest) st = get_all rest (get_image image_path st).1
