-- ===== src/Images/Delivered.antt =====
-- What `load` of frontend/lib/image-proxy.ts gives, told by the statuses, lengths and bodies that the mirrors
-- send.
use rank_verse.Base.{
  ℕ, ◌≡◌, ◌==◌, leb, refl, ◌∙◌, Bool, true, false, not, ◌&&◌, ◌||◌, Option, none, some, List, [],
  ◌∷◌, ◌++◌, if◌then◌else◌, length, arith,
}
use rank_verse.Base.Text.{Text, codes}
use rank_verse.Images.{
  Fetched, Got, fetch_upstream, Loaded, image, not_there, unavailable, Proxy, Upstreams,
  content_type_for, delivered, load, cache_file,
}
use rank_verse.Images.Load.{answers, by_gots, by_got, first_whole, all_missing, by_whole}

abbrev pub is_cons : List ℕ → Bool
is_cons [] = false
is_cons (b ∷ body) = true

-- A delivery: a status from 200 to 299 and a body that is not empty and as long as was announced, if it was.
abbrev pub is_delivery : Fetched → Bool
is_delivery res =
    leb 200 res.status
    && leb res.status 299
    && is_cons res.body
    && (res.content_length == 0 || length res.body == res.content_length)

abbrev pub is_gone : Option Fetched → Bool
is_gone none = false
is_gone (some res) = res.status == 404

abbrev pub or_delivered : Text → Option Fetched → Option (Text × List ℕ) → Option (Text × List ℕ)
or_delivered base none next = next
or_delivered base (some res) next = if is_delivery res then some (base, res.body) else next

-- The body of the first that delivers, with where it is from.
abbrev pub first_delivery : List (Text × Option Fetched) → Option (Text × List ℕ)
first_delivery [] = none
first_delivery ((base, res) ∷ rest) = or_delivered base res (first_delivery rest)

abbrev pub all_gone : List (Text × Option Fetched) → Bool
all_gone [] = true
all_gone ((base, res) ∷ rest) = is_gone res && all_gone rest

-- An image with its type; no address, no image.
abbrev pub image_from : Text → List ℕ → Option Text → Loaded
image_from image_path body none = unavailable
image_from image_path body (some source) =
    image (record { body = body; content_type = content_type_for image_path; source = source })

abbrev pub or_failed : Bool → Loaded
or_failed true = not_there
or_failed false = unavailable

length-is_cons : (body : List ℕ) → (length body == 0) ≡ not (is_cons body)
length-is_cons [] = refl
length-is_cons (b ∷ body) = ground arith

module _ {D S : Type 0} (up : Upstreams D S) where
  -- What every mirror sends, asked one after another for its address, a slash and the image's path.
  abbrev pub sent : List Text → Text → S → List (Text × Option Fetched)
  sent [] image_path s = []
  sent (base ∷ rest) image_path s =
      let r = up.fetch (base ++ codes "/" ++ image_path) s in (base, r.0) ∷ sent rest image_path r.1

  abbrev pub by_mirrors : Text → Bool → Option (Text × List ℕ) → Loaded
  by_mirrors image_path gone none = or_failed gone
  by_mirrors image_path gone (some (base, body)) = image_from image_path body (up.host base)

  abbrev pub expected : Text → Option (List ℕ) → List (Text × Option Fetched) → Loaded
  expected image_path (some body) replies = image_from image_path body (some (codes "cache"))
  expected image_path none replies =
      by_mirrors image_path (all_gone replies) (first_delivery replies)

  first_whole-step :
      (base : Text) (res : Option Fetched) (gots : List (Text × Got))
      (next : Option (Text × List ℕ))
      → first_whole up gots ≡ next
      → first_whole up ((base, fetch_upstream res) ∷ gots) ≡ or_delivered base res next
  unfolding fetch_upstream
  first_whole-step base none gots next h = h
  first_whole-step base (some res) gots next h = ground (arith, h, length-is_cons res.body)

  all_missing-step :
      (base : Text) (res : Option Fetched) (gots : List (Text × Got)) (next : Bool)
      → all_missing up gots ≡ next
      → all_missing up ((base, fetch_upstream res) ∷ gots) ≡ (is_gone res && next)
  unfolding fetch_upstream
  all_missing-step base none gots next h = refl
  all_missing-step base (some res) gots next h = ground (arith, h)

  first_whole-sent :
      (bases : List Text) (image_path : Text) (s : S)
      → first_whole up (answers up bases image_path s) ≡ first_delivery (sent bases image_path s)
  first_whole-sent [] image_path s = refl
  first_whole-sent (base ∷ rest) image_path s =
      let r = up.fetch (base ++ codes "/" ++ image_path) s in
      first_whole-step base r.0 (answers up rest image_path r.1) _
        (first_whole-sent rest image_path r.1)

  all_missing-sent :
      (bases : List Text) (image_path : Text) (s : S)
      → all_missing up (answers up bases image_path s) ≡ all_gone (sent bases image_path s)
  all_missing-sent [] image_path s = refl
  all_missing-sent (base ∷ rest) image_path s =
      let r = up.fetch (base ++ codes "/" ++ image_path) s in
      all_missing-step base r.0 (answers up rest image_path r.1) _
        (all_missing-sent rest image_path r.1)

  delivered-image_from :
      (image_path : Text) (body : List ℕ) (source : Option Text)
      → delivered up image_path body source ≡ image_from image_path body source
  delivered-image_from image_path body none = refl
  delivered-image_from image_path body (some source) = refl

  by_whole-by_mirrors :
      (image_path : Text) (gone : Bool) (found : Option (Text × List ℕ))
      → by_whole up image_path gone found ≡ by_mirrors image_path gone found
  by_whole-by_mirrors image_path true none = refl
  by_whole-by_mirrors image_path false none = refl
  by_whole-by_mirrors image_path gone (some (base, body)) =
      delivered-image_from image_path body (up.host base)

  by_got-expected :
      (image_path : Text) (file : Option (List ℕ)) (s : S)
      → by_got up image_path file (answers up up.bases image_path s)
        ≡ expected image_path file (sent up.bases image_path s)
  by_got-expected image_path (some body) s = refl
  by_got-expected image_path none s =
      by_whole-by_mirrors image_path _ _
      ∙ simp (all_missing-sent up.bases image_path s, first_whole-sent up.bases image_path s)

  -- An image that is on the disk is served from it. Else it is the body of the first mirror, in their
  -- order, whose answer has a status from 200 to 299 and a body that is not empty and, where its length
  -- was announced, has that length; where none has, the image is not there if every mirror answered
  -- 404, and unavailable otherwise. From a mirror whose address has no host it is unavailable.
  pub load-expected :
      (image_path : Text) (st : Proxy D S)
      → (load up image_path st).0
        ≡ expected image_path
            (up.read_file (cache_file image_path) st.disk)
            (sent up.bases image_path st.net)
  load-expected image_path st =
      by_gots up image_path st
      ∙ by_got-expected image_path (up.read_file (cache_file image_path) st.disk) st.net
