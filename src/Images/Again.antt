-- ===== src/Images/Again.antt =====
-- What is kept of the images that were delivered (frontend/lib/image-proxy.ts).
use rank_verse.Images.Load.{load-le}
use rank_verse.Base.{if◌then◌else◌, ap}
use rank_verse.Base.{
  ℕ, ◌+◌, ◌≤◌, ◌<◌, ◌≡◌, leb, refl, Bool, true, false, Option, none, some, List, [], ◌∷◌, length,
  arith, Bool-cases, inl, inr,
}
use rank_verse.Base.Text.{Text, codes}
use rank_verse.Images.{
  Got, whole, missing, broken, fetch_upstream, Loaded, Proxy, Upstreams, on_got, by_file, get_image,
  get_all, is_image_path, stored, keep, delivered, url_of, one_if_missing, try_upstreams, load,
  cache_file,
}

module _ {D S : Type 0} (up : Upstreams D S) where
  get_image-le :
      (image_path : Text) (st : Proxy D S)
      → st.cached_bytes ≤ up.max_cache_bytes
      → (get_image up image_path st).1.cached_bytes ≤ up.max_cache_bytes
  unfolding get_image
  get_image-le image_path st h = elim (Bool-cases (is_image_path image_path)) [
    | inl e ↦ rw e (load-le up image_path st h)
    | inr e ↦ rw e h
  ]

  -- Whatever images are asked for, and whatever the mirrors and the disk do, the bytes written to the
  -- disk stay within their bound.
  get_all-le :
      (paths : List Text) (st : Proxy D S)
      → st.cached_bytes ≤ up.max_cache_bytes
      → (get_all up paths st).cached_bytes ≤ up.max_cache_bytes
  unfolding get_all
  get_all-le [] st h = h
  get_all-le (image_path ∷ rest) st h =
      get_all-le rest (get_image up image_path st).1 (get_image-le image_path st h)

  -- A file that was written reads as it was written.
  abbrev pub ReadsBack : Type 0
  ReadsBack =
      (name : Text) (body : List ℕ) (before after : D)
      → up.write_file name body before ≡ some after
      → up.read_file name after ≡ some body

  -- The body of a mirror was delivered and is on the disk.
  abbrev pub IsKept : Text → Loaded × Proxy D S → Type 0
  IsKept image_path r =
      (base : Text) × (body : List ℕ) × (r.0 ≡ delivered up image_path body (up.host base))
      × (up.read_file (cache_file image_path) r.1.disk ≡ some body)

  keep-reads :
      (image_path : Text) (body : List ℕ) (st : Proxy D S)
      → ReadsBack
      → st.cached_bytes < (keep up image_path body st).cached_bytes
      → up.read_file (cache_file image_path) (keep up image_path body st).disk ≡ some body
  keep-reads image_path body st law h =
      go (up.write_file (cache_file image_path) body st.disk) refl
        (leb (st.cached_bytes + length body) up.max_cache_bytes) h
    where
      go :
          (o : Option D)
          → up.write_file (cache_file image_path) body st.disk ≡ o
          → (room : Bool)
          → st.cached_bytes < (if room then stored up body o st else st).cached_bytes
          → up.read_file (cache_file image_path) (if room then stored up body o st else st).disk
            ≡ some body
      go o e false h = absurd (omega arith)
      go none e true h = absurd (omega arith)
      go (some d) e true h = law _ body st.disk d e

  tries :
      (bases : List Text) (image_path : Text) (absent : ℕ) (st : Proxy D S)
      → ReadsBack
      → st.cached_bytes < (try_upstreams up bases image_path absent st).1.cached_bytes
      → IsKept image_path (try_upstreams up bases image_path absent st)
  unfolding try_upstreams
  tries [] image_path absent st law h = absurd (omega arith)
  tries (base ∷ rest) image_path absent st law h =
      let r = up.fetch (url_of up base image_path) st.net in
      let got = fetch_upstream r.0 in
      let after = record st { net = r.1 } in
      on_got-IsKept got (try_upstreams up rest image_path (absent + one_if_missing up got) after)
        after (tries rest image_path (absent + one_if_missing up got) after law) h
    where
      on_got-IsKept :
          (got : Got) (next : Loaded × Proxy D S) (st : Proxy D S)
          → (st.cached_bytes < next.1.cached_bytes → IsKept image_path next)
          → st.cached_bytes < (on_got up base image_path got next st).1.cached_bytes
          → IsKept image_path (on_got up base image_path got next st)
      on_got-IsKept (whole body) next st n h =
          (base, body, refl, keep-reads image_path body st law h)
      on_got-IsKept missing next st n h = n h
      on_got-IsKept broken next st n h = n h

  load-IsKept :
      (image_path : Text) (st : Proxy D S) (file : Option (List ℕ))
      → ReadsBack
      → st.cached_bytes < (by_file up image_path file st).1.cached_bytes
      → IsKept image_path (by_file up image_path file st)
  load-IsKept image_path st none law h = tries up.bases image_path 0 st law h
  load-IsKept image_path st (some body) law h = absurd (omega arith)

  -- On a disk that reads back what it wrote: an image that was written to the disk when it was
  -- delivered is served from there, with the same body, the next time, and nothing is asked or changed.
  load-again :
      (image_path : Text) (st : Proxy D S)
      → ReadsBack
      → st.cached_bytes < (load up image_path st).1.cached_bytes
      → (base : Text) × (body : List ℕ) × ((load up image_path st).0
          ≡ delivered up image_path body (up.host base))
        × (load up image_path (load up image_path st).1
            ≡ (delivered up image_path body (some (codes "cache")), (load up image_path st).1))
  unfolding load
  load-again image_path st law h =
      let (base, body, e, f) =
        load-IsKept image_path st (up.read_file (cache_file image_path) st.disk) law h in
      (base, body, e, ap (λ o. by_file up image_path o (load up image_path st).1) f)
