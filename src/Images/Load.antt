-- ===== src/Images/Load.antt =====
-- Which image a request gets, and what is kept of it (frontend/lib/image-proxy.ts, `load`).
use rank_verse.Base.{
  ℕ, suc, ◌+◌, ◌≤◌, ◌≡◌, ◌==◌, refl, ap, ◌∙◌, Bool, true, false, Option, none, some, List, [], ◌∷◌,
  if◌then◌else◌, length, arith, Option-cases, inl, inr,
}
use rank_verse.Base.Text.{Text, codes}
use rank_verse.Images.{
  Got, whole, missing, broken, fetch_upstream, Loaded, not_there, unavailable, Proxy, Upstreams,
  on_got, by_file, keep, delivered, url_of, one_if_missing, try_upstreams, load, cache_file,
}

module _ {D S : Type 0} (up : Upstreams D S) where
  -- What every mirror answers, asked one after another.
  abbrev pub answers : List Text → Text → S → List (Text × Got)
  answers [] image_path s = []
  answers (base ∷ rest) image_path s =
      let r = up.fetch (url_of up base image_path) s in
      (base, fetch_upstream r.0) ∷ answers rest image_path r.1

  abbrev pub first_whole : List (Text × Got) → Option (Text × List ℕ)
  first_whole [] = none
  first_whole ((base, whole body) ∷ rest) = some (base, body)
  first_whole ((base, missing) ∷ rest) = first_whole rest
  first_whole ((base, broken) ∷ rest) = first_whole rest

  abbrev pub all_missing : List (Text × Got) → Bool
  all_missing [] = true
  all_missing ((base, missing) ∷ rest) = all_missing rest
  all_missing ((base, whole body) ∷ rest) = false
  all_missing ((base, broken) ∷ rest) = false

  abbrev pub by_whole : Text → Bool → Option (Text × List ℕ) → Loaded
  by_whole image_path gone none = if gone then not_there else unavailable
  by_whole image_path gone (some (base, body)) = delivered up image_path body (up.host base)

  abbrev pub verdict : Text → List (Text × Got) → Loaded
  verdict image_path gots = by_whole image_path (all_missing gots) (first_whole gots)

  abbrev pub by_got : Text → Option (List ℕ) → List (Text × Got) → Loaded
  by_got image_path (some body) gots = delivered up image_path body (some (codes "cache"))
  by_got image_path none gots = verdict image_path gots

  abbrev count : List (Text × Got) → ℕ
  count [] = 0
  count ((base, got) ∷ rest) = one_if_missing up got + count rest

  count-le : (gots : List (Text × Got)) → count gots ≤ length gots
  count-le [] = omega arith
  count-le ((base, whole body) ∷ rest) = omega (arith, count-le rest)
  count-le ((base, missing) ∷ rest) = omega (arith, count-le rest)
  count-le ((base, broken) ∷ rest) = omega (arith, count-le rest)

  count-all_missing : (gots : List (Text × Got)) → (count gots == length gots) ≡ all_missing gots
  count-all_missing [] = refl
  count-all_missing ((base, whole body) ∷ rest) = ground (arith, count-le rest)
  count-all_missing ((base, missing) ∷ rest) = ground (arith, count-all_missing rest)
  count-all_missing ((base, broken) ∷ rest) = ground (arith, count-le rest)

  length-answers :
      (bases : List Text) (image_path : Text) (s : S)
      → length (answers bases image_path s) ≡ length bases
  length-answers [] image_path s = refl
  length-answers (base ∷ rest) image_path s =
      ap suc (length-answers rest image_path (up.fetch (url_of up base image_path) s).1)

  on_got-verdict :
      (base image_path : Text) (got : Got) (gots : List (Text × Got)) (absent : ℕ)
      (next : Loaded × Proxy D S) (st : Proxy D S)
      → next.0
        ≡ by_whole image_path
            (absent + one_if_missing up got + count gots == length up.bases)
            (first_whole gots)
      → (on_got up base image_path got next st).0
        ≡ by_whole image_path
            (absent + count ((base, got) ∷ gots) == length up.bases)
            (first_whole ((base, got) ∷ gots))
  on_got-verdict base image_path (whole body) gots absent next st h = refl
  on_got-verdict base image_path missing gots absent next st h =
      h
      ∙ ap (λ (n : ℕ). by_whole image_path (n == length up.bases) (first_whole gots)) (omega arith)
  on_got-verdict base image_path broken gots absent next st h =
      h
      ∙ ap (λ (n : ℕ). by_whole image_path (n == length up.bases) (first_whole gots)) (omega arith)

  -- The loop, after `absent` of the mirrors answered 404.
  try_upstreams-verdict :
      (bases : List Text) (image_path : Text) (absent : ℕ) (st : Proxy D S)
      → (try_upstreams up bases image_path absent st).0
        ≡ by_whole image_path
            (absent + count (answers bases image_path st.net) == length up.bases)
            (first_whole (answers bases image_path st.net))
  unfolding try_upstreams
  try_upstreams-verdict [] image_path absent st =
      ap (λ (n : ℕ). by_whole image_path (n == length up.bases) none) (omega arith)
  try_upstreams-verdict (base ∷ rest) image_path absent st =
      let r = up.fetch (url_of up base image_path) st.net in
      let got = fetch_upstream r.0 in
      let after = record st { net = r.1 } in
      on_got-verdict base image_path got (answers rest image_path r.1) absent
        (try_upstreams up rest image_path (absent + one_if_missing up got) after) after
        (try_upstreams-verdict rest image_path (absent + one_if_missing up got) after)

  by_file-verdict :
      (image_path : Text) (file : Option (List ℕ)) (st : Proxy D S)
      → (by_file up image_path file st).0
        ≡ by_got image_path file (answers up.bases image_path st.net)
  by_file-verdict image_path (some body) st = refl
  by_file-verdict image_path none st =
      let gots = answers up.bases image_path st.net in
      let gone : (0 + count gots == length up.bases) ≡ all_missing gots =
        ground (arith, count-all_missing gots, length-answers up.bases image_path st.net) in
      try_upstreams-verdict up.bases image_path 0 st
      ∙ ap (λ (b : Bool). by_whole image_path b (first_whole gots)) gone

  pub by_gots :
      (image_path : Text) (st : Proxy D S)
      → (load up image_path st).0
        ≡ by_got image_path
            (up.read_file (cache_file image_path) st.disk)
            (answers up.bases image_path st.net)
  unfolding load
  by_gots image_path st =
      by_file-verdict image_path (up.read_file (cache_file image_path) st.disk) st

  -- A count that keeps its bound.
  keep-le :
      (image_path : Text) (body : List ℕ) (st : Proxy D S)
      → st.cached_bytes ≤ up.max_cache_bytes
      → (keep up image_path body st).cached_bytes ≤ up.max_cache_bytes
  keep-le image_path body st h =
      elim (Option-cases (up.write_file (cache_file image_path) body st.disk)) [
        | inl e ↦ rw e (ground arith)
        | inr (d, e) ↦ rw e (ground arith)
      ]

  try_upstreams-le :
      (bases : List Text) (image_path : Text) (absent : ℕ) (st : Proxy D S)
      → st.cached_bytes ≤ up.max_cache_bytes
      → (try_upstreams up bases image_path absent st).1.cached_bytes ≤ up.max_cache_bytes
  unfolding try_upstreams
  try_upstreams-le [] image_path absent st h = h
  try_upstreams-le (base ∷ rest) image_path absent st h =
      let r = up.fetch (url_of up base image_path) st.net in
      let got = fetch_upstream r.0 in
      let after = record st { net = r.1 } in
      on_got-le base image_path got
        (try_upstreams up rest image_path (absent + one_if_missing up got) after) after h
        (try_upstreams-le rest image_path (absent + one_if_missing up got) after h)
    where
      on_got-le :
          (base image_path : Text) (got : Got) (next : Loaded × Proxy D S) (st : Proxy D S)
          → st.cached_bytes ≤ up.max_cache_bytes
          → next.1.cached_bytes ≤ up.max_cache_bytes
          → (on_got up base image_path got next st).1.cached_bytes ≤ up.max_cache_bytes
      on_got-le base image_path (whole body) next st h n = keep-le image_path body st h
      on_got-le base image_path missing next st h n = n
      on_got-le base image_path broken next st h n = n

  pub load-le :
      (image_path : Text) (st : Proxy D S)
      → st.cached_bytes ≤ up.max_cache_bytes
      → (load up image_path st).1.cached_bytes ≤ up.max_cache_bytes
  unfolding load
  load-le image_path st h = elim (Option-cases (up.read_file (cache_file image_path) st.disk)) [
    | inl e ↦ rw e (try_upstreams-le up.bases image_path 0 st h)
    | inr (body, e) ↦ rw e h
  ]
