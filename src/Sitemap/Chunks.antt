-- ===== src/Sitemap/Chunks.antt =====
-- The files of the entity sitemaps (frontend/app/sitemap.xml/route.ts lists them,
-- frontend/app/sitemaps/[file]/route.ts serves them).
use rank_verse.Base.{
  ℕ, zero, suc, ◌+◌, ◌-◌, ◌*◌, ◌/◌, ◌≡◌, ◌≤◌, ◌<◌, arith, ltb, ◌∙◌, ap, some, none, get_elem?,
  if◌then◌else◌,
}
use rank_verse.Sitemap.{sitemap_chunk, chunks_of, type_files, file_name, SitemapEntityType}

-- Entity `n` is one of the rows that file `i` asks the backend for: `SITEMAP_CHUNK` of them from
-- `(i - 1) * SITEMAP_CHUNK` on.
abbrev pub IsServed : ℕ → ℕ → Type 0
IsServed i n = ((i - 1) * sitemap_chunk ≤ n) × (n < (i - 1) * sitemap_chunk + sitemap_chunk)

-- Every entity below the count is served by exactly one file number, and that file is listed.
chunks_of-IsServed :
    (count n : ℕ)
    → n < count
    → let i = n / sitemap_chunk + 1 in
      (1 ≤ i) × (i ≤ chunks_of count) × IsServed i n × ((j : ℕ) → 1 ≤ j → IsServed j n → j ≡ i)
unfolding chunks_of
chunks_of-IsServed count n h = (omega arith, omega arith, omega arith, λ j p s. omega arith)

get_elem?-type_files :
    (type : SitemapEntityType) (i n k : ℕ)
    → get_elem? (type_files type i n) k ≡ (if ltb k n then some (file_name type (i + k)) else none)
unfolding type_files
get_elem?-type_files type i zero k = ground arith
get_elem?-type_files type i (suc n) zero = let e : i + 0 ≡ i = omega arith in rw e (ground arith)
get_elem?-type_files type i (suc n) (suc k) =
    let e : i + suc k ≡ i + 1 + k = omega arith in
    rw e (get_elem?-type_files type (i + 1) n k ∙ ground arith)

lt-chunks_of : (count k : ℕ) → ltb k (chunks_of count) ≡ ltb (k * sitemap_chunk) count
unfolding chunks_of
lt-chunks_of count k = ground arith

-- The k-th file listed for a type is file `k + 1`, as long as that file has an entity to serve; from
-- there on there is none.
type_files-chunks_of :
    (type : SitemapEntityType) (count k : ℕ)
    → get_elem? (type_files type 1 (chunks_of count)) k
      ≡ (if ltb (k * sitemap_chunk) count then some (file_name type (1 + k)) else none)
type_files-chunks_of type count k =
    get_elem?-type_files type 1 (chunks_of count) k
    ∙ ap (λ b. if b then some (file_name type (1 + k)) else none) (lt-chunks_of count k)
