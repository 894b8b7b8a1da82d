-- ===== src/Sitemap.antt =====
-- frontend/lib/sitemap.ts and the routes frontend/app/sitemap.xml/route.ts and
-- frontend/app/sitemaps/[file]/route.ts: XML escaping, and the files of the entity sitemaps.
pub mod Escape
pub mod Chunks
pub mod Files
mod Tests
use rank_verse.Base.{
  ℕ, zero, suc, ◌+◌, ◌-◌, ◌*◌, ◌/◌, Bool, true, false, Option, none, some, List, [], ◌∷◌, ◌++◌,
  ◌==◌, ltb, map, length, if◌then◌else◌,
}
use rank_verse.Base.Text.{Text, codes, text_eq, join}
use rank_verse.Labels.Digits.{decimal, is_digit}

-- `s.replace(/c/g, by)`
unfoldable pub replace_all : ℕ → Text → Text → Text
replace_all c by [] = []
replace_all c by (d ∷ s) = let rest = replace_all c by s in if d == c then by ++ rest else d ∷ rest

unfoldable pub xml_escape : Text → Text
unfolding replace_all
xml_escape s = replace_all b'\'' (codes "&apos;") (
    replace_all b'"' (codes "&quot;") (
      replace_all b'>' (codes "&gt;")
        (replace_all b'<' (codes "&lt;") (replace_all b'&' (codes "&amp;") s))))

abbrev pub sitemap_chunk : ℕ
sitemap_chunk = 10000

-- `SitemapEntityType`, in the order of `SITEMAP_ENTITY_ROUTE`
pub data SitemapEntityType : Type 0 where
  movie tv_series genre person : SitemapEntityType

abbrev pub type_name : SitemapEntityType → Text
type_name movie = codes "movie"
type_name tv_series = codes "tv_series"
type_name genre = codes "genre"
type_name person = codes "person"

pub record Route : Type 0 where
  pub base : Text
  pub priority : Text
  pub changefreq : Text

abbrev pub route_of : SitemapEntityType → Route
route_of movie = record {
  base = codes "/movies";
  priority = codes "0.8";
  changefreq = codes "weekly";
}
route_of tv_series = record {
  base = codes "/tv-series";
  priority = codes "0.8";
  changefreq = codes "weekly";
}
route_of genre = record {
  base = codes "/genre";
  priority = codes "0.6";
  changefreq = codes "weekly";
}
route_of person = record {
  base = codes "/person";
  priority = codes "0.5";
  changefreq = codes "monthly";
}

-- `Math.ceil(count / SITEMAP_CHUNK)`
unfoldable pub chunks_of : ℕ → ℕ
chunks_of count = (count + sitemap_chunk - 1) / sitemap_chunk

abbrev pub file_name : SitemapEntityType → ℕ → Text
file_name type i = type_name type ++ codes "-" ++ decimal i ++ codes ".xml"

-- `for (let i = 1; i <= chunks; i++)`, from `i` on with its rounds counted.
unfoldable pub type_files : SitemapEntityType → ℕ → ℕ → List Text
type_files type i zero = []
type_files type i (suc n) = file_name type i ∷ type_files type (i + 1) n

-- The index's files; `none` where the counts could not be read.
unfoldable pub index_files : Option (SitemapEntityType → ℕ) → List Text
unfolding type_files chunks_of
index_files none = codes "static.xml" ∷ codes "lists.xml" ∷ codes "battles.xml" ∷ []
index_files (some counts) =
    codes "static.xml"
    ∷ codes "lists.xml"
    ∷ codes "battles.xml"
    ∷ (type_files movie 1 (chunks_of (counts movie))
        ++ type_files tv_series 1 (chunks_of (counts tv_series))
        ++ type_files genre 1 (chunks_of (counts genre))
        ++ type_files person 1 (chunks_of (counts person)))
