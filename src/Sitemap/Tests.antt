-- ===== src/Sitemap/Tests.antt =====
-- The sitemaps at concrete inputs.
use rank_verse.Base.{false}
use rank_verse.Base.{none, List, [], ◌∷◌, ◌*◌, ℕ, ◌+◌, ◌≡◌, some, All}
use rank_verse.Base.Text.{codes}
use rank_verse.Sitemap.{xml_escape, sitemap_chunk, movie, file_name}
use rank_verse.Sitemap.Escape.{unescape, unescape-xml_escape, IsPlain, xml_escape-IsPlain}
use rank_verse.Api.Client.{Net, arrived, World}
use rank_verse.Api.Titles.{get_entity_sitemap_page}
use rank_verse.Sitemap.Files.{Row, Reply, get_file}
use rank_verse.Sitemap.Files.Served.{AnswersPage, get_file-file_name}

unescape-xml_escape_example : unescape 5 (xml_escape (codes "a&\"<'")) ≡ some (codes "a&\"<'")
unescape-xml_escape_example = unescape-xml_escape (codes "a&\"<'")

xml_escape-IsPlain_example : All IsPlain (xml_escape (codes "a&\"<'"))
xml_escape-IsPlain_example = xml_escape-IsPlain (codes "a&\"<'")

-- A backend whose every answer has one row; a JSON value is its number of rows.
abbrev one_row : Net ℕ ℕ
one_row = record {
  in_browser = false;
  fetch = λ r n. (none, n);
  fetch_timed = λ r n. (arrived (record { status = 200; body = some 1 }), n + 1);
  refresh = λ stored n. (none, n);
  query = λ q. [];
  encode = λ s. s;
  decode = λ s. some s;
  normalize = λ s. s;
  error = λ j. none;
  contents = λ j. j;
  total = λ j. none;
  detail = λ j. none;
  detail_string = λ j. none;
  detail_fields = λ j. [];
  field = λ k j. j;
  size = λ j. j;
}

abbrev rows_of : ℕ → List Row
rows_of n = record { slug = codes "heat"; updated_at = none } ∷ []

abbrev at_rest : World ℕ
at_rest = record {
  tab = record { access = none; refresh = none; refreshed = 0; ended_sessions = 0 };
  server = 0;
}

get_file-file_name_example :
    (let r =
        get_entity_sitemap_page one_row (codes "movie") (1 * sitemap_chunk) sitemap_chunk at_rest in
      let reply =
        get_file one_row (codes "https://x.y") (λ s. s) rows_of (file_name movie 2) at_rest in
      AnswersPage one_row (codes "https://x.y") (λ s. s) rows_of movie r.0 reply.0
      × (reply.1 ≡ r.1))
    × (get_file one_row (codes "https://x.y") (λ s. s) rows_of (file_name movie 0) at_rest
        ≡ (Reply.not_found, at_rest))
get_file-file_name_example =
    get_file-file_name one_row (codes "https://x.y") (λ s. s) rows_of movie 1 at_rest
