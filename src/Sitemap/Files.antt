-- ===== src/Sitemap/Files.antt =====
-- frontend/app/sitemaps/[file]/route.ts: which sitemap a file name asks for, and the answer.
-- `toISOString` of a timestamp, the site's address and the rows of a JSON value are parameters.
pub mod Served
use rank_verse.Base.{
  ℕ, zero, suc, ◌+◌, ◌-◌, ◌*◌, Bool, true, false, Option, none, some, List, [], ◌∷◌, ◌++◌, map,
  if◌then◌else◌, ltb, ◌==◌,
}
use rank_verse.Base.Text.{Text, codes, text_eq, join, split_on}
use rank_verse.Labels.Digits.{is_digit}
use rank_verse.Labels.Digits.Laws.{read_digits}
use rank_verse.Sitemap.{
  SitemapEntityType, movie, tv_series, person, genre, type_name, sitemap_chunk, route_of,
  xml_escape,
}
use rank_verse.Api.Client.{Net, Client, World, Result, ok, err, settle, encode_list_slug}
use rank_verse.Api.Titles.{get_lists_sitemap, get_battles_sitemap, get_entity_sitemap_page}

-- What follows a prefix.
abbrev pub after : Text → Text → Option Text
after [] s = some s
after (p ∷ ps) [] = none
after (p ∷ ps) (c ∷ s) = let rest = after ps s in if p == c then rest else none

-- The digits in front, and the rest.
abbrev pub digits : Text → Text × Text
digits [] = ([], [])
digits (c ∷ s) = let r = digits s in if is_digit c then (c ∷ r.0, r.1) else ([], c ∷ s)

abbrev pub ended : Text → Text → Option ℕ
ended [] rest = none
ended (d ∷ ds) rest = if text_eq rest (codes ".xml") then some (read_digits 0 (d ∷ ds)) else none

-- `(\d+)\.xml`
abbrev pub numbered : Option Text → Option ℕ
numbered none = none
numbered (some s) = ended (digits s).0 (digits s).1

abbrev pub typed : SitemapEntityType → Option ℕ → Option (SitemapEntityType × ℕ)
typed type none = none
typed type (some n) = some (type, n)

abbrev or_next :
    Option (SitemapEntityType × ℕ) → Option (SitemapEntityType × ℕ) → Option (SitemapEntityType × ℕ)
or_next none b = b
or_next (some a) b = some a

abbrev pub of_type : SitemapEntityType → Text → Option (SitemapEntityType × ℕ)
of_type type file = typed type (numbered (after (type_name type ++ codes "-") file))

-- `ENTITY_FILE`
unfoldable pub entity_file : Text → Option (SitemapEntityType × ℕ)
entity_file file =
    or_next (of_type movie file)
      (or_next (of_type tv_series file) (or_next (of_type person file) (of_type genre file)))

-- A URL's entry; `none` is a field that is absent.
pub record Url : Type 0 where
  pub loc : Text
  pub lastmod : Option Text
  pub changefreq : Text
  pub priority : Text

pub record Row : Type 0 where
  pub slug : Text
  pub updated_at : Option Text

pub data Reply : Type 0 where
  xml : Text → Reply
  not_found unavailable : Reply

abbrev static : Text → Text → Text → Url
static path changefreq priority = record {
  loc = path;
  lastmod = none;
  changefreq = changefreq;
  priority = priority;
}

abbrev pub static_routes : List Url
static_routes =
    static (codes "/") (codes "daily") (codes "1.0")
    ∷ static (codes "/rankings") (codes "daily") (codes "0.9")
    ∷ static (codes "/rankings?type=tv_series") (codes "daily") (codes "0.9")
    ∷ static (codes "/lists") (codes "daily") (codes "0.8")
    ∷ static (codes "/battles") (codes "weekly") (codes "0.6")
    ∷ static (codes "/people") (codes "weekly") (codes "0.6")
    ∷ static (codes "/contact") (codes "yearly") (codes "0.3")
    ∷ static (codes "/about") (codes "yearly") (codes "0.3")
    ∷ static (codes "/privacy") (codes "yearly") (codes "0.2")
    ∷ static (codes "/terms") (codes "yearly") (codes "0.2")
    ∷ []

module _ {S J : Type 0} (net : Net S J) (site_url : Text) (iso : Text → Text)
    (rows_of : J → List Row) where
  abbrev pub absolute_url : Text → Text
  absolute_url path = elim path [
    | [] ↦ site_url ++ codes "/"
    | c ∷ s ↦ site_url ++ (if c == b'/' then c ∷ s else b'/' ∷ c ∷ s)
  ]

  abbrev pub encode_path : Text → Text
  encode_path path = join (codes "/") (map net.encode (split_on b'/' [] path))

  abbrev lastmod_tag : Option Text → Text
  lastmod_tag none = []
  lastmod_tag (some []) = []
  lastmod_tag (some (c ∷ s)) = codes "<lastmod>" ++ xml_escape (iso (c ∷ s)) ++ codes "</lastmod>"

  -- Every entry of this file has a frequency and a priority.
  unfoldable pub url_row : Url → Text
  url_row e =
      codes "<url><loc>"
      ++ xml_escape e.loc
      ++ codes "</loc>"
      ++ lastmod_tag e.lastmod
      ++ codes "<changefreq>"
      ++ e.changefreq
      ++ codes "</changefreq>"
      ++ codes "<priority>"
      ++ e.priority
      ++ codes "</priority>"
      ++ codes "</url>"

  unfoldable pub urlset : List Url → Text
  unfolding url_row
  urlset entries =
      codes
        "<?xml version=\"1.0\" encoding=\"UTF-8\"?>\n<urlset xmlns=\"http://www.sitemaps.org/schemas/sitemap/0.9\">\n"
      ++ join (codes "\n") (map url_row entries)
      ++ codes "\n</urlset>\n"

  abbrev list_url : Row → Url
  list_url l = record {
    loc = absolute_url (codes "/lists/" ++ encode_list_slug net l.slug);
    lastmod = l.updated_at;
    changefreq = codes "weekly";
    priority = codes "0.7";
  }

  abbrev battle_url : Row → Url
  battle_url b = record {
    loc = absolute_url (codes "/battles/" ++ b.slug);
    lastmod = b.updated_at;
    changefreq = codes "daily";
    priority = codes "0.5";
  }

  abbrev entity_url : SitemapEntityType → Row → Url
  entity_url type r = record {
    loc = absolute_url (encode_path ((route_of type).base ++ codes "/" ++ r.slug));
    lastmod = r.updated_at;
    changefreq = (route_of type).changefreq;
    priority = (route_of type).priority;
  }

  -- `.catch(() => [])`
  abbrev or_no_rows : Result J → List Row
  or_no_rows (ok json) = rows_of json
  or_no_rows (err e) = []

  abbrev pub page_reply : SitemapEntityType → List Row → Reply
  page_reply type [] = not_found
  page_reply type (r ∷ rs) = xml (urlset (map (entity_url type) (r ∷ rs)))

  abbrev pub entity_reply : SitemapEntityType → Result J → Reply
  entity_reply type (ok json) = page_reply type (rows_of json)
  entity_reply type (err e) = unavailable

  -- A number below 1 is no file.
  abbrev pub entity_page : Option (SitemapEntityType × ℕ) → World S → Reply × World S
  entity_page none w = (not_found, w)
  entity_page (some (type, zero)) w = (not_found, w)
  entity_page (some (type, suc i)) w =
      let r = get_entity_sitemap_page net (type_name type) (i * sitemap_chunk) sitemap_chunk w in
      (entity_reply type r.0, r.1)

  abbrev rows_reply : (Row → Url) → Result J × World S → Reply × World S
  rows_reply url (answer, w) = (xml (urlset (map url (or_no_rows answer))), w)

  abbrev static_reply : World S → Reply × World S
  static_reply w =
      (xml (urlset (map (λ (r : Url). record r { loc = absolute_url r.loc }) static_routes)), w)

  -- `GET`
  unfoldable pub get_file : Text → World S → Reply × World S
  unfolding urlset entity_file
  get_file file w =
      if text_eq file (codes "static.xml")
      then static_reply w
      else if text_eq file (codes "lists.xml")
      then rows_reply list_url (get_lists_sitemap net w)
      else if text_eq file (codes "battles.xml")
      then rows_reply battle_url (get_battles_sitemap net w)
      else entity_page (entity_file file) w
