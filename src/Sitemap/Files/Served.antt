-- ===== src/Sitemap/Files/Served.antt =====
-- The files that frontend/app/sitemap.xml/route.ts lists are the files that
-- frontend/app/sitemaps/[file]/route.ts serves.
use rank_verse.Base.{
  ℕ, suc, ◌*◌, ◌≡◌, refl, ap, sym, ◌∙◌, true, some, List, [], ◌∷◌, ◌++◌, All, map,
}
use rank_verse.Base.Text.{Text, codes}
use rank_verse.Labels.Digits.{is_digit, decimal}
use rank_verse.Labels.Digits.Laws.{
  read_digits, read_digits-decimal, decimal-All-is_digit, decimal-cons,
}
use rank_verse.Sitemap.{
  SitemapEntityType, movie, tv_series, person, genre, type_name, sitemap_chunk, file_name, route_of,
}
use rank_verse.Api.Client.{Net, World, Result, ok, err}
use rank_verse.Api.Titles.{get_entity_sitemap_page}
use rank_verse.Sitemap.Files.{
  digits, ended, numbered, entity_file, Row, Reply, get_file, entity_reply, page_reply, entity_page,
  Url, absolute_url, encode_path, urlset,
}

digits-append :
    (s : Text) → All (λ c. is_digit c ≡ true) s → digits (s ++ codes ".xml") ≡ (s, codes ".xml")
digits-append [] h = refl
digits-append (c ∷ s) h = rw (h.0, digits-append s h.1)

ended-decimal : (n : ℕ) → ended (decimal n) (codes ".xml") ≡ some n
ended-decimal n =
    let (d, r, e) = decimal-cons n in
    rw e (ap some (ap (read_digits 0) (sym e) ∙ read_digits-decimal n))

numbered-decimal : (n : ℕ) → numbered (some (decimal n ++ codes ".xml")) ≡ some n
numbered-decimal n = rw (digits-append (decimal n) (decimal-All-is_digit n)) (ended-decimal n)

entity_file-file_name :
    (type : SitemapEntityType) (n : ℕ) → entity_file (file_name type n) ≡ some (type, n)
unfolding entity_file
entity_file-file_name movie n = rw (numbered-decimal n)
entity_file-file_name tv_series n = rw (numbered-decimal n)
entity_file-file_name person n = rw (numbered-decimal n)
entity_file-file_name genre n = rw (numbered-decimal n)

module _ {S J : Type 0} (net : Net S J) (site_url : Text) (iso : Text → Text)
    (rows_of : J → List Row) where
  -- The entry of a row: where its page is, and when it last changed.
  abbrev pub entry_of : SitemapEntityType → Row → Url
  entry_of type r = record {
    loc =
        absolute_url net site_url iso rows_of
          (encode_path net site_url iso rows_of ((route_of type).base ++ codes "/" ++ r.slug));
    lastmod = r.updated_at;
    changefreq = (route_of type).changefreq;
    priority = (route_of type).priority;
  }

  -- The answer that rows ask for: none, or an entry for each of them, in their order.
  abbrev pub ListsRows : SitemapEntityType → List Row → Reply → Type 0
  ListsRows type [] reply = reply ≡ Reply.not_found
  ListsRows type (r ∷ rows) reply =
      reply ≡ Reply.xml (urlset net site_url iso rows_of (map (entry_of type) (r ∷ rows)))

  -- The answer that the backend's page of a type asks for.
  abbrev pub AnswersPage : SitemapEntityType → Result J → Reply → Type 0
  AnswersPage type (err e) reply = reply ≡ Reply.unavailable
  AnswersPage type (ok json) reply = ListsRows type (rows_of json) reply

  page_reply-ListsRows :
      (type : SitemapEntityType) (rows : List Row)
      → ListsRows type rows (page_reply net site_url iso rows_of type rows)
  page_reply-ListsRows type [] = refl
  page_reply-ListsRows type (r ∷ rows) = refl

  entity_reply-AnswersPage :
      (type : SitemapEntityType) (answer : Result J)
      → AnswersPage type answer (entity_reply net site_url iso rows_of type answer)
  entity_reply-AnswersPage type (err e) = refl
  entity_reply-AnswersPage type (ok json) = page_reply-ListsRows type (rows_of json)

  served :
      (type : SitemapEntityType) (i : ℕ) (w : World S)
      → get_file net site_url iso rows_of (file_name type i) w
        ≡ entity_page net site_url iso rows_of (some (type, i)) w
  unfolding get_file
  served movie i w = rw (entity_file-file_name movie i)
  served tv_series i w = rw (entity_file-file_name tv_series i)
  served person i w = rw (entity_file-file_name person i)
  served genre i w = rw (entity_file-file_name genre i)

  -- A listed file, of a type and with its number counted from 1, is answered by the page of that type
  -- that starts behind the files before it: by an entry for each of the page's rows, by "not found"
  -- where it has none, and by "unavailable" where the backend fails. A file numbered 0 is not found, and
  -- nothing is asked of the backend for it.
  pub get_file-file_name :
      (type : SitemapEntityType) (i : ℕ) (w : World S)
      → (let r = get_entity_sitemap_page net (type_name type) (i * sitemap_chunk) sitemap_chunk w in
          let reply = get_file net site_url iso rows_of (file_name type (suc i)) w in
          AnswersPage type r.0 reply.0 × (reply.1 ≡ r.1))
        × (get_file net site_url iso rows_of (file_name type 0) w ≡ (Reply.not_found, w))
  get_file-file_name type i w =
      let r = get_entity_sitemap_page net (type_name type) (i * sitemap_chunk) sitemap_chunk w in
      (rw (served type (suc i) w) (entity_reply-AnswersPage type r.0, refl), served type 0 w)
