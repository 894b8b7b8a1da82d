-- ===== src/WatchCsv/Tests.antt =====
-- The import at concrete inputs.
use rank_verse.Base.{◌≡◌, refl, [], ◌∷◌, ◌++◌, true, arith}
use rank_verse.Base.Text.{Text, codes, trim, strip_start, strip_end, to_lower}
use rank_verse.WatchCsv.{split_csv_line, parse_watch_csv, row_of}
use rank_verse.WatchCsv.Split.{quoted, bare, escape, write_line, split_csv_line-write_line}

-- A header, a row, a blank line and a short row.
abbrev file : Text
file =
    codes "slug,provider,url"
    ++ 10 ∷ codes "dune,NamaVa,\"a,b\",,Yes"
    ++ 13 ∷ 10 ∷ 10 ∷ codes "dune,x"

parse_file :
    (parse_watch_csv file).rows
    ≡ record {
      entity_slug = codes "dune";
      provider = codes "namava";
      url = codes "a,b";
      access_type = codes "subscription";
      is_affiliate = true;
    }
      ∷ []
unfolding parse_watch_csv trim strip_start strip_end to_lower row_of
parse_file = refl

split_csv_line-write_line_example :
    split_csv_line (codes "\"a \"\"b\"\", c\", d") ≡ codes "a \"b\", c" ∷ codes "d" ∷ []
unfolding write_line escape trim strip_start strip_end
split_csv_line-write_line_example =
    split_csv_line-write_line (quoted (codes "a \"b\", c")) (bare (codes " d") ∷ [])
      (tt, (((λ e. omega arith, λ e. omega arith), ((λ e. omega arith, λ e. omega arith), tt)), tt))
