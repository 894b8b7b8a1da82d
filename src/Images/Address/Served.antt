-- ===== src/Images/Address/Served.antt =====
-- The addresses that the browser loads posters from (frontend/lib/tmdb-image-url.ts) against the paths
-- that the route serves (frontend/lib/image-proxy.ts).
use rank_verse.Sitemap.Files.{after}
use rank_verse.Images.Address.{after}
use rank_verse.Base.{ℕ, ◌≡◌, ◌==◌, Bool, true, not, some}
use rank_verse.Base.Text.{Text}
use rank_verse.Images.{cut}
use rank_verse.Images.Address.{is_capped}

abbrev slashless : ℕ → Bool
slashless c = not (c == b'/')

-- The path of the same file at a capped width.
abbrev pub IsCapped : Text → Text → Type 0
IsCapped rest path =
    (from to file : Text) × (cut b'/' rest ≡ some (from, file))
    × (cut b'/' path ≡ some (to, file))
    × (is_capped to ≡ true)
