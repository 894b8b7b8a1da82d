-- ===== src/Pagination/Tests.antt =====
-- The pager at concrete inputs.
use rank_verse.Base.{◌≡◌, refl, none, some, [], ◌∷◌, arith}
use rank_verse.Base.Sort.{sort}
use rank_verse.Pagination.{page_window, with_gaps, wanted}
use rank_verse.Pagination.Window.{IsWindow, page_window-IsWindow}

page_window_ten :
    page_window 5 10 1 ≡ some 1 ∷ none ∷ some 4 ∷ some 5 ∷ some 6 ∷ none ∷ some 10 ∷ []
unfolding page_window with_gaps wanted sort
page_window_ten = refl

page_window-IsWindow_example : IsWindow (page_window 4 10 1) 10
page_window-IsWindow_example = page_window-IsWindow 4 10 1 (omega arith)
