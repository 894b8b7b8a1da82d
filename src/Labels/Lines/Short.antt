-- ===== src/Labels/Lines/Short.antt =====
-- A title that frontend/lib/graph-label.ts shortens.
use mathlib.Core.List.{append_assoc, append-nil}
use rank_verse.Base.{
  ℕ, ◌+◌, ◌≤◌, ◌⊎◌, ◌||◌, true, false, Option, none, some, List, [], ◌∷◌, ◌++◌, if◌then◌else◌, ltb,
  leb, length, ◌≡◌, refl, ap, sym, ◌∙◌, arith, All, Bool-cases, inl, inr, length-append,
}
use rank_verse.Base.Text.{Text, is_space}
use rank_verse.Labels.Lines.{
  put_word, words_from, words_of, join_words, Filled, fill, lines_of, ellipsis, ended, label_lines,
  is_nil,
}

abbrev IsText : Text → Type 0
IsText w = is_nil w ≡ false

put_word-AreTexts :
    (w : Text) (words : List Text) → All IsText words → All IsText (put_word w words)
put_word-AreTexts [] words h = h
put_word-AreTexts (c ∷ w) words h = (refl, h)

words_from-AreTexts : (w s : Text) → All IsText (words_from w s)
unfolding words_from
words_from-AreTexts w [] = put_word-AreTexts w [] tt
words_from-AreTexts w (c ∷ s) = elim (Bool-cases (is_space c)) [
  | inl e ↦ rw e (put_word-AreTexts w (words_from [] s) (words_from-AreTexts [] s))
  | inr e ↦ rw e (words_from-AreTexts (w ++ c ∷ []) s)
]

join-snoc :
    (done : List Text) (w : Text)
    → is_nil done ≡ false
    → join_words (done ++ w ∷ []) ≡ join_words done ++ 32 ∷ w
join-snoc [] w h = cc
join-snoc (d ∷ []) w h = refl
join-snoc (d ∷ e ∷ done) w h = rw append_assoc (ap (λ r. d ++ 32 ∷ r) (join-snoc (e ∷ done) w refl))

abbrev text_of : Option Text → Text → Text
text_of before cur = join_words (lines_of before cur)

text_of-longer :
    (before : Option Text) (cur more : Text)
    → text_of before (cur ++ more) ≡ text_of before cur ++ more
text_of-longer none cur more = refl
text_of-longer (some b) cur more = sym (append_assoc b (32 ∷ cur) more)

is_nil-append {ℓ} : {A : Type ℓ} (xs : List A) (y : A) (ys : List A) → is_nil (xs ++ y ∷ ys) ≡ false
is_nil-append [] y ys = refl
is_nil-append (x ∷ xs) y ys = refl

-- The words that the lines hold, and those that are left.
pub record Fits (words : List Text) (f : Filled) : Type 0 where
  pub held : List Text
  pub left : List Text
  pub all : words ≡ held ++ left
  pub text : text_of f.before f.cur ≡ join_words held
  pub counted : f.used ≡ length held
  pub enough : (left ≡ []) ⊎ (2 ≤ length held)

fill-Fits :
    (max_line : ℕ) (before : Option Text) (cur : Text) (used : ℕ) (held left : List Text)
    → is_nil cur ≡ false
    → is_nil held ≡ false
    → text_of before cur ≡ join_words held
    → used ≡ length held
    → All IsText left
    → Fits (held ++ left) (fill max_line before cur used left)
unfolding fill
fill-Fits max_line before cur used held [] c h t u a = record {
  held = held;
  left = [];
  all = refl;
  text = t;
  counted = u;
  enough = inl refl;
}
fill-Fits max_line none cur used held (w ∷ left) c h t u a =
    let joined = ap (λ r. r ++ 32 ∷ w) t ∙ sym (join-snoc held w h) in
    let more : used + 1 ≡ length (held ++ w ∷ []) = omega (arith, u, length-append held (w ∷ [])) in
    let same = sym (append_assoc held (w ∷ []) left) in
    let some_held = is_nil-append held w [] in
    elim (Bool-cases (leb (length (cur ++ 32 ∷ w)) max_line || ltb used 2)) [
      | inl e ↦
          rw (c, e, same)
            (fill-Fits max_line none (cur ++ 32 ∷ w) (used + 1) (held ++ w ∷ []) left
              (is_nil-append cur 32 w) some_held joined more a.1)
      | inr e ↦
          rw (c, e, same)
            (fill-Fits max_line (some cur) w (used + 1) (held ++ w ∷ []) left a.0 some_held joined
              more a.1)
    ]
fill-Fits max_line (some b) cur used held (w ∷ left) c h t u a =
    let more : used + 1 ≡ length (held ++ w ∷ []) = omega (arith, u, length-append held (w ∷ [])) in
    let same = sym (append_assoc held (w ∷ []) left) in
    elim (Bool-cases (leb (length (cur ++ 32 ∷ w)) max_line || ltb used 2)) [
      | inl e ↦
          rw (c, e, same)
            (fill-Fits max_line (some b) (cur ++ 32 ∷ w) (used + 1) (held ++ w ∷ []) left
              (is_nil-append cur 32 w) (is_nil-append held w [])
              (text_of-longer (some b) cur (32 ∷ w)
                ∙ ap (λ r. r ++ 32 ∷ w) t
                ∙ sym (join-snoc held w h))
              more a.1)
      | inr e ↦
          let two : 2 ≤ used = ground arith in
          rw (c, e)
            (record {
              held = held;
              left = w ∷ left;
              all = refl;
              text = t;
              counted = u;
              enough = inr (omega (arith, u, two));
            })
    ]

filled-Fits :
    (max_line : ℕ) (w : Text) (words : List Text)
    → All IsText (w ∷ words)
    → Fits (w ∷ words) (fill max_line none [] 0 (w ∷ words))
unfolding fill
filled-Fits max_line w words a =
    let first : (leb (length w) max_line || true) ≡ true = ground arith in
    rw first (fill-Fits max_line none w 1 (w ∷ []) words a.0 refl refl refl a.1)

-- The lines hold the first words, all of them or two at least, and end in an ellipsis where words are
-- left; there are two lines at most.
pub record IsShort (words lines : List Text) : Type 0 where
  pub held : List Text
  pub left : List Text
  pub all : words ≡ held ++ left
  pub text : join_words lines ≡ join_words held ++ (if is_nil left then [] else ellipsis)
  pub enough : (left ≡ []) ⊎ (2 ≤ length held)
  pub few : length lines ≤ 2

length-lines_of : (before : Option Text) (cur : Text) → length (lines_of before cur) ≤ 2
length-lines_of none cur = omega arith
length-lines_of (some b) cur = omega arith

-- No word is left exactly where all were used.
ended-text :
    (f : Filled) (held left : List Text) (n : ℕ)
    → f.used ≡ length held
    → n ≡ length held + length left
    → text_of f.before f.cur ≡ join_words held
    → join_words (ended f n) ≡ join_words held ++ (if is_nil left then [] else ellipsis)
ended-text f held [] n u e t =
    let out : ltb f.used n ≡ false = ground arith in rw (out, append-nil) t
ended-text f held (w ∷ left) n u e t =
    let more : ltb f.used n ≡ true = ground arith in
    rw more (text_of-longer f.before f.cur ellipsis ∙ ap (λ r. r ++ ellipsis) t)

ended-IsShort :
    (words : List Text) (f : Filled) → Fits words f → IsShort words (ended f (length words))
ended-IsShort words f h =
    let total = ap length h.all ∙ length-append h.held h.left in
    record {
      held = h.held;
      left = h.left;
      all = h.all;
      text = ended-text f h.held h.left (length words) h.counted total h.text;
      enough = h.enough;
      few =
          length-lines_of f.before (if ltb f.used (length words) then f.cur ++ ellipsis else f.cur);
    }

words-IsShort :
    (words : List Text) (max_line : ℕ)
    → All IsText words
    → IsShort words (
        if is_nil words
        then []
        else if leb (length (join_words words)) max_line
        then join_words words ∷ []
        else ended (fill max_line none [] 0 words) (length words))
words-IsShort [] max_line a = record {
  held = [];
  left = [];
  all = refl;
  text = refl;
  enough = inl refl;
  few = omega arith;
}
words-IsShort (w ∷ words) max_line a =
    elim (Bool-cases (leb (length (join_words (w ∷ words))) max_line)) [
      | inl e ↦ rw e (record {
        held = w ∷ words;
        left = [];
        all = sym (append-nil (w ∷ words));
        text = sym (append-nil (join_words (w ∷ words)));
        enough = inl refl;
        few = omega arith;
      })
      | inr e ↦ rw e (ended-IsShort (w ∷ words) _ (filled-Fits max_line w words a))
    ]

-- A title or a genre is shown by its first words, all of them or at least two, on at most two lines,
-- with an ellipsis exactly where words are left out.
pub label_lines-IsShort :
    (name : Text) (max_line : ℕ) → IsShort (words_of name) (label_lines name false max_line)
unfolding label_lines words_of
label_lines-IsShort name max_line =
    words-IsShort (words_of name) max_line (words_from-AreTexts [] name)
