-- ===== src/Daily/Guest.antt =====
-- A guest keeps one id (frontend/lib/daily-battle.ts, `getGuestId`).
use rank_verse.Base.{
  ℕ, suc, ◌+◌, ◌%◌, ◌≡◌, ◌<◌, refl, ap, Bool, true, ◌&&◌, ◌||◌, Option, none, some, [], ◌∷◌, length,
  arith, ◌==◌,
}
use rank_verse.Base.Text.{Text}
use rank_verse.Daily.{
  Browser, Chance, hex_digit, pattern_text, fill_unit, fill, new_id, is_id_unit, all_id_units,
  is_guest_id, get_guest_id,
}

hex_digit-is_id_unit : (n : ℕ) → n < 16 → is_id_unit (hex_digit n) ≡ true
hex_digit-is_id_unit n h = ground arith

-- A unit of the pattern: a place for a digit, or one that an id may hold.
abbrev is_pattern_unit : ℕ → Bool
is_pattern_unit c = c == b'x' || c == b'y' || is_id_unit c

abbrev all_pattern_units : Text → Bool
all_pattern_units [] = true
all_pattern_units (c ∷ s) = is_pattern_unit c && all_pattern_units s

fill_unit-is_id_unit :
    (draw c : ℕ) → draw < 16 → is_pattern_unit c ≡ true → is_id_unit (fill_unit draw c) ≡ true
fill_unit-is_id_unit draw c h p =
    ground (arith, hex_digit-is_id_unit draw h, hex_digit-is_id_unit (8 + draw % 4))

and_true : (a b : Bool) → (a && b) ≡ true → (a ≡ true) × (b ≡ true)
and_true a b h = ground arith

fill-all_id_units :
    (draw : ℕ → ℕ) (k : ℕ) (s : Text)
    → ((i : ℕ) → draw i < 16)
    → all_pattern_units s ≡ true
    → all_id_units (fill draw k s) ≡ true
unfolding fill
fill-all_id_units draw k [] h p = refl
fill-all_id_units draw k (c ∷ s) h p =
    let (one, more) = and_true (is_pattern_unit c) (all_pattern_units s) p in
    rw (fill_unit-is_id_unit (draw k) c (h k) one) (fill-all_id_units draw (k + 1) s h more)

length-fill : (draw : ℕ → ℕ) (k : ℕ) (s : Text) → length (fill draw k s) ≡ length s
unfolding fill
length-fill draw k [] = refl
length-fill draw k (c ∷ s) = ap suc (length-fill draw (k + 1) s)

-- The platform's ids are of the form that the pattern asks for, and draws are below 16.
pub record IsFair (chance : Chance) : Type 0 where
  pub drawn : (i : ℕ) → chance.draw i < 16
  pub given : (id : Text) → chance.uuid ≡ some id → is_guest_id id ≡ true

fill-is_guest_id :
    (draw : ℕ → ℕ) → ((i : ℕ) → draw i < 16) → is_guest_id (fill draw 0 pattern_text) ≡ true
unfolding is_guest_id
fill-is_guest_id draw h =
    rw (length-fill draw 0 pattern_text) (fill-all_id_units draw 0 pattern_text h refl)

by_chance-is_guest_id :
    (draw : ℕ → ℕ) (uuid : Option Text)
    → ((i : ℕ) → draw i < 16)
    → ((id : Text) → uuid ≡ some id → is_guest_id id ≡ true)
    → is_guest_id (new_id (record { uuid = uuid; draw = draw })) ≡ true
unfolding new_id
by_chance-is_guest_id draw none h g = fill-is_guest_id draw h
by_chance-is_guest_id draw (some id) h g = g id refl

new_id-is_guest_id : (chance : Chance) → IsFair chance → is_guest_id (new_id chance) ≡ true
new_id-is_guest_id chance f = by_chance-is_guest_id chance.draw chance.uuid f.drawn f.given

-- Under fair chance a later call of the page gives the same id and leaves the browser as it is, so
-- every call after the first does: whether the browser stores the id, refuses to write it, refuses to
-- read it, or held none or a broken one before.
pub get_guest_id-stays :
    (first second later retry : Chance) (b : Browser)
    → IsFair first
    → get_guest_id later retry (get_guest_id first second b).1 ≡ get_guest_id first second b
unfolding get_guest_id
get_guest_id-stays first second later retry b f = ground (arith, new_id-is_guest_id first f)
