-- ===== src/Js/Text/Rows.antt =====
-- Moving a row of a list of texts keeps its members, and that none repeats.
use rx_ui.Base.{
  ℕ, zero, suc, ◌≡◌, ◌≢◌, refl, ◌∙◌, false, ◌||◌, List, [], ◌∷◌, some, first, arith, insert_at,
  item_at, move_row, without, Option-cases, inl, inr,
}
use rx_ui.Js.Text.{Text, text_eq}
use rx_ui.Js.Text.Trim.{text_eq_iff, text_eq_refl}
use rx_ui.Js.Text.Includes.{IsDistinct, includes}

includes-insert_at :
    (t : Text) (n : ℕ) (x : Text) (xs : List Text)
    → includes t (insert_at n x xs) ≡ (text_eq x t || includes t xs)
unfolding includes
includes-insert_at t n x [] = refl
includes-insert_at t zero x (y ∷ xs) = refl
includes-insert_at t (suc n) x (y ∷ xs) = ground (arith, includes-insert_at t n x xs)

insert_at-IsDistinct :
    (n : ℕ) (x : Text) (xs : List Text)
    → includes x xs ≡ false
    → IsDistinct xs
    → IsDistinct (insert_at n x xs)
unfolding includes
insert_at-IsDistinct n x [] h d = (refl, tt)
insert_at-IsDistinct zero x (y ∷ xs) h d = (h, d)
insert_at-IsDistinct (suc n) x (y ∷ xs) h (hy, d) = (
  ground (arith, includes-insert_at y n x xs, text_eq_iff x y, text_eq_iff y x),
  insert_at-IsDistinct n x xs (ground arith) d,
)

includes-without :
    (t : Text) (n : ℕ) (x : Text) (xs : List Text)
    → item_at n xs ≡ some x
    → (text_eq x t || includes t (without n xs)) ≡ includes t xs
unfolding includes
includes-without t n x [] h = cc
includes-without t zero x (y ∷ xs) h = ground arith
includes-without t (suc n) x (y ∷ xs) h = ground (arith, includes-without t n x xs h)

without-fresh :
    (t : Text) (n : ℕ) (xs : List Text) → includes t xs ≡ false → includes t (without n xs) ≡ false
unfolding includes
without-fresh t n [] h = refl
without-fresh t zero (y ∷ xs) h = ground arith
without-fresh t (suc n) (y ∷ xs) h = ground (arith, without-fresh t n xs)

without-IsDistinct :
    (n : ℕ) (x : Text) (xs : List Text)
    → item_at n xs ≡ some x
    → IsDistinct xs
    → IsDistinct (without n xs) × (includes x (without n xs) ≡ false)
unfolding includes
without-IsDistinct n x [] h d = cc
without-IsDistinct zero x (y ∷ xs) h (hy, d) = ground arith
without-IsDistinct (suc n) x (y ∷ xs) h (hy, d) = ground (
  arith,
  without-IsDistinct n x xs h d,
  without-fresh y n xs,
  includes-without x n x xs h,
  text_eq_iff y x,
  text_eq_refl x,
)

pub includes-move_row :
    (t : Text) (from to : ℕ) (xs : List Text) → includes t (move_row from to xs) ≡ includes t xs
includes-move_row t from to xs = elim (Option-cases (item_at from xs)) [
  | inl e ↦ rw (e, move_row) refl
  | inr (x, e) ↦
      rw (e, move_row)
        (includes-insert_at t to x (without from xs) ∙ includes-without t from x xs e)
]

pub move_row-IsDistinct :
    (from to : ℕ) (xs : List Text) → IsDistinct xs → IsDistinct (move_row from to xs)
move_row-IsDistinct from to xs d = elim (Option-cases (item_at from xs)) [
  | inl e ↦ rw (e, move_row) d
  | inr (x, e) ↦
      let h = without-IsDistinct from x xs e d in
      rw (e, move_row) (insert_at-IsDistinct to x (without from xs) h.1 h.0)
]

-- The first row stays where neither end of the move is there.
pub first-move_row :
    (from to : ℕ) (xs : List Text) → from ≢ 0 → to ≢ 0 → first (move_row from to xs) ≡ first xs
first-move_row zero to xs hf ht = absurd (hf refl)
first-move_row from zero xs hf ht = absurd (ht refl)
first-move_row (suc from) (suc to) [] hf ht = refl
first-move_row (suc from) (suc to) (x ∷ xs) hf ht = elim (Option-cases (item_at from xs)) [
  | inl e ↦ rw (e, move_row) refl
  | inr (y, e) ↦ rw (e, move_row) refl
]
