-- ===== src/Base/Moves.antt =====
-- Moving one row of a list, as the drag-and-drop lists of the panel do it:
-- `const [row] = next.splice(from, 1); next.splice(to, 0, row)`.
use Prim.Native.Nat.{ℕ, zero, suc, ◌≤◌, ◌<◌}
use mathlib.Core.Path.{◌≡◌, refl, sym, ap, ◌∙◌}
use mathlib.Core.List.{List, [], ◌∷◌}
use mathlib.Core.Option.{Option, none, some}
use rx_ui.Base.Lists.{length}
use native.Mathlib.Omega.{arith}

module _ {ℓ} {A : Type ℓ} where
  -- `xs[n]`
  abbrev pub item_at : ℕ → List A → Option A
  item_at n [] = none
  item_at zero (x ∷ xs) = some x
  item_at (suc n) (x ∷ xs) = item_at n xs

  -- What `xs.splice(n, 1)` leaves.
  abbrev pub without : ℕ → List A → List A
  without n [] = []
  without zero (x ∷ xs) = xs
  without (suc n) (x ∷ xs) = x ∷ without n xs

  -- What `xs.splice(n, 0, x)` makes.
  abbrev pub insert_at : ℕ → A → List A → List A
  insert_at n y [] = y ∷ []
  insert_at zero y (x ∷ xs) = y ∷ x ∷ xs
  insert_at (suc n) y (x ∷ xs) = x ∷ insert_at n y xs

  -- The row at `from` goes to `to`; where there is no such row, nothing moves.
  abbrev pub move_row : ℕ → ℕ → List A → List A
  move_row from to xs = elim (item_at from xs) [
    | none ↦ xs
    | some x ↦ insert_at to x (without from xs)
  ]

  pub item_at-some : (n : ℕ) (xs : List A) → n < length xs → (x : A) × (item_at n xs ≡ some x)
  item_at-some n [] h = absurd (omega arith)
  item_at-some zero (x ∷ xs) h = (x, refl)
  item_at-some (suc n) (x ∷ xs) h = item_at-some n xs (omega arith)

  length-without : (n : ℕ) (xs : List A) → n < length xs → suc (length (without n xs)) ≡ length xs
  length-without n [] h = absurd (omega arith)
  length-without zero (x ∷ xs) h = refl
  length-without (suc n) (x ∷ xs) h = ap suc (length-without n xs (omega arith))

  item_at-insert_at :
      (n : ℕ) (x : A) (xs : List A) → n ≤ length xs → item_at n (insert_at n x xs) ≡ some x
  item_at-insert_at zero x [] h = refl
  item_at-insert_at (suc n) x [] h = absurd (omega arith)
  item_at-insert_at zero x (y ∷ xs) h = refl
  item_at-insert_at (suc n) x (y ∷ xs) h = item_at-insert_at n x xs (omega arith)

  without-insert_at :
      (n : ℕ) (x : A) (xs : List A) → n ≤ length xs → without n (insert_at n x xs) ≡ xs
  without-insert_at zero x [] h = refl
  without-insert_at (suc n) x [] h = absurd (omega arith)
  without-insert_at zero x (y ∷ xs) h = refl
  without-insert_at (suc n) x (y ∷ xs) h = ap (λ r. y ∷ r) (without-insert_at n x xs (omega arith))

  insert_at-without :
      (n : ℕ) (x : A) (xs : List A) → item_at n xs ≡ some x → insert_at n x (without n xs) ≡ xs
  insert_at-without n x [] h = cc
  insert_at-without zero x (y ∷ []) h = ground arith
  insert_at-without zero x (y ∷ z ∷ xs) h = ground arith
  insert_at-without (suc n) x (y ∷ xs) h = ap (λ r. y ∷ r) (insert_at-without n x xs h)

  move_row_of_some :
      (from to : ℕ) (xs : List A) (x : A)
      → item_at from xs ≡ some x
      → move_row from to xs ≡ insert_at to x (without from xs)
  move_row_of_some from to xs x e = rw (e, move_row) refl

  -- The row that was at `from` is at `to`, and the other rows keep their order.
  pub move_row_lem :
      (from to : ℕ) (xs : List A)
      → from < length xs
      → to < length xs
      → (item_at to (move_row from to xs) ≡ item_at from xs)
        × (without to (move_row from to xs) ≡ without from xs)
  move_row_lem from to xs hf ht =
      let (x, e) = item_at-some from xs hf in
      let l = length-without from xs hf in
      let m = move_row_of_some from to xs x e in
      (
        ap (item_at to) m ∙ item_at-insert_at to x _ (omega arith) ∙ sym e,
        ap (without to) m ∙ without-insert_at to x _ (omega arith),
      )

  -- Moving the row back restores the list.
  pub move_row_back :
      (from to : ℕ) (xs : List A)
      → from < length xs
      → to < length xs
      → move_row to from (move_row from to xs) ≡ xs
  move_row_back from to xs hf ht =
      let (x, e) = item_at-some from xs hf in
      let (p, q) = move_row_lem from to xs hf ht in
      move_row_of_some to from _ x (p ∙ e) ∙ ap (insert_at from x) q ∙ insert_at-without from x xs e

  length-insert_at : (n : ℕ) (x : A) (xs : List A) → length (insert_at n x xs) ≡ suc (length xs)
  length-insert_at n x [] = refl
  length-insert_at zero x (y ∷ xs) = refl
  length-insert_at (suc n) x (y ∷ xs) = ap suc (length-insert_at n x xs)

  pub length-move_row :
      (from to : ℕ) (xs : List A) → from < length xs → length (move_row from to xs) ≡ length xs
  length-move_row from to xs hf =
      let (x, e) = item_at-some from xs hf in
      ap length (move_row_of_some from to xs x e)
      ∙ length-insert_at to x (without from xs)
      ∙ length-without from xs hf
