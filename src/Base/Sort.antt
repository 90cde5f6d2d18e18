-- ===== src/Base/Sort.antt =====
-- A stable sort, with the order as a test, and what it keeps.
use mathlib.Core.Path.{◌≡◌}
use mathlib.Core.Bool.{Bool, true, false}
use mathlib.Core.List.{List, [], ◌∷◌}
use mathlib.Core.Logic.{inl, inr}
use rx_ui.Base.Tests.{Bool-cases, if◌then◌else◌}
use rx_ui.Base.Lists.{All}

module _ {ℓ} {A : Type ℓ} where
  unfoldable pub insert_by : (A → A → Bool) → A → List A → List A
  insert_by le x [] = x ∷ []
  insert_by le x (y ∷ ys) = if le x y then x ∷ y ∷ ys else y ∷ insert_by le x ys

  unfoldable pub sort_by : (A → A → Bool) → List A → List A
  sort_by le [] = []
  sort_by le (x ∷ xs) = insert_by le x (sort_by le xs)

  -- Each item is at most every one behind it.
  abbrev pub IsSortedBy : (A → A → Bool) → List A → Type ℓ
  IsSortedBy le [] = Unit
  IsSortedBy le (x ∷ xs) = All (λ y. le x y ≡ true) xs × IsSortedBy le xs

module _ {ℓ κ} {A : Type ℓ} (le : A → A → Bool) (P : A → Type κ) where
  pub insert_by-All : (x : A) (xs : List A) → P x → All P xs → All P (insert_by le x xs)
  unfolding insert_by
  insert_by-All x [] h k = (h, tt)
  insert_by-All x (y ∷ ys) h (ky, k) = elim (Bool-cases (le x y)) [
    | inl e ↦ rw e (h, (ky, k))
    | inr e ↦ rw e (ky, insert_by-All x ys h k)
  ]

  pub sort_by-All : (xs : List A) → All P xs → All P (sort_by le xs)
  unfolding sort_by
  sort_by-All [] h = tt
  sort_by-All (x ∷ xs) (hx, h) = insert_by-All x (sort_by le xs) hx (sort_by-All xs h)

  -- What holds of every item of the sorted list holds of every item.
  pub insert_by-All_back : (x : A) (xs : List A) → All P (insert_by le x xs) → P x × All P xs
  unfolding insert_by
  insert_by-All_back x [] h = h
  insert_by-All_back x (y ∷ ys) h =
      let back : All P (insert_by le x (y ∷ ys)) → P x × All P (y ∷ ys) =
        elim (Bool-cases (le x y)) [
          | inl e ↦ rw e (λ k. k)
          | inr e ↦ rw e (λ k. let b = insert_by-All_back x ys k.1 in (b.0, (k.0, b.1)))
        ] in
      back h

  pub sort_by-All_back : (xs : List A) → All P (sort_by le xs) → All P xs
  unfolding sort_by
  sort_by-All_back [] h = tt
  sort_by-All_back (x ∷ xs) h =
      let k = insert_by-All_back x (sort_by le xs) h in (k.0, sort_by-All_back xs k.1)

module _ {ℓ} {A : Type ℓ} (le : A → A → Bool) (total : (x y : A) → le x y ≡ false → le y x ≡ true)
    (trans : (x y z : A) → le x y ≡ true → le y z ≡ true → le x z ≡ true) where
  All-above :
      (x y : A) (ys : List A)
      → le x y ≡ true
      → All (λ z. le y z ≡ true) ys
      → All (λ z. le x z ≡ true) ys
  All-above x y [] e h = tt
  All-above x y (z ∷ zs) e (hz, h) = (trans x y z e hz, All-above x y zs e h)

  insert_by-IsSortedBy :
      (x : A) (xs : List A) → IsSortedBy le xs → IsSortedBy le (insert_by le x xs)
  unfolding insert_by
  insert_by-IsSortedBy x [] h = (tt, tt)
  insert_by-IsSortedBy x (y ∷ ys) (hy, h) = elim (Bool-cases (le x y)) [
    | inl e ↦ rw e ((e, All-above x y ys e hy), (hy, h))
    | inr e ↦
        rw e
          (insert_by-All le (λ z. le y z ≡ true) x ys (total x y e) hy, insert_by-IsSortedBy x ys h)
  ]

  pub sort_by-IsSortedBy : (xs : List A) → IsSortedBy le (sort_by le xs)
  unfolding sort_by
  sort_by-IsSortedBy [] = tt
  sort_by-IsSortedBy (x ∷ xs) = insert_by-IsSortedBy x (sort_by le xs) (sort_by-IsSortedBy xs)
