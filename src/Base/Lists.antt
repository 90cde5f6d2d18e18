-- ===== src/Base/Lists.antt =====
-- Lists: the tests and loops that the components share.
use Prim.Native.Nat.{ℕ, suc}
use mathlib.Core.Path.{◌≡◌, refl, ap, ap₂}
use mathlib.Core.Bool.{Bool, true, false, ◌&&◌, ◌||◌}
use mathlib.Core.List.{List, [], ◌∷◌, ◌++◌, map, cons-ne-nil}
use mathlib.Core.Option.{Option, none, some}
use mathlib.Core.Logic.{inl, inr, ◌≢◌}
use rx_ui.Base.Tests.{if◌then◌else◌, Bool-cases}

module _ {ℓ} {A : Type ℓ} where
  abbrev pub length : List A → ℕ
  length [] = 0
  length (x ∷ xs) = suc (length xs)

  abbrev pub is_empty : List A → Bool
  is_empty [] = true
  is_empty (x ∷ xs) = false

  pub append-ne-nil : (xs : List A) (y : A) (ys : List A) → (xs ++ y ∷ ys) ≢ []
  append-ne-nil [] y ys = cons-ne-nil _ _
  append-ne-nil (x ∷ xs) y ys = cons-ne-nil _ _

  -- `xs[0]`
  abbrev pub first : List A → Option A
  first [] = none
  first (x ∷ xs) = some x

  -- `xs.some(p)` and `xs.every(p)`
  abbrev pub any : (A → Bool) → List A → Bool
  any p [] = false
  any p (x ∷ xs) = p x || any p xs

  abbrev pub all : (A → Bool) → List A → Bool
  all p [] = true
  all p (x ∷ xs) = p x && all p xs

  -- `xs.filter(p)`
  abbrev pub filter : (A → Bool) → List A → List A
  filter p [] = []
  filter p (x ∷ xs) = let rest = filter p xs in if p x then x ∷ rest else rest

  -- `xs.find(p)`
  abbrev pub find : (A → Bool) → List A → Option A
  find p [] = none
  find p (x ∷ xs) = let rest = find p xs in if p x then some x else rest

module _ {ℓ κ} {A : Type ℓ} (P : A → Type κ) where
  abbrev pub All : List A → Type κ
  All [] = Unit
  All (x ∷ xs) = P x × All xs

module _ {ℓ κ} {A : Type ℓ} (P : A → Type κ) where
  pub All-append : (xs ys : List A) → All P xs → All P ys → All P (xs ++ ys)
  All-append [] ys h k = k
  All-append (x ∷ xs) ys (hx, h) k = (hx, All-append xs ys h k)

  pub All_middle : (xs : List A) (x : A) (ys : List A) → All P (xs ++ x ∷ ys) → P x
  All_middle [] x ys (h, _) = h
  All_middle (z ∷ xs) x ys (_, h) = All_middle xs x ys h

module _ {ℓ} {A : Type ℓ} (p : A → Bool) where
  -- A filter changes nothing where every element passes.
  pub filter_kept : (xs : List A) → All (λ x. p x ≡ true) xs → filter p xs ≡ xs
  filter_kept [] h = refl
  filter_kept (x ∷ xs) (px, h) = rw px (ap (λ r. x ∷ r) (filter_kept xs h))

  -- What a filter keeps has passed it, and keeps what held before it.
  pub filter-All {κ} :
      (P Q : A → Type κ)
      → ((x : A) → P x → p x ≡ true → Q x)
      → (xs : List A) → All P xs
      → All Q (filter p xs)
  filter-All P Q f [] h = tt
  filter-All P Q f (x ∷ xs) (hx, h) = elim (Bool-cases (p x)) [
    | inl e ↦ rw e (f x hx e, filter-All P Q f xs h)
    | inr e ↦ rw e (filter-All P Q f xs h)
  ]

module _ {ℓ} {A : Type ℓ} where
  pub filter_holds {κ} :
      (p : A → Bool) (P : A → Type κ)
      → ((x : A) → p x ≡ true → P x)
      → (xs : List A) → All P (filter p xs)
  filter_holds p P f [] = tt
  filter_holds p P f (x ∷ xs) = elim (Bool-cases (p x)) [
    | inl e ↦ rw e (f x e, filter_holds p P f xs)
    | inr e ↦ rw e (filter_holds p P f xs)
  ]

  pub All-map {κ μ} :
      {B : Type κ} (P : B → Type μ) (f : A → B)
      → ((x : A) → P (f x))
      → (xs : List A) → All P (map f xs)
  All-map P f h [] = tt
  All-map P f h (x ∷ xs) = (h x, All-map P f h xs)

  pub All-mono {κ μ} :
      (P : A → Type κ) (Q : A → Type μ)
      → ((x : A) → P x → Q x)
      → (xs : List A) → All P xs
      → All Q xs
  All-mono P Q f [] h = tt
  All-mono P Q f (x ∷ xs) (hx, h) = (f x hx, All-mono P Q f xs h)

  pub All-map_of_All {κ μ ν} :
      {B : Type κ} (P : B → Type μ) (f : A → B) (Q : A → Type ν)
      → ((x : A) → Q x → P (f x))
      → (xs : List A) → All Q xs
      → All P (map f xs)
  All-map_of_All P f Q k [] h = tt
  All-map_of_All P f Q k (x ∷ xs) (hx, h) = (k x hx, All-map_of_All P f Q k xs h)

  pub map_id : (f : A → A) (xs : List A) → All (λ x. f x ≡ x) xs → map f xs ≡ xs
  map_id f [] h = refl
  map_id f (x ∷ xs) (hx, h) = ap₂ (λ y ys. y ∷ ys) hx (map_id f xs h)
