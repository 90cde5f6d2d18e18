-- ===== src/Js/Text/Trim.antt =====
-- Trimming and comparing strings.
use rx_ui.Base.{
  ℕ, ◌≡◌, refl, ◌↔◌, true, false, not, ◌&&◌, is_empty, Bool-cases, inl, inr, [], ◌∷◌, ap, ◌∙◌,
  arith, map, All, filter_holds,
}
use rx_ui.Js.Text.{Text, is_space, text_eq, trim_start, trim_end, trim, remove_space, lower}

pub text_eq_iff : (s t : Text) → (text_eq s t ≡ true) ↔ (s ≡ t)
unfolding text_eq
text_eq_iff [] [] = (λ _. refl, λ _. refl)
text_eq_iff [] (d ∷ t) = ground arith
text_eq_iff (c ∷ s) [] = ground arith
text_eq_iff (c ∷ s) (d ∷ t) = ground (arith, text_eq_iff s t)

pub text_eq_refl : (s : Text) → text_eq s s ≡ true
text_eq_refl s = (text_eq_iff s s).1 refl

trim_end_idem : (s : Text) → trim_end (trim_end s) ≡ trim_end s
unfolding trim_end
trim_end_idem [] = refl
trim_end_idem (c ∷ s) = ground (arith, trim_end_idem s)

trim_start-trim : (s : Text) → trim_start (trim s) ≡ trim s
unfolding trim
trim_start-trim [] = refl
trim_start-trim (c ∷ s) = ground (arith, trim_start-trim s)

-- Trimming twice is trimming once.
pub trim_idem : (s : Text) → trim (trim s) ≡ trim s
unfolding trim
trim_idem s = ap trim_end (trim_start-trim s) ∙ trim_end_idem (trim_start s)

pub trim-nil : trim [] ≡ []
unfolding trim
trim-nil = refl

pub trim-cons : (c : ℕ) (s : Text) → is_space c ≡ true → trim (c ∷ s) ≡ trim s
unfolding trim
trim-cons c s h = rw h

abbrev pub IsSolid : Text → Type 0
IsSolid s = All (λ c. is_space c ≡ false) s

pub trim_start_of_IsSolid : (s : Text) → IsSolid s → trim_start s ≡ s
unfolding trim_start
trim_start_of_IsSolid [] h = refl
trim_start_of_IsSolid (c ∷ s) (hc, h) = rw hc

trim_end_of_IsSolid : (s : Text) → IsSolid s → trim_end s ≡ s
unfolding trim_end
trim_end_of_IsSolid [] h = refl
trim_end_of_IsSolid (c ∷ s) (hc, h) = rw hc (ap (λ r. c ∷ r) (trim_end_of_IsSolid s h))

-- Text without white space is left alone by `trim`.
pub trim_of_IsSolid : (s : Text) → IsSolid s → trim s ≡ s
unfolding trim
trim_of_IsSolid s h = rw (trim_start_of_IsSolid s h) (trim_end_of_IsSolid s h)

pub remove_space-IsSolid : (s : Text) → IsSolid (remove_space s)
unfolding remove_space
remove_space-IsSolid s =
    filter_holds (λ c. not (is_space c)) (λ c. is_space c ≡ false) (λ c h. ground arith) s

pub remove_space_of_IsSolid : (s : Text) → IsSolid s → remove_space s ≡ s
unfolding remove_space
remove_space_of_IsSolid [] h = refl
remove_space_of_IsSolid (c ∷ s) (hc, h) = rw hc (ap (λ r. c ∷ r) (remove_space_of_IsSolid s h))

lower-is_space : (c : ℕ) → is_space c ≡ false → is_space (lower c) ≡ false
unfolding is_space
lower-is_space c h = ground arith

pub map-lower-IsSolid : (s : Text) → IsSolid s → IsSolid (map lower s)
map-lower-IsSolid [] h = tt
map-lower-IsSolid (c ∷ s) (hc, h) = (lower-is_space c hc, map-lower-IsSolid s h)

pub lower_idem : (c : ℕ) → lower (lower c) ≡ lower c
lower_idem c = ground arith

pub map-lower_idem : (s : Text) → map lower (map lower s) ≡ map lower s
map-lower_idem [] = refl
map-lower_idem (c ∷ s) = cc (lower_idem c, map-lower_idem s)

pub trim_start-All : (P : ℕ → Type 0) (s : Text) → All P s → All P (trim_start s)
unfolding trim_start
trim_start-All P [] h = tt
trim_start-All P (c ∷ s) (hc, h) = elim (Bool-cases (is_space c)) [
  | inl e ↦ rw e (trim_start-All P s h)
  | inr e ↦ rw e (hc, h)
]

trim_end-All : (P : ℕ → Type 0) (s : Text) → All P s → All P (trim_end s)
unfolding trim_end
trim_end-All P [] h = tt
trim_end-All P (c ∷ s) (hc, h) = elim (Bool-cases (is_space c && is_empty (trim_end s))) [
  | inl e ↦ rw e tt
  | inr e ↦ rw e (hc, trim_end-All P s h)
]

-- What holds of every code unit holds of those that trimming keeps.
pub trim-All : (P : ℕ → Type 0) (s : Text) → All P s → All P (trim s)
unfolding trim
trim-All P s h = trim_end-All P _ (trim_start-All P s h)
