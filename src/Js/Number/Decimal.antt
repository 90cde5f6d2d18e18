-- ===== src/Js/Number/Decimal.antt =====
-- Printing and reading numbers in decimal.
use rx_ui.Base.{
  ℕ, zero, suc, ◌+◌, ◌/◌, ◌%◌, ◌<◌, ◌≤◌, ◌≡◌, ◌≢◌, refl, true, false, [], ◌∷◌, All, All-mono, arith,
}
use rx_ui.Js.Text.{Text, is_space}
use rx_ui.Js.Text.Trim.{IsSolid, trim_start_of_IsSolid, trim_start-All}
use rx_ui.Js.Number.{
  between, Number, nan, int, pos, negsuc, print, num, digits, print_nat, prefix_value, parse_signed,
  parse_int,
}

abbrev pub IsDigit : ℕ → Type 0
IsDigit c = (b'0' ≤ c) × (c ≤ b'9')

digits-All : (f n : ℕ) (out : Text) → All IsDigit out → All IsDigit (digits f n out)
unfolding digits
digits-All zero n out h = h
digits-All (suc f) n out h = ground (arith, digits-All f (n / 10) ((b'0' + n % 10) ∷ out))

prefix_value-digits :
    (f n : ℕ) (out : Text) → n < f → prefix_value 0 (digits f n out) ≡ prefix_value n out
unfolding digits prefix_value
prefix_value-digits zero n out h = elim h [ ]
prefix_value-digits (suc f) n out h =
    ground (arith, prefix_value-digits f (n / 10) ((b'0' + n % 10) ∷ out))

-- Every printed numeral is digits alone.
pub print_nat-All : (n : ℕ) → All IsDigit (print_nat n)
unfolding print_nat
print_nat-All n = digits-All (suc n) n [] tt

digits-ne-nil : (f n : ℕ) (out : Text) → n < f → digits f n out ≢ []
unfolding digits
digits-ne-nil zero n out h = elim h [ ]
digits-ne-nil (suc f) n out h = ground (arith, digits-ne-nil f (n / 10) ((b'0' + n % 10) ∷ out))

pub print_nat-ne-nil : (n : ℕ) → print_nat n ≢ []
unfolding print_nat
print_nat-ne-nil n = digits-ne-nil (suc n) n [] (omega arith)

prefix_value-print_nat : (n : ℕ) → prefix_value 0 (print_nat n) ≡ n
unfolding print_nat prefix_value
prefix_value-print_nat n = prefix_value-digits (suc n) n [] (omega arith)

IsDigit-solid : (c : ℕ) → IsDigit c → is_space c ≡ false
unfolding is_space
IsDigit-solid c h = ground arith

pub digits-IsSolid : (s : Text) → All IsDigit s → IsSolid s
digits-IsSolid s h = All-mono IsDigit (λ c. is_space c ≡ false) IsDigit-solid s h

parse_signed_of_digits :
    (s : Text) → s ≢ [] → All IsDigit s → parse_signed s ≡ num (prefix_value 0 s)
unfolding parse_signed
parse_signed_of_digits [] h _ = absurd (h refl)
parse_signed_of_digits (c ∷ s) _ (hc, _) = ground arith

parse_int_of_digits : (s : Text) → s ≢ [] → All IsDigit s → parse_int s ≡ num (prefix_value 0 s)
unfolding parse_int
parse_int_of_digits s h d =
    rw (trim_start_of_IsSolid s (digits-IsSolid s d)) (parse_signed_of_digits s h d)

-- A printed natural number is read back.
pub parse_int-print_nat : (n : ℕ) → parse_int (print_nat n) ≡ num n
parse_int-print_nat n =
    rw (parse_int_of_digits _ (print_nat-ne-nil n) (print_nat-All n))
      (rw (prefix_value-print_nat n))

-- A number that is 0 or more.
abbrev pub IsNatural : Number → Type 0
IsNatural nan = ⊥
IsNatural (int (pos n)) = Unit
IsNatural (int (negsuc n)) = ⊥

-- What holds of every numeral holds of every natural number.
natural_cases : (P : Number → Type 0) → ((n : ℕ) → P (num n)) → (x : Number) → IsNatural x → P x
natural_cases P f nan h = absurd h
natural_cases P f (int (pos n)) h = f n
natural_cases P f (int (negsuc n)) h = absurd h

pub print-All : (x : Number) → IsNatural x → All IsDigit (print x)
unfolding print
print-All = natural_cases (λ x. All IsDigit (print x)) print_nat-All

pub print-ne-nil : (x : Number) → IsNatural x → print x ≢ []
unfolding print
print-ne-nil = natural_cases (λ x. print x ≢ []) print_nat-ne-nil

pub parse_int-print : (x : Number) → IsNatural x → parse_int (print x) ≡ x
unfolding print
parse_int-print = natural_cases (λ x. parse_int (print x) ≡ x) parse_int-print_nat

abbrev pub IsNaturalOrNan : Number → Type 0
IsNaturalOrNan nan = Unit
IsNaturalOrNan (int z) = IsNatural (int z)

parse_signed-IsNaturalOrNan : (s : Text) → All (λ c. c ≢ b'-') s → IsNaturalOrNan (parse_signed s)
unfolding parse_signed
parse_signed-IsNaturalOrNan [] h = tt
parse_signed-IsNaturalOrNan (c ∷ s) (hc, h) = ground arith

-- Text without a minus sign is never read as a negative number.
pub parse_int-IsNaturalOrNan : (s : Text) → All (λ c. c ≢ b'-') s → IsNaturalOrNan (parse_int s)
unfolding parse_int
parse_int-IsNaturalOrNan s h = parse_signed-IsNaturalOrNan _ (trim_start-All _ s h)

pub between-IsNatural : (lo hi : ℕ) (x : Number) → between lo hi x ≡ true → IsNatural x
between-IsNatural lo hi nan h = cc
between-IsNatural lo hi (int (pos n)) h = tt
between-IsNatural lo hi (int (negsuc n)) h = cc
