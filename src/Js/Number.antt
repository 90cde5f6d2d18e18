-- ===== src/Js/Number.antt =====
-- Numbers: the integers and NaN. Fractions, the infinities and the rounding of integers past 2^53
-- are outside the model; -0 is 0.
pub mod Decimal
use rx_ui.Base.{
  ℕ, zero, suc, ◌+◌, ◌-◌, ◌*◌, ◌/◌, ◌%◌, Bool, true, false, ◌&&◌, List, [], ◌∷◌, Option, none, some,
  ltb, leb, ◌==◌, if◌then◌else◌,
}
use rx_ui.Js.Text.{Text, trim_start}

-- `negsuc n` is -(n + 1).
pub data ℤ : Type 0 where
  pos : ℕ → ℤ
  negsuc : ℕ → ℤ

pub data Number : Type 0 where
  nan : Number
  int : ℤ → Number

abbrev pub num : ℕ → Number
num n = int (pos n)

-- `Number.isFinite(x)`; here also the negation of `Number.isNaN(x)`
abbrev pub is_finite : Number → Bool
is_finite nan = false
is_finite (int z) = true

-- `lo < x && x < hi`, for bounds that are natural numbers; false for NaN
abbrev pub between : ℕ → ℕ → Number → Bool
between lo hi nan = false
between lo hi (int (pos n)) = ltb lo n && ltb n hi
between lo hi (int (negsuc n)) = false

-- `x === k`
abbrev pub is_num : ℕ → Number → Bool
is_num k nan = false
is_num k (int (pos n)) = n == k
is_num k (int (negsuc n)) = false

-- The decimal digits of `n` before `out`; fuel above `n` suffices.
digits : ℕ → ℕ → Text → Text
digits zero n out = out
digits (suc f) n out =
    let rest = digits f (n / 10) ((b'0' + n % 10) ∷ out) in
    if ltb n 10 then (b'0' + n) ∷ out else rest

unfoldable pub print_nat : ℕ → Text
unfolding digits
print_nat n = digits (suc n) n []

-- `String(x)`
unfoldable pub print : Number → Text
print nan = b'N' ∷ b'a' ∷ b'N' ∷ []
print (int (pos n)) = print_nat n
print (int (negsuc n)) = b'-' ∷ print_nat (suc n)

abbrev pub is_digit : ℕ → Bool
is_digit c = leb b'0' c && leb c b'9'

-- The value of the digits that the text begins with, behind the digits read so far.
prefix_value : ℕ → Text → ℕ
prefix_value n [] = n
prefix_value n (c ∷ s) =
    let rest = prefix_value (n * 10 + (c - b'0')) s in if is_digit c then rest else n

parse_digits : Text → Option ℕ
unfolding prefix_value
parse_digits [] = none
parse_digits (c ∷ s) = if is_digit c then some (prefix_value 0 (c ∷ s)) else none

abbrev positive : Option ℕ → Number
positive none = nan
positive (some n) = num n

abbrev negative : Option ℕ → Number
negative none = nan
negative (some zero) = num 0
negative (some (suc n)) = int (negsuc n)

parse_signed : Text → Number
unfolding parse_digits
parse_signed [] = nan
parse_signed (c ∷ s) =
    if c == b'-'
    then negative (parse_digits s)
    else if c == b'+'
    then positive (parse_digits s)
    else positive (parse_digits (c ∷ s))

-- `Number.parseInt(s, 10)`
unfoldable pub parse_int : Text → Number
unfolding parse_signed
parse_int s = parse_signed (trim_start s)
