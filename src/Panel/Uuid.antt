-- ===== src/Panel/Uuid.antt =====
-- `uuid` of frontend/src/lib/id.ts. `native` is what `crypto.randomUUID` answers, where there is one, and
-- `b i` the byte at `i` of the array that `getRandomValues` fills. On a byte `x`, `(x & 0x0f) | 0x40` is
-- `x % 16 + 64`, and `(x & 0x3f) | 0x80` is `x % 64 + 128`, since the bits do not overlap.
use rx_ui.Base.{
  ℕ, ◌+◌, ◌-◌, ◌/◌, ◌%◌, ◌<◌, ◌≤◌, ◌≡◌, ◌⊎◌, refl, ltb, ◌==◌, [], ◌∷◌, ◌++◌, Option, none, some,
  arith, if◌then◌else◌,
}
use rx_ui.Js.Text.{Text, codes}

-- A digit of `x.toString(16)`.
abbrev pub hex_digit : ℕ → ℕ
hex_digit n = if ltb n 10 then b'0' + n else b'a' + (n - 10)

-- `x.toString(16).padStart(2, '0')`, of a byte
abbrev pub hex : ℕ → Text
hex x = hex_digit (x / 16) ∷ hex_digit (x % 16) ∷ []

-- `b[6] = …` and `b[8] = …`
abbrev pub stamped : (ℕ → ℕ) → ℕ → ℕ
stamped b i = if i == 6 then b 6 % 16 + 64 else if i == 8 then b 8 % 64 + 128 else b i

unfoldable pub assembled : (ℕ → ℕ) → Text
assembled b =
    let h = λ (i : ℕ). hex (stamped b i) in
    h 0
    ++ h 1
    ++ h 2
    ++ h 3
    ++ b'-' ∷ h 4
    ++ h 5
    ++ b'-' ∷ h 6
    ++ h 7
    ++ b'-' ∷ h 8
    ++ h 9
    ++ b'-' ∷ h 10
    ++ h 11
    ++ h 12
    ++ h 13
    ++ h 14
    ++ h 15

unfoldable pub uuid : Option Text → (ℕ → ℕ) → Text
unfolding assembled
uuid none b = assembled b
uuid (some s) b = s

abbrev pub IsHex : ℕ → Type 0
IsHex c = ((b'0' ≤ c) × (c ≤ b'9')) ⊎ ((b'a' ≤ c) × (c ≤ b'f'))

-- `8`, `9`, `a` or `b`
abbrev pub IsVariant : ℕ → Type 0
IsVariant c = ((b'8' ≤ c) × (c ≤ b'9')) ⊎ ((b'a' ≤ c) × (c ≤ b'b'))

-- What a letter of the pattern stands for: `x` for a digit, `y` for one of the variant, another letter for
-- itself.
abbrev pub Fits : ℕ → ℕ → Type 0
Fits p c = if p == b'x' then IsHex c else if p == b'y' then IsVariant c else (c ≡ p)

pub data Matches : Text → Text → Type 0 where
  all_read : Matches [] []
  one_read : {p c : ℕ} {ps cs : Text} → Fits p c → Matches ps cs → Matches (p ∷ ps) (c ∷ cs)

hex_digit-IsHex : (n : ℕ) → n < 16 → IsHex (hex_digit n)
hex_digit-IsHex n h = ground arith

hex_digit_high-IsHex : (x : ℕ) → x < 256 → IsHex (hex_digit (x / 16))
hex_digit_high-IsHex x h = hex_digit-IsHex (x / 16) (omega arith)

hex_digit_low-IsHex : (x : ℕ) → IsHex (hex_digit (x % 16))
hex_digit_low-IsHex x = hex_digit-IsHex (x % 16) (omega arith)

version_digit : (x : ℕ) → hex_digit ((x % 16 + 64) / 16) ≡ b'4'
version_digit x = ground arith

hex_digit-IsVariant : (x : ℕ) → IsVariant (hex_digit ((x % 64 + 128) / 16))
hex_digit-IsVariant x = ground arith

-- Two digits of a byte stand where the pattern has `xx`.
byte-Matches :
    {ps cs : Text} (x : ℕ) → x < 256 → Matches ps cs → Matches (b'x' ∷ b'x' ∷ ps) (hex x ++ cs)
byte-Matches x h k =
    Matches.one_read (hex_digit_high-IsHex x h) (Matches.one_read (hex_digit_low-IsHex x) k)

version-Matches :
    {ps cs : Text} (x : ℕ) → Matches ps cs → Matches (b'4' ∷ b'x' ∷ ps) (hex (x % 16 + 64) ++ cs)
version-Matches x k =
    Matches.one_read (version_digit x) (Matches.one_read (hex_digit_low-IsHex (x % 16 + 64)) k)

variant-Matches :
    {ps cs : Text} (x : ℕ) → Matches ps cs → Matches (b'y' ∷ b'x' ∷ ps) (hex (x % 64 + 128) ++ cs)
variant-Matches x k =
    Matches.one_read (hex_digit-IsVariant x)
      (Matches.one_read (hex_digit_low-IsHex (x % 64 + 128)) k)

dash-Matches : {ps cs : Text} → Matches ps cs → Matches (b'-' ∷ ps) (b'-' ∷ cs)
dash-Matches k = Matches.one_read refl k

-- Where the browser has no generator of its own, an identifier that is made of 16 random bytes is a UUID
-- of version 4: 32 digits in five groups, the version and the variant in their places.
pub uuid-Matches :
    (b : ℕ → ℕ)
    → ((i : ℕ) → b i < 256)
    → Matches (codes "xxxxxxxx-xxxx-4xxx-yxxx-xxxxxxxxxxxx") (uuid none b)
unfolding uuid
uuid-Matches b h = byte-Matches (b 0) (h 0) (
    byte-Matches (b 1) (h 1) (
      byte-Matches (b 2) (h 2) (
        byte-Matches (b 3) (h 3) (
          dash-Matches (
            byte-Matches (b 4) (h 4) (
              byte-Matches (b 5) (h 5) (
                dash-Matches (
                  version-Matches (b 6) (
                    byte-Matches (b 7) (h 7) (
                      dash-Matches (
                        variant-Matches (b 8) (
                          byte-Matches (b 9) (h 9) (
                            dash-Matches (
                              byte-Matches (b 10) (h 10) (
                                byte-Matches (b 11) (h 11) (
                                  byte-Matches (b 12) (h 12) (
                                    byte-Matches (b 13) (h 13) (
                                      byte-Matches (b 14) (h 14) (
                                        byte-Matches (b 15) (h 15)
                                          Matches.all_read)))))))))))))))))))
