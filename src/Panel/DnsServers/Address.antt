-- ===== src/Panel/DnsServers/Address.antt =====
-- `wireOf` and `displayAddress` of frontend/src/components/DnsServersField.tsx: the transport of a
-- resolver's address, and the address without its scheme.
use rx_ui.Base.{
  ℕ, ◌≡◌, ◌≢◌, refl, ap, ◌∙◌, Bool, true, false, not, ◌&&◌, ◌||◌, leb, ◌==◌, [], ◌∷◌, ◌++◌, All,
  Option, none, some, get_or, map, all, arith, if◌then◌else◌,
}
use rx_ui.Js.Text.{behind_prefix, Text, codes, lower, text_eq, trim}

-- `s.startsWith(p)`
unfoldable pub starts_with : Text → Text → Bool
starts_with [] s = true
starts_with (c ∷ p) [] = false
starts_with (c ∷ p) (d ∷ s) = c == d && starts_with p s

pub data WireCode : Type 0 where
  doh doq tcp sys udp : WireCode

-- Straight off the node, or through the routing; the system resolver and plain UDP say neither.
pub data WireQual : Type 0 where
  local chain unsaid : WireQual

-- The transport of an address that is trimmed and in lower case.
wire_of_lower : Text → WireCode × WireQual
unfolding starts_with text_eq
wire_of_lower a =
    if starts_with (codes "https+local://") a || starts_with (codes "h2c+local://") a
    then (WireCode.doh, WireQual.local)
    else if starts_with (codes "https://") a || starts_with (codes "h2c://") a
    then (WireCode.doh, WireQual.chain)
    else if starts_with (codes "quic+local://") a
    then (WireCode.doq, WireQual.local)
    else if starts_with (codes "tcp+local://") a
    then (WireCode.tcp, WireQual.local)
    else if starts_with (codes "tcp://") a
    then (WireCode.tcp, WireQual.chain)
    else if text_eq a (codes "localhost")
    then (WireCode.sys, WireQual.unsaid)
    else (WireCode.udp, WireQual.unsaid)

unfoldable pub wire_of : Text → WireCode × WireQual
unfolding wire_of_lower
wire_of address = wire_of_lower (map lower (trim address))

-- `[a-z0-9+]`, in either case
abbrev pub is_scheme_char : ℕ → Bool
is_scheme_char c =
    (leb b'a' c && leb c b'z')
    || (leb b'A' c && leb c b'Z')
    || (leb b'0' c && leb c b'9')
    || c == b'+'

-- `.`: no line terminator
abbrev pub is_line_char : ℕ → Bool
is_line_char c = not (c == 10 || c == 13 || c == 0x2028 || c == 0x2029)

-- `(.+)$`
abbrev pub whole_line : Text → Option Text
whole_line [] = none
whole_line (c ∷ s) = if all is_line_char (c ∷ s) then some (c ∷ s) else none

-- `:\/\/(.+)$`
unfoldable pub behind_slashes : Text → Option Text
unfolding behind_prefix
behind_slashes s = elim (behind_prefix (codes "://") s) [
  | none ↦ none
  | some rest ↦ whole_line rest
]

-- The first group of `/^[a-z0-9+]+:\/\/(.+)$/i`; `named` says whether a letter of the scheme was read.
unfoldable pub behind_scheme : Bool → Text → Option Text
behind_scheme named [] = none
behind_scheme named (c ∷ s) =
    let rest = behind_scheme true s in
    if is_scheme_char c then rest else if named then behind_slashes (c ∷ s) else none

unfoldable pub display_address : Text → Text
display_address address = get_or (behind_scheme false (trim address)) (trim address)

behind_slashes_lem :
    (rest : Text)
    → rest ≢ []
    → all is_line_char rest ≡ true
    → behind_slashes (codes "://" ++ rest) ≡ some rest
unfolding behind_slashes behind_prefix
behind_slashes_lem [] ne h = absurd (ne refl)
behind_slashes_lem (c ∷ rest) ne h = ground arith

behind_scheme_lem :
    (scheme rest : Text) (named : Bool)
    → All (λ c. is_scheme_char c ≡ true) scheme
    → (scheme ≡ [] → named ≡ true)
    → rest ≢ []
    → all is_line_char rest ≡ true
    → behind_scheme named (scheme ++ codes "://" ++ rest) ≡ some rest
unfolding behind_scheme
behind_scheme_lem [] rest named hs hn ne h = rw (hn refl) (behind_slashes_lem rest ne h)
behind_scheme_lem (c ∷ scheme) rest named (hc, hs) hn ne h =
    ground (arith, behind_scheme_lem scheme rest true hs (λ e. refl) ne h)

-- An address that is a scheme, "://" and one line of text is shown as that text, whatever white space
-- stands around it.
pub display_address_of_scheme :
    (address scheme rest : Text)
    → trim address ≡ scheme ++ codes "://" ++ rest
    → scheme ≢ []
    → All (λ c. is_scheme_char c ≡ true) scheme
    → rest ≢ []
    → all is_line_char rest ≡ true
    → display_address address ≡ rest
unfolding display_address
display_address_of_scheme address scheme rest e ns hs ne h =
    let found : behind_scheme false (trim address) ≡ some rest =
      ap (behind_scheme false) e
      ∙ behind_scheme_lem scheme rest false hs (λ z. absurd (ns z)) ne h in
    ap (λ o. get_or o (trim address)) found

behind_slashes_none : (c : ℕ) (s : Text) → c ≢ b':' → behind_slashes (c ∷ s) ≡ none
unfolding behind_slashes behind_prefix
behind_slashes_none c s h = ground arith

behind_scheme_none :
    (named : Bool) (s : Text) → All (λ c. c ≢ b':') s → behind_scheme named s ≡ none
unfolding behind_scheme
behind_scheme_none named [] h = refl
behind_scheme_none named (c ∷ s) (hc, h) =
    ground (arith, behind_scheme_none true s h, behind_slashes_none c s hc)

-- Without a colon an address is shown as it is, trimmed.
pub display_address_plain :
    (address : Text) → All (λ c. c ≢ b':') (trim address) → display_address address ≡ trim address
unfolding display_address
display_address_plain address h =
    ap (λ o. get_or o (trim address)) (behind_scheme_none false (trim address) h)
