-- ===== src/Outbounds/Link/Authority.antt =====
-- Cutting a link apart, and its host and port.
use rx_ui.Base.{ℕ, ◌≡◌, refl, true, false, [], ◌∷◌, ◌++◌, none, some, arith}
use rx_ui.Js.Text.{Text}
use rx_ui.Js.Text.Split.{Lacks}
use rx_ui.Js.Number.{Number, between, print}
use rx_ui.Js.Number.Decimal.{between-IsNatural, parse_int-print}
use rx_ui.Outbounds.Link.{Parsed, cut_first, cut_last, is_bracketed, parse_port, split_host_port}

module _ (c : ℕ) where
  pub cut_first_none : (s : Text) → Lacks c s → cut_first c s ≡ none
  unfolding cut_first
  cut_first_none [] h = refl
  cut_first_none (d ∷ s) (hd, h) = ground (arith, cut_first_none s h)

  pub cut_first_at : (s t : Text) → Lacks c s → cut_first c (s ++ c ∷ t) ≡ some (s, t)
  unfolding cut_first
  cut_first_at [] t h = ground arith
  cut_first_at (d ∷ s) t (hd, h) = ground (arith, cut_first_at s t h)

  pub cut_last_none : (s : Text) → Lacks c s → cut_last c s ≡ none
  unfolding cut_last
  cut_last_none [] h = refl
  cut_last_none (d ∷ s) (hd, h) = ground (arith, cut_last_none s h)

  pub cut_last_at : (s t : Text) → Lacks c t → cut_last c (s ++ c ∷ t) ≡ some (s, t)
  unfolding cut_last
  cut_last_at [] t h = ground (arith, cut_last_none t h)
  cut_last_at (d ∷ s) t h = rw (cut_last_at s t h) refl

-- Every port from 1 to 65535 is read back from its decimal digits.
pub parse_port-print : (p : Number) → between 0 65536 p ≡ true → parse_port (print p) ≡ Parsed.ok p
unfolding parse_port
parse_port-print p h = rw (parse_int-print p (between-IsNatural 0 65536 p h), h) refl

bare_with_port :
    (host port : Text) → is_bracketed host ≡ false → is_bracketed (host ++ b':' ∷ port) ≡ false
bare_with_port [] port h = refl
bare_with_port (c ∷ host) port h = h

-- A host that does not begin with a bracket is split from the port, which holds no colon, at the last
-- colon: the host itself may hold some, as an IPv6 address does.
pub split_host_port_bare :
    (host port : Text)
    → is_bracketed host ≡ false
    → Lacks b':' port
    → split_host_port (host ++ b':' ∷ port) ≡ Parsed.ok (host, port)
unfolding split_host_port
split_host_port_bare host port nb h =
    rw (bare_with_port host port nb, cut_last_at b':' host port h) refl

-- A bracketed host, which holds no closing bracket, is split from the port behind `]:`.
pub split_host_port_bracketed :
    (host port : Text)
    → Lacks b']' host
    → split_host_port (b'[' ∷ host ++ b']' ∷ b':' ∷ port) ≡ Parsed.ok (host, port)
unfolding split_host_port
split_host_port_bracketed host port h = rw (cut_first_at b']' host (b':' ∷ port) h) refl
