-- ===== src/Panel/Clients.antt =====
-- The pure helpers of frontend/src/pages/Clients.tsx: the address of a subscription, and traffic quotas
-- between bytes and the form. A value of the form is a fraction: dividing by a unit, a power of two, is
-- exact on floating-point numbers, and so is multiplying again; quotas past 2^53 bytes are outside the
-- model.
pub mod Laws
use rx_ui.Base.{
  ℕ, ◌+◌, ◌*◌, ◌/◌, ◌%◌, Bool, true, false, not, ◌&&◌, ltb, leb, ◌==◌, [], ◌∷◌, ◌++◌, Option, none,
  some, is_empty, if◌then◌else◌,
}
use rx_ui.Js.Text.{Text, codes, text_eq, trim}
use rx_ui.Js.Number.{print_nat}
use rx_ui.Inbounds.Values.{or_text}

pub data TrafficUnit : Type 0 where
  mb gb tb : TrafficUnit

-- `TRAFFIC_UNIT_BYTES`
abbrev pub unit_bytes : TrafficUnit → ℕ
unit_bytes TrafficUnit.mb = 1048576
unit_bytes TrafficUnit.gb = 1073741824
unit_bytes TrafficUnit.tb = 1099511627776

-- What the form holds: `numer / denom` in the unit, or nothing.
pub record TrafficForm : Type 0 where
  pub value : Option (ℕ × ℕ)
  pub unit : TrafficUnit

-- `bytes >= div && bytes % div === 0`
abbrev pub divides_cleanly : ℕ → TrafficUnit → Bool
divides_cleanly bytes unit = leb (unit_bytes unit) bytes && bytes % unit_bytes unit == 0

-- `{ value: bytes / div, unit }`, for a unit that divides the bytes
abbrev pub whole_units : ℕ → TrafficUnit → TrafficForm
whole_units bytes unit = record { value = some (bytes / unit_bytes unit, 1); unit = unit }

abbrev pub no_quota : TrafficForm
no_quota = record { value = none; unit = TrafficUnit.gb }

unfoldable pub bytes_to_traffic_form : Option ℕ → TrafficForm
bytes_to_traffic_form none = no_quota
bytes_to_traffic_form (some bytes) =
    if bytes == 0
    then no_quota
    else if divides_cleanly bytes TrafficUnit.tb
    then whole_units bytes TrafficUnit.tb
    else if divides_cleanly bytes TrafficUnit.gb
    then whole_units bytes TrafficUnit.gb
    else if divides_cleanly bytes TrafficUnit.mb
    then whole_units bytes TrafficUnit.mb
    else record { value = some (bytes, unit_bytes TrafficUnit.mb); unit = TrafficUnit.mb }

-- `Math.round(numer / denom)`: halves go up.
abbrev pub rounded : ℕ → ℕ → ℕ
rounded numer denom = (2 * numer + denom) / (2 * denom)

unfoldable pub traffic_form_to_bytes : Option (ℕ × ℕ) → TrafficUnit → Option ℕ
traffic_form_to_bytes none unit = none
traffic_form_to_bytes (some (numer, denom)) unit =
    if numer == 0 then none else some (rounded (numer * unit_bytes unit) denom)

-- The settings that the address of a subscription depends on, and the origin of the page.
pub record LinkSettings : Type 0 where
  pub sub_port : ℕ
  pub sub_tls_mode : Text
  pub sub_link_host : Text

pub record Location : Type 0 where
  pub protocol : Text
  pub hostname : Text
  pub port : Text

-- `settings?.sub_port ?? 0`
abbrev pub sub_port_of : Option LinkSettings → ℕ
sub_port_of none = 0
sub_port_of (some s) = s.sub_port

-- `settings?.sub_tls_mode === mode`
abbrev pub has_mode : Text → Option LinkSettings → Bool
has_mode mode none = false
has_mode mode (some s) = text_eq s.sub_tls_mode mode

-- `settings?.sub_link_host?.trim()`, blank where there are no settings
abbrev pub link_host_of : Option LinkSettings → Text
link_host_of none = []
link_host_of (some s) = trim s.sub_link_host

unfoldable pub link_protocol : Location → Option LinkSettings → Text
link_protocol here s =
    let own_listener = ltb 0 (sub_port_of s) in
    if own_listener && has_mode (codes "off") s
    then codes "http:"
    else if own_listener && has_mode (codes "custom") s
    then codes "https:"
    else here.protocol

unfoldable pub link_port : Location → Option LinkSettings → Text
link_port here s = if ltb 0 (sub_port_of s) then print_nat (sub_port_of s) else here.port

abbrev pub port_suffix : Text → Text
port_suffix port =
    if not (is_empty port) && not (text_eq port (codes "80")) && not (text_eq port (codes "443"))
    then b':' ∷ port
    else []

unfoldable pub build_subscription_url : Location → Text → Option LinkSettings → Text
unfolding link_protocol link_port
build_subscription_url here token s =
    link_protocol here s
    ++ (codes "//"
        ++ (or_text (link_host_of s) here.hostname
            ++ (port_suffix (link_port here s) ++ (codes "/sub/" ++ token))))
