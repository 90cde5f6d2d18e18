-- ===== src/Outbounds/Form/Protocol.antt =====
-- The protocol block of the outbound form: the protocol branches of `formToOutbound` and
-- `outboundToForm`, and `parseReserved` (frontend/src/pages/Outbounds/form.ts). `Number(s)` is the
-- parameter `read`: what it makes of fractions, exponents and prefixes is not modelled.
pub mod Reserved
pub mod RoundTrip
use rx_ui.Base.{
  ℕ, Bool, true, false, ◌||◌, ◌==◌, List, [], ◌∷◌, Option, none, some, get_or, map, filter,
  if◌then◌else◌,
}
use rx_ui.Js.Text.{Text, codes, is_space, join, push_first, trim}
use rx_ui.Js.Number.{Number, nan, int, is_finite, is_num, num, print}
use rx_ui.Api.Protocol.{VlessEncryptionMode, VlessXorMode}
use rx_ui.Api.Outbound.{HysteriaOutbound, OutboundProtocolConfig, VlessOutbound, WireguardOutbound}
use rx_ui.Inbounds.Values.{or_null, trimmed_items}
use rx_ui.Outbounds.Form.{OutboundProtocol, OutboundVlessFields, OutboundWireguardFields}
use rx_ui.Outbounds.Form.Defaults.{outbound_vless_defaults, outbound_wireguard_defaults}

-- `[,\s]`
abbrev pub is_gap : ℕ → Bool
is_gap c = c == b',' || is_space c

abbrev pub starts_with_gap : Text → Bool
starts_with_gap [] = false
starts_with_gap (c ∷ s) = is_gap c

-- `s.split(/[,\s]+/)`
unfoldable pub split_gaps : Text → List Text
unfolding is_space
split_gaps [] = [] ∷ []
split_gaps (c ∷ s) =
    let rest = split_gaps s in
    if is_gap c then if starts_with_gap s then rest else [] ∷ rest else push_first c rest

unfoldable pub parse_reserved : (Text → Number) → Text → List Number
unfolding split_gaps trimmed_items
parse_reserved read text = filter is_finite (map read (trimmed_items (split_gaps text)))

-- `n || null`
abbrev pub non_zero : Number → Option Number
non_zero nan = none
non_zero (int z) = if is_num 0 (int z) then none else some (int z)

unfoldable pub build_client_wireguard :
    (Text → Number) → OutboundWireguardFields → WireguardOutbound
build_client_wireguard read v = record {
  secret_key = trim v.wg_secret_key;
  address = trimmed_items v.wg_address;
  peer_public_key = trim v.wg_peer_public_key;
  endpoint = trim v.wg_endpoint;
  reserved = parse_reserved read v.wg_reserved;
  mtu = get_or v.wg_mtu (num 0);
  keep_alive = get_or v.wg_keep_alive (num 0);
  pre_shared_key = trim v.wg_pre_shared_key;
  remote_dns = trimmed_items v.wg_remote_dns;
  domain_strategy = trim v.wg_domain_strategy;
  warp = v.wg_warp;
}

-- `mode === 'none' ? null : x`
abbrev pub when_encrypted {ℓ} : {A : Type ℓ} → VlessEncryptionMode → Option A → Option A
when_encrypted VlessEncryptionMode.none o = none
when_encrypted VlessEncryptionMode.mlkem768x25519plus o = o

unfoldable pub build_client_vless : Text → Number → OutboundVlessFields → VlessOutbound
build_client_vless address port v = record {
  address = trim address;
  port = port;
  id = trim v.uuid;
  flow = v.flow;
  reverse_tag = trim v.reverse_tag;
  encryption_mode = v.encryption_mode;
  encryption_xor_mode = when_encrypted v.encryption_mode (some v.encryption_xor_mode);
  encryption_client_key = when_encrypted v.encryption_mode (or_null v.encryption_client_key);
  encryption_padding = when_encrypted v.encryption_mode (or_null v.encryption_padding);
}

unfoldable pub build_client_protocol :
    (Text → Number)
    → OutboundProtocol
    → Text
    → Number
    → OutboundVlessFields
    → OutboundWireguardFields
    → OutboundProtocolConfig
build_client_protocol read OutboundProtocol.vless address port v w =
    OutboundProtocolConfig.vless (build_client_vless address port v)
build_client_protocol read OutboundProtocol.hysteria address port v w =
    OutboundProtocolConfig.hysteria (record { address = trim address; port = port })
build_client_protocol read OutboundProtocol.wireguard address port v w =
    OutboundProtocolConfig.wireguard (build_client_wireguard read w)

abbrev pub client_kind : OutboundProtocolConfig → OutboundProtocol
client_kind (OutboundProtocolConfig.vless p) = OutboundProtocol.vless
client_kind (OutboundProtocolConfig.hysteria p) = OutboundProtocol.hysteria
client_kind (OutboundProtocolConfig.wireguard p) = OutboundProtocol.wireguard

-- A WireGuard tunnel leaves the address and the port at their defaults.
abbrev pub client_address : OutboundProtocolConfig → Text
client_address (OutboundProtocolConfig.vless p) = p.address
client_address (OutboundProtocolConfig.hysteria p) = p.address
client_address (OutboundProtocolConfig.wireguard p) = []

abbrev pub client_port : OutboundProtocolConfig → Number
client_port (OutboundProtocolConfig.vless p) = p.port
client_port (OutboundProtocolConfig.hysteria p) = p.port
client_port (OutboundProtocolConfig.wireguard p) = num 443

unfoldable pub client_vless_form : OutboundProtocolConfig → OutboundVlessFields
client_vless_form (OutboundProtocolConfig.vless p) = record {
  uuid = p.id;
  flow = p.flow;
  reverse_tag = p.reverse_tag;
  encryption_mode = p.encryption_mode;
  encryption_xor_mode = get_or p.encryption_xor_mode VlessXorMode.native;
  encryption_client_key = get_or p.encryption_client_key [];
  encryption_padding = get_or p.encryption_padding [];
}
client_vless_form _ = outbound_vless_defaults

unfoldable pub client_wireguard_form : OutboundProtocolConfig → OutboundWireguardFields
client_wireguard_form (OutboundProtocolConfig.wireguard p) = record {
  wg_secret_key = p.secret_key;
  wg_peer_public_key = p.peer_public_key;
  wg_endpoint = p.endpoint;
  wg_address = p.address;
  wg_reserved = join (codes ", ") (map print p.reserved);
  wg_mtu = non_zero p.mtu;
  wg_keep_alive = non_zero p.keep_alive;
  wg_pre_shared_key = p.pre_shared_key;
  wg_domain_strategy = p.domain_strategy;
  wg_remote_dns = p.remote_dns;
  wg_warp = p.warp;
}
client_wireguard_form _ = outbound_wireguard_defaults
