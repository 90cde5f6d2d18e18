-- ===== src/Inbounds/Protocol.antt =====
-- The protocol layer of frontend/src/pages/Inbounds/form/adapters.ts: the first blocks of
-- `inboundToForm`, and `buildProtocol`.
pub mod RoundTrip
use rx_ui.Base.{
  Bool, true, false, ◌&&◌, [], ◌∷◌, Option, none, some, get_or, not, is_empty, if◌then◌else◌,
}
use rx_ui.Js.Text.{Text, trim}
use rx_ui.Js.Number.{Number, num, is_num}
use rx_ui.Api.Protocol.{
  ProtocolConfig, VlessEncryptionAuth, VlessEncryptionMode, VlessProtocol, VlessXorMode,
  WireguardProtocol,
}
use rx_ui.Inbounds.Form.{FormProtocol, VlessFormFields, WireguardFormFields}
use rx_ui.Inbounds.Defaults.{vless_defaults, wireguard_defaults}
use rx_ui.Inbounds.Values.{non_empty}

-- `inb.protocol.kind`
abbrev pub protocol_kind : ProtocolConfig → FormProtocol
protocol_kind (ProtocolConfig.vless p) = FormProtocol.vless
protocol_kind ProtocolConfig.hysteria2 = FormProtocol.hysteria2
protocol_kind (ProtocolConfig.wireguard p) = FormProtocol.wireguard

-- The VLESS fields of the form; another protocol leaves them at their defaults.
unfoldable pub vless_form : ProtocolConfig → VlessFormFields
vless_form (ProtocolConfig.vless p) = record {
  vless_flow = p.flow;
  vless_encryption_mode = p.encryption_mode;
  vless_encryption_auth = get_or p.encryption_auth VlessEncryptionAuth.mlkem768;
  vless_encryption_xor_mode = get_or p.encryption_xor_mode VlessXorMode.native;
  vless_encryption_seconds_from = get_or p.encryption_seconds_from (num 600);
  vless_encryption_seconds_to = p.encryption_seconds_to;
  vless_encryption_padding = get_or p.encryption_padding [];
  vless_encryption_server_key = get_or p.encryption_server_key [];
  vless_encryption_client_key = get_or p.encryption_client_key [];
  vless_fallbacks = p.fallbacks;
}
vless_form _ = vless_defaults

-- The WireGuard fields of the form; an MTU of 0 is shown as the default.
unfoldable pub wireguard_form : ProtocolConfig → WireguardFormFields
wireguard_form (ProtocolConfig.wireguard p) = record {
  wg_secret_key = p.secret_key;
  wg_public_key = p.public_key;
  wg_subnet = p.subnet;
  wg_mtu = if is_num 0 p.mtu then wireguard_defaults.wg_mtu else some p.mtu;
  wg_dns = p.dns;
  wg_client_allowed_ips = p.client_allowed_ips;
  wg_client_keepalive = some p.client_keepalive;
  wg_issue_preshared_key = p.issue_preshared_key;
}
wireguard_form _ = wireguard_defaults

-- `mode !== 'none'`
abbrev pub is_encrypted : VlessEncryptionMode → Bool
is_encrypted VlessEncryptionMode.none = false
is_encrypted VlessEncryptionMode.mlkem768x25519plus = true

unfoldable pub build_vless : VlessFormFields → VlessProtocol
build_vless v =
    let is_enc = is_encrypted v.vless_encryption_mode in
    record {
      flow = v.vless_flow;
      encryption_mode = v.vless_encryption_mode;
      encryption_auth = if is_enc then some v.vless_encryption_auth else none;
      encryption_xor_mode = if is_enc then some v.vless_encryption_xor_mode else none;
      encryption_seconds_from = if is_enc then some v.vless_encryption_seconds_from else none;
      encryption_seconds_to = if is_enc then v.vless_encryption_seconds_to else none;
      encryption_padding =
          if is_enc && not (is_empty (trim v.vless_encryption_padding))
          then some (trim v.vless_encryption_padding)
          else none;
      encryption_server_key = if is_enc then non_empty v.vless_encryption_server_key else none;
      encryption_client_key = if is_enc then non_empty v.vless_encryption_client_key else none;
      fallbacks = if is_enc then [] else v.vless_fallbacks;
    }

unfoldable pub build_wireguard : WireguardFormFields → WireguardProtocol
build_wireguard v = record {
  secret_key = v.wg_secret_key;
  public_key = v.wg_public_key;
  subnet = trim v.wg_subnet;
  mtu = get_or v.wg_mtu (num 0);
  dns = trim v.wg_dns;
  client_allowed_ips = trim v.wg_client_allowed_ips;
  client_keepalive = get_or v.wg_client_keepalive (num 0);
  issue_preshared_key = v.wg_issue_preshared_key;
}

unfoldable pub build_protocol :
    FormProtocol → VlessFormFields → WireguardFormFields → ProtocolConfig
unfolding build_vless build_wireguard
build_protocol FormProtocol.hysteria2 v w = ProtocolConfig.hysteria2
build_protocol FormProtocol.wireguard v w = ProtocolConfig.wireguard (build_wireguard w)
build_protocol FormProtocol.vless v w = ProtocolConfig.vless (build_vless v)
