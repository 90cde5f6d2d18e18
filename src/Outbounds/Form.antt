-- ===== src/Outbounds/Form.antt =====
-- The values of the outbound form: `OutboundFormValues` of
-- frontend/src/pages/Outbounds/form.ts. The flat object stands here in one record for each prefix of its
-- fields, and the fields keep their names.
pub mod Defaults
pub mod Transport
pub mod Security
pub mod Quic
pub mod Protocol
pub mod Adapters
use rx_ui.Base.{Bool, List, Option}
use rx_ui.Js.Text.{Text}
use rx_ui.Js.Number.{Number}
use rx_ui.Api.Protocol.{VlessEncryptionMode, VlessXorMode}
use rx_ui.Api.Transport.{XhttpMode}
use rx_ui.Inbounds.Form.{FinalMaskFormFields, HeaderRow}

pub data OutboundProtocol : Type 0 where
  vless hysteria wireguard : OutboundProtocol

pub data OutboundNetwork : Type 0 where
  tcp ws xhttp : OutboundNetwork

pub data OutboundSecurity : Type 0 where
  none tls reality : OutboundSecurity

-- The empty string is `unset`.
pub data HyCongestion : Type 0 where
  unset brutal bbr : HyCongestion

pub record OutboundVlessFields : Type 0 where
  pub uuid : Text
  pub flow : Text
  pub reverse_tag : Text
  pub encryption_mode : VlessEncryptionMode
  pub encryption_xor_mode : VlessXorMode
  pub encryption_client_key : Text
  pub encryption_padding : Text

pub record OutboundHysteriaFields : Type 0 where
  pub hysteria_auth : Text
  pub hy_congestion : HyCongestion
  pub hy_brutal_up_mbps : Option Number
  pub hy_brutal_down_mbps : Option Number
  pub hy_keep_alive_secs : Option Number
  pub hy_max_idle_secs : Option Number
  pub hy_udp_hop_ports : List Text
  pub hy_udp_hop_interval_min : Option Number
  pub hy_udp_hop_interval_max : Option Number

pub record OutboundWsFields : Type 0 where
  pub ws_path : Text
  pub ws_host : Text
  pub ws_headers : List HeaderRow
  pub ws_heartbeat_period : Option Number

pub record OutboundXhttpFields : Type 0 where
  pub xhttp_path : Text
  pub xhttp_host : Text
  pub xhttp_mode : XhttpMode
  pub xhttp_headers : List HeaderRow
  pub xhttp_x_padding_bytes : Text
  pub xhttp_x_padding_obfs_mode : Bool
  pub xhttp_x_padding_key : Text
  pub xhttp_x_padding_header : Text
  pub xhttp_x_padding_placement : Text
  pub xhttp_x_padding_method : Text
  pub xhttp_session_placement : Text
  pub xhttp_session_key : Text
  pub xhttp_session_id_table : Text
  pub xhttp_session_id_length : Text
  pub xhttp_seq_placement : Text
  pub xhttp_seq_key : Text
  pub xhttp_uplink_data_placement : Text
  pub xhttp_uplink_data_key : Text

pub record OutboundTlsFields : Type 0 where
  pub tls_server_name : Text
  pub tls_alpn : List Text
  pub tls_fingerprint : Text
  pub tls_verify_peer_cert_by_name : List Text
  pub tls_pinned_peer_cert_sha256 : List Text

pub record OutboundRealityFields : Type 0 where
  pub reality_server_name : Text
  pub reality_public_key : Text
  pub reality_short_id : Text
  pub reality_fingerprint : Text
  pub reality_spider_x : Text

pub record OutboundWireguardFields : Type 0 where
  pub wg_secret_key : Text
  pub wg_peer_public_key : Text
  pub wg_endpoint : Text
  pub wg_address : List Text
  pub wg_reserved : Text
  pub wg_mtu : Option Number
  pub wg_keep_alive : Option Number
  pub wg_pre_shared_key : Text
  pub wg_domain_strategy : Text
  pub wg_remote_dns : List Text
  pub wg_warp : Bool

pub record OutboundFormValues : Type 0 where
  pub tag : Text
  pub enabled : Bool
  pub protocol_kind : OutboundProtocol
  pub address : Text
  pub port : Number
  pub vless : OutboundVlessFields
  pub hysteria : OutboundHysteriaFields
  pub network : OutboundNetwork
  pub ws : OutboundWsFields
  pub xhttp : OutboundXhttpFields
  pub security : OutboundSecurity
  pub tls : OutboundTlsFields
  pub reality : OutboundRealityFields
  pub mux_enabled : Bool
  pub mux_concurrency : Number
  pub send_through : Text
  pub proxy_tag : Text
  pub wireguard : OutboundWireguardFields
  pub finalmask : FinalMaskFormFields
