-- ===== src/Inbounds/Form.antt =====
-- frontend/src/pages/Inbounds/form/types.ts. `FormValues` is one flat object; its fields stand here in
-- one record for each prefix, and keep their names.
use rx_ui.Base.{Bool, List, Option}
use rx_ui.Js.Text.{Text}
use rx_ui.Js.Number.{Number}
use rx_ui.Api.FinalMask.{FinalMaskKind, NoiseItem, XmcProfile}
use rx_ui.Api.Protocol.{
  VlessEncryptionAuth, VlessEncryptionMode, VlessFallback, VlessFlow, VlessXorMode,
}
use rx_ui.Api.Transport.{XhttpMode, TransportKind}
use rx_ui.Api.Security.{SecurityKind, TlsCertificate}

pub data FormNetwork : Type 0 where
  tcp ws xhttp : FormNetwork

pub data FormSecurity : Type 0 where
  none tls reality : FormSecurity

pub data FormProtocol : Type 0 where
  vless hysteria2 wireguard : FormProtocol

pub data FormMasqueradeKind : Type 0 where
  notfound file proxy string : FormMasqueradeKind

pub data FormCongestion : Type 0 where
  default reno bbr brutal force_brutal : FormCongestion

-- The empty string is `unset`.
pub data SudokuAscii : Type 0 where
  unset prefer_entropy prefer_ascii : SudokuAscii

pub data FragmentPacketsMode : Type 0 where
  tlshello whole range : FragmentPacketsMode

-- The rules of a protocol that drive the form; labels, hints and components are display.
pub record ProtocolDef : Type 0 where
  pub allowed_transports : List TransportKind
  pub allowed_securities : List SecurityKind
  pub default_security : SecurityKind
  pub has_flow : Bool

-- One row of a header list.
pub record HeaderRow : Type 0 where
  pub name : Text
  pub value : Text

pub record VlessFormFields : Type 0 where
  pub vless_flow : VlessFlow
  pub vless_encryption_mode : VlessEncryptionMode
  pub vless_encryption_auth : VlessEncryptionAuth
  pub vless_encryption_xor_mode : VlessXorMode
  pub vless_encryption_seconds_from : Number
  pub vless_encryption_seconds_to : Option Number
  pub vless_encryption_padding : Text
  pub vless_encryption_server_key : Text
  pub vless_encryption_client_key : Text
  pub vless_fallbacks : List VlessFallback

pub record RealityFormFields : Type 0 where
  pub reality_dest : Text
  pub reality_server_names : List Text
  pub reality_short_ids : List Text
  pub reality_fingerprint : Text
  pub reality_spider_x : Text
  pub reality_min_client_ver : Text
  pub reality_max_client_ver : Text
  pub reality_xver : Number
  pub reality_private_key : Text
  pub reality_public_key : Text

pub record WsFormFields : Type 0 where
  pub ws_path : Text
  pub ws_host : Text
  pub ws_headers : List HeaderRow
  pub ws_accept_proxy_protocol : Bool
  pub ws_heartbeat_period : Option Number

pub record TlsFormFields : Type 0 where
  pub tls_certificates : List TlsCertificate
  pub tls_server_name : Text
  pub tls_alpn : List Text
  pub tls_fingerprint : Text
  pub tls_min_version : Text
  pub tls_max_version : Text
  pub tls_cipher_suites : List Text
  pub tls_enable_session_resumption : Bool
  pub tls_reject_unknown_sni : Bool
  pub tls_self_signed : Bool
  pub tls_master_key_log : Text
  pub tls_ech_server_keys : Text
  pub tls_ech_config_list : Text
  pub tls_curve_preferences : List Text

pub record XhttpFormFields : Type 0 where
  pub xhttp_path : Text
  pub xhttp_host : Text
  pub xhttp_mode : XhttpMode
  pub xhttp_headers : List HeaderRow
  pub xhttp_x_padding_bytes : Text
  pub xhttp_no_grpc_header : Bool
  pub xhttp_no_sse_header : Bool
  pub xhttp_sc_max_each_post_bytes : Text
  pub xhttp_sc_min_posts_interval_ms : Text
  pub xhttp_sc_max_buffered_posts : Option Number
  pub xhttp_sc_stream_up_server_secs : Text
  pub xhttp_xmux_max_concurrency : Text
  pub xhttp_xmux_max_connections : Text
  pub xhttp_xmux_c_max_reuse_times : Text
  pub xhttp_xmux_h_max_request_times : Text
  pub xhttp_xmux_h_max_reusable_secs : Text
  pub xhttp_xmux_h_keep_alive_period : Option Number
  pub xhttp_x_padding_obfs_mode : Bool
  pub xhttp_x_padding_key : Text
  pub xhttp_x_padding_header : Text
  pub xhttp_x_padding_placement : Text
  pub xhttp_x_padding_method : Text
  pub xhttp_uplink_http_method : Text
  pub xhttp_session_placement : Text
  pub xhttp_session_key : Text
  pub xhttp_session_id_table : Text
  pub xhttp_session_id_length : Text
  pub xhttp_seq_placement : Text
  pub xhttp_seq_key : Text
  pub xhttp_uplink_data_placement : Text
  pub xhttp_uplink_data_key : Text
  pub xhttp_uplink_chunk_size : Text
  pub xhttp_server_max_header_bytes : Option Number

pub record HysteriaFormFields : Type 0 where
  pub hysteria_auth : Text
  pub hysteria_udp_idle_timeout : Option Number
  pub hysteria_masq_kind : FormMasqueradeKind
  pub hysteria_masq_file_root : Text
  pub hysteria_masq_proxy_url : Text
  pub hysteria_masq_proxy_rewrite_host : Bool
  pub hysteria_masq_proxy_insecure : Bool
  pub hysteria_masq_string_content : Text
  pub hysteria_masq_string_status_code : Number

pub record WireguardFormFields : Type 0 where
  pub wg_secret_key : Text
  pub wg_public_key : Text
  pub wg_subnet : Text
  pub wg_mtu : Option Number
  pub wg_dns : Text
  pub wg_client_allowed_ips : Text
  pub wg_client_keepalive : Option Number
  pub wg_issue_preshared_key : Bool

pub record QuicFormFields : Type 0 where
  pub quic_congestion : FormCongestion
  pub quic_bbr_profile : Text
  pub quic_brutal_up_mbps : Option Number
  pub quic_brutal_down_mbps : Option Number
  pub quic_max_idle_timeout_secs : Option Number
  pub quic_keep_alive_period_secs : Option Number
  pub quic_init_stream_receive_window : Option Number
  pub quic_max_stream_receive_window : Option Number
  pub quic_init_conn_receive_window : Option Number
  pub quic_max_conn_receive_window : Option Number
  pub quic_disable_path_mtu_discovery : Bool
  pub quic_max_incoming_streams : Option Number
  pub quic_udp_hop_ports : List Text
  pub quic_udp_hop_interval_min : Option Number
  pub quic_udp_hop_interval_max : Option Number

-- The fields that the outbound form shares.
pub record FinalMaskFormFields : Type 0 where
  pub finalmask_kind : FinalMaskKind
  pub finalmask_sudoku_password : Text
  pub finalmask_sudoku_ascii : SudokuAscii
  pub finalmask_sudoku_custom_tables : List Text
  pub finalmask_sudoku_padding_min : Option Number
  pub finalmask_sudoku_padding_max : Option Number
  pub finalmask_fragment_packets_mode : FragmentPacketsMode
  pub finalmask_fragment_packets_from : Option Number
  pub finalmask_fragment_packets_to : Option Number
  pub finalmask_fragment_lengths : Text
  pub finalmask_fragment_delays : Text
  pub finalmask_noise_items : List NoiseItem
  pub finalmask_salamander_password : Text
  pub finalmask_xmc_hostname : Text
  pub finalmask_xmc_password : Text
  pub finalmask_xmc_profiles : List XmcProfile

pub record SniffingFormFields : Type 0 where
  pub sniffing_enabled : Bool
  pub sniffing_dest_override : List Text
  pub sniffing_route_only : Bool
  pub sniffing_metadata_only : Bool
  pub sniffing_domains_excluded : List Text
  pub sniffing_ips_excluded : List Text

pub record SockoptFormFields : Type 0 where
  pub sockopt_trusted_x_forwarded_for : List Text
  pub sockopt_tcp_keep_alive_interval : Option Number
  pub sockopt_tcp_keep_alive_idle : Option Number
  pub sockopt_tcp_mptcp : Bool
  pub sockopt_accept_proxy_protocol : Bool
  pub sockopt_tcp_fast_open : Option Number
  pub sockopt_v6only : Bool

pub record FormValues : Type 0 where
  pub tag : Text
  pub port : Number
  pub listen : Text
  pub protocol_kind : FormProtocol
  pub network : FormNetwork
  pub security : FormSecurity
  pub vless : VlessFormFields
  pub reality : RealityFormFields
  pub ws : WsFormFields
  pub tls : TlsFormFields
  pub xhttp : XhttpFormFields
  pub hysteria : HysteriaFormFields
  pub wireguard : WireguardFormFields
  pub quic : QuicFormFields
  pub finalmask : FinalMaskFormFields
  pub sniffing : SniffingFormFields
  pub sockopt : SockoptFormFields
