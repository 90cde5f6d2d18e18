-- ===== src/Outbounds/Form/Defaults.antt =====
-- `OUTBOUND_DEFAULTS` of frontend/src/pages/Outbounds/form.ts.
use rx_ui.Base.{true, false, [], none}
use rx_ui.Js.Text.{codes}
use rx_ui.Js.Number.{num}
use rx_ui.Api.Protocol.{VlessEncryptionMode, VlessXorMode}
use rx_ui.Api.Transport.{XhttpMode}
use rx_ui.Inbounds.Defaults.{finalmask_defaults}
use rx_ui.Outbounds.Form.{
  HyCongestion, OutboundFormValues, OutboundHysteriaFields, OutboundNetwork, OutboundProtocol,
  OutboundRealityFields, OutboundSecurity, OutboundTlsFields, OutboundVlessFields,
  OutboundWireguardFields, OutboundWsFields, OutboundXhttpFields,
}

abbrev pub outbound_vless_defaults : OutboundVlessFields
outbound_vless_defaults = record {
  uuid = [];
  flow = [];
  reverse_tag = [];
  encryption_mode = VlessEncryptionMode.none;
  encryption_xor_mode = VlessXorMode.native;
  encryption_client_key = [];
  encryption_padding = [];
}

abbrev pub outbound_hysteria_defaults : OutboundHysteriaFields
outbound_hysteria_defaults = record {
  hysteria_auth = [];
  hy_congestion = HyCongestion.unset;
  hy_brutal_up_mbps = none;
  hy_brutal_down_mbps = none;
  hy_keep_alive_secs = none;
  hy_max_idle_secs = none;
  hy_udp_hop_ports = [];
  hy_udp_hop_interval_min = none;
  hy_udp_hop_interval_max = none;
}

abbrev pub outbound_ws_defaults : OutboundWsFields
outbound_ws_defaults = record {
  ws_path = codes "/";
  ws_host = [];
  ws_headers = [];
  ws_heartbeat_period = none;
}

abbrev pub outbound_xhttp_defaults : OutboundXhttpFields
outbound_xhttp_defaults = record {
  xhttp_path = codes "/";
  xhttp_host = [];
  xhttp_mode = XhttpMode.auto;
  xhttp_headers = [];
  xhttp_x_padding_bytes = [];
  xhttp_x_padding_obfs_mode = false;
  xhttp_x_padding_key = [];
  xhttp_x_padding_header = [];
  xhttp_x_padding_placement = [];
  xhttp_x_padding_method = [];
  xhttp_session_placement = [];
  xhttp_session_key = [];
  xhttp_session_id_table = [];
  xhttp_session_id_length = [];
  xhttp_seq_placement = [];
  xhttp_seq_key = [];
  xhttp_uplink_data_placement = [];
  xhttp_uplink_data_key = [];
}

abbrev pub outbound_tls_defaults : OutboundTlsFields
outbound_tls_defaults = record {
  tls_server_name = [];
  tls_alpn = [];
  tls_fingerprint = codes "chrome";
  tls_verify_peer_cert_by_name = [];
  tls_pinned_peer_cert_sha256 = [];
}

abbrev pub outbound_reality_defaults : OutboundRealityFields
outbound_reality_defaults = record {
  reality_server_name = [];
  reality_public_key = [];
  reality_short_id = [];
  reality_fingerprint = codes "chrome";
  reality_spider_x = codes "/";
}

abbrev pub outbound_wireguard_defaults : OutboundWireguardFields
outbound_wireguard_defaults = record {
  wg_secret_key = [];
  wg_peer_public_key = [];
  wg_endpoint = [];
  wg_address = [];
  wg_reserved = [];
  wg_mtu = none;
  wg_keep_alive = none;
  wg_pre_shared_key = [];
  wg_domain_strategy = [];
  wg_remote_dns = [];
  wg_warp = false;
}

abbrev pub outbound_defaults : OutboundFormValues
outbound_defaults = record {
  tag = [];
  enabled = true;
  protocol_kind = OutboundProtocol.vless;
  address = [];
  port = num 443;
  vless = outbound_vless_defaults;
  hysteria = outbound_hysteria_defaults;
  network = OutboundNetwork.tcp;
  ws = outbound_ws_defaults;
  xhttp = outbound_xhttp_defaults;
  security = OutboundSecurity.reality;
  tls = outbound_tls_defaults;
  reality = outbound_reality_defaults;
  mux_enabled = false;
  mux_concurrency = num 8;
  send_through = [];
  proxy_tag = [];
  wireguard = outbound_wireguard_defaults;
  finalmask = finalmask_defaults;
}
