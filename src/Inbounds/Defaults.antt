-- ===== src/Inbounds/Defaults.antt =====
-- frontend/src/pages/Inbounds/form/defaults.ts, one value for each group of fields.
use rx_ui.Base.{true, false, [], ◌∷◌, none, some}
use rx_ui.Js.Text.{codes}
use rx_ui.Js.Number.{num}
use rx_ui.Api.FinalMask.{FinalMaskKind, NoiseItem, XmcProfile}
use rx_ui.Api.Protocol.{VlessEncryptionAuth, VlessEncryptionMode, VlessFlow, VlessXorMode}
use rx_ui.Api.Transport.{XhttpMode}
use rx_ui.Inbounds.Form.{
  FormNetwork, FormSecurity, FormProtocol, FormMasqueradeKind, FormCongestion, SudokuAscii,
  FragmentPacketsMode, VlessFormFields, RealityFormFields, WsFormFields, TlsFormFields,
  XhttpFormFields, HysteriaFormFields, WireguardFormFields, QuicFormFields, FinalMaskFormFields,
  SniffingFormFields, SockoptFormFields, FormValues,
}

abbrev pub vless_defaults : VlessFormFields
vless_defaults = record {
  vless_flow = VlessFlow.none;
  vless_encryption_mode = VlessEncryptionMode.none;
  vless_encryption_auth = VlessEncryptionAuth.mlkem768;
  vless_encryption_xor_mode = VlessXorMode.native;
  vless_encryption_seconds_from = num 600;
  vless_encryption_seconds_to = none;
  vless_encryption_padding = [];
  vless_encryption_server_key = [];
  vless_encryption_client_key = [];
  vless_fallbacks = [];
}

abbrev pub reality_defaults : RealityFormFields
reality_defaults = record {
  reality_dest = codes "www.cloudflare.com:443";
  reality_server_names = codes "www.cloudflare.com" ∷ [];
  reality_short_ids = [];
  reality_fingerprint = codes "chrome";
  reality_spider_x = codes "/";
  reality_min_client_ver = [];
  reality_max_client_ver = [];
  reality_xver = num 0;
  reality_private_key = [];
  reality_public_key = [];
}

abbrev pub ws_defaults : WsFormFields
ws_defaults = record {
  ws_path = codes "/";
  ws_host = [];
  ws_headers = [];
  ws_accept_proxy_protocol = false;
  ws_heartbeat_period = none;
}

abbrev pub tls_defaults : TlsFormFields
tls_defaults = record {
  tls_certificates = [];
  tls_server_name = [];
  tls_alpn = codes "http/1.1" ∷ [];
  tls_fingerprint = codes "chrome";
  tls_min_version = [];
  tls_max_version = [];
  tls_cipher_suites = [];
  tls_enable_session_resumption = false;
  tls_reject_unknown_sni = false;
  tls_self_signed = false;
  tls_master_key_log = [];
  tls_ech_server_keys = [];
  tls_ech_config_list = [];
  tls_curve_preferences = [];
}

abbrev pub xhttp_defaults : XhttpFormFields
xhttp_defaults = record {
  xhttp_path = codes "/upload";
  xhttp_host = [];
  xhttp_mode = XhttpMode.auto;
  xhttp_headers = [];
  xhttp_x_padding_bytes = [];
  xhttp_no_grpc_header = false;
  xhttp_no_sse_header = false;
  xhttp_sc_max_each_post_bytes = [];
  xhttp_sc_min_posts_interval_ms = [];
  xhttp_sc_max_buffered_posts = none;
  xhttp_sc_stream_up_server_secs = [];
  xhttp_xmux_max_concurrency = [];
  xhttp_xmux_max_connections = [];
  xhttp_xmux_c_max_reuse_times = [];
  xhttp_xmux_h_max_request_times = [];
  xhttp_xmux_h_max_reusable_secs = [];
  xhttp_xmux_h_keep_alive_period = none;
  xhttp_x_padding_obfs_mode = false;
  xhttp_x_padding_key = [];
  xhttp_x_padding_header = [];
  xhttp_x_padding_placement = [];
  xhttp_x_padding_method = [];
  xhttp_uplink_http_method = [];
  xhttp_session_placement = [];
  xhttp_session_key = [];
  xhttp_session_id_table = [];
  xhttp_session_id_length = [];
  xhttp_seq_placement = [];
  xhttp_seq_key = [];
  xhttp_uplink_data_placement = [];
  xhttp_uplink_data_key = [];
  xhttp_uplink_chunk_size = [];
  xhttp_server_max_header_bytes = none;
}

abbrev pub hysteria_defaults : HysteriaFormFields
hysteria_defaults = record {
  hysteria_auth = [];
  hysteria_udp_idle_timeout = none;
  hysteria_masq_kind = FormMasqueradeKind.notfound;
  hysteria_masq_file_root = [];
  hysteria_masq_proxy_url = [];
  hysteria_masq_proxy_rewrite_host = false;
  hysteria_masq_proxy_insecure = false;
  hysteria_masq_string_content = [];
  hysteria_masq_string_status_code = num 200;
}

abbrev pub wireguard_defaults : WireguardFormFields
wireguard_defaults = record {
  wg_secret_key = [];
  wg_public_key = [];
  wg_subnet = codes "10.66.66.0/24";
  wg_mtu = some (num 1420);
  wg_dns = codes "1.1.1.1";
  wg_client_allowed_ips = codes "0.0.0.0/0";
  wg_client_keepalive = some (num 25);
  wg_issue_preshared_key = true;
}

abbrev pub quic_defaults : QuicFormFields
quic_defaults = record {
  quic_congestion = FormCongestion.default;
  quic_bbr_profile = [];
  quic_brutal_up_mbps = none;
  quic_brutal_down_mbps = none;
  quic_max_idle_timeout_secs = none;
  quic_keep_alive_period_secs = none;
  quic_init_stream_receive_window = none;
  quic_max_stream_receive_window = none;
  quic_init_conn_receive_window = none;
  quic_max_conn_receive_window = none;
  quic_disable_path_mtu_discovery = false;
  quic_max_incoming_streams = none;
  quic_udp_hop_ports = [];
  quic_udp_hop_interval_min = none;
  quic_udp_hop_interval_max = none;
}

-- A row of the noise list and of the profile list with nothing filled in.
abbrev pub blank_noise_item : NoiseItem
blank_noise_item = record {
  packet_hex = [];
  rand_min = none;
  rand_max = none;
  delay_min = none;
  delay_max = none;
}

abbrev pub blank_xmc_profile : XmcProfile
blank_xmc_profile = record {
  username = [];
  uuid = [];
  textures_value = [];
  textures_signature = [];
}

abbrev pub finalmask_defaults : FinalMaskFormFields
finalmask_defaults = record {
  finalmask_kind = FinalMaskKind.none;
  finalmask_sudoku_password = [];
  finalmask_sudoku_ascii = SudokuAscii.prefer_entropy;
  finalmask_sudoku_custom_tables = [];
  finalmask_sudoku_padding_min = none;
  finalmask_sudoku_padding_max = none;
  finalmask_fragment_packets_mode = FragmentPacketsMode.tlshello;
  finalmask_fragment_packets_from = none;
  finalmask_fragment_packets_to = none;
  finalmask_fragment_lengths = codes "100-200";
  finalmask_fragment_delays = [];
  finalmask_noise_items =
      record {
        packet_hex = [];
        rand_min = some (num 5);
        rand_max = some (num 10);
        delay_min = none;
        delay_max = none;
      }
      ∷ [];
  finalmask_salamander_password = [];
  finalmask_xmc_hostname = [];
  finalmask_xmc_password = [];
  finalmask_xmc_profiles = blank_xmc_profile ∷ [];
}

abbrev pub sniffing_defaults : SniffingFormFields
sniffing_defaults = record {
  sniffing_enabled = false;
  sniffing_dest_override = codes "http" ∷ codes "tls" ∷ codes "fakedns" ∷ [];
  sniffing_route_only = false;
  sniffing_metadata_only = false;
  sniffing_domains_excluded = [];
  sniffing_ips_excluded = [];
}

abbrev pub sockopt_defaults : SockoptFormFields
sockopt_defaults = record {
  sockopt_trusted_x_forwarded_for = [];
  sockopt_tcp_keep_alive_interval = none;
  sockopt_tcp_keep_alive_idle = none;
  sockopt_tcp_mptcp = false;
  sockopt_accept_proxy_protocol = false;
  sockopt_tcp_fast_open = none;
  sockopt_v6only = false;
}

abbrev pub form_defaults : FormValues
form_defaults = record {
  tag = [];
  port = num 443;
  listen = codes "0.0.0.0";
  protocol_kind = FormProtocol.vless;
  network = FormNetwork.tcp;
  security = FormSecurity.reality;
  vless = vless_defaults;
  reality = reality_defaults;
  ws = ws_defaults;
  tls = tls_defaults;
  xhttp = xhttp_defaults;
  hysteria = hysteria_defaults;
  wireguard = wireguard_defaults;
  quic = quic_defaults;
  finalmask = finalmask_defaults;
  sniffing = sniffing_defaults;
  sockopt = sockopt_defaults;
}
