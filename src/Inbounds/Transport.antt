-- ===== src/Inbounds/Transport.antt =====
-- The transport layer of frontend/src/pages/Inbounds/form/adapters.ts: the transport blocks of
-- `inboundToForm`, `buildMasquerade` and `buildTransport`.
pub mod Settled
pub mod RoundTrip
use rx_ui.Base.{Bool, true, false, [], ◌∷◌, Option, none, some, get_or, if◌then◌else◌}
use rx_ui.Js.Text.{Text}
use rx_ui.Js.Number.{Number}
use rx_ui.Api.Transport.{
  HysteriaMasquerade, HysteriaTransport, MasqueradeProxy, MasqueradeString, QuicParams,
  TransportConfig, WsTransport, XhttpMode, XhttpTransport,
}
use rx_ui.Inbounds.Form.{
  FormMasqueradeKind, FormNetwork, FormProtocol, HysteriaFormFields, QuicFormFields, WsFormFields,
  XhttpFormFields,
}
use rx_ui.Inbounds.Defaults.{hysteria_defaults, quic_defaults, ws_defaults, xhttp_defaults}
use rx_ui.Inbounds.Values.{collapse_headers, non_empty, or_null, or_null_num, stored_rows}
use rx_ui.Inbounds.Quic.{build_quic_params, shown_quic}

-- The masquerade fields; those of the other kinds stay as they are.
abbrev pub masquerade_form : HysteriaFormFields → HysteriaMasquerade → HysteriaFormFields
masquerade_form v HysteriaMasquerade.notfound = record v {
  hysteria_masq_kind = FormMasqueradeKind.notfound;
}
masquerade_form v (HysteriaMasquerade.file root) = record v {
  hysteria_masq_kind = FormMasqueradeKind.file;
  hysteria_masq_file_root = root;
}
masquerade_form v (HysteriaMasquerade.proxy m) = record v {
  hysteria_masq_kind = FormMasqueradeKind.proxy;
  hysteria_masq_proxy_url = m.url;
  hysteria_masq_proxy_rewrite_host = m.rewrite_host;
  hysteria_masq_proxy_insecure = m.insecure;
}
masquerade_form v (HysteriaMasquerade.string m) = record v {
  hysteria_masq_kind = FormMasqueradeKind.string;
  hysteria_masq_string_content = m.content;
  hysteria_masq_string_status_code = m.status_code;
}

unfoldable pub hysteria_form : TransportConfig → HysteriaFormFields
hysteria_form (TransportConfig.hysteria h) =
    masquerade_form
      (record hysteria_defaults {
        hysteria_auth = get_or h.auth [];
        hysteria_udp_idle_timeout = h.udp_idle_timeout;
      })
      h.masquerade
hysteria_form _ = hysteria_defaults

abbrev pub quic_form : TransportConfig → QuicFormFields
quic_form (TransportConfig.hysteria h) = shown_quic quic_defaults h.quic_params
quic_form (TransportConfig.xhttp x) = shown_quic quic_defaults x.quic_params
quic_form _ = quic_defaults

-- A Hysteria transport is shown as `tcp`.
abbrev pub network_form : TransportConfig → FormNetwork
network_form TransportConfig.tcp = FormNetwork.tcp
network_form (TransportConfig.ws w) = FormNetwork.ws
network_form (TransportConfig.xhttp x) = FormNetwork.xhttp
network_form (TransportConfig.hysteria h) = FormNetwork.tcp

unfoldable pub ws_form : TransportConfig → WsFormFields
ws_form (TransportConfig.ws w) = record {
  ws_path = get_or w.path [];
  ws_host = get_or w.host [];
  ws_headers = stored_rows w.headers;
  ws_accept_proxy_protocol = get_or w.accept_proxy_protocol false;
  ws_heartbeat_period = w.heartbeat_period;
}
ws_form _ = ws_defaults

unfoldable pub xhttp_form : TransportConfig → XhttpFormFields
xhttp_form (TransportConfig.xhttp x) = record {
  xhttp_path = get_or x.path [];
  xhttp_host = get_or x.host [];
  xhttp_mode = get_or x.mode XhttpMode.auto;
  xhttp_headers = stored_rows x.headers;
  xhttp_x_padding_bytes = get_or x.x_padding_bytes [];
  xhttp_no_grpc_header = get_or x.no_grpc_header false;
  xhttp_no_sse_header = get_or x.no_sse_header false;
  xhttp_sc_max_each_post_bytes = get_or x.sc_max_each_post_bytes [];
  xhttp_sc_min_posts_interval_ms = get_or x.sc_min_posts_interval_ms [];
  xhttp_sc_max_buffered_posts = x.sc_max_buffered_posts;
  xhttp_sc_stream_up_server_secs = get_or x.sc_stream_up_server_secs [];
  xhttp_xmux_max_concurrency = get_or x.xmux_max_concurrency [];
  xhttp_xmux_max_connections = get_or x.xmux_max_connections [];
  xhttp_xmux_c_max_reuse_times = get_or x.xmux_c_max_reuse_times [];
  xhttp_xmux_h_max_request_times = get_or x.xmux_h_max_request_times [];
  xhttp_xmux_h_max_reusable_secs = get_or x.xmux_h_max_reusable_secs [];
  xhttp_xmux_h_keep_alive_period = x.xmux_h_keep_alive_period;
  xhttp_x_padding_obfs_mode = get_or x.x_padding_obfs_mode false;
  xhttp_x_padding_key = get_or x.x_padding_key [];
  xhttp_x_padding_header = get_or x.x_padding_header [];
  xhttp_x_padding_placement = get_or x.x_padding_placement [];
  xhttp_x_padding_method = get_or x.x_padding_method [];
  xhttp_uplink_http_method = get_or x.uplink_http_method [];
  xhttp_session_placement = get_or x.session_id_placement [];
  xhttp_session_key = get_or x.session_id_key [];
  xhttp_session_id_table = get_or x.session_id_table [];
  xhttp_session_id_length = get_or x.session_id_length [];
  xhttp_seq_placement = get_or x.seq_placement [];
  xhttp_seq_key = get_or x.seq_key [];
  xhttp_uplink_data_placement = get_or x.uplink_data_placement [];
  xhttp_uplink_data_key = get_or x.uplink_data_key [];
  xhttp_uplink_chunk_size = get_or x.uplink_chunk_size [];
  xhttp_server_max_header_bytes = x.server_max_header_bytes;
}
xhttp_form _ = xhttp_defaults

-- The headers of a string masquerade are sent empty.
unfoldable pub build_masquerade : FormMasqueradeKind → HysteriaFormFields → HysteriaMasquerade
build_masquerade FormMasqueradeKind.notfound v = HysteriaMasquerade.notfound
build_masquerade FormMasqueradeKind.file v = HysteriaMasquerade.file v.hysteria_masq_file_root
build_masquerade FormMasqueradeKind.proxy v = HysteriaMasquerade.proxy (record {
  url = v.hysteria_masq_proxy_url;
  rewrite_host = v.hysteria_masq_proxy_rewrite_host;
  insecure = v.hysteria_masq_proxy_insecure;
})
build_masquerade FormMasqueradeKind.string v = HysteriaMasquerade.string (record {
  content = v.hysteria_masq_string_content;
  headers = [];
  status_code = v.hysteria_masq_string_status_code;
})

unfoldable pub build_hysteria : HysteriaFormFields → QuicFormFields → HysteriaTransport
build_hysteria v quic = record {
  auth = or_null v.hysteria_auth;
  udp_idle_timeout = or_null_num v.hysteria_udp_idle_timeout;
  masquerade = build_masquerade v.hysteria_masq_kind v;
  quic_params = build_quic_params quic;
}

unfoldable pub build_ws : WsFormFields → WsTransport
build_ws v = record {
  path = non_empty v.ws_path;
  host = non_empty v.ws_host;
  headers = non_empty (collapse_headers v.ws_headers);
  accept_proxy_protocol = some v.ws_accept_proxy_protocol;
  heartbeat_period = or_null_num v.ws_heartbeat_period;
}

-- `mode === 'packet-up'`
abbrev pub is_packet_up : XhttpMode → Bool
is_packet_up XhttpMode.packet_up = true
is_packet_up XhttpMode.auto = false
is_packet_up XhttpMode.stream_up = false
is_packet_up XhttpMode.stream_one = false

unfoldable pub build_xhttp : XhttpFormFields → QuicFormFields → XhttpTransport
build_xhttp v quic = record {
  path = non_empty v.xhttp_path;
  host = non_empty v.xhttp_host;
  mode = some v.xhttp_mode;
  headers = non_empty (collapse_headers v.xhttp_headers);
  x_padding_bytes = or_null v.xhttp_x_padding_bytes;
  no_grpc_header = some v.xhttp_no_grpc_header;
  no_sse_header = some v.xhttp_no_sse_header;
  sc_max_each_post_bytes = or_null v.xhttp_sc_max_each_post_bytes;
  sc_min_posts_interval_ms = or_null v.xhttp_sc_min_posts_interval_ms;
  sc_max_buffered_posts = or_null_num v.xhttp_sc_max_buffered_posts;
  sc_stream_up_server_secs = or_null v.xhttp_sc_stream_up_server_secs;
  xmux_max_concurrency = or_null v.xhttp_xmux_max_concurrency;
  xmux_max_connections = or_null v.xhttp_xmux_max_connections;
  xmux_c_max_reuse_times = or_null v.xhttp_xmux_c_max_reuse_times;
  xmux_h_max_request_times = or_null v.xhttp_xmux_h_max_request_times;
  xmux_h_max_reusable_secs = or_null v.xhttp_xmux_h_max_reusable_secs;
  xmux_h_keep_alive_period = or_null_num v.xhttp_xmux_h_keep_alive_period;
  x_padding_obfs_mode = some v.xhttp_x_padding_obfs_mode;
  x_padding_key = or_null v.xhttp_x_padding_key;
  x_padding_header = or_null v.xhttp_x_padding_header;
  x_padding_placement = or_null v.xhttp_x_padding_placement;
  x_padding_method = or_null v.xhttp_x_padding_method;
  uplink_http_method =
      if is_packet_up v.xhttp_mode then or_null v.xhttp_uplink_http_method else none;
  session_id_placement = or_null v.xhttp_session_placement;
  session_id_key = or_null v.xhttp_session_key;
  session_id_table = or_null v.xhttp_session_id_table;
  session_id_length = or_null v.xhttp_session_id_length;
  seq_placement = or_null v.xhttp_seq_placement;
  seq_key = or_null v.xhttp_seq_key;
  uplink_data_placement =
      if is_packet_up v.xhttp_mode then or_null v.xhttp_uplink_data_placement else none;
  uplink_data_key = if is_packet_up v.xhttp_mode then or_null v.xhttp_uplink_data_key else none;
  uplink_chunk_size = or_null v.xhttp_uplink_chunk_size;
  server_max_header_bytes = or_null_num v.xhttp_server_max_header_bytes;
  quic_params = build_quic_params quic;
}

unfoldable pub build_network :
    FormNetwork → WsFormFields → XhttpFormFields → QuicFormFields → TransportConfig
build_network FormNetwork.tcp w x q = TransportConfig.tcp
build_network FormNetwork.ws w x q = TransportConfig.ws (build_ws w)
build_network FormNetwork.xhttp w x q = TransportConfig.xhttp (build_xhttp x q)

-- Hysteria 2 forces its own transport; the other protocols take the selected network.
unfoldable pub build_transport :
    FormProtocol
    → FormNetwork
    → HysteriaFormFields
    → WsFormFields
    → XhttpFormFields
    → QuicFormFields
    → TransportConfig
build_transport FormProtocol.hysteria2 n h w x q = TransportConfig.hysteria (build_hysteria h q)
build_transport FormProtocol.vless n h w x q = build_network n w x q
build_transport FormProtocol.wireguard n h w x q = build_network n w x q
