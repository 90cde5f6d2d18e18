-- ===== src/Outbounds/Form/Transport.antt =====
-- The transport layer of the outbound form: `buildTransport` and the transport blocks of `outboundToForm`
-- (frontend/src/pages/Outbounds/form.ts).
pub mod RoundTrip
use rx_ui.Base.{false, [], Option, none, some, get_or}
use rx_ui.Js.Text.{codes}
use rx_ui.Api.Transport.{TransportConfig, WsTransport, XhttpMode, XhttpTransport}
use rx_ui.Inbounds.Values.{collapse_headers, non_empty, or_null, stored_rows}
use rx_ui.Outbounds.Form.{OutboundNetwork, OutboundWsFields, OutboundXhttpFields}
use rx_ui.Outbounds.Form.Defaults.{outbound_ws_defaults, outbound_xhttp_defaults}

-- A client does not receive the PROXY protocol.
unfoldable pub build_client_ws : OutboundWsFields → WsTransport
build_client_ws v = record {
  path = or_null v.ws_path;
  host = or_null v.ws_host;
  headers = non_empty (collapse_headers v.ws_headers);
  accept_proxy_protocol = none;
  heartbeat_period = v.ws_heartbeat_period;
}

-- The knobs that the form does not expose are null (`XHTTP_NULL`).
unfoldable pub build_client_xhttp : OutboundXhttpFields → XhttpTransport
build_client_xhttp v = record {
  path = or_null v.xhttp_path;
  host = or_null v.xhttp_host;
  mode = some v.xhttp_mode;
  headers = non_empty (collapse_headers v.xhttp_headers);
  x_padding_bytes = or_null v.xhttp_x_padding_bytes;
  no_grpc_header = none;
  no_sse_header = none;
  sc_max_each_post_bytes = none;
  sc_min_posts_interval_ms = none;
  sc_max_buffered_posts = none;
  sc_stream_up_server_secs = none;
  xmux_max_concurrency = none;
  xmux_max_connections = none;
  xmux_c_max_reuse_times = none;
  xmux_h_max_request_times = none;
  xmux_h_max_reusable_secs = none;
  xmux_h_keep_alive_period = none;
  x_padding_obfs_mode = some v.xhttp_x_padding_obfs_mode;
  x_padding_key = or_null v.xhttp_x_padding_key;
  x_padding_header = or_null v.xhttp_x_padding_header;
  x_padding_placement = or_null v.xhttp_x_padding_placement;
  x_padding_method = or_null v.xhttp_x_padding_method;
  uplink_http_method = none;
  session_id_placement = or_null v.xhttp_session_placement;
  session_id_key = or_null v.xhttp_session_key;
  session_id_table = or_null v.xhttp_session_id_table;
  session_id_length = or_null v.xhttp_session_id_length;
  seq_placement = or_null v.xhttp_seq_placement;
  seq_key = or_null v.xhttp_seq_key;
  uplink_data_placement = or_null v.xhttp_uplink_data_placement;
  uplink_data_key = or_null v.xhttp_uplink_data_key;
  uplink_chunk_size = none;
  server_max_header_bytes = none;
  quic_params = none;
}

unfoldable pub build_client_transport :
    OutboundNetwork → OutboundWsFields → OutboundXhttpFields → TransportConfig
build_client_transport OutboundNetwork.tcp w x = TransportConfig.tcp
build_client_transport OutboundNetwork.ws w x = TransportConfig.ws (build_client_ws w)
build_client_transport OutboundNetwork.xhttp w x = TransportConfig.xhttp (build_client_xhttp x)

-- A Hysteria transport has no place in the selector and is shown as `tcp`.
abbrev pub client_network : TransportConfig → OutboundNetwork
client_network TransportConfig.tcp = OutboundNetwork.tcp
client_network (TransportConfig.ws w) = OutboundNetwork.ws
client_network (TransportConfig.xhttp x) = OutboundNetwork.xhttp
client_network (TransportConfig.hysteria h) = OutboundNetwork.tcp

unfoldable pub client_ws_form : TransportConfig → OutboundWsFields
client_ws_form (TransportConfig.ws w) = record {
  ws_path = get_or w.path (codes "/");
  ws_host = get_or w.host [];
  ws_headers = stored_rows w.headers;
  ws_heartbeat_period = w.heartbeat_period;
}
client_ws_form _ = outbound_ws_defaults

unfoldable pub client_xhttp_form : TransportConfig → OutboundXhttpFields
client_xhttp_form (TransportConfig.xhttp x) = record {
  xhttp_path = get_or x.path (codes "/");
  xhttp_host = get_or x.host [];
  xhttp_mode = get_or x.mode XhttpMode.auto;
  xhttp_headers = stored_rows x.headers;
  xhttp_x_padding_bytes = get_or x.x_padding_bytes [];
  xhttp_x_padding_obfs_mode = get_or x.x_padding_obfs_mode false;
  xhttp_x_padding_key = get_or x.x_padding_key [];
  xhttp_x_padding_header = get_or x.x_padding_header [];
  xhttp_x_padding_placement = get_or x.x_padding_placement [];
  xhttp_x_padding_method = get_or x.x_padding_method [];
  xhttp_session_placement = get_or x.session_id_placement [];
  xhttp_session_key = get_or x.session_id_key [];
  xhttp_session_id_table = get_or x.session_id_table [];
  xhttp_session_id_length = get_or x.session_id_length [];
  xhttp_seq_placement = get_or x.seq_placement [];
  xhttp_seq_key = get_or x.seq_key [];
  xhttp_uplink_data_placement = get_or x.uplink_data_placement [];
  xhttp_uplink_data_key = get_or x.uplink_data_key [];
}
client_xhttp_form _ = outbound_xhttp_defaults
