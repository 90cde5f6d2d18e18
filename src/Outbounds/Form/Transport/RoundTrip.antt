-- ===== src/Outbounds/Form/Transport/RoundTrip.antt =====
-- The transport that the outbound form sends, and a stored one that is opened and saved.
use rx_ui.Base.{◌≡◌, ◌≢◌, refl, sym, ap, false, [], none}
use rx_ui.Js.Text.{codes, trim}
use rx_ui.Api.Transport.{TransportConfig, WsTransport, XhttpMode, XhttpTransport}
use rx_ui.Inbounds.Values.Laws.{
  IsSettledText, or_null-get_or, or_null-IsSettled, some-get_or, some-ne-none,
}
use rx_ui.Inbounds.Transport.Settled.{AreSettledHeaders, non_empty-AreSettled}
use rx_ui.Inbounds.Transport.RoundTrip.{collapse_stored}
use rx_ui.Inbounds.Security.RoundTrip.{IsPresentText, or_null-IsPresentText, or_null-shown}
use rx_ui.Outbounds.Form.{OutboundNetwork, OutboundWsFields, OutboundXhttpFields}
use rx_ui.Outbounds.Form.Transport.{
  build_client_transport, build_client_ws, build_client_xhttp, client_network, client_ws_form,
  client_xhttp_form,
}

-- The path is there: a missing one is shown as `/`.
pub record IsSettledClientWs (x : WsTransport) : Type 0 where
  pub path : IsPresentText x.path
  pub host : IsSettledText x.host
  pub headers : AreSettledHeaders x.headers
  pub accept_proxy_protocol : x.accept_proxy_protocol ≡ none

pub record IsSettledClientXhttp (x : XhttpTransport) : Type 0 where
  pub path : IsPresentText x.path
  pub host : IsSettledText x.host
  pub mode : x.mode ≢ none
  pub headers : AreSettledHeaders x.headers
  pub x_padding_bytes : IsSettledText x.x_padding_bytes
  pub no_grpc_header : x.no_grpc_header ≡ none
  pub no_sse_header : x.no_sse_header ≡ none
  pub sc_max_each_post_bytes : x.sc_max_each_post_bytes ≡ none
  pub sc_min_posts_interval_ms : x.sc_min_posts_interval_ms ≡ none
  pub sc_max_buffered_posts : x.sc_max_buffered_posts ≡ none
  pub sc_stream_up_server_secs : x.sc_stream_up_server_secs ≡ none
  pub xmux_max_concurrency : x.xmux_max_concurrency ≡ none
  pub xmux_max_connections : x.xmux_max_connections ≡ none
  pub xmux_c_max_reuse_times : x.xmux_c_max_reuse_times ≡ none
  pub xmux_h_max_request_times : x.xmux_h_max_request_times ≡ none
  pub xmux_h_max_reusable_secs : x.xmux_h_max_reusable_secs ≡ none
  pub xmux_h_keep_alive_period : x.xmux_h_keep_alive_period ≡ none
  pub x_padding_obfs_mode : x.x_padding_obfs_mode ≢ none
  pub x_padding_key : IsSettledText x.x_padding_key
  pub x_padding_header : IsSettledText x.x_padding_header
  pub x_padding_placement : IsSettledText x.x_padding_placement
  pub x_padding_method : IsSettledText x.x_padding_method
  pub uplink_http_method : x.uplink_http_method ≡ none
  pub session_id_placement : IsSettledText x.session_id_placement
  pub session_id_key : IsSettledText x.session_id_key
  pub session_id_table : IsSettledText x.session_id_table
  pub session_id_length : IsSettledText x.session_id_length
  pub seq_placement : IsSettledText x.seq_placement
  pub seq_key : IsSettledText x.seq_key
  pub uplink_data_placement : IsSettledText x.uplink_data_placement
  pub uplink_data_key : IsSettledText x.uplink_data_key
  pub uplink_chunk_size : x.uplink_chunk_size ≡ none
  pub server_max_header_bytes : x.server_max_header_bytes ≡ none
  pub quic_params : x.quic_params ≡ none

abbrev pub IsSettledClientTransport : TransportConfig → Type 0
IsSettledClientTransport TransportConfig.tcp = Unit
IsSettledClientTransport (TransportConfig.ws w) = IsSettledClientWs w
IsSettledClientTransport (TransportConfig.xhttp x) = IsSettledClientXhttp x
IsSettledClientTransport (TransportConfig.hysteria h) = ⊥

-- The path of the selected transport is not blank.
abbrev pub HasPath : OutboundNetwork → OutboundWsFields → OutboundXhttpFields → Type 0
HasPath OutboundNetwork.tcp w x = Unit
HasPath OutboundNetwork.ws w x = trim w.ws_path ≢ []
HasPath OutboundNetwork.xhttp w x = trim x.xhttp_path ≢ []

build_client_xhttp-IsSettled :
    (v : OutboundXhttpFields) → trim v.xhttp_path ≢ [] → IsSettledClientXhttp (build_client_xhttp v)
unfolding build_client_xhttp
build_client_xhttp-IsSettled v h = record {
  path = or_null-IsPresentText v.xhttp_path h;
  host = or_null-IsSettled v.xhttp_host;
  mode = some-ne-none v.xhttp_mode;
  headers = non_empty-AreSettled v.xhttp_headers;
  x_padding_bytes = or_null-IsSettled v.xhttp_x_padding_bytes;
  no_grpc_header = refl;
  no_sse_header = refl;
  sc_max_each_post_bytes = refl;
  sc_min_posts_interval_ms = refl;
  sc_max_buffered_posts = refl;
  sc_stream_up_server_secs = refl;
  xmux_max_concurrency = refl;
  xmux_max_connections = refl;
  xmux_c_max_reuse_times = refl;
  xmux_h_max_request_times = refl;
  xmux_h_max_reusable_secs = refl;
  xmux_h_keep_alive_period = refl;
  x_padding_obfs_mode = some-ne-none v.xhttp_x_padding_obfs_mode;
  x_padding_key = or_null-IsSettled v.xhttp_x_padding_key;
  x_padding_header = or_null-IsSettled v.xhttp_x_padding_header;
  x_padding_placement = or_null-IsSettled v.xhttp_x_padding_placement;
  x_padding_method = or_null-IsSettled v.xhttp_x_padding_method;
  uplink_http_method = refl;
  session_id_placement = or_null-IsSettled v.xhttp_session_placement;
  session_id_key = or_null-IsSettled v.xhttp_session_key;
  session_id_table = or_null-IsSettled v.xhttp_session_id_table;
  session_id_length = or_null-IsSettled v.xhttp_session_id_length;
  seq_placement = or_null-IsSettled v.xhttp_seq_placement;
  seq_key = or_null-IsSettled v.xhttp_seq_key;
  uplink_data_placement = or_null-IsSettled v.xhttp_uplink_data_placement;
  uplink_data_key = or_null-IsSettled v.xhttp_uplink_data_key;
  uplink_chunk_size = refl;
  server_max_header_bytes = refl;
  quic_params = refl;
}

build_client_ws-IsSettled :
    (v : OutboundWsFields) → trim v.ws_path ≢ [] → IsSettledClientWs (build_client_ws v)
unfolding build_client_ws
build_client_ws-IsSettled v h = record {
  path = or_null-IsPresentText v.ws_path h;
  host = or_null-IsSettled v.ws_host;
  headers = non_empty-AreSettled v.ws_headers;
  accept_proxy_protocol = refl;
}

pub build_client_transport-IsSettled :
    (n : OutboundNetwork) (w : OutboundWsFields) (x : OutboundXhttpFields)
    → HasPath n w x
    → IsSettledClientTransport (build_client_transport n w x)
unfolding build_client_transport
build_client_transport-IsSettled OutboundNetwork.tcp w x h = tt
build_client_transport-IsSettled OutboundNetwork.ws w x h = build_client_ws-IsSettled w h
build_client_transport-IsSettled OutboundNetwork.xhttp w x h = build_client_xhttp-IsSettled x h

build_client_ws_opened :
    (x : WsTransport)
    → IsSettledClientWs x
    → build_client_ws (client_ws_form (TransportConfig.ws x)) ≡ x
unfolding build_client_ws client_ws_form
build_client_ws_opened x h = λ i. record {
  path = or_null-shown x.path (codes "/") h.path i;
  host = or_null-get_or x.host h.host i;
  headers = collapse_stored x.headers h.headers i;
  accept_proxy_protocol = sym h.accept_proxy_protocol i;
  heartbeat_period = x.heartbeat_period;
}

build_client_xhttp_opened :
    (x : XhttpTransport)
    → IsSettledClientXhttp x
    → build_client_xhttp (client_xhttp_form (TransportConfig.xhttp x)) ≡ x
unfolding build_client_xhttp client_xhttp_form
build_client_xhttp_opened x h = λ i. record {
  path = or_null-shown x.path (codes "/") h.path i;
  host = or_null-get_or x.host h.host i;
  mode = some-get_or x.mode XhttpMode.auto h.mode i;
  headers = collapse_stored x.headers h.headers i;
  x_padding_bytes = or_null-get_or x.x_padding_bytes h.x_padding_bytes i;
  no_grpc_header = sym h.no_grpc_header i;
  no_sse_header = sym h.no_sse_header i;
  sc_max_each_post_bytes = sym h.sc_max_each_post_bytes i;
  sc_min_posts_interval_ms = sym h.sc_min_posts_interval_ms i;
  sc_max_buffered_posts = sym h.sc_max_buffered_posts i;
  sc_stream_up_server_secs = sym h.sc_stream_up_server_secs i;
  xmux_max_concurrency = sym h.xmux_max_concurrency i;
  xmux_max_connections = sym h.xmux_max_connections i;
  xmux_c_max_reuse_times = sym h.xmux_c_max_reuse_times i;
  xmux_h_max_request_times = sym h.xmux_h_max_request_times i;
  xmux_h_max_reusable_secs = sym h.xmux_h_max_reusable_secs i;
  xmux_h_keep_alive_period = sym h.xmux_h_keep_alive_period i;
  x_padding_obfs_mode = some-get_or x.x_padding_obfs_mode false h.x_padding_obfs_mode i;
  x_padding_key = or_null-get_or x.x_padding_key h.x_padding_key i;
  x_padding_header = or_null-get_or x.x_padding_header h.x_padding_header i;
  x_padding_placement = or_null-get_or x.x_padding_placement h.x_padding_placement i;
  x_padding_method = or_null-get_or x.x_padding_method h.x_padding_method i;
  uplink_http_method = sym h.uplink_http_method i;
  session_id_placement = or_null-get_or x.session_id_placement h.session_id_placement i;
  session_id_key = or_null-get_or x.session_id_key h.session_id_key i;
  session_id_table = or_null-get_or x.session_id_table h.session_id_table i;
  session_id_length = or_null-get_or x.session_id_length h.session_id_length i;
  seq_placement = or_null-get_or x.seq_placement h.seq_placement i;
  seq_key = or_null-get_or x.seq_key h.seq_key i;
  uplink_data_placement = or_null-get_or x.uplink_data_placement h.uplink_data_placement i;
  uplink_data_key = or_null-get_or x.uplink_data_key h.uplink_data_key i;
  uplink_chunk_size = sym h.uplink_chunk_size i;
  server_max_header_bytes = sym h.server_max_header_bytes i;
  quic_params = sym h.quic_params i;
}

pub build_client_transport_opened :
    (t : TransportConfig)
    → IsSettledClientTransport t
    → build_client_transport (client_network t) (client_ws_form t) (client_xhttp_form t) ≡ t
unfolding build_client_transport
build_client_transport_opened TransportConfig.tcp h = refl
build_client_transport_opened (TransportConfig.ws w) h =
    ap TransportConfig.ws (build_client_ws_opened w h)
build_client_transport_opened (TransportConfig.xhttp x) h =
    ap TransportConfig.xhttp (build_client_xhttp_opened x h)
build_client_transport_opened (TransportConfig.hysteria x) h = absurd h
