-- ===== src/Inbounds/Transport/Settled.antt =====
-- The transport layers that the form sends.
use rx_ui.Base.{◌≡◌, ◌≢◌, refl, [], ◌∷◌, Option, none, some, List, if◌then◌else◌}
use mathlib.Core.List.{cons-ne-nil}
use rx_ui.Js.Text.{Text}
use rx_ui.Js.Object.{Object}
use rx_ui.Api.Transport.{
  HysteriaMasquerade, TransportConfig, WsTransport, XhttpMode, XhttpTransport,
}
use rx_ui.Inbounds.Form.{
  FormMasqueradeKind, FormNetwork, FormProtocol, HeaderRow, HysteriaFormFields, QuicFormFields,
  WsFormFields, XhttpFormFields,
}
use rx_ui.Inbounds.Values.{collapse_headers, non_empty, or_null}
use rx_ui.Inbounds.Values.Laws.{
  IsSettledText, IsSettledList, IsSettledNumber, or_null-IsSettled, or_null_num-IsSettled,
  non_empty-IsSettled, some-ne-none,
}
use rx_ui.Inbounds.Values.Headers.{IsSettledHeaders, collapse_headers-IsSettled}
use rx_ui.Inbounds.Quic.RoundTrip.{IsSettledQuic, build_quic_params-IsSettled}
use rx_ui.Inbounds.Transport.{
  build_masquerade, build_hysteria, build_ws, is_packet_up, build_xhttp, build_network,
  build_transport,
}

-- No headers, or some with distinct names that are trimmed and not blank.
abbrev pub AreSettledHeaders : Option (Object Text) → Type 0
AreSettledHeaders none = Unit
AreSettledHeaders (some o) = (o ≢ []) × IsSettledHeaders o

-- Settled text in the mode `packet-up`, and nothing in any other mode.
abbrev pub IsUplinkText : Option XhttpMode → Option Text → Type 0
IsUplinkText none o = o ≡ none
IsUplinkText (some XhttpMode.packet_up) o = IsSettledText o
IsUplinkText (some XhttpMode.auto) o = o ≡ none
IsUplinkText (some XhttpMode.stream_up) o = o ≡ none
IsUplinkText (some XhttpMode.stream_one) o = o ≡ none

pub record IsSettledWs (x : WsTransport) : Type 0 where
  pub path : IsSettledList x.path
  pub host : IsSettledList x.host
  pub headers : AreSettledHeaders x.headers
  pub accept_proxy_protocol : x.accept_proxy_protocol ≢ none
  pub heartbeat_period : IsSettledNumber x.heartbeat_period

pub record IsSettledXhttp (x : XhttpTransport) : Type 0 where
  pub path : IsSettledList x.path
  pub host : IsSettledList x.host
  pub mode : x.mode ≢ none
  pub headers : AreSettledHeaders x.headers
  pub x_padding_bytes : IsSettledText x.x_padding_bytes
  pub no_grpc_header : x.no_grpc_header ≢ none
  pub no_sse_header : x.no_sse_header ≢ none
  pub sc_max_each_post_bytes : IsSettledText x.sc_max_each_post_bytes
  pub sc_min_posts_interval_ms : IsSettledText x.sc_min_posts_interval_ms
  pub sc_max_buffered_posts : IsSettledNumber x.sc_max_buffered_posts
  pub sc_stream_up_server_secs : IsSettledText x.sc_stream_up_server_secs
  pub xmux_max_concurrency : IsSettledText x.xmux_max_concurrency
  pub xmux_max_connections : IsSettledText x.xmux_max_connections
  pub xmux_c_max_reuse_times : IsSettledText x.xmux_c_max_reuse_times
  pub xmux_h_max_request_times : IsSettledText x.xmux_h_max_request_times
  pub xmux_h_max_reusable_secs : IsSettledText x.xmux_h_max_reusable_secs
  pub xmux_h_keep_alive_period : IsSettledNumber x.xmux_h_keep_alive_period
  pub x_padding_obfs_mode : x.x_padding_obfs_mode ≢ none
  pub x_padding_key : IsSettledText x.x_padding_key
  pub x_padding_header : IsSettledText x.x_padding_header
  pub x_padding_placement : IsSettledText x.x_padding_placement
  pub x_padding_method : IsSettledText x.x_padding_method
  pub uplink_http_method : IsUplinkText x.mode x.uplink_http_method
  pub session_id_placement : IsSettledText x.session_id_placement
  pub session_id_key : IsSettledText x.session_id_key
  pub session_id_table : IsSettledText x.session_id_table
  pub session_id_length : IsSettledText x.session_id_length
  pub seq_placement : IsSettledText x.seq_placement
  pub seq_key : IsSettledText x.seq_key
  pub uplink_data_placement : IsUplinkText x.mode x.uplink_data_placement
  pub uplink_data_key : IsUplinkText x.mode x.uplink_data_key
  pub uplink_chunk_size : IsSettledText x.uplink_chunk_size
  pub server_max_header_bytes : IsSettledNumber x.server_max_header_bytes
  pub quic_params : IsSettledQuic x.quic_params

-- A string masquerade carries no headers.
abbrev pub IsSettledMasquerade : HysteriaMasquerade → Type 0
IsSettledMasquerade HysteriaMasquerade.notfound = Unit
IsSettledMasquerade (HysteriaMasquerade.file root) = Unit
IsSettledMasquerade (HysteriaMasquerade.proxy m) = Unit
IsSettledMasquerade (HysteriaMasquerade.string m) = m.headers ≡ []

abbrev pub IsSettledTransport : TransportConfig → Type 0
IsSettledTransport TransportConfig.tcp = Unit
IsSettledTransport (TransportConfig.ws w) = IsSettledWs w
IsSettledTransport (TransportConfig.xhttp x) = IsSettledXhttp x
IsSettledTransport (TransportConfig.hysteria h) =
    IsSettledText h.auth
    × IsSettledNumber h.udp_idle_timeout
    × IsSettledMasquerade h.masquerade
    × IsSettledQuic h.quic_params

pub non_empty-AreSettled :
    (rows : List HeaderRow) → AreSettledHeaders (non_empty (collapse_headers rows))
non_empty-AreSettled rows = filled (collapse_headers rows) (collapse_headers-IsSettled rows)
  where
    filled : (o : Object Text) → IsSettledHeaders o → AreSettledHeaders (non_empty o)
    filled [] h = tt
    filled (e ∷ o) h = (cons-ne-nil e o, h)

uplink-IsUplinkText :
    (m : XhttpMode) (s : Text) → IsUplinkText (some m) (if is_packet_up m then or_null s else none)
uplink-IsUplinkText XhttpMode.packet_up s = or_null-IsSettled s
uplink-IsUplinkText XhttpMode.auto s = refl
uplink-IsUplinkText XhttpMode.stream_up s = refl
uplink-IsUplinkText XhttpMode.stream_one s = refl

build_ws-IsSettled : (v : WsFormFields) → IsSettledWs (build_ws v)
unfolding build_ws
build_ws-IsSettled v = record {
  path = non_empty-IsSettled v.ws_path;
  host = non_empty-IsSettled v.ws_host;
  headers = non_empty-AreSettled v.ws_headers;
  accept_proxy_protocol = some-ne-none v.ws_accept_proxy_protocol;
  heartbeat_period = or_null_num-IsSettled v.ws_heartbeat_period;
}

build_xhttp-IsSettled :
    (v : XhttpFormFields) (q : QuicFormFields) → IsSettledXhttp (build_xhttp v q)
unfolding build_xhttp
build_xhttp-IsSettled v q = record {
  path = non_empty-IsSettled v.xhttp_path;
  host = non_empty-IsSettled v.xhttp_host;
  mode = some-ne-none v.xhttp_mode;
  headers = non_empty-AreSettled v.xhttp_headers;
  x_padding_bytes = or_null-IsSettled v.xhttp_x_padding_bytes;
  no_grpc_header = some-ne-none v.xhttp_no_grpc_header;
  no_sse_header = some-ne-none v.xhttp_no_sse_header;
  sc_max_each_post_bytes = or_null-IsSettled v.xhttp_sc_max_each_post_bytes;
  sc_min_posts_interval_ms = or_null-IsSettled v.xhttp_sc_min_posts_interval_ms;
  sc_max_buffered_posts = or_null_num-IsSettled v.xhttp_sc_max_buffered_posts;
  sc_stream_up_server_secs = or_null-IsSettled v.xhttp_sc_stream_up_server_secs;
  xmux_max_concurrency = or_null-IsSettled v.xhttp_xmux_max_concurrency;
  xmux_max_connections = or_null-IsSettled v.xhttp_xmux_max_connections;
  xmux_c_max_reuse_times = or_null-IsSettled v.xhttp_xmux_c_max_reuse_times;
  xmux_h_max_request_times = or_null-IsSettled v.xhttp_xmux_h_max_request_times;
  xmux_h_max_reusable_secs = or_null-IsSettled v.xhttp_xmux_h_max_reusable_secs;
  xmux_h_keep_alive_period = or_null_num-IsSettled v.xhttp_xmux_h_keep_alive_period;
  x_padding_obfs_mode = some-ne-none v.xhttp_x_padding_obfs_mode;
  x_padding_key = or_null-IsSettled v.xhttp_x_padding_key;
  x_padding_header = or_null-IsSettled v.xhttp_x_padding_header;
  x_padding_placement = or_null-IsSettled v.xhttp_x_padding_placement;
  x_padding_method = or_null-IsSettled v.xhttp_x_padding_method;
  uplink_http_method = uplink-IsUplinkText v.xhttp_mode v.xhttp_uplink_http_method;
  session_id_placement = or_null-IsSettled v.xhttp_session_placement;
  session_id_key = or_null-IsSettled v.xhttp_session_key;
  session_id_table = or_null-IsSettled v.xhttp_session_id_table;
  session_id_length = or_null-IsSettled v.xhttp_session_id_length;
  seq_placement = or_null-IsSettled v.xhttp_seq_placement;
  seq_key = or_null-IsSettled v.xhttp_seq_key;
  uplink_data_placement = uplink-IsUplinkText v.xhttp_mode v.xhttp_uplink_data_placement;
  uplink_data_key = uplink-IsUplinkText v.xhttp_mode v.xhttp_uplink_data_key;
  uplink_chunk_size = or_null-IsSettled v.xhttp_uplink_chunk_size;
  server_max_header_bytes = or_null_num-IsSettled v.xhttp_server_max_header_bytes;
  quic_params = build_quic_params-IsSettled q;
}

build_masquerade-IsSettled :
    (k : FormMasqueradeKind) (v : HysteriaFormFields) → IsSettledMasquerade (build_masquerade k v)
unfolding build_masquerade
build_masquerade-IsSettled FormMasqueradeKind.notfound v = tt
build_masquerade-IsSettled FormMasqueradeKind.file v = tt
build_masquerade-IsSettled FormMasqueradeKind.proxy v = tt
build_masquerade-IsSettled FormMasqueradeKind.string v = refl

build_network-IsSettled :
    (n : FormNetwork) (w : WsFormFields) (x : XhttpFormFields) (q : QuicFormFields)
    → IsSettledTransport (build_network n w x q)
unfolding build_network
build_network-IsSettled FormNetwork.tcp w x q = tt
build_network-IsSettled FormNetwork.ws w x q = build_ws-IsSettled w
build_network-IsSettled FormNetwork.xhttp w x q = build_xhttp-IsSettled x q

-- Whatever the form holds, the transport that it sends is settled: blank text and NaN are null, header
-- names are distinct, trimmed and not blank, and the uplink knobs that only `packet-up` accepts are null
-- in every other mode.
pub build_transport-IsSettled :
    (k : FormProtocol) (n : FormNetwork) (h : HysteriaFormFields) (w : WsFormFields)
    (x : XhttpFormFields) (q : QuicFormFields)
    → IsSettledTransport (build_transport k n h w x q)
unfolding build_transport build_hysteria
build_transport-IsSettled FormProtocol.hysteria2 n h w x q = (
  or_null-IsSettled h.hysteria_auth,
  or_null_num-IsSettled h.hysteria_udp_idle_timeout,
  build_masquerade-IsSettled h.hysteria_masq_kind h,
  build_quic_params-IsSettled q,
)
build_transport-IsSettled FormProtocol.vless n h w x q = build_network-IsSettled n w x q
build_transport-IsSettled FormProtocol.wireguard n h w x q = build_network-IsSettled n w x q
