-- ===== src/Api/Transport.antt =====
-- frontend/src/api/types/transport.ts
use rx_ui.Base.{Bool, List, Option}
use rx_ui.Js.Text.{Text}
use rx_ui.Js.Number.{Number}
use rx_ui.Js.Object.{Object}

pub data QuicCongestion : Type 0 where
  reno bbr brutal force_brutal : QuicCongestion

pub record UdpHop : Type 0 where
  pub ports : List Number
  pub interval_min : Number
  pub interval_max : Number

pub record QuicParams : Type 0 where
  pub congestion : Option QuicCongestion
  pub bbr_profile : Option Text
  pub brutal_up_mbps : Option Number
  pub brutal_down_mbps : Option Number
  pub udp_hop : Option UdpHop
  pub init_stream_receive_window : Option Number
  pub max_stream_receive_window : Option Number
  pub init_conn_receive_window : Option Number
  pub max_conn_receive_window : Option Number
  pub max_idle_timeout_secs : Option Number
  pub keep_alive_period_secs : Option Number
  pub disable_path_mtu_discovery : Bool
  pub max_incoming_streams : Option Number

pub record MasqueradeProxy : Type 0 where
  pub url : Text
  pub rewrite_host : Bool
  pub insecure : Bool

pub record MasqueradeString : Type 0 where
  pub content : Text
  pub headers : Object Text
  pub status_code : Number

pub data HysteriaMasquerade : Type 0 where
  notfound : HysteriaMasquerade
  file : Text → HysteriaMasquerade
  proxy : MasqueradeProxy → HysteriaMasquerade
  string : MasqueradeString → HysteriaMasquerade

pub record HysteriaTransport : Type 0 where
  pub auth : Option Text
  pub udp_idle_timeout : Option Number
  pub masquerade : HysteriaMasquerade
  pub quic_params : Option QuicParams

pub record WsTransport : Type 0 where
  pub path : Option Text
  pub host : Option Text
  pub headers : Option (Object Text)
  pub accept_proxy_protocol : Option Bool
  pub heartbeat_period : Option Number

pub data XhttpMode : Type 0 where
  auto packet_up stream_up stream_one : XhttpMode

pub record XhttpTransport : Type 0 where
  pub path : Option Text
  pub host : Option Text
  pub mode : Option XhttpMode
  pub headers : Option (Object Text)
  pub x_padding_bytes : Option Text
  pub no_grpc_header : Option Bool
  pub no_sse_header : Option Bool
  pub sc_max_each_post_bytes : Option Text
  pub sc_min_posts_interval_ms : Option Text
  pub sc_max_buffered_posts : Option Number
  pub sc_stream_up_server_secs : Option Text
  pub xmux_max_concurrency : Option Text
  pub xmux_max_connections : Option Text
  pub xmux_c_max_reuse_times : Option Text
  pub xmux_h_max_request_times : Option Text
  pub xmux_h_max_reusable_secs : Option Text
  pub xmux_h_keep_alive_period : Option Number
  pub x_padding_obfs_mode : Option Bool
  pub x_padding_key : Option Text
  pub x_padding_header : Option Text
  pub x_padding_placement : Option Text
  pub x_padding_method : Option Text
  pub uplink_http_method : Option Text
  pub session_id_placement : Option Text
  pub session_id_key : Option Text
  pub session_id_table : Option Text
  pub session_id_length : Option Text
  pub seq_placement : Option Text
  pub seq_key : Option Text
  pub uplink_data_placement : Option Text
  pub uplink_data_key : Option Text
  pub uplink_chunk_size : Option Text
  pub server_max_header_bytes : Option Number
  pub quic_params : Option QuicParams

pub data TransportConfig : Type 0 where
  tcp : TransportConfig
  ws : WsTransport → TransportConfig
  xhttp : XhttpTransport → TransportConfig
  hysteria : HysteriaTransport → TransportConfig

-- `TransportConfig['kind']`
pub data TransportKind : Type 0 where
  tcp ws xhttp hysteria : TransportKind
