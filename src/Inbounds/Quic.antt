-- ===== src/Inbounds/Quic.antt =====
-- `hydrateQuicParams` and `buildQuicParams` of frontend/src/pages/Inbounds/form/adapters.ts.
pub mod RoundTrip
pub mod Untouched
use rx_ui.Base.{
  Bool, true, false, ◌&&◌, [], ◌∷◌, List, Option, none, some, get_or, not, is_empty, filter, map,
  if◌then◌else◌,
}
use rx_ui.Js.Text.{Text}
use rx_ui.Js.Number.{Number, num, between, print, parse_int}
use rx_ui.Api.Transport.{QuicCongestion, QuicParams, UdpHop}
use rx_ui.Inbounds.Form.{FormCongestion, QuicFormFields}
use rx_ui.Inbounds.Values.{or_null, or_null_num}

-- `q.congestion ?? 'default'`
abbrev pub congestion_form : Option QuicCongestion → FormCongestion
congestion_form none = FormCongestion.default
congestion_form (some QuicCongestion.reno) = FormCongestion.reno
congestion_form (some QuicCongestion.bbr) = FormCongestion.bbr
congestion_form (some QuicCongestion.brutal) = FormCongestion.brutal
congestion_form (some QuicCongestion.force_brutal) = FormCongestion.force_brutal

-- `v.quic_congestion === 'default' ? null : v.quic_congestion`
abbrev pub congestion_sent : FormCongestion → Option QuicCongestion
congestion_sent FormCongestion.default = none
congestion_sent FormCongestion.reno = some QuicCongestion.reno
congestion_sent FormCongestion.bbr = some QuicCongestion.bbr
congestion_sent FormCongestion.brutal = some QuicCongestion.brutal
congestion_sent FormCongestion.force_brutal = some QuicCongestion.force_brutal

-- The port-hopping fields, left alone where the parameters carry none.
abbrev pub shown_ports : List Text → Option UdpHop → List Text
shown_ports old none = old
shown_ports old (some hop) = map print hop.ports

abbrev pub shown_least : Option Number → Option UdpHop → Option Number
shown_least old none = old
shown_least old (some hop) = some hop.interval_min

abbrev pub shown_most : Option Number → Option UdpHop → Option Number
shown_most old none = old
shown_most old (some hop) = some hop.interval_max

unfoldable pub hydrate_quic_params : QuicFormFields → QuicParams → QuicFormFields
hydrate_quic_params v q = record {
  quic_congestion = congestion_form q.congestion;
  quic_bbr_profile = get_or q.bbr_profile [];
  quic_brutal_up_mbps = q.brutal_up_mbps;
  quic_brutal_down_mbps = q.brutal_down_mbps;
  quic_max_idle_timeout_secs = q.max_idle_timeout_secs;
  quic_keep_alive_period_secs = q.keep_alive_period_secs;
  quic_init_stream_receive_window = q.init_stream_receive_window;
  quic_max_stream_receive_window = q.max_stream_receive_window;
  quic_init_conn_receive_window = q.init_conn_receive_window;
  quic_max_conn_receive_window = q.max_conn_receive_window;
  quic_disable_path_mtu_discovery = q.disable_path_mtu_discovery;
  quic_max_incoming_streams = q.max_incoming_streams;
  quic_udp_hop_ports = shown_ports v.quic_udp_hop_ports q.udp_hop;
  quic_udp_hop_interval_min = shown_least v.quic_udp_hop_interval_min q.udp_hop;
  quic_udp_hop_interval_max = shown_most v.quic_udp_hop_interval_max q.udp_hop;
}

-- `if (quic_params) hydrateQuicParams(v, quic_params)`
abbrev pub shown_quic : QuicFormFields → Option QuicParams → QuicFormFields
shown_quic v none = v
shown_quic v (some q) = hydrate_quic_params v q

-- The ports that are typed as numbers from 1 to 65535.
unfoldable pub hop_ports : List Text → List Number
hop_ports ports = filter (between 0 65536) (map parse_int ports)

unfoldable pub build_hop : List Text → Option Number → Option Number → Option UdpHop
unfolding hop_ports
build_hop ports least most =
    if is_empty (hop_ports ports)
    then none
    else some (record {
      ports = hop_ports ports;
      interval_min = get_or least (num 0);
      interval_max = get_or most (num 0);
    })

-- The parameters before the test whether the operator set any.
unfoldable pub collect_quic : QuicFormFields → QuicParams
collect_quic v = record {
  congestion = congestion_sent v.quic_congestion;
  bbr_profile = or_null v.quic_bbr_profile;
  brutal_up_mbps = or_null_num v.quic_brutal_up_mbps;
  brutal_down_mbps = or_null_num v.quic_brutal_down_mbps;
  udp_hop = build_hop v.quic_udp_hop_ports v.quic_udp_hop_interval_min v.quic_udp_hop_interval_max;
  init_stream_receive_window = or_null_num v.quic_init_stream_receive_window;
  max_stream_receive_window = or_null_num v.quic_max_stream_receive_window;
  init_conn_receive_window = or_null_num v.quic_init_conn_receive_window;
  max_conn_receive_window = or_null_num v.quic_max_conn_receive_window;
  max_idle_timeout_secs = or_null_num v.quic_max_idle_timeout_secs;
  keep_alive_period_secs = or_null_num v.quic_keep_alive_period_secs;
  disable_path_mtu_discovery = v.quic_disable_path_mtu_discovery;
  max_incoming_streams = or_null_num v.quic_max_incoming_streams;
}

-- `x === null`
abbrev pub is_null {ℓ} : {A : Type ℓ} → Option A → Bool
is_null none = true
is_null (some a) = false

unfoldable pub is_empty_quic : QuicParams → Bool
is_empty_quic q =
    is_null q.congestion
    && is_null q.bbr_profile
    && is_null q.brutal_up_mbps
    && is_null q.brutal_down_mbps
    && is_null q.udp_hop
    && is_null q.init_stream_receive_window
    && is_null q.max_stream_receive_window
    && is_null q.init_conn_receive_window
    && is_null q.max_conn_receive_window
    && is_null q.max_idle_timeout_secs
    && is_null q.keep_alive_period_secs
    && not q.disable_path_mtu_discovery
    && is_null q.max_incoming_streams

-- `isEmpty ? null : q`
abbrev pub unless_empty : QuicParams → Option QuicParams
unless_empty q = if is_empty_quic q then none else some q

unfoldable pub build_quic_params : QuicFormFields → Option QuicParams
build_quic_params v = unless_empty (collect_quic v)
