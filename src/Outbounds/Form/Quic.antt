-- ===== src/Outbounds/Form/Quic.antt =====
-- The Hysteria 2 transport of the outbound form: `buildHyQuic`, the hysteria branch of `formToOutbound`
-- and the hysteria block of `outboundToForm` (frontend/src/pages/Outbounds/form.ts).
pub mod RoundTrip
use rx_ui.Base.{Bool, false, ◌&&◌, [], Option, none, some, get_or, if◌then◌else◌}
use rx_ui.Api.Transport.{
  HysteriaMasquerade, HysteriaTransport, QuicCongestion, QuicParams, TransportConfig,
}
use rx_ui.Inbounds.Values.{or_null}
use rx_ui.Inbounds.Quic.{build_hop, is_null, shown_least, shown_most, shown_ports}
use rx_ui.Outbounds.Form.{HyCongestion, OutboundHysteriaFields}
use rx_ui.Outbounds.Form.Defaults.{outbound_hysteria_defaults}

abbrev pub hy_congestion_sent : HyCongestion → Option QuicCongestion
hy_congestion_sent HyCongestion.brutal = some QuicCongestion.brutal
hy_congestion_sent HyCongestion.bbr = some QuicCongestion.bbr
hy_congestion_sent HyCongestion.unset = none

abbrev pub hy_congestion_form : Option QuicCongestion → HyCongestion
hy_congestion_form none = HyCongestion.unset
hy_congestion_form (some QuicCongestion.brutal) = HyCongestion.brutal
hy_congestion_form (some QuicCongestion.force_brutal) = HyCongestion.brutal
hy_congestion_form (some QuicCongestion.bbr) = HyCongestion.bbr
hy_congestion_form (some QuicCongestion.reno) = HyCongestion.unset

-- The parameters before the test whether the operator set any.
unfoldable pub collect_hy_quic : OutboundHysteriaFields → QuicParams
collect_hy_quic v = record {
  congestion = hy_congestion_sent v.hy_congestion;
  bbr_profile = none;
  brutal_up_mbps = v.hy_brutal_up_mbps;
  brutal_down_mbps = v.hy_brutal_down_mbps;
  udp_hop = build_hop v.hy_udp_hop_ports v.hy_udp_hop_interval_min v.hy_udp_hop_interval_max;
  init_stream_receive_window = none;
  max_stream_receive_window = none;
  init_conn_receive_window = none;
  max_conn_receive_window = none;
  max_idle_timeout_secs = v.hy_max_idle_secs;
  keep_alive_period_secs = v.hy_keep_alive_secs;
  disable_path_mtu_discovery = false;
  max_incoming_streams = none;
}

-- `!anySet`
abbrev pub is_unset_hy_quic : QuicParams → Bool
is_unset_hy_quic q =
    is_null q.congestion
    && is_null q.brutal_up_mbps
    && is_null q.brutal_down_mbps
    && is_null q.keep_alive_period_secs
    && is_null q.max_idle_timeout_secs
    && is_null q.udp_hop

abbrev pub unless_unset : QuicParams → Option QuicParams
unless_unset q = if is_unset_hy_quic q then none else some q

unfoldable pub build_hy_quic : OutboundHysteriaFields → Option QuicParams
build_hy_quic v = unless_unset (collect_hy_quic v)

-- Masquerade and the idle timeout belong to the server.
unfoldable pub build_client_hysteria : OutboundHysteriaFields → HysteriaTransport
build_client_hysteria v = record {
  auth = or_null v.hysteria_auth;
  udp_idle_timeout = none;
  masquerade = HysteriaMasquerade.notfound;
  quic_params = build_hy_quic v;
}

abbrev pub shown_hy_quic : OutboundHysteriaFields → Option QuicParams → OutboundHysteriaFields
shown_hy_quic v none = v
shown_hy_quic v (some q) = record v {
  hy_congestion = hy_congestion_form q.congestion;
  hy_brutal_up_mbps = q.brutal_up_mbps;
  hy_brutal_down_mbps = q.brutal_down_mbps;
  hy_keep_alive_secs = q.keep_alive_period_secs;
  hy_max_idle_secs = q.max_idle_timeout_secs;
  hy_udp_hop_ports = shown_ports v.hy_udp_hop_ports q.udp_hop;
  hy_udp_hop_interval_min = shown_least v.hy_udp_hop_interval_min q.udp_hop;
  hy_udp_hop_interval_max = shown_most v.hy_udp_hop_interval_max q.udp_hop;
}

unfoldable pub client_hysteria_form : TransportConfig → OutboundHysteriaFields
client_hysteria_form (TransportConfig.hysteria h) =
    shown_hy_quic (record outbound_hysteria_defaults { hysteria_auth = get_or h.auth [] })
      h.quic_params
client_hysteria_form _ = outbound_hysteria_defaults
