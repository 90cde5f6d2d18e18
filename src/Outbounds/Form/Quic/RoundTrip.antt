-- ===== src/Outbounds/Form/Quic/RoundTrip.antt =====
-- The Hysteria 2 transport that the outbound form sends, and a stored one that is opened and saved.
use rx_ui.Base.{
  ◌≡◌, refl, sym, ap, ◌∙◌, false, [], Option, none, some, get_or, Bool-cases, inl, inr,
}
use rx_ui.Js.Text.{Text}
use rx_ui.Api.Transport.{
  HysteriaMasquerade, HysteriaTransport, QuicCongestion, QuicParams, TransportConfig,
}
use rx_ui.Inbounds.Values.{or_null}
use rx_ui.Inbounds.Values.Laws.{IsSettledText, or_null-IsSettled, or_null-get_or}
use rx_ui.Inbounds.Quic.{build_hop}
use rx_ui.Inbounds.Quic.RoundTrip.{IsSettledHop, build_hop-IsSettled, build_hop_shown}
use rx_ui.Outbounds.Form.{HyCongestion, OutboundHysteriaFields}
use rx_ui.Outbounds.Form.Defaults.{outbound_hysteria_defaults}
use rx_ui.Outbounds.Form.Quic.{
  build_client_hysteria, build_hy_quic, client_hysteria_form, collect_hy_quic, hy_congestion_form,
  hy_congestion_sent, is_unset_hy_quic, shown_hy_quic, unless_unset,
}

-- A congestion control that the selector offers.
abbrev pub IsOffered : Option QuicCongestion → Type 0
IsOffered o = hy_congestion_sent (hy_congestion_form o) ≡ o

-- Parameters as the form collects them.
pub record IsCollectedHy (q : QuicParams) : Type 0 where
  pub congestion : IsOffered q.congestion
  pub bbr_profile : q.bbr_profile ≡ none
  pub hop : IsSettledHop q.udp_hop
  pub init_stream : q.init_stream_receive_window ≡ none
  pub max_stream : q.max_stream_receive_window ≡ none
  pub init_conn : q.init_conn_receive_window ≡ none
  pub max_conn : q.max_conn_receive_window ≡ none
  pub mtu_discovery : q.disable_path_mtu_discovery ≡ false
  pub streams : q.max_incoming_streams ≡ none

abbrev pub IsSettledHyQuic : Option QuicParams → Type 0
IsSettledHyQuic none = Unit
IsSettledHyQuic (some q) = IsCollectedHy q × (is_unset_hy_quic q ≡ false)

pub record IsSettledClientHysteria (h : HysteriaTransport) : Type 0 where
  pub auth : IsSettledText h.auth
  pub udp_idle_timeout : h.udp_idle_timeout ≡ none
  pub masquerade : h.masquerade ≡ HysteriaMasquerade.notfound
  pub quic_params : IsSettledHyQuic h.quic_params

hy_congestion_sent-IsOffered : (c : HyCongestion) → IsOffered (hy_congestion_sent c)
hy_congestion_sent-IsOffered HyCongestion.unset = refl
hy_congestion_sent-IsOffered HyCongestion.brutal = refl
hy_congestion_sent-IsOffered HyCongestion.bbr = refl

collect_hy_quic-IsCollected : (v : OutboundHysteriaFields) → IsCollectedHy (collect_hy_quic v)
unfolding collect_hy_quic
collect_hy_quic-IsCollected v = record {
  congestion = hy_congestion_sent-IsOffered v.hy_congestion;
  bbr_profile = refl;
  hop = build_hop-IsSettled v.hy_udp_hop_ports v.hy_udp_hop_interval_min v.hy_udp_hop_interval_max;
  init_stream = refl;
  max_stream = refl;
  init_conn = refl;
  max_conn = refl;
  mtu_discovery = refl;
  streams = refl;
}

unless_unset-IsSettled : (q : QuicParams) → IsCollectedHy q → IsSettledHyQuic (unless_unset q)
unless_unset-IsSettled q h = elim (Bool-cases (is_unset_hy_quic q)) [
  | inl e ↦ rw e tt
  | inr e ↦ rw e (h, e)
]

pub build_client_hysteria-IsSettled :
    (v : OutboundHysteriaFields) → IsSettledClientHysteria (build_client_hysteria v)
unfolding build_client_hysteria build_hy_quic
build_client_hysteria-IsSettled v = record {
  auth = or_null-IsSettled v.hysteria_auth;
  udp_idle_timeout = refl;
  masquerade = refl;
  quic_params = unless_unset-IsSettled (collect_hy_quic v) (collect_hy_quic-IsCollected v);
}

collect_hy_quic_shown :
    (v : OutboundHysteriaFields) (q : QuicParams)
    → v.hy_udp_hop_ports ≡ []
    → IsCollectedHy q
    → collect_hy_quic (shown_hy_quic v (some q)) ≡ q
unfolding collect_hy_quic
collect_hy_quic_shown v q e h = λ i. record {
  congestion = h.congestion i;
  bbr_profile = sym h.bbr_profile i;
  brutal_up_mbps = q.brutal_up_mbps;
  brutal_down_mbps = q.brutal_down_mbps;
  udp_hop =
      build_hop_shown v.hy_udp_hop_ports v.hy_udp_hop_interval_min v.hy_udp_hop_interval_max
        q.udp_hop e h.hop i;
  init_stream_receive_window = sym h.init_stream i;
  max_stream_receive_window = sym h.max_stream i;
  init_conn_receive_window = sym h.init_conn i;
  max_conn_receive_window = sym h.max_conn i;
  max_idle_timeout_secs = q.max_idle_timeout_secs;
  keep_alive_period_secs = q.keep_alive_period_secs;
  disable_path_mtu_discovery = sym h.mtu_discovery i;
  max_incoming_streams = sym h.streams i;
}

build_hy_quic_shown :
    (auth : Text) (o : Option QuicParams)
    → IsSettledHyQuic o
    → build_hy_quic (shown_hy_quic (record outbound_hysteria_defaults { hysteria_auth = auth }) o)
      ≡ o
unfolding build_hy_quic
build_hy_quic_shown auth none h = unfold collect_hy_quic build_hop in refl
build_hy_quic_shown auth (some q) (h, e) =
    ap unless_unset
      (collect_hy_quic_shown (record outbound_hysteria_defaults { hysteria_auth = auth }) q refl h)
    ∙ rw e

or_null-auth_shown :
    (auth : Option Text) (o : Option QuicParams)
    → IsSettledText auth
    → or_null
        (shown_hy_quic
          (record outbound_hysteria_defaults { hysteria_auth = get_or auth [] })
          o).hysteria_auth
      ≡ auth
or_null-auth_shown auth none h = or_null-get_or auth h
or_null-auth_shown auth (some q) h = or_null-get_or auth h

pub build_client_hysteria_opened :
    (h : HysteriaTransport)
    → IsSettledClientHysteria h
    → build_client_hysteria (client_hysteria_form (TransportConfig.hysteria h)) ≡ h
unfolding build_client_hysteria client_hysteria_form
build_client_hysteria_opened h s = λ i. record {
  auth = or_null-auth_shown h.auth h.quic_params s.auth i;
  udp_idle_timeout = sym s.udp_idle_timeout i;
  masquerade = sym s.masquerade i;
  quic_params = build_hy_quic_shown (get_or h.auth []) h.quic_params s.quic_params i;
}
