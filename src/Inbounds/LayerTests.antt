-- ===== src/Inbounds/LayerTests.antt =====
-- Concrete runs of the layers of the inbound form.
use rx_ui.Base.{◌≡◌, ◌↔◌, refl, [], ◌∷◌, false, none, some, List, arith}
use mathlib.Core.List.{cons-ne-nil}
use rx_ui.Js.Text.{Text, codes, trim}
use rx_ui.Js.Number.{nan, num}
use rx_ui.Js.Object.{Object, lookup}
use rx_ui.Api.Protocol.{
  ProtocolConfig, VlessEncryptionAuth, VlessEncryptionMode, VlessFlow, VlessProtocol, VlessXorMode,
}
use rx_ui.Api.Transport.{
  HysteriaMasquerade, HysteriaTransport, QuicCongestion, QuicParams, TransportConfig,
}
use rx_ui.Api.Security.{RealitySecurity}
use rx_ui.Inbounds.Form.{FormProtocol, HeaderRow, QuicFormFields}
use rx_ui.Inbounds.Defaults.{quic_defaults}
use rx_ui.Inbounds.Values.{collapse_headers}
use rx_ui.Inbounds.Values.Headers.{IsSettledHeaders, last_value, lookup-collapse_headers}
use rx_ui.Inbounds.Ranges.{parse_ranges, render_ranges}
use rx_ui.Inbounds.Ranges.RoundTrip.{parse_ranges-render_ranges}
use rx_ui.Inbounds.Quic.{build_quic_params, is_empty_quic}
use rx_ui.Inbounds.Quic.RoundTrip.{IsSettledQuic, build_quic_params-IsSettled}
use rx_ui.Inbounds.Quic.Untouched.{IsUntouched, build_quic_params-eq-none_iff}
use rx_ui.Inbounds.Protocol.RoundTrip.{IsSettledProtocol}
use rx_ui.Inbounds.Transport.{
  build_transport, hysteria_form, network_form, quic_form, ws_form, xhttp_form,
}
use rx_ui.Inbounds.Transport.Settled.{IsSettledTransport}
use rx_ui.Inbounds.Transport.RoundTrip.{build_transport_opened}

abbrev rows : List HeaderRow
rows =
    record { name = codes " Host "; value = codes "a" }
    ∷ record { name = codes "Host"; value = codes "b" }
    ∷ []

lookup-collapse_headers_example :
    lookup (codes "Host") (collapse_headers rows) ≡ last_value (codes "Host") rows
lookup-collapse_headers_example = lookup-collapse_headers (codes "Host") rows (cons-ne-nil _ _)

abbrev headers : Object Text
headers = (codes "Host", codes "a") ∷ (codes "X", codes " b ") ∷ []

headers-IsSettled : IsSettledHeaders headers
unfolding trim
headers-IsSettled = (ground arith, ((refl, cons-ne-nil _ _), ((refl, cons-ne-nil _ _), tt)))

parse_ranges-render_ranges_example :
    parse_ranges (render_ranges (num 100 ∷ num 7 ∷ []) (num 200 ∷ num 7 ∷ []))
    ≡ (num 100 ∷ num 7 ∷ [], num 200 ∷ num 7 ∷ [])
parse_ranges-render_ranges_example =
    parse_ranges-render_ranges (num 100 ∷ num 7 ∷ []) (num 200 ∷ num 7 ∷ []) (tt, tt, (tt, tt, tt))

abbrev quic_fields : QuicFormFields
quic_fields = record quic_defaults {
  quic_brutal_up_mbps = some nan;
  quic_udp_hop_ports = codes "443" ∷ codes "70000" ∷ codes "x" ∷ [];
}

build_quic_params-IsSettled_example : IsSettledQuic (build_quic_params quic_fields)
build_quic_params-IsSettled_example = build_quic_params-IsSettled quic_fields

build_quic_params-eq-none_iff_example :
    (build_quic_params quic_fields ≡ none) ↔ IsUntouched quic_fields
build_quic_params-eq-none_iff_example = build_quic_params-eq-none_iff quic_fields

abbrev hopping : QuicParams
hopping = record {
  congestion = some QuicCongestion.brutal;
  bbr_profile = none;
  brutal_up_mbps = some (num 100);
  brutal_down_mbps = none;
  udp_hop =
      some
        (record { ports = num 443 ∷ num 8443 ∷ []; interval_min = num 5; interval_max = num 10 });
  init_stream_receive_window = none;
  max_stream_receive_window = none;
  init_conn_receive_window = none;
  max_conn_receive_window = none;
  max_idle_timeout_secs = none;
  keep_alive_period_secs = none;
  disable_path_mtu_discovery = false;
  max_incoming_streams = none;
}

hopping-IsSettled : IsSettledQuic (some hopping)
unfolding is_empty_quic
hopping-IsSettled = (
  record {
    bbr = tt;
    up = refl;
    down = tt;
    hop = (cons-ne-nil _ _, (refl, (refl, tt)));
    init_stream = tt;
    max_stream = tt;
    init_conn = tt;
    max_conn = tt;
    idle = tt;
    keep_alive = tt;
    streams = tt;
  },
  refl,
)

abbrev hysteria_layer : HysteriaTransport
hysteria_layer = record {
  auth = some (codes "secret");
  udp_idle_timeout = some (num 60);
  masquerade = HysteriaMasquerade.file (codes "/srv");
  quic_params = some hopping;
}

hysteria_layer-IsSettled : IsSettledTransport (TransportConfig.hysteria hysteria_layer)
unfolding trim
hysteria_layer-IsSettled = ((refl, cons-ne-nil _ _), refl, tt, hopping-IsSettled)

build_transport_opened_example :
    build_transport FormProtocol.hysteria2
      (network_form (TransportConfig.hysteria hysteria_layer))
      (hysteria_form (TransportConfig.hysteria hysteria_layer))
      (ws_form (TransportConfig.hysteria hysteria_layer))
      (xhttp_form (TransportConfig.hysteria hysteria_layer))
      (quic_form (TransportConfig.hysteria hysteria_layer))
    ≡ TransportConfig.hysteria hysteria_layer
build_transport_opened_example =
    build_transport_opened FormProtocol.hysteria2 (TransportConfig.hysteria hysteria_layer) tt
      hysteria_layer-IsSettled

abbrev reality_layer : RealitySecurity
reality_layer = record {
  dest = codes "a.example:443";
  server_names = codes "a.example" ∷ [];
  private_key = codes "k";
  public_key = codes "p";
  short_ids = [];
  fingerprint = codes "firefox";
  xver = num 0;
  spider_x = codes "/x";
  min_client_ver = [];
  max_client_ver = codes "26.1";
}

abbrev encrypted : VlessProtocol
encrypted = record {
  flow = VlessFlow.none;
  encryption_mode = VlessEncryptionMode.mlkem768x25519plus;
  encryption_auth = some VlessEncryptionAuth.x25519;
  encryption_xor_mode = some VlessXorMode.random;
  encryption_seconds_from = some (num 300);
  encryption_seconds_to = none;
  encryption_padding = some (codes "100-111");
  encryption_server_key = some (codes "s");
  encryption_client_key = none;
  fallbacks = [];
}

encrypted-IsSettled : IsSettledProtocol (ProtocolConfig.vless encrypted)
unfolding trim
encrypted-IsSettled =
    ((λ e. cc), (λ e. cc), (λ e. cc), (refl, cons-ne-nil _ _), cons-ne-nil _ _, tt, refl)
