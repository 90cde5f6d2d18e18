-- ===== src/Inbounds/Transport/RoundTrip.antt =====
-- A stored transport that is opened in the form and saved again.
use rx_ui.Base.{
  ◌≡◌, ◌≢◌, refl, sym, ap, ◌∙◌, [], ◌∷◌, false, Option, none, some, get_or, arith, if◌then◌else◌,
}
use rx_ui.Js.Text.{Text}
use rx_ui.Js.Object.{Object}
use rx_ui.Api.Transport.{
  HysteriaMasquerade, HysteriaTransport, TransportConfig, WsTransport, XhttpMode, XhttpTransport,
}
use rx_ui.Inbounds.Form.{FormProtocol, HysteriaFormFields}
use rx_ui.Inbounds.Defaults.{hysteria_defaults}
use rx_ui.Inbounds.Values.{collapse_headers, non_empty, or_null, or_null_num, stored_rows}
use rx_ui.Inbounds.Values.Laws.{
  non_empty-get_or, or_null-get_or, or_null_num_of_IsSettled, some-get_or,
}
use rx_ui.Inbounds.Values.Headers.{collapse_headers-header_rows}
use rx_ui.Inbounds.Quic.RoundTrip.{build_quic_params_opened}
use rx_ui.Inbounds.Transport.{
  masquerade_form, build_hysteria, build_masquerade, build_network, build_transport, build_ws,
  build_xhttp, hysteria_form, is_packet_up, network_form, quic_form, ws_form, xhttp_form,
}
use rx_ui.Inbounds.Transport.Settled.{
  AreSettledHeaders, IsSettledMasquerade, IsSettledTransport, IsSettledWs, IsSettledXhttp,
  IsUplinkText,
}

pub collapse_stored :
    (o : Option (Object Text))
    → AreSettledHeaders o
    → non_empty (collapse_headers (stored_rows o)) ≡ o
collapse_stored none h = unfold collapse_headers in refl
collapse_stored (some []) (ne, h) = absurd (ne refl)
collapse_stored (some (e ∷ o)) (ne, h) = ap non_empty (collapse_headers-header_rows (e ∷ o) h)

uplink_opened :
    (m : Option XhttpMode) (o : Option Text)
    → m ≢ none
    → IsUplinkText m o
    → (if is_packet_up (get_or m XhttpMode.auto) then or_null (get_or o []) else none) ≡ o
uplink_opened none o hm h = absurd (hm refl)
uplink_opened (some XhttpMode.packet_up) o hm h = or_null-get_or o h
uplink_opened (some XhttpMode.auto) o hm h = sym h
uplink_opened (some XhttpMode.stream_up) o hm h = sym h
uplink_opened (some XhttpMode.stream_one) o hm h = sym h

build_ws_opened : (x : WsTransport) → IsSettledWs x → build_ws (ws_form (TransportConfig.ws x)) ≡ x
unfolding build_ws ws_form
build_ws_opened x h = λ i. record {
  path = non_empty-get_or x.path h.path i;
  host = non_empty-get_or x.host h.host i;
  headers = collapse_stored x.headers h.headers i;
  accept_proxy_protocol = some-get_or x.accept_proxy_protocol false h.accept_proxy_protocol i;
  heartbeat_period = or_null_num_of_IsSettled x.heartbeat_period h.heartbeat_period i;
}

build_xhttp_opened :
    (x : XhttpTransport)
    → IsSettledXhttp x
    → build_xhttp (xhttp_form (TransportConfig.xhttp x)) (quic_form (TransportConfig.xhttp x)) ≡ x
unfolding build_xhttp xhttp_form
build_xhttp_opened x h = λ i. record {
  path = non_empty-get_or x.path h.path i;
  host = non_empty-get_or x.host h.host i;
  mode = some-get_or x.mode XhttpMode.auto h.mode i;
  headers = collapse_stored x.headers h.headers i;
  x_padding_bytes = or_null-get_or x.x_padding_bytes h.x_padding_bytes i;
  no_grpc_header = some-get_or x.no_grpc_header false h.no_grpc_header i;
  no_sse_header = some-get_or x.no_sse_header false h.no_sse_header i;
  sc_max_each_post_bytes = or_null-get_or x.sc_max_each_post_bytes h.sc_max_each_post_bytes i;
  sc_min_posts_interval_ms = or_null-get_or x.sc_min_posts_interval_ms h.sc_min_posts_interval_ms i;
  sc_max_buffered_posts =
      or_null_num_of_IsSettled x.sc_max_buffered_posts h.sc_max_buffered_posts i;
  sc_stream_up_server_secs = or_null-get_or x.sc_stream_up_server_secs h.sc_stream_up_server_secs i;
  xmux_max_concurrency = or_null-get_or x.xmux_max_concurrency h.xmux_max_concurrency i;
  xmux_max_connections = or_null-get_or x.xmux_max_connections h.xmux_max_connections i;
  xmux_c_max_reuse_times = or_null-get_or x.xmux_c_max_reuse_times h.xmux_c_max_reuse_times i;
  xmux_h_max_request_times = or_null-get_or x.xmux_h_max_request_times h.xmux_h_max_request_times i;
  xmux_h_max_reusable_secs = or_null-get_or x.xmux_h_max_reusable_secs h.xmux_h_max_reusable_secs i;
  xmux_h_keep_alive_period =
      or_null_num_of_IsSettled x.xmux_h_keep_alive_period h.xmux_h_keep_alive_period i;
  x_padding_obfs_mode = some-get_or x.x_padding_obfs_mode false h.x_padding_obfs_mode i;
  x_padding_key = or_null-get_or x.x_padding_key h.x_padding_key i;
  x_padding_header = or_null-get_or x.x_padding_header h.x_padding_header i;
  x_padding_placement = or_null-get_or x.x_padding_placement h.x_padding_placement i;
  x_padding_method = or_null-get_or x.x_padding_method h.x_padding_method i;
  uplink_http_method = uplink_opened x.mode x.uplink_http_method h.mode h.uplink_http_method i;
  session_id_placement = or_null-get_or x.session_id_placement h.session_id_placement i;
  session_id_key = or_null-get_or x.session_id_key h.session_id_key i;
  session_id_table = or_null-get_or x.session_id_table h.session_id_table i;
  session_id_length = or_null-get_or x.session_id_length h.session_id_length i;
  seq_placement = or_null-get_or x.seq_placement h.seq_placement i;
  seq_key = or_null-get_or x.seq_key h.seq_key i;
  uplink_data_placement =
      uplink_opened x.mode x.uplink_data_placement h.mode h.uplink_data_placement i;
  uplink_data_key = uplink_opened x.mode x.uplink_data_key h.mode h.uplink_data_key i;
  uplink_chunk_size = or_null-get_or x.uplink_chunk_size h.uplink_chunk_size i;
  server_max_header_bytes =
      or_null_num_of_IsSettled x.server_max_header_bytes h.server_max_header_bytes i;
  quic_params = build_quic_params_opened x.quic_params h.quic_params i;
}

build_masquerade_opened :
    (v : HysteriaFormFields) (m : HysteriaMasquerade)
    → IsSettledMasquerade m
    → build_masquerade (masquerade_form v m).hysteria_masq_kind (masquerade_form v m) ≡ m
unfolding build_masquerade
build_masquerade_opened v HysteriaMasquerade.notfound h = refl
build_masquerade_opened v (HysteriaMasquerade.file root) h = refl
build_masquerade_opened v (HysteriaMasquerade.proxy m) h = refl
build_masquerade_opened v (HysteriaMasquerade.string m) h = ground arith

masquerade_form-auth :
    (v : HysteriaFormFields) (m : HysteriaMasquerade)
    → ((masquerade_form v m).hysteria_auth ≡ v.hysteria_auth)
      × ((masquerade_form v m).hysteria_udp_idle_timeout ≡ v.hysteria_udp_idle_timeout)
masquerade_form-auth v m = ground arith

-- What the form shows of a Hysteria transport but for its masquerade.
abbrev authenticated : HysteriaTransport → HysteriaFormFields
authenticated h = record hysteria_defaults {
  hysteria_auth = get_or h.auth [];
  hysteria_udp_idle_timeout = h.udp_idle_timeout;
}

build_hysteria_opened :
    (h : HysteriaTransport)
    → IsSettledTransport (TransportConfig.hysteria h)
    → build_hysteria
        (hysteria_form (TransportConfig.hysteria h))
        (quic_form (TransportConfig.hysteria h))
      ≡ h
unfolding build_hysteria hysteria_form
build_hysteria_opened h (ha, hu, hm, hq) =
    let (same_auth, same_idle) = masquerade_form-auth (authenticated h) h.masquerade in
    λ i. record {
      auth = (ap or_null same_auth ∙ or_null-get_or h.auth ha) i;
      udp_idle_timeout =
          (ap or_null_num same_idle ∙ or_null_num_of_IsSettled h.udp_idle_timeout hu) i;
      masquerade = build_masquerade_opened (authenticated h) h.masquerade hm i;
      quic_params = build_quic_params_opened h.quic_params hq i;
    }

-- Hysteria 2 goes with its own transport, and no other protocol does.
abbrev pub ArePaired : FormProtocol → TransportConfig → Type 0
ArePaired FormProtocol.hysteria2 (TransportConfig.hysteria h) = Unit
ArePaired FormProtocol.hysteria2 TransportConfig.tcp = ⊥
ArePaired FormProtocol.hysteria2 (TransportConfig.ws w) = ⊥
ArePaired FormProtocol.hysteria2 (TransportConfig.xhttp x) = ⊥
ArePaired FormProtocol.vless (TransportConfig.hysteria h) = ⊥
ArePaired FormProtocol.wireguard (TransportConfig.hysteria h) = ⊥
ArePaired _ _ = Unit

build_network_opened :
    (t : TransportConfig)
    → ArePaired FormProtocol.vless t
    → IsSettledTransport t
    → build_network (network_form t) (ws_form t) (xhttp_form t) (quic_form t) ≡ t
unfolding build_network
build_network_opened TransportConfig.tcp p h = refl
build_network_opened (TransportConfig.ws w) p h = ap TransportConfig.ws (build_ws_opened w h)
build_network_opened (TransportConfig.xhttp x) p h =
    ap TransportConfig.xhttp (build_xhttp_opened x h)
build_network_opened (TransportConfig.hysteria h) p _ = absurd p

-- A settled transport that is opened beside the protocol that it goes with, and saved, is sent back
-- unchanged.
pub build_transport_opened :
    (k : FormProtocol) (t : TransportConfig)
    → ArePaired k t
    → IsSettledTransport t
    → build_transport k (network_form t) (hysteria_form t) (ws_form t) (xhttp_form t) (quic_form t)
      ≡ t
unfolding build_transport
build_transport_opened FormProtocol.hysteria2 (TransportConfig.hysteria h) p s =
    ap TransportConfig.hysteria (build_hysteria_opened h s)
build_transport_opened FormProtocol.hysteria2 TransportConfig.tcp p s = absurd p
build_transport_opened FormProtocol.hysteria2 (TransportConfig.ws w) p s = absurd p
build_transport_opened FormProtocol.hysteria2 (TransportConfig.xhttp x) p s = absurd p
build_transport_opened FormProtocol.vless t p s = build_network_opened t p s
build_transport_opened FormProtocol.wireguard t p s = build_network_opened t (paired t p) s
  where
    paired :
        (t : TransportConfig) → ArePaired FormProtocol.wireguard t → ArePaired FormProtocol.vless t
    paired TransportConfig.tcp p = p
    paired (TransportConfig.ws w) p = p
    paired (TransportConfig.xhttp x) p = p
    paired (TransportConfig.hysteria h) p = p
