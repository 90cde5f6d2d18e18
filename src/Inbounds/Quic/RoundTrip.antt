-- ===== src/Inbounds/Quic/RoundTrip.antt =====
-- The QUIC parameters that the form sends, and stored parameters that are opened and saved.
use rx_ui.Base.{
  ◌≡◌, ◌≢◌, refl, ap, ◌∙◌, true, false, [], ◌∷◌, List, Option, none, some, All, filter_kept,
  filter_holds, map, is_empty, arith, ap₂, filter, Bool-cases, inl, inr,
}
use rx_ui.Js.Text.{Text, trim}
use rx_ui.Js.Number.{Number, between, print, parse_int}
use rx_ui.Js.Number.Decimal.{between-IsNatural, parse_int-print}
use rx_ui.Api.Transport.{QuicCongestion, QuicParams, UdpHop}
use rx_ui.Inbounds.Form.{QuicFormFields}
use rx_ui.Inbounds.Defaults.{quic_defaults}
use rx_ui.Inbounds.Values.{or_null, or_null_num}
use rx_ui.Inbounds.Values.Laws.{
  IsSettledText, IsSettledNumber, or_null-get_or, or_null-IsSettled, or_null_num_of_IsSettled,
  or_null_num-IsSettled,
}
use rx_ui.Inbounds.Quic.{
  shown_ports, shown_least, shown_most, congestion_form, congestion_sent, hydrate_quic_params,
  hop_ports, build_hop, collect_quic, is_empty_quic, shown_quic, unless_empty, build_quic_params,
}

abbrev pub IsPort : Number → Type 0
IsPort x = between 0 65536 x ≡ true

abbrev pub IsSettledHop : Option UdpHop → Type 0
IsSettledHop none = Unit
IsSettledHop (some hop) = (hop.ports ≢ []) × All IsPort hop.ports

-- Parameters as the form collects them.
pub record IsCollected (q : QuicParams) : Type 0 where
  pub bbr : IsSettledText q.bbr_profile
  pub up : IsSettledNumber q.brutal_up_mbps
  pub down : IsSettledNumber q.brutal_down_mbps
  pub hop : IsSettledHop q.udp_hop
  pub init_stream : IsSettledNumber q.init_stream_receive_window
  pub max_stream : IsSettledNumber q.max_stream_receive_window
  pub init_conn : IsSettledNumber q.init_conn_receive_window
  pub max_conn : IsSettledNumber q.max_conn_receive_window
  pub idle : IsSettledNumber q.max_idle_timeout_secs
  pub keep_alive : IsSettledNumber q.keep_alive_period_secs
  pub streams : IsSettledNumber q.max_incoming_streams

-- No parameters, or collected ones of which some is set.
abbrev pub IsSettledQuic : Option QuicParams → Type 0
IsSettledQuic none = Unit
IsSettledQuic (some q) = IsCollected q × (is_empty_quic q ≡ false)

parse_int-print_ports :
    (ports : List Number) → All IsPort ports → map parse_int (map print ports) ≡ ports
parse_int-print_ports [] h = refl
parse_int-print_ports (p ∷ ports) (hp, h) =
    ap₂ (λ x xs. x ∷ xs) (parse_int-print p (between-IsNatural 0 65536 p hp))
      (parse_int-print_ports ports h)

hop_ports-print : (ports : List Number) → All IsPort ports → hop_ports (map print ports) ≡ ports
unfolding hop_ports
hop_ports-print ports h =
    ap (filter (between 0 65536)) (parse_int-print_ports ports h) ∙ filter_kept _ ports h

pub build_hop-IsSettled :
    (ports : List Text) (least most : Option Number) → IsSettledHop (build_hop ports least most)
unfolding build_hop
build_hop-IsSettled ports least most = elim (Bool-cases (is_empty (hop_ports ports))) [
  | inl e ↦ rw e tt
  | inr e ↦ rw e (ground arith, filter_holds _ IsPort (λ x h. h) (map parse_int ports))
]

collect_quic-IsCollected : (v : QuicFormFields) → IsCollected (collect_quic v)
unfolding collect_quic
collect_quic-IsCollected v = record {
  bbr = or_null-IsSettled v.quic_bbr_profile;
  up = or_null_num-IsSettled v.quic_brutal_up_mbps;
  down = or_null_num-IsSettled v.quic_brutal_down_mbps;
  hop =
      build_hop-IsSettled v.quic_udp_hop_ports v.quic_udp_hop_interval_min
        v.quic_udp_hop_interval_max;
  init_stream = or_null_num-IsSettled v.quic_init_stream_receive_window;
  max_stream = or_null_num-IsSettled v.quic_max_stream_receive_window;
  init_conn = or_null_num-IsSettled v.quic_init_conn_receive_window;
  max_conn = or_null_num-IsSettled v.quic_max_conn_receive_window;
  idle = or_null_num-IsSettled v.quic_max_idle_timeout_secs;
  keep_alive = or_null_num-IsSettled v.quic_keep_alive_period_secs;
  streams = or_null_num-IsSettled v.quic_max_incoming_streams;
}

unless_empty-IsSettled : (q : QuicParams) → IsCollected q → IsSettledQuic (unless_empty q)
unless_empty-IsSettled q h = elim (Bool-cases (is_empty_quic q)) [
  | inl e ↦ rw e tt
  | inr e ↦ rw e (h, e)
]

-- What the form sends is null, or parameters of which some is set, with trimmed text, no NaN, and
-- only ports from 1 to 65535.
pub build_quic_params-IsSettled : (v : QuicFormFields) → IsSettledQuic (build_quic_params v)
unfolding build_quic_params
build_quic_params-IsSettled v = unless_empty-IsSettled (collect_quic v) (collect_quic-IsCollected v)

congestion_sent-form : (o : Option QuicCongestion) → congestion_sent (congestion_form o) ≡ o
congestion_sent-form none = refl
congestion_sent-form (some QuicCongestion.reno) = refl
congestion_sent-form (some QuicCongestion.bbr) = refl
congestion_sent-form (some QuicCongestion.brutal) = refl
congestion_sent-form (some QuicCongestion.force_brutal) = refl

pub build_hop_shown :
    (ports : List Text) (least most : Option Number) (o : Option UdpHop)
    → ports ≡ []
    → IsSettledHop o
    → build_hop (shown_ports ports o) (shown_least least o) (shown_most most o) ≡ o
unfolding build_hop
build_hop_shown ports least most none e h = rw e
build_hop_shown ports least most (some hop) e (ne, h) = ground (arith, hop_ports-print hop.ports h)

collect_quic-hydrate_quic_params :
    (v : QuicFormFields) (q : QuicParams)
    → v.quic_udp_hop_ports ≡ []
    → IsCollected q
    → collect_quic (hydrate_quic_params v q) ≡ q
unfolding collect_quic hydrate_quic_params
collect_quic-hydrate_quic_params v q e h = λ i. record {
  congestion = congestion_sent-form q.congestion i;
  bbr_profile = or_null-get_or q.bbr_profile h.bbr i;
  brutal_up_mbps = or_null_num_of_IsSettled q.brutal_up_mbps h.up i;
  brutal_down_mbps = or_null_num_of_IsSettled q.brutal_down_mbps h.down i;
  udp_hop =
      build_hop_shown v.quic_udp_hop_ports v.quic_udp_hop_interval_min v.quic_udp_hop_interval_max
        q.udp_hop e h.hop i;
  init_stream_receive_window =
      or_null_num_of_IsSettled q.init_stream_receive_window h.init_stream i;
  max_stream_receive_window = or_null_num_of_IsSettled q.max_stream_receive_window h.max_stream i;
  init_conn_receive_window = or_null_num_of_IsSettled q.init_conn_receive_window h.init_conn i;
  max_conn_receive_window = or_null_num_of_IsSettled q.max_conn_receive_window h.max_conn i;
  max_idle_timeout_secs = or_null_num_of_IsSettled q.max_idle_timeout_secs h.idle i;
  keep_alive_period_secs = or_null_num_of_IsSettled q.keep_alive_period_secs h.keep_alive i;
  disable_path_mtu_discovery = q.disable_path_mtu_discovery;
  max_incoming_streams = or_null_num_of_IsSettled q.max_incoming_streams h.streams i;
}

-- Settled parameters that are opened in a form whose QUIC fields are at their defaults, and saved, are
-- sent back unchanged.
pub build_quic_params_opened :
    (o : Option QuicParams) → IsSettledQuic o → build_quic_params (shown_quic quic_defaults o) ≡ o
unfolding build_quic_params
build_quic_params_opened none h =
    unfold collect_quic build_hop is_empty_quic or_null or_null_num trim in refl
build_quic_params_opened (some q) (h, e) =
    ap unless_empty (collect_quic-hydrate_quic_params quic_defaults q refl h) ∙ rw e
