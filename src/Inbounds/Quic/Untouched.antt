-- ===== src/Inbounds/Quic/Untouched.antt =====
-- When the form sends no QUIC parameters at all.
use mathlib.Core.Bool.{and-eq-true_iff}
use rx_ui.Base.{◌&&◌, not, ◌≡◌, ◌↔◌, refl, Bool, true, false, [], List, Option, none, some, arith}
use rx_ui.Js.Text.{Text, trim}
use rx_ui.Js.Number.{Number, nan, int}
use rx_ui.Api.Transport.{QuicParams}
use rx_ui.Inbounds.Form.{FormCongestion, QuicFormFields}
use rx_ui.Inbounds.Values.{or_null, or_null_num}
use rx_ui.Inbounds.Quic.{
  is_null, congestion_sent, hop_ports, build_hop, collect_quic, is_empty_quic, unless_empty,
  build_quic_params,
}

-- The knobs of the form that are left at rest.
abbrev pub IsUnset : Option Number → Type 0
IsUnset none = Unit
IsUnset (some nan) = Unit
IsUnset (some (int z)) = ⊥

pub record IsUntouched (v : QuicFormFields) : Type 0 where
  pub congestion : v.quic_congestion ≡ FormCongestion.default
  pub bbr : trim v.quic_bbr_profile ≡ []
  pub up : IsUnset v.quic_brutal_up_mbps
  pub down : IsUnset v.quic_brutal_down_mbps
  pub hop : hop_ports v.quic_udp_hop_ports ≡ []
  pub init_stream : IsUnset v.quic_init_stream_receive_window
  pub max_stream : IsUnset v.quic_max_stream_receive_window
  pub init_conn : IsUnset v.quic_init_conn_receive_window
  pub max_conn : IsUnset v.quic_max_conn_receive_window
  pub idle : IsUnset v.quic_max_idle_timeout_secs
  pub keep_alive : IsUnset v.quic_keep_alive_period_secs
  pub mtu : v.quic_disable_path_mtu_discovery ≡ false
  pub streams : IsUnset v.quic_max_incoming_streams

is_null-or_null_num : (o : Option Number) → (is_null (or_null_num o) ≡ true) ↔ IsUnset o
unfolding or_null_num
is_null-or_null_num none = (λ _. tt, λ _. refl)
is_null-or_null_num (some nan) = (λ _. tt, λ _. refl)
is_null-or_null_num (some (int z)) = (λ e. cc, λ h. absurd h)

is_null-or_null : (s : Text) → (is_null (or_null s) ≡ true) ↔ (trim s ≡ [])
unfolding or_null
is_null-or_null s = ground arith

is_null-build_hop :
    (ports : List Text) (least most : Option Number)
    → (is_null (build_hop ports least most) ≡ true) ↔ (hop_ports ports ≡ [])
unfolding build_hop
is_null-build_hop ports least most = ground arith

is_null-congestion_sent :
    (c : FormCongestion) → (is_null (congestion_sent c) ≡ true) ↔ (c ≡ FormCongestion.default)
is_null-congestion_sent c = ground arith

and_parts : {a b : Bool} → (a && b) ≡ true → (a ≡ true) × (b ≡ true)
and_parts h = (and-eq-true_iff _ _).0 h

and_join : {a b : Bool} → a ≡ true → b ≡ true → (a && b) ≡ true
and_join p q = (and-eq-true_iff _ _).1 (p, q)

not-eq-true : (b : Bool) → (not b ≡ true) ↔ (b ≡ false)
not-eq-true b = ground arith

module _ (v : QuicFormFields) where
  is_empty_quic_collected : is_empty_quic (collect_quic v) ≡ true → IsUntouched v
  unfolding is_empty_quic collect_quic
  is_empty_quic_collected h =
      let (r12, b13) = and_parts h in
      let (r11, b12) = and_parts r12 in
      let (r10, b11) = and_parts r11 in
      let (r9, b10) = and_parts r10 in
      let (r8, b9) = and_parts r9 in
      let (r7, b8) = and_parts r8 in
      let (r6, b7) = and_parts r7 in
      let (r5, b6) = and_parts r6 in
      let (r4, b5) = and_parts r5 in
      let (r3, b4) = and_parts r4 in
      let (r2, b3) = and_parts r3 in
      let (b1, b2) = and_parts r2 in
      record {
        congestion = (is_null-congestion_sent v.quic_congestion).0 b1;
        bbr = (is_null-or_null v.quic_bbr_profile).0 b2;
        up = (is_null-or_null_num v.quic_brutal_up_mbps).0 b3;
        down = (is_null-or_null_num v.quic_brutal_down_mbps).0 b4;
        hop =
            (is_null-build_hop v.quic_udp_hop_ports v.quic_udp_hop_interval_min
                v.quic_udp_hop_interval_max).0
              b5;
        init_stream = (is_null-or_null_num v.quic_init_stream_receive_window).0 b6;
        max_stream = (is_null-or_null_num v.quic_max_stream_receive_window).0 b7;
        init_conn = (is_null-or_null_num v.quic_init_conn_receive_window).0 b8;
        max_conn = (is_null-or_null_num v.quic_max_conn_receive_window).0 b9;
        idle = (is_null-or_null_num v.quic_max_idle_timeout_secs).0 b10;
        keep_alive = (is_null-or_null_num v.quic_keep_alive_period_secs).0 b11;
        mtu = (not-eq-true v.quic_disable_path_mtu_discovery).0 b12;
        streams = (is_null-or_null_num v.quic_max_incoming_streams).0 b13;
      }

  is_empty_quic_of_IsUntouched : IsUntouched v → is_empty_quic (collect_quic v) ≡ true
  unfolding is_empty_quic collect_quic
  is_empty_quic_of_IsUntouched h =
      let a1 = ((is_null-congestion_sent v.quic_congestion).1 h.congestion) in
      let a2 = and_join a1 ((is_null-or_null v.quic_bbr_profile).1 h.bbr) in
      let a3 = and_join a2 ((is_null-or_null_num v.quic_brutal_up_mbps).1 h.up) in
      let a4 = and_join a3 ((is_null-or_null_num v.quic_brutal_down_mbps).1 h.down) in
      let a5 = and_join a4 (
        (is_null-build_hop v.quic_udp_hop_ports v.quic_udp_hop_interval_min
            v.quic_udp_hop_interval_max).1
          h.hop) in
      let a6 =
        and_join a5 ((is_null-or_null_num v.quic_init_stream_receive_window).1 h.init_stream) in
      let a7 =
        and_join a6 ((is_null-or_null_num v.quic_max_stream_receive_window).1 h.max_stream) in
      let a8 = and_join a7 ((is_null-or_null_num v.quic_init_conn_receive_window).1 h.init_conn) in
      let a9 = and_join a8 ((is_null-or_null_num v.quic_max_conn_receive_window).1 h.max_conn) in
      let a10 = and_join a9 ((is_null-or_null_num v.quic_max_idle_timeout_secs).1 h.idle) in
      let a11 = and_join a10 ((is_null-or_null_num v.quic_keep_alive_period_secs).1 h.keep_alive) in
      let a12 = and_join a11 ((not-eq-true v.quic_disable_path_mtu_discovery).1 h.mtu) in
      and_join a12 ((is_null-or_null_num v.quic_max_incoming_streams).1 h.streams)

unless_empty-eq-none_iff : (q : QuicParams) → (unless_empty q ≡ none) ↔ (is_empty_quic q ≡ true)
unless_empty-eq-none_iff q = ground arith

-- Nothing is sent exactly when no knob is set: no congestion control, a blank profile, no number but
-- NaN, no valid port, and the MTU discovery left on.
pub build_quic_params-eq-none_iff :
    (v : QuicFormFields) → (build_quic_params v ≡ none) ↔ IsUntouched v
unfolding build_quic_params
build_quic_params-eq-none_iff v =
    let (to, from) = unless_empty-eq-none_iff (collect_quic v) in
    (λ e. is_empty_quic_collected v (to e), λ h. from (is_empty_quic_of_IsUntouched v h))
