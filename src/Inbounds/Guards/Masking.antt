-- ===== src/Inbounds/Guards/Masking.antt =====
-- The mask that a form sends once the mask effect has run.
use rx_ui.Base.{◌≡◌, ◌≢◌, [], refl, Option, none, some, get_or, arith}
use mathlib.Core.List.{cons-ne-nil}
use rx_ui.Js.Text.{Text, codes}
use rx_ui.Api.FinalMask.{FinalMaskKind, final_mask_kind}
use rx_ui.Api.MaskSupport.{FinalMaskSupport, final_mask_guard, supported_kinds}
use rx_ui.Api.MaskSupport.Laws.{IsRunnable, final_mask_guard-IsRunnable}
use rx_ui.Api.Protocol.{ProtocolConfig}
use rx_ui.Api.Transport.{TransportConfig}
use rx_ui.Api.Security.{SecurityConfig}
use rx_ui.Api.Inbound.{InboundCreate}
use rx_ui.Inbounds.Form.{FormNetwork, FormProtocol, FormSecurity, FormValues}
use rx_ui.Inbounds.FinalMask.Settled.{final_mask_kind-build_final_mask}
use rx_ui.Inbounds.Protocol.{build_protocol}
use rx_ui.Inbounds.Transport.{build_network, build_transport}
use rx_ui.Inbounds.Security.{build_security}
use rx_ui.Inbounds.Adapters.{form_to_create}
use rx_ui.Inbounds.Guards.{form_mask_guard, mask_transport, security_text, selection, watch}

-- The key of a payload in the matrix: the protocols with a socket of their own, else the transport.
abbrev pub transport_key : ProtocolConfig → TransportConfig → Text
transport_key ProtocolConfig.hysteria2 t = codes "hysteria"
transport_key (ProtocolConfig.wireguard p) t = codes "wireguard"
transport_key (ProtocolConfig.vless p) TransportConfig.tcp = codes "tcp"
transport_key (ProtocolConfig.vless p) (TransportConfig.ws w) = codes "ws"
transport_key (ProtocolConfig.vless p) (TransportConfig.xhttp x) = codes "xhttp"
transport_key (ProtocolConfig.vless p) (TransportConfig.hysteria h) = codes "hysteria"

abbrev pub security_key : SecurityConfig → Text
security_key SecurityConfig.none = codes "none"
security_key (SecurityConfig.tls s) = codes "tls"
security_key (SecurityConfig.reality r) = codes "reality"

-- The mask of the form after the effect; the form always holds one.
abbrev pub with_guarded_mask : Option FinalMaskSupport → FormValues → FormValues
with_guarded_mask matrix v = record v {
  finalmask = record v.finalmask {
    finalmask_kind =
        get_or (form_mask_guard matrix (watch (selection v)) v.finalmask.finalmask_kind).kind
          v.finalmask.finalmask_kind;
  };
}

-- The mask of a payload runs under its transport and its security, as far as the matrix says.
abbrev pub HasRunnableMask : Option FinalMaskSupport → InboundCreate → Type 0
HasRunnableMask matrix c = elim c.finalmask [
  | none ↦ Unit
  | some fm ↦
      IsRunnable
        (supported_kinds matrix (some (transport_key c.protocol c.transport))
          (some (security_key c.security)))
        (final_mask_kind fm)
]

keys_sent :
    (v : FormValues)
    → (some (transport_key (form_to_create v).protocol (form_to_create v).transport)
        ≡ mask_transport (some v.protocol_kind) (some v.network))
      × (some (security_key (form_to_create v).security) ≡ security_text (some v.security))
unfolding form_to_create build_protocol build_transport build_network build_security
keys_sent v = ground arith

named_transport :
    (k : FormProtocol) (n : FormNetwork)
    → (t : Text) × (mask_transport (some k) (some n) ≡ some t) × (t ≢ [])
named_transport FormProtocol.hysteria2 n = (codes "hysteria", refl, cons-ne-nil _ _)
named_transport FormProtocol.wireguard n = (codes "wireguard", refl, cons-ne-nil _ _)
named_transport FormProtocol.vless FormNetwork.tcp = (codes "tcp", refl, cons-ne-nil _ _)
named_transport FormProtocol.vless FormNetwork.ws = (codes "ws", refl, cons-ne-nil _ _)
named_transport FormProtocol.vless FormNetwork.xhttp = (codes "xhttp", refl, cons-ne-nil _ _)

named_security : (s : FormSecurity) → (t : Text) × (security_text (some s) ≡ some t) × (t ≢ [])
named_security FormSecurity.none = (codes "none", refl, cons-ne-nil _ _)
named_security FormSecurity.tls = (codes "tls", refl, cons-ne-nil _ _)
named_security FormSecurity.reality = (codes "reality", refl, cons-ne-nil _ _)

guarded_kind-IsRunnable :
    (matrix : Option FinalMaskSupport) (k : FormProtocol) (n : FormNetwork) (s : FormSecurity)
    (m : FinalMaskKind)
    → IsRunnable
        (supported_kinds matrix (mask_transport (some k) (some n)) (security_text (some s)))
        (get_or
          (final_mask_guard matrix
            (mask_transport (some k) (some n))
            (security_text (some s))
            (some m)).kind
          m)
guarded_kind-IsRunnable matrix k n s m =
    let (t, et, ht) = named_transport k n in
    let (u, eu, hu) = named_security s in
    rw (et, eu) (final_mask_guard-IsRunnable matrix t u m ht hu)

-- Once the mask effect has run with every field registered, the mask that the form sends is one that the
-- matrix allows under the transport and the security that are sent with it, or the matrix is silent
-- on them.
pub form_to_create-HasRunnableMask :
    (matrix : Option FinalMaskSupport) (v : FormValues)
    → HasRunnableMask matrix (form_to_create (with_guarded_mask matrix v))
unfolding form_to_create form_mask_guard
form_to_create-HasRunnableMask matrix v =
    let g = with_guarded_mask matrix v in
    let (et, es) = keys_sent g in
    rw (et, es, final_mask_kind-build_final_mask g.finalmask)
      (guarded_kind-IsRunnable matrix v.protocol_kind v.network v.security
        v.finalmask.finalmask_kind)
