-- ===== src/Inbounds/Guards.antt =====
-- frontend/src/pages/Inbounds/form/registry.ts: the rules of each protocol, and the effect that snaps
-- back what the operator's last choice has made impossible.
pub mod Settling
pub mod Sending
pub mod Masking
use rx_ui.Base.{
  ℕ, zero, suc, Bool, true, false, ◌&&◌, not, any, List, [], ◌∷◌, Option, none, some, if◌then◌else◌,
}
use rx_ui.Js.Text.{Text, codes}
use rx_ui.Api.FinalMask.{FinalMaskKind}
use rx_ui.Api.MaskSupport.{FinalMaskSupport, GuardedMask, final_mask_guard}
use rx_ui.Api.Protocol.{VlessFlow}
use rx_ui.Api.Transport.{TransportKind}
use rx_ui.Api.Security.{SecurityKind}
use rx_ui.Inbounds.Form.{FormNetwork, FormProtocol, FormSecurity, FormValues, ProtocolDef}

-- `PROTOCOL_REGISTRY[protocol]`
unfoldable pub protocol_registry : FormProtocol → ProtocolDef
protocol_registry FormProtocol.vless = record {
  allowed_transports = TransportKind.tcp ∷ TransportKind.ws ∷ TransportKind.xhttp ∷ [];
  allowed_securities = SecurityKind.none ∷ SecurityKind.tls ∷ SecurityKind.reality ∷ [];
  default_security = SecurityKind.reality;
  has_flow = true;
}
protocol_registry FormProtocol.hysteria2 = record {
  allowed_transports = TransportKind.hysteria ∷ [];
  allowed_securities = SecurityKind.tls ∷ [];
  default_security = SecurityKind.tls;
  has_flow = false;
}
protocol_registry FormProtocol.wireguard = record {
  allowed_transports = TransportKind.tcp ∷ [];
  allowed_securities = SecurityKind.none ∷ [];
  default_security = SecurityKind.none;
  has_flow = false;
}

-- `===` on the kinds of the two sides, which share their strings
abbrev pub is_security : FormSecurity → SecurityKind → Bool
is_security FormSecurity.none SecurityKind.none = true
is_security FormSecurity.tls SecurityKind.tls = true
is_security FormSecurity.reality SecurityKind.reality = true
is_security _ _ = false

abbrev pub is_network : FormNetwork → TransportKind → Bool
is_network FormNetwork.tcp TransportKind.tcp = true
is_network FormNetwork.ws TransportKind.ws = true
is_network FormNetwork.xhttp TransportKind.xhttp = true
is_network _ _ = false

abbrev pub form_security : SecurityKind → FormSecurity
form_security SecurityKind.none = FormSecurity.none
form_security SecurityKind.tls = FormSecurity.tls
form_security SecurityKind.reality = FormSecurity.reality

-- The first transport that the network selector can hold.
abbrev pub snap_to : List TransportKind → Option FormNetwork
snap_to [] = none
snap_to (TransportKind.tcp ∷ ks) = some FormNetwork.tcp
snap_to (TransportKind.ws ∷ ks) = some FormNetwork.ws
snap_to (TransportKind.xhttp ∷ ks) = some FormNetwork.xhttp
snap_to (TransportKind.hysteria ∷ ks) = snap_to ks

-- What `Form.useWatch` answers: nothing for a field that is not registered yet.
pub record Watched : Type 0 where
  pub protocol : Option FormProtocol
  pub network : Option FormNetwork
  pub flow : Option VlessFlow
  pub security : Option FormSecurity

-- The fields of the form that the effect reads or writes.
pub record Selection : Type 0 where
  pub protocol : FormProtocol
  pub network : FormNetwork
  pub flow : VlessFlow
  pub security : FormSecurity

-- `flow !== 'none'`, true also where the flow is unknown
abbrev pub has_other_flow : Option VlessFlow → Bool
has_other_flow (some VlessFlow.none) = false
has_other_flow _ = true

abbrev pub has_vision : Option VlessFlow → Bool
has_vision (some VlessFlow.xtls_rprx_vision) = true
has_vision _ = false

-- `network !== undefined && network !== 'tcp'`
abbrev pub is_framed : Option FormNetwork → Bool
is_framed none = false
is_framed (some FormNetwork.tcp) = false
is_framed (some FormNetwork.ws) = true
is_framed (some FormNetwork.xhttp) = true

-- `network === 'ws' && security === 'reality'`
abbrev pub is_ws_reality : Option FormNetwork → Option FormSecurity → Bool
is_ws_reality (some FormNetwork.ws) (some FormSecurity.reality) = true
is_ws_reality _ _ = false

abbrev pub refuses_security : ProtocolDef → Option FormSecurity → Bool
refuses_security def none = false
refuses_security def (some s) = not (any (is_security s) def.allowed_securities)

abbrev pub refuses_network : ProtocolDef → Option FormNetwork → Bool
refuses_network def none = false
refuses_network def (some n) = not (any (is_network n) def.allowed_transports)

-- The two writes to `security`, the later one last.
unfoldable pub guard_security : ProtocolDef → Watched → FormSecurity → FormSecurity
guard_security def w now =
    let snapped =
      if refuses_security def w.security then form_security def.default_security else now in
    if is_ws_reality w.network w.security then FormSecurity.tls else snapped

unfoldable pub guard_flow : ProtocolDef → Watched → VlessFlow → VlessFlow
guard_flow def w now =
    let cleared = if not def.has_flow && has_other_flow w.flow then VlessFlow.none else now in
    if def.has_flow && is_framed w.network && has_vision w.flow then VlessFlow.none else cleared

abbrev pub snapped_network : Option FormNetwork → FormNetwork → FormNetwork
snapped_network none now = now
snapped_network (some n) now = n

unfoldable pub guard_network : ProtocolDef → Watched → FormNetwork → FormNetwork
guard_network def w now =
    if refuses_network def w.network
    then snapped_network (snap_to def.allowed_transports) now
    else now

-- One run of the effect: what it read when it was scheduled, and the values that it writes over.
unfoldable pub protocol_guards : Watched → Selection → Selection
unfolding guard_security guard_flow guard_network protocol_registry
protocol_guards w s = elim w.protocol [
  | none ↦ s
  | some p ↦ record s {
    network = guard_network (protocol_registry p) w s.network;
    flow = guard_flow (protocol_registry p) w s.flow;
    security = guard_security (protocol_registry p) w s.security;
  }
]

-- Every field is registered.
abbrev pub watch : Selection → Watched
watch s = record {
  protocol = some s.protocol;
  network = some s.network;
  flow = some s.flow;
  security = some s.security;
}

-- A write renders the form again, which runs the effect again.
unfoldable pub guard_rounds : ℕ → Selection → Selection
unfolding protocol_guards
guard_rounds zero s = s
guard_rounds (suc n) s = guard_rounds n (protocol_guards (watch s) s)

abbrev pub selection : FormValues → Selection
selection v = record {
  protocol = v.protocol_kind;
  network = v.network;
  flow = v.vless.vless_flow;
  security = v.security;
}

abbrev pub with_selection : FormValues → Selection → FormValues
with_selection v s = record v {
  protocol_kind = s.protocol;
  network = s.network;
  vless = record v.vless { vless_flow = s.flow };
  security = s.security;
}

abbrev pub network_text : Option FormNetwork → Option Text
network_text none = none
network_text (some FormNetwork.tcp) = some (codes "tcp")
network_text (some FormNetwork.ws) = some (codes "ws")
network_text (some FormNetwork.xhttp) = some (codes "xhttp")

abbrev pub security_text : Option FormSecurity → Option Text
security_text none = none
security_text (some FormSecurity.none) = some (codes "none")
security_text (some FormSecurity.tls) = some (codes "tls")
security_text (some FormSecurity.reality) = some (codes "reality")

-- The transport in the words of the backend's matrix.
abbrev pub mask_transport : Option FormProtocol → Option FormNetwork → Option Text
mask_transport (some FormProtocol.hysteria2) n = some (codes "hysteria")
mask_transport (some FormProtocol.wireguard) n = some (codes "wireguard")
mask_transport (some FormProtocol.vless) n = network_text n
mask_transport none n = network_text n

-- The call of `useFinalMaskGuard`, on the mask that the form holds.
unfoldable pub form_mask_guard : Option FinalMaskSupport → Watched → FinalMaskKind → GuardedMask
form_mask_guard matrix w kind =
    final_mask_guard matrix (mask_transport w.protocol w.network) (security_text w.security)
      (some kind)
