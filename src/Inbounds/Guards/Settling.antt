-- ===== src/Inbounds/Guards/Settling.antt =====
-- The effect of the protocol rules settles, on a combination that the core can run.
use rx_ui.Base.{ℕ, zero, suc, ◌≡◌, ◌≢◌, ◌↔◌, ◌⊎◌, refl, ap, ◌∙◌, arith}
use rx_ui.Api.Protocol.{VlessFlow}
use rx_ui.Inbounds.Form.{FormNetwork, FormProtocol, FormSecurity}
use rx_ui.Inbounds.Guards.{Selection, guard_rounds, protocol_guards, watch}

-- What the core can run: Vision rides raw TCP alone and REALITY does not ride WebSocket; Hysteria 2 takes
-- TLS and WireGuard nothing at all.
abbrev pub IsAllowedFor : FormProtocol → Selection → Type 0
IsAllowedFor FormProtocol.vless s =
    ((s.flow ≡ VlessFlow.none) ⊎ (s.network ≡ FormNetwork.tcp))
    × ((s.network ≢ FormNetwork.ws) ⊎ (s.security ≢ FormSecurity.reality))
IsAllowedFor FormProtocol.hysteria2 s = (s.security ≡ FormSecurity.tls) × (s.flow ≡ VlessFlow.none)
IsAllowedFor FormProtocol.wireguard s =
    (s.network ≡ FormNetwork.tcp) × (s.security ≡ FormSecurity.none) × (s.flow ≡ VlessFlow.none)

abbrev pub IsAllowed : Selection → Type 0
IsAllowed s = IsAllowedFor s.protocol s

-- From any combination, two rounds of the effect reach one that the core can run.
pub guard_rounds-IsAllowed : (s : Selection) → IsAllowed (guard_rounds 2 s)
unfolding guard_rounds
guard_rounds-IsAllowed s = ground arith

pub protocol_guards_fixed_iff : (s : Selection) → (protocol_guards (watch s) s ≡ s) ↔ IsAllowed s
unfolding protocol_guards
protocol_guards_fixed_iff s = ground arith

guard_rounds_of_IsAllowed : (n : ℕ) (s : Selection) → IsAllowed s → guard_rounds n s ≡ s
unfolding guard_rounds
guard_rounds_of_IsAllowed zero s h = refl
guard_rounds_of_IsAllowed (suc n) s h =
    ap (guard_rounds n) ((protocol_guards_fixed_iff s).1 h) ∙ guard_rounds_of_IsAllowed n s h

-- The effect stops: whatever the combination it starts from, all rounds after the second leave the
-- fields as the second left them.
pub guard_rounds_settled : (n : ℕ) (s : Selection) → guard_rounds (suc (suc n)) s ≡ guard_rounds 2 s
guard_rounds_settled n s =
    unfold guard_rounds in guard_rounds_of_IsAllowed n (guard_rounds 2 s) (guard_rounds-IsAllowed s)
