-- ===== src/Inbounds/GuardTests.antt =====
-- Concrete runs of the guards of the inbound form and of the mask effect.
use rx_ui.Base.{◌≡◌, [], ◌∷◌, some}
use rx_ui.Js.Text.{codes}
use rx_ui.Api.FinalMask.{FinalMaskKind}
use rx_ui.Inbounds.Form.{FormNetwork, FormProtocol, FormSecurity}
use rx_ui.Inbounds.Adapters.{form_to_create}
use rx_ui.Api.Protocol.{VlessFlow}
use rx_ui.Api.MaskSupport.{FinalMaskSupport}
use rx_ui.Inbounds.Guards.{Selection, guard_rounds}
use rx_ui.Inbounds.Guards.Settling.{guard_rounds_settled}
use rx_ui.Inbounds.Guards.Masking.{
  HasRunnableMask, form_to_create-HasRunnableMask, with_guarded_mask,
}
use rx_ui.Inbounds.Tests.{sample_form}

-- WireGuard picked over a VLESS form that carried REALITY over WebSocket.
abbrev carried_over : Selection
carried_over = record {
  protocol = FormProtocol.wireguard;
  network = FormNetwork.ws;
  flow = VlessFlow.xtls_rprx_vision;
  security = FormSecurity.reality;
}

guard_rounds_settled_example : guard_rounds 5 carried_over ≡ guard_rounds 2 carried_over
guard_rounds_settled_example = guard_rounds_settled 3 carried_over

-- Raw TCP runs the fragment mask, WebSocket under TLS runs none.
abbrev matrix : FinalMaskSupport
matrix =
    (codes "tcp", (codes "none", FinalMaskKind.fragment ∷ []) ∷ [])
    ∷ (codes "ws", (codes "tls", []) ∷ [])
    ∷ []

form_to_create-HasRunnableMask_example :
    HasRunnableMask (some matrix) (form_to_create (with_guarded_mask (some matrix) sample_form))
form_to_create-HasRunnableMask_example = form_to_create-HasRunnableMask (some matrix) sample_form
