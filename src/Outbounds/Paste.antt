-- ===== src/Outbounds/Paste.antt =====
-- `applyLink` of frontend/src/pages/Outbounds/OutboundForm.tsx, for a Hysteria 2 link: its values over the
-- defaults, with the tag and the switch that the form held.
use rx_ui.Base.{◌≡◌, refl, true, [], Option, none, some, get_or, is_empty, arith, if◌then◌else◌}
use mathlib.Core.List.{cons-ne-nil}
use rx_ui.Js.Text.{Text, trim}
use rx_ui.Js.Number.{Number, between}
use rx_ui.Api.FinalMask.{FinalMaskKind}
use rx_ui.Api.Outbound.{OutboundProtocolConfig}
use rx_ui.Inbounds.Form.{FinalMaskFormFields}
use rx_ui.Inbounds.Defaults.{finalmask_defaults}
use rx_ui.Inbounds.FinalMask.Settled.{IsSavable}
use rx_ui.Outbounds.Form.{OutboundFormValues, OutboundProtocol, OutboundSecurity}
use rx_ui.Outbounds.Form.Defaults.{
  outbound_defaults, outbound_hysteria_defaults, outbound_tls_defaults,
}
use rx_ui.Outbounds.Form.Protocol.{build_client_protocol}
use rx_ui.Outbounds.Form.Adapters.{form_to_outbound}
use rx_ui.Outbounds.Form.Adapters.RoundTrip.{
  IsSendableOutbound, IsSettledOutbound, form_to_outbound-IsSettledOutbound,
}
use rx_ui.Outbounds.Link.{HysteriaLink, Parsed, parse_hysteria_link}
use rx_ui.Outbounds.Link.Hysteria.{parse_hysteria_link-IsUsable}

abbrev pub pasted_mask : Option Text → FinalMaskFormFields
pasted_mask none = finalmask_defaults
pasted_mask (some password) = record finalmask_defaults {
  finalmask_kind = FinalMaskKind.salamander;
  finalmask_salamander_password = password;
}

-- `cur.tag?.trim() ? cur.tag : parsed.tag`
abbrev pub pasted_tag : Text → Text → Text
pasted_tag held tag = if is_empty (trim held) then tag else held

unfoldable pub paste_hysteria : OutboundFormValues → HysteriaLink → OutboundFormValues
paste_hysteria cur v = record outbound_defaults {
  tag = pasted_tag cur.tag v.tag;
  enabled = cur.enabled;
  protocol_kind = OutboundProtocol.hysteria;
  address = v.address;
  port = v.port;
  hysteria = record outbound_hysteria_defaults { hysteria_auth = v.hysteria_auth };
  security = OutboundSecurity.tls;
  tls = record outbound_tls_defaults {
    tls_server_name = v.tls_server_name;
    tls_alpn = v.tls_alpn;
    tls_verify_peer_cert_by_name = get_or v.tls_verify_peer_cert_by_name [];
    tls_pinned_peer_cert_sha256 = get_or v.tls_pinned_peer_cert_sha256 [];
  };
  finalmask = pasted_mask v.finalmask_salamander_password;
}

pasted_mask-IsSavable : (o : Option Text) → IsSavable (pasted_mask o)
pasted_mask-IsSavable none = (cons-ne-nil _ _, λ e. ground arith)
pasted_mask-IsSavable (some password) = (cons-ne-nil _ _, λ e. ground arith)

paste_hysteria-IsSendable :
    (read : Text → Number) (cur : OutboundFormValues) (v : HysteriaLink)
    → IsSendableOutbound read (paste_hysteria cur v)
unfolding paste_hysteria trim
paste_hysteria-IsSendable read cur v = record {
  path = λ e. ground arith;
  tls = λ _. cons-ne-nil _ _;
  mask = pasted_mask-IsSavable v.finalmask_salamander_password;
  wireguard = λ e. ground arith;
}

-- A Hysteria 2 link that is read, pasted into whatever form and saved makes a settled outbound: a Hysteria
-- tunnel to the host of the link, trimmed, and to its port, which is from 1 to 65535.
pub paste_hysteria-IsSettledOutbound :
    (decode : Text → Option Text) (search : Text → Text → Option Text) (read : Text → Number)
    (fresh now body : Text) (cur : OutboundFormValues) (v : HysteriaLink)
    → parse_hysteria_link decode search body ≡ Parsed.ok v
    → IsSettledOutbound (form_to_outbound read fresh now (paste_hysteria cur v) none)
      × ((form_to_outbound read fresh now (paste_hysteria cur v) none).protocol
          ≡ OutboundProtocolConfig.hysteria (record { address = trim v.address; port = v.port }))
      × (between 0 65536 v.port ≡ true)
unfolding form_to_outbound build_client_protocol paste_hysteria
paste_hysteria-IsSettledOutbound decode search read fresh now body cur v h =
    let (_, hp, _) = parse_hysteria_link-IsUsable decode search body v h in
    (
      form_to_outbound-IsSettledOutbound read fresh now (paste_hysteria cur v) none
          (paste_hysteria-IsSendable read cur v),
      refl,
      hp,
    )
