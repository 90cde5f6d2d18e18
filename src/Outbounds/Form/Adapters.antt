-- ===== src/Outbounds/Form/Adapters.antt =====
-- `formToOutbound` and `outboundToForm` of frontend/src/pages/Outbounds/form.ts. `read` is `Number(s)`,
-- `fresh` the identifier that `uuid()` draws, and `now` the time of the save.
pub mod RoundTrip
use rx_ui.Base.{false, Option, none, some, get_or}
use rx_ui.Js.Text.{Text, trim}
use rx_ui.Js.Number.{Number, num}
use rx_ui.Api.FinalMask.{FinalMask}
use rx_ui.Api.Transport.{TransportConfig}
use rx_ui.Api.Security.{SecurityConfig}
use rx_ui.Api.Outbound.{CustomOutbound, OutboundMux}
use rx_ui.Inbounds.Defaults.{finalmask_defaults}
use rx_ui.Inbounds.FinalMask.{build_final_mask, hydrate_final_mask}
use rx_ui.Outbounds.Form.{OutboundFormValues, OutboundProtocol}
use rx_ui.Outbounds.Form.Transport.{
  build_client_transport, client_network, client_ws_form, client_xhttp_form,
}
use rx_ui.Outbounds.Form.Security.{
  build_client_security, client_reality_form, client_security, client_tls_form,
}
use rx_ui.Outbounds.Form.Quic.{build_client_hysteria, client_hysteria_form}
use rx_ui.Outbounds.Form.Protocol.{
  build_client_protocol, client_address, client_kind, client_port, client_vless_form,
  client_wireguard_form,
}

-- The stream layers that a protocol goes with: a WireGuard tunnel has none of them.
abbrev pub transport_for : OutboundProtocol → OutboundFormValues → TransportConfig
transport_for OutboundProtocol.hysteria v =
    TransportConfig.hysteria (build_client_hysteria v.hysteria)
transport_for OutboundProtocol.wireguard v = TransportConfig.tcp
transport_for OutboundProtocol.vless v = build_client_transport v.network v.ws v.xhttp

abbrev pub security_for : OutboundProtocol → OutboundFormValues → SecurityConfig
security_for OutboundProtocol.wireguard v = SecurityConfig.none
security_for OutboundProtocol.vless v = build_client_security v.security v.tls v.reality
security_for OutboundProtocol.hysteria v = build_client_security v.security v.tls v.reality

abbrev pub mask_for : OutboundProtocol → OutboundFormValues → FinalMask
mask_for OutboundProtocol.wireguard v = FinalMask.none
mask_for OutboundProtocol.vless v = build_final_mask v.finalmask
mask_for OutboundProtocol.hysteria v = build_final_mask v.finalmask

abbrev pub mux_for : OutboundProtocol → OutboundFormValues → OutboundMux
mux_for OutboundProtocol.wireguard v = record { enabled = false; concurrency = num 0 }
mux_for OutboundProtocol.vless v = record {
  enabled = v.mux_enabled;
  concurrency = v.mux_concurrency;
}
mux_for OutboundProtocol.hysteria v = record {
  enabled = v.mux_enabled;
  concurrency = v.mux_concurrency;
}

-- `existing?.id` and `existing?.created_at`
abbrev pub id_of : Option CustomOutbound → Option Text
id_of none = none
id_of (some ob) = some ob.id

abbrev pub created_of : Option CustomOutbound → Option Text
created_of none = none
created_of (some ob) = some ob.created_at

unfoldable pub form_to_outbound :
    (read : Text → Number) (fresh now : Text)
    → OutboundFormValues
    → Option CustomOutbound
    → CustomOutbound
form_to_outbound read fresh now v existing = record {
  id = get_or (id_of existing) fresh;
  tag = trim v.tag;
  enabled = v.enabled;
  protocol = build_client_protocol read v.protocol_kind v.address v.port v.vless v.wireguard;
  transport = transport_for v.protocol_kind v;
  security = security_for v.protocol_kind v;
  finalmask = mask_for v.protocol_kind v;
  mux = mux_for v.protocol_kind v;
  send_through = trim v.send_through;
  proxy_tag = trim v.proxy_tag;
  created_at = get_or (created_of existing) now;
  updated_at = now;
}

unfoldable pub outbound_to_form : CustomOutbound → OutboundFormValues
outbound_to_form ob = record {
  tag = ob.tag;
  enabled = ob.enabled;
  protocol_kind = client_kind ob.protocol;
  address = client_address ob.protocol;
  port = client_port ob.protocol;
  vless = client_vless_form ob.protocol;
  hysteria = client_hysteria_form ob.transport;
  network = client_network ob.transport;
  ws = client_ws_form ob.transport;
  xhttp = client_xhttp_form ob.transport;
  security = client_security ob.security;
  tls = client_tls_form ob.security;
  reality = client_reality_form ob.security;
  mux_enabled = ob.mux.enabled;
  mux_concurrency = ob.mux.concurrency;
  send_through = ob.send_through;
  proxy_tag = ob.proxy_tag;
  wireguard = client_wireguard_form ob.protocol;
  finalmask = hydrate_final_mask finalmask_defaults ob.finalmask;
}
