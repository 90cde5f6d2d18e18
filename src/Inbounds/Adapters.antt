-- ===== src/Inbounds/Adapters.antt =====
-- frontend/src/pages/Inbounds/form/adapters.ts: `inboundToForm`, `formToCreate` and `formToUpdate`, from
-- the layers that the sibling modules translate.
pub mod RoundTrip
use rx_ui.Base.{none, some}
use rx_ui.Api.Inbound.{Inbound, InboundCreate, InboundUpdate}
use rx_ui.Inbounds.Form.{FormValues}
use rx_ui.Inbounds.Defaults.{finalmask_defaults}
use rx_ui.Inbounds.Values.{non_empty}
use rx_ui.Inbounds.FinalMask.{build_final_mask, hydrate_final_mask}
use rx_ui.Inbounds.Protocol.{build_protocol, protocol_kind, vless_form, wireguard_form}
use rx_ui.Inbounds.Sniffing.{build_sniffing, build_sockopt, sniffing_form, sockopt_form}
use rx_ui.Inbounds.Transport.{
  build_transport, hysteria_form, network_form, quic_form, ws_form, xhttp_form,
}
use rx_ui.Inbounds.Security.{build_security, reality_form, security_kind, tls_form}

unfoldable pub inbound_to_form : Inbound → FormValues
inbound_to_form inb = record {
  tag = inb.tag;
  port = inb.port;
  listen = inb.listen;
  protocol_kind = protocol_kind inb.protocol;
  network = network_form inb.transport;
  security = security_kind inb.security;
  vless = vless_form inb.protocol;
  reality = reality_form inb.security;
  ws = ws_form inb.transport;
  tls = tls_form inb.security;
  xhttp = xhttp_form inb.transport;
  hysteria = hysteria_form inb.transport;
  wireguard = wireguard_form inb.protocol;
  quic = quic_form inb.transport;
  finalmask = hydrate_final_mask finalmask_defaults inb.finalmask;
  sniffing = sniffing_form inb.sniffing;
  sockopt = sockopt_form inb.sockopt;
}

unfoldable pub form_to_create : FormValues → InboundCreate
form_to_create v = record {
  tag = v.tag;
  listen = non_empty v.listen;
  port = v.port;
  protocol = build_protocol v.protocol_kind v.vless v.wireguard;
  transport = build_transport v.protocol_kind v.network v.hysteria v.ws v.xhttp v.quic;
  security = build_security v.security v.reality v.tls;
  sniffing = some (build_sniffing v.sniffing);
  finalmask = some (build_final_mask v.finalmask);
  sockopt = some (build_sockopt v.sockopt);
}

unfoldable pub form_to_update : FormValues → InboundUpdate
form_to_update v = record {
  tag = some v.tag;
  enabled = none;
  listen = non_empty v.listen;
  port = some v.port;
  protocol = some (build_protocol v.protocol_kind v.vless v.wireguard);
  transport = some (build_transport v.protocol_kind v.network v.hysteria v.ws v.xhttp v.quic);
  security = some (build_security v.security v.reality v.tls);
  sniffing = some (build_sniffing v.sniffing);
  finalmask = some (build_final_mask v.finalmask);
  sockopt = some (build_sockopt v.sockopt);
}
