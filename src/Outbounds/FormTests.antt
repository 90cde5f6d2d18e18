-- ===== src/Outbounds/FormTests.antt =====
-- Concrete outbounds and outbound forms.
use rx_ui.Base.{◌≡◌, refl, true, false, [], ◌∷◌, none, some, arith}
use mathlib.Core.List.{cons-ne-nil}
use rx_ui.Js.Text.{codes, trim}
use rx_ui.Js.Number.{num, parse_int}
use rx_ui.Js.Number.Decimal.{parse_int-print}
use rx_ui.Api.FinalMask.{FinalMask}
use rx_ui.Api.Transport.{TransportConfig}
use rx_ui.Api.Security.{SecurityConfig}
use rx_ui.Api.Outbound.{CustomOutbound, OutboundProtocolConfig, WireguardOutbound}
use rx_ui.Outbounds.Form.{OutboundFormValues, OutboundNetwork, OutboundSecurity}
use rx_ui.Outbounds.Form.Defaults.{outbound_defaults, outbound_ws_defaults}
use rx_ui.Outbounds.Form.Protocol.RoundTrip.{IsSettledClientWireguard}
use rx_ui.Outbounds.Form.Adapters.{form_to_outbound, outbound_to_form}
use rx_ui.Outbounds.Form.Adapters.RoundTrip.{
  IsSendableOutbound, IsSettledOutbound, form_to_outbound-IsSettledOutbound,
  form_to_outbound-outbound_to_form, form_to_outbound_stable,
}

abbrev warp_tunnel : WireguardOutbound
warp_tunnel = record {
  secret_key = codes "s";
  address = codes "172.16.0.2/32" ∷ [];
  peer_public_key = codes "p";
  endpoint = codes "162.159.192.1:2408";
  reserved = num 1 ∷ num 22 ∷ num 255 ∷ [];
  mtu = num 1280;
  keep_alive = num 0;
  pre_shared_key = [];
  remote_dns = [];
  domain_strategy = [];
  warp = true;
}

abbrev warp_outbound : CustomOutbound
warp_outbound = record {
  id = codes "w1";
  tag = codes "warp";
  enabled = true;
  protocol = OutboundProtocolConfig.wireguard warp_tunnel;
  transport = TransportConfig.tcp;
  security = SecurityConfig.none;
  finalmask = FinalMask.none;
  mux = record { enabled = false; concurrency = num 0 };
  send_through = [];
  proxy_tag = [];
  created_at = codes "2026-01-01";
  updated_at = codes "2026-01-02";
}

warp_tunnel-IsSettled : IsSettledClientWireguard warp_tunnel
unfolding trim
warp_tunnel-IsSettled = record {
  secret_key = refl;
  address = ((refl, cons-ne-nil _ _), tt);
  peer_public_key = refl;
  endpoint = refl;
  reserved = (tt, (tt, (tt, tt)));
  mtu = refl;
  keep_alive = refl;
  pre_shared_key = refl;
  remote_dns = tt;
  domain_strategy = refl;
}

warp_outbound-IsSettled : IsSettledOutbound warp_outbound
unfolding trim
warp_outbound-IsSettled = record {
  tag = refl;
  protocol = warp_tunnel-IsSettled;
  layers = (refl, refl, refl, refl);
  send_through = refl;
  proxy_tag = refl;
}

form_to_outbound-outbound_to_form_example :
    form_to_outbound parse_int
      (codes "new")
      (codes "2026-02-03")
      (outbound_to_form warp_outbound)
      (some warp_outbound)
    ≡ record warp_outbound { updated_at = codes "2026-02-03" }
form_to_outbound-outbound_to_form_example =
    form_to_outbound-outbound_to_form parse_int parse_int-print (codes "new") (codes "2026-02-03")
      warp_outbound warp_outbound-IsSettled

-- VLESS over WebSocket and TLS.
abbrev ws_form_values : OutboundFormValues
ws_form_values = record outbound_defaults {
  tag = codes " relay ";
  address = codes "a.b";
  network = OutboundNetwork.ws;
  ws = record outbound_ws_defaults { ws_path = codes "/x"; ws_host = codes "h" };
  security = OutboundSecurity.tls;
}

ws_form_values-IsSendable : IsSendableOutbound parse_int ws_form_values
unfolding trim
ws_form_values-IsSendable = record {
  path = λ _. cons-ne-nil _ _;
  tls = λ _. cons-ne-nil _ _;
  mask = (cons-ne-nil _ _, λ e. ground arith);
  wireguard = λ e. ground arith;
}

form_to_outbound-IsSettledOutbound_example :
    IsSettledOutbound (form_to_outbound parse_int (codes "id") (codes "now") ws_form_values none)
form_to_outbound-IsSettledOutbound_example =
    form_to_outbound-IsSettledOutbound parse_int (codes "id") (codes "now") ws_form_values none
      ws_form_values-IsSendable

form_to_outbound_stable_example :
    form_to_outbound parse_int
      (codes "id2")
      (codes "later")
      (outbound_to_form (form_to_outbound parse_int (codes "id") (codes "now") ws_form_values none))
      (some (form_to_outbound parse_int (codes "id") (codes "now") ws_form_values none))
    ≡ record (form_to_outbound parse_int (codes "id") (codes "now") ws_form_values none) {
      updated_at = codes "later";
    }
form_to_outbound_stable_example =
    form_to_outbound_stable parse_int parse_int-print (codes "id") (codes "now") (codes "id2")
      (codes "later") ws_form_values ws_form_values-IsSendable
