-- ===== src/Inbounds/Tests.antt =====
-- Concrete runs of the inbound form: a VLESS inbound over WebSocket and TLS with a fragment mask.
use rx_ui.Base.{inl, ◌≡◌, refl, [], ◌∷◌, true, none, some, inr, arith}
use mathlib.Core.List.{cons-ne-nil}
use rx_ui.Js.Text.{codes, trim}
use rx_ui.Js.Number.{nan, num}
use rx_ui.Api.FinalMask.{FinalMask, FinalMaskKind}
use rx_ui.Api.Inbound.{Inbound}
use rx_ui.Inbounds.Form.{
  FinalMaskFormFields, FormNetwork, FormSecurity, FormValues, FragmentPacketsMode, TlsFormFields,
  WsFormFields,
}
use rx_ui.Inbounds.Defaults.{finalmask_defaults, form_defaults, tls_defaults, ws_defaults}
use rx_ui.Inbounds.FinalMask.{build_final_mask, hydrate_final_mask}
use rx_ui.Inbounds.FinalMask.Settled.{IsSavable}
use rx_ui.Inbounds.FinalMask.RoundTrip.{
  build_final_mask_stable, build_final_mask-hydrate_final_mask,
}
use rx_ui.Inbounds.Adapters.{form_to_create, form_to_update, inbound_to_form}
use rx_ui.Inbounds.Adapters.RoundTrip.{
  IsSendable, IsSettledInbound, IsStored, as_stored, form_to_create-IsSettledInbound,
  form_to_update-inbound_to_form, form_to_update_stable,
}
use rx_ui.Api.Protocol.{ProtocolConfig, WireguardProtocol}
use rx_ui.Api.Transport.{TransportConfig}
use rx_ui.Api.Security.{SecurityConfig}
use rx_ui.Inbounds.Values.{or_null_num, trimmed_items}
use rx_ui.Inbounds.Security.RoundTrip.{HasTlsChoices}
use rx_ui.Inbounds.Sniffing.{build_sniffing, build_sockopt}

abbrev ws_fields : WsFormFields
ws_fields = record ws_defaults {
  ws_host = codes "cdn.example";
  ws_headers =
      record { name = codes " X-Real "; value = codes "1" }
      ∷ record { name = []; value = codes "x" }
      ∷ record { name = codes "X-Real"; value = codes "2" }
      ∷ [];
  ws_heartbeat_period = some nan;
}

abbrev tls_fields : TlsFormFields
tls_fields = record tls_defaults {
  tls_cipher_suites = codes "TLS_A" ∷ codes "TLS_B" ∷ [];
  tls_fingerprint = codes " firefox ";
}

abbrev mask_fields : FinalMaskFormFields
mask_fields = record finalmask_defaults {
  finalmask_kind = FinalMaskKind.fragment;
  finalmask_fragment_packets_mode = FragmentPacketsMode.range;
  finalmask_fragment_packets_from = some (num 1);
  finalmask_fragment_packets_to = some (num 3);
  finalmask_fragment_lengths = codes "100-200, 50,, x";
  finalmask_fragment_delays = codes "10";
}

abbrev pub sample_form : FormValues
sample_form = record form_defaults {
  tag = codes "edge";
  network = FormNetwork.ws;
  security = FormSecurity.tls;
  ws = ws_fields;
  tls = tls_fields;
  finalmask = mask_fields;
}

-- The row of the backend for what the form creates.
abbrev stored : FormValues → Inbound
stored v = record {
  id = codes "1";
  tag = v.tag;
  enabled = true;
  listen = v.listen;
  port = v.port;
  protocol = (form_to_create v).protocol;
  transport = (form_to_create v).transport;
  security = (form_to_create v).security;
  sniffing = build_sniffing v.sniffing;
  finalmask = build_final_mask v.finalmask;
  sockopt = build_sockopt v.sockopt;
  created_at = [];
  updated_at = [];
}

mask_fields-IsSavable : IsSavable mask_fields
mask_fields-IsSavable = (cons-ne-nil _ _, λ _. inl (num 1, (refl, λ e. ground arith)))

tls_fields-HasTlsChoices : HasTlsChoices tls_fields
unfolding trim
tls_fields-HasTlsChoices = (ground arith, cons-ne-nil _ _)

sample_form-IsSendable : IsSendable sample_form
sample_form-IsSendable = record {
  mask = mask_fields-IsSavable;
  tls = λ _. tls_fields-HasTlsChoices;
  mtu = λ e. cc;
}

sample-IsStored : IsStored (form_to_create sample_form) (stored sample_form)
unfolding form_to_create
sample-IsStored = record {
  tag = refl;
  listen = refl;
  port = refl;
  protocol = refl;
  transport = refl;
  security = refl;
  sniffing = refl;
  finalmask = refl;
  sockopt = refl;
}

form_to_update_stable_example :
    form_to_update (inbound_to_form (stored sample_form)) ≡ form_to_update sample_form
form_to_update_stable_example =
    form_to_update_stable sample_form (stored sample_form) sample_form-IsSendable sample-IsStored

form_to_create-IsSettledInbound_example : IsSettledInbound (stored sample_form)
form_to_create-IsSettledInbound_example =
    form_to_create-IsSettledInbound sample_form (stored sample_form) sample_form-IsSendable
      sample-IsStored

-- A WireGuard inbound whose MTU is the core's default.
abbrev wireguard_layer : WireguardProtocol
wireguard_layer = record {
  secret_key = codes "k";
  public_key = codes "p";
  subnet = codes "10.0.0.0/24";
  mtu = num 0;
  dns = codes "1.1.1.1";
  client_allowed_ips = [];
  client_keepalive = num 0;
  issue_preshared_key = true;
}

abbrev wireguard_inbound : Inbound
wireguard_inbound = record (stored form_defaults) {
  protocol = ProtocolConfig.wireguard wireguard_layer;
  transport = TransportConfig.tcp;
  security = SecurityConfig.none;
}

wireguard_inbound-IsSettled : IsSettledInbound wireguard_inbound
unfolding trim trimmed_items or_null_num build_sniffing build_sockopt build_final_mask
wireguard_inbound-IsSettled = record {
  listens = cons-ne-nil _ _;
  paired = tt;
  protocol = (refl, refl, refl);
  transport = tt;
  security = tt;
  sniffing = (tt, tt);
  finalmask = tt;
  sockopt = (tt, tt, tt, tt);
}

form_to_update-inbound_to_form_example :
    form_to_update (inbound_to_form wireguard_inbound) ≡ as_stored wireguard_inbound
form_to_update-inbound_to_form_example =
    form_to_update-inbound_to_form wireguard_inbound wireguard_inbound-IsSettled

build_final_mask_stable_example :
    build_final_mask (hydrate_final_mask finalmask_defaults (build_final_mask mask_fields))
    ≡ build_final_mask mask_fields
build_final_mask_stable_example =
    build_final_mask_stable mask_fields finalmask_defaults mask_fields-IsSavable refl

-- A row of the old kind of noise, with a literal packet.
abbrev noise_mask : FinalMask
noise_mask = FinalMask.noise (record {
  items =
      record {
        packet_hex = codes "ff";
        rand_min = none;
        rand_max = none;
        delay_min = some (num 5);
        delay_max = none;
      }
      ∷ [];
  reset_min = none;
  reset_max = none;
})

build_final_mask-hydrate_final_mask_example :
    build_final_mask (hydrate_final_mask finalmask_defaults noise_mask) ≡ noise_mask
build_final_mask-hydrate_final_mask_example =
    build_final_mask-hydrate_final_mask finalmask_defaults noise_mask refl
      (cons-ne-nil _ _, (inr (refl, refl), tt), refl, refl)
