-- ===== src/Inbounds/Adapters/RoundTrip.antt =====
-- A whole inbound that is opened in the form and saved, and one that is created, opened and saved.
use rx_ui.Base.{◌≡◌, ◌≢◌, refl, sym, ap, subst, ◌∙◌, [], ◌∷◌, List, none, some, false, get_or}
use mathlib.Core.List.{cons-ne-nil}
use rx_ui.Js.Text.{Text}
use rx_ui.Js.Number.{is_num, num}
use rx_ui.Api.Inbound.{Inbound, InboundCreate, InboundUpdate}
use rx_ui.Inbounds.Form.{
  FormNetwork, FormProtocol, FormSecurity, FormValues, HysteriaFormFields, QuicFormFields,
  WsFormFields, XhttpFormFields, VlessFormFields, WireguardFormFields,
}
use rx_ui.Inbounds.Defaults.{finalmask_defaults}
use rx_ui.Inbounds.Values.{non_empty}
use rx_ui.Inbounds.Values.Laws.{non_empty-get_or, some-ne-none}
use rx_ui.Inbounds.FinalMask.Settled.{IsSavable, IsSettledMask, build_final_mask-IsSettled}
use rx_ui.Inbounds.FinalMask.RoundTrip.{build_final_mask-hydrate_final_mask}
use rx_ui.Inbounds.Protocol.{build_protocol, protocol_kind}
use rx_ui.Inbounds.Protocol.RoundTrip.{
  IsSettledProtocol, build_protocol-IsSettled, build_protocol_opened, with_shown_mtu,
}
use rx_ui.Inbounds.Sniffing.RoundTrip.{
  IsSettledSniffing, IsSettledSockopt, build_sniffing-IsSettled, build_sniffing-sniffing_form,
  build_sockopt-IsSettled, build_sockopt-sockopt_form,
}
use rx_ui.Inbounds.Transport.{build_transport, build_network}
use rx_ui.Inbounds.Transport.Settled.{IsSettledTransport, build_transport-IsSettled}
use rx_ui.Inbounds.Transport.RoundTrip.{ArePaired, build_transport_opened}
use rx_ui.Inbounds.Security.RoundTrip.{
  HasTlsChoices, IsSettledSecurity, build_security-IsSettled, build_security_opened,
}
use rx_ui.Inbounds.Adapters.{form_to_create, form_to_update, inbound_to_form}

-- A stored inbound whose layers are as the form would send them.
pub record IsSettledInbound (inb : Inbound) : Type 0 where
  pub listens : inb.listen ≢ []
  pub paired : ArePaired (protocol_kind inb.protocol) inb.transport
  pub protocol : IsSettledProtocol inb.protocol
  pub transport : IsSettledTransport inb.transport
  pub security : IsSettledSecurity inb.security
  pub sniffing : IsSettledSniffing inb.sniffing
  pub finalmask : IsSettledMask inb.finalmask
  pub sockopt : IsSettledSockopt inb.sockopt

-- The update that sets every layer to the stored one, and leaves the switch `enabled` alone.
abbrev pub as_stored : Inbound → InboundUpdate
as_stored inb = record {
  tag = some inb.tag;
  enabled = none;
  listen = some inb.listen;
  port = some inb.port;
  protocol = some (with_shown_mtu inb.protocol);
  transport = some inb.transport;
  security = some inb.security;
  sniffing = some inb.sniffing;
  finalmask = some inb.finalmask;
  sockopt = some inb.sockopt;
}

non_empty_of_ne {ℓ} : {A : Type ℓ} (xs : List A) → xs ≢ [] → non_empty xs ≡ some xs
non_empty_of_ne xs ne = non_empty-get_or (some xs) ne

-- A settled inbound that is opened in the form and saved without an edit is sent back as it is stored:
-- no layer changes, but for a WireGuard MTU of 0, which is sent as 1420.
pub form_to_update-inbound_to_form :
    (inb : Inbound) → IsSettledInbound inb → form_to_update (inbound_to_form inb) ≡ as_stored inb
unfolding form_to_update inbound_to_form
form_to_update-inbound_to_form inb h = λ i. record {
  tag = some inb.tag;
  enabled = none;
  listen = non_empty_of_ne inb.listen h.listens i;
  port = some inb.port;
  protocol = some (build_protocol_opened inb.protocol h.protocol i);
  transport =
      some
        (build_transport_opened (protocol_kind inb.protocol) inb.transport h.paired h.transport i);
  security = some (build_security_opened inb.security h.security i);
  sniffing = some (build_sniffing-sniffing_form inb.sniffing h.sniffing i);
  finalmask =
      some
        (build_final_mask-hydrate_final_mask finalmask_defaults inb.finalmask refl h.finalmask i);
  sockopt = some (build_sockopt-sockopt_form inb.sockopt h.sockopt i);
}

-- A form whose mask, TLS fields and MTU are in order.
pub record IsSendable (v : FormValues) : Type 0 where
  pub mask : IsSavable v.finalmask
  pub tls : v.security ≡ FormSecurity.tls → HasTlsChoices v.tls
  pub mtu :
      v.protocol_kind ≡ FormProtocol.wireguard
      → is_num 0 (get_or v.wireguard.wg_mtu (num 0)) ≡ false

-- The inbound carries what the request sent.
pub record IsStored (c : InboundCreate) (inb : Inbound) : Type 0 where
  pub tag : inb.tag ≡ c.tag
  pub listen : some inb.listen ≡ c.listen
  pub port : inb.port ≡ c.port
  pub protocol : inb.protocol ≡ c.protocol
  pub transport : inb.transport ≡ c.transport
  pub security : inb.security ≡ c.security
  pub sniffing : some inb.sniffing ≡ c.sniffing
  pub finalmask : some inb.finalmask ≡ c.finalmask
  pub sockopt : some inb.sockopt ≡ c.sockopt

some-injective {ℓ} : {A : Type ℓ} {a b : A} → some a ≡ some b → a ≡ b
some-injective {a} e = ap (λ o. get_or o a) e

protocol_kind-build_protocol :
    (k : FormProtocol) (v : VlessFormFields) (w : WireguardFormFields)
    → protocol_kind (build_protocol k v w) ≡ k
unfolding build_protocol
protocol_kind-build_protocol FormProtocol.vless v w = refl
protocol_kind-build_protocol FormProtocol.hysteria2 v w = refl
protocol_kind-build_protocol FormProtocol.wireguard v w = refl

-- Whatever the form holds, the protocol and the transport that it sends go together.
pub build_transport-ArePaired :
    (k : FormProtocol) (n : FormNetwork) (h : HysteriaFormFields) (w : WsFormFields)
    (x : XhttpFormFields) (q : QuicFormFields)
    → ArePaired k (build_transport k n h w x q)
unfolding build_transport build_network
build_transport-ArePaired FormProtocol.hysteria2 n h w x q = tt
build_transport-ArePaired FormProtocol.vless FormNetwork.tcp h w x q = tt
build_transport-ArePaired FormProtocol.vless FormNetwork.ws h w x q = tt
build_transport-ArePaired FormProtocol.vless FormNetwork.xhttp h w x q = tt
build_transport-ArePaired FormProtocol.wireguard FormNetwork.tcp h w x q = tt
build_transport-ArePaired FormProtocol.wireguard FormNetwork.ws h w x q = tt
build_transport-ArePaired FormProtocol.wireguard FormNetwork.xhttp h w x q = tt

kept_mtu :
    (k : FormProtocol) (v : VlessFormFields) (w : WireguardFormFields)
    → (k ≡ FormProtocol.wireguard → is_num 0 (get_or w.wg_mtu (num 0)) ≡ false)
    → with_shown_mtu (build_protocol k v w) ≡ build_protocol k v w
unfolding build_protocol
kept_mtu FormProtocol.vless v w h = refl
kept_mtu FormProtocol.hysteria2 v w h = refl
kept_mtu FormProtocol.wireguard v w h = rw (h refl)

-- An inbound that carries what a form creates whose mask, TLS fields and MTU are in order is settled: its
-- layers go together, and each is as the form sends it.
pub form_to_create-IsSettledInbound :
    (v : FormValues) (inb : Inbound)
    → IsSendable v
    → IsStored (form_to_create v) inb
    → IsSettledInbound inb
unfolding form_to_create
form_to_create-IsSettledInbound v inb h s =
    let kind = protocol_kind-build_protocol v.protocol_kind v.vless v.wireguard in
    record {
      listens = λ e. listen_of_non_empty v.listen inb.listen s.listen e;
      paired =
          subst (λ p. ArePaired (protocol_kind p) inb.transport) (sym s.protocol)
            (subst (λ k. ArePaired k inb.transport) (sym kind)
              (subst (ArePaired v.protocol_kind) (sym s.transport) (
                build_transport-ArePaired v.protocol_kind v.network v.hysteria v.ws v.xhttp
                  v.quic)));
      protocol =
          subst IsSettledProtocol (sym s.protocol)
            (build_protocol-IsSettled v.protocol_kind v.vless v.wireguard);
      transport =
          subst IsSettledTransport (sym s.transport)
            (build_transport-IsSettled v.protocol_kind v.network v.hysteria v.ws v.xhttp v.quic);
      security =
          subst IsSettledSecurity (sym s.security)
            (build_security-IsSettled v.security v.reality v.tls h.tls);
      sniffing =
          subst IsSettledSniffing (sym (some-injective s.sniffing))
            (build_sniffing-IsSettled v.sniffing);
      finalmask =
          subst IsSettledMask (sym (some-injective s.finalmask))
            (build_final_mask-IsSettled v.finalmask h.mask);
      sockopt =
          subst IsSettledSockopt (sym (some-injective s.sockopt))
            (build_sockopt-IsSettled v.sockopt);
    }
  where
    listen_of_non_empty : (xs ys : Text) → some ys ≡ non_empty xs → ys ≢ []
    listen_of_non_empty [] ys e = λ _. absurd (some-ne-none ys e)
    listen_of_non_empty (c ∷ xs) ys e = λ z. cons-ne-nil c xs (sym (some-injective e) ∙ z)

as_stored-form_to_update :
    (v : FormValues) (inb : Inbound)
    → IsSendable v
    → IsStored (form_to_create v) inb
    → as_stored inb ≡ form_to_update v
unfolding form_to_update form_to_create
as_stored-form_to_update v inb h s = λ i. record {
  tag = some (s.tag i);
  enabled = none;
  listen = s.listen i;
  port = some (s.port i);
  protocol =
      some ((ap with_shown_mtu s.protocol ∙ kept_mtu v.protocol_kind v.vless v.wireguard h.mtu) i);
  transport = some (s.transport i);
  security = some (s.security i);
  sniffing = s.sniffing i;
  finalmask = s.finalmask i;
  sockopt = s.sockopt i;
}

-- A form whose mask, TLS fields and MTU are in order is stable: once an inbound carries what the form
-- creates, opening it and saving it sends exactly the update that the first form would have sent.
pub form_to_update_stable :
    (v : FormValues) (inb : Inbound)
    → IsSendable v
    → IsStored (form_to_create v) inb
    → form_to_update (inbound_to_form inb) ≡ form_to_update v
form_to_update_stable v inb h s =
    form_to_update-inbound_to_form inb (form_to_create-IsSettledInbound v inb h s)
    ∙ as_stored-form_to_update v inb h s
