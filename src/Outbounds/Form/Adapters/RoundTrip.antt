-- ===== src/Outbounds/Form/Adapters/RoundTrip.antt =====
-- Stored outbounds that are opened in the form and saved, and forms that are saved, opened and saved.
use rx_ui.Base.{◌≡◌, ◌≢◌, refl, sym, ap, false, [], Option, none, some}
use rx_ui.Js.Text.{Text, trim}
use rx_ui.Js.Text.Trim.{trim_idem}
use rx_ui.Js.Number.{Number, num, print}
use rx_ui.Js.Number.Decimal.{IsNatural}
use rx_ui.Api.FinalMask.{FinalMask}
use rx_ui.Api.Transport.{TransportConfig}
use rx_ui.Api.Security.{SecurityConfig}
use rx_ui.Api.Outbound.{CustomOutbound, OutboundMux}
use rx_ui.Inbounds.Defaults.{finalmask_defaults}
use rx_ui.Inbounds.FinalMask.Settled.{IsSavable, IsSettledMask, build_final_mask-IsSettled}
use rx_ui.Inbounds.FinalMask.RoundTrip.{build_final_mask-hydrate_final_mask}
use rx_ui.Outbounds.Form.{OutboundFormValues, OutboundProtocol, OutboundSecurity}
use rx_ui.Outbounds.Form.Transport.RoundTrip.{
  HasPath, IsSettledClientTransport, build_client_transport-IsSettled,
  build_client_transport_opened,
}
use rx_ui.Outbounds.Form.Security.RoundTrip.{
  IsSettledClientSecurity, build_client_security-IsSettled, build_client_security_opened,
}
use rx_ui.Outbounds.Form.Quic.RoundTrip.{
  IsSettledClientHysteria, build_client_hysteria-IsSettled, build_client_hysteria_opened,
}
use rx_ui.Outbounds.Form.Protocol.{build_client_protocol, client_kind}
use rx_ui.Outbounds.Form.Protocol.RoundTrip.{
  IsSettledClientProtocol, IsTrimmed, IsTypedWell, build_client_protocol-IsSettled,
  build_client_protocol_opened,
}
use rx_ui.Outbounds.Form.Adapters.{
  form_to_outbound, mask_for, mux_for, outbound_to_form, security_for, transport_for,
}

-- The stream layers suit the protocol: Hysteria 2 has its own transport, and a WireGuard tunnel has no
-- stream layer at all.
abbrev pub AreSettledLayers :
    OutboundProtocol → TransportConfig → SecurityConfig → FinalMask → OutboundMux → Type 0
AreSettledLayers OutboundProtocol.vless t s m x =
    IsSettledClientTransport t × IsSettledClientSecurity s × IsSettledMask m
AreSettledLayers OutboundProtocol.hysteria (TransportConfig.hysteria h) s m x =
    IsSettledClientHysteria h × IsSettledClientSecurity s × IsSettledMask m
AreSettledLayers OutboundProtocol.hysteria _ s m x = ⊥
AreSettledLayers OutboundProtocol.wireguard t s m x =
    (t ≡ TransportConfig.tcp)
    × (s ≡ SecurityConfig.none)
    × (m ≡ FinalMask.none)
    × (x ≡ record { enabled = false; concurrency = num 0 })

pub record IsSettledOutbound (ob : CustomOutbound) : Type 0 where
  pub tag : IsTrimmed ob.tag
  pub protocol : IsSettledClientProtocol ob.protocol
  pub layers :
      AreSettledLayers (client_kind ob.protocol) ob.transport ob.security ob.finalmask ob.mux
  pub send_through : IsTrimmed ob.send_through
  pub proxy_tag : IsTrimmed ob.proxy_tag

-- What the save keeps of a form without loss: the path and the fingerprint in use are not blank, the
-- mask is one that is read back, and the numbers of a tunnel are numbers.
pub record IsSendableOutbound (read : Text → Number) (v : OutboundFormValues) : Type 0 where
  pub path : v.protocol_kind ≡ OutboundProtocol.vless → HasPath v.network v.ws v.xhttp
  pub tls : v.security ≡ OutboundSecurity.tls → trim v.tls.tls_fingerprint ≢ []
  pub mask : IsSavable v.finalmask
  pub wireguard : v.protocol_kind ≡ OutboundProtocol.wireguard → IsTypedWell read v.wireguard

layers-AreSettled :
    (k : OutboundProtocol) (v : OutboundFormValues)
    → (k ≡ OutboundProtocol.vless → HasPath v.network v.ws v.xhttp)
    → (v.security ≡ OutboundSecurity.tls → trim v.tls.tls_fingerprint ≢ [])
    → IsSavable v.finalmask
    → AreSettledLayers k (transport_for k v) (security_for k v) (mask_for k v) (mux_for k v)
layers-AreSettled OutboundProtocol.vless v hp ht hm = (
  build_client_transport-IsSettled v.network v.ws v.xhttp (hp refl),
  build_client_security-IsSettled v.security v.tls v.reality ht,
  build_final_mask-IsSettled v.finalmask hm,
)
layers-AreSettled OutboundProtocol.hysteria v hp ht hm = (
  build_client_hysteria-IsSettled v.hysteria,
  build_client_security-IsSettled v.security v.tls v.reality ht,
  build_final_mask-IsSettled v.finalmask hm,
)
layers-AreSettled OutboundProtocol.wireguard v hp ht hm = (refl, refl, refl, refl)

client_kind-build :
    (read : Text → Number) (k : OutboundProtocol) (v : OutboundFormValues)
    → client_kind (build_client_protocol read k v.address v.port v.vless v.wireguard) ≡ k
unfolding build_client_protocol
client_kind-build read OutboundProtocol.vless v = refl
client_kind-build read OutboundProtocol.hysteria v = refl
client_kind-build read OutboundProtocol.wireguard v = refl

-- Whatever the form holds, if the path and the fingerprint in use are not blank, the mask is one that is
-- read back and the numbers of a tunnel are numbers, the outbound that it sends is settled: its tag,
-- its addresses and the tags and addresses that it is sent through are trimmed, cipher details go with the cipher alone, Hysteria 2 comes with its own transport, and a
-- WireGuard tunnel with no transport, security, mask or multiplexing.
pub form_to_outbound-IsSettledOutbound :
    (read : Text → Number) (fresh now : Text) (v : OutboundFormValues)
    (existing : Option CustomOutbound)
    → IsSendableOutbound read v
    → IsSettledOutbound (form_to_outbound read fresh now v existing)
unfolding form_to_outbound
form_to_outbound-IsSettledOutbound read fresh now v existing h = record {
  tag = trim_idem v.tag;
  protocol =
      build_client_protocol-IsSettled read v.protocol_kind v.address v.port v.vless v.wireguard
        h.wireguard;
  layers =
      rw (client_kind-build read v.protocol_kind v)
        (layers-AreSettled v.protocol_kind v h.path h.tls h.mask);
  send_through = trim_idem v.send_through;
  proxy_tag = trim_idem v.proxy_tag;
}

-- The four layers of the opened outbound.
AreKept : OutboundProtocol → CustomOutbound → Type 0
AreKept k ob =
    (transport_for k (outbound_to_form ob) ≡ ob.transport)
    × (security_for k (outbound_to_form ob) ≡ ob.security)
    × (mask_for k (outbound_to_form ob) ≡ ob.finalmask)
    × (mux_for k (outbound_to_form ob) ≡ ob.mux)

hysteria_kept :
    (ob : CustomOutbound) (t : TransportConfig)
    → ob.transport ≡ t
    → AreSettledLayers OutboundProtocol.hysteria t ob.security ob.finalmask ob.mux
    → AreKept OutboundProtocol.hysteria ob
unfolding AreKept outbound_to_form
hysteria_kept ob (TransportConfig.hysteria h) e (ht, hs, hm) = (
  rw e (ap TransportConfig.hysteria (build_client_hysteria_opened h ht)),
  build_client_security_opened ob.security hs,
  build_final_mask-hydrate_final_mask finalmask_defaults ob.finalmask refl hm,
  refl,
)
hysteria_kept ob TransportConfig.tcp e h = absurd h
hysteria_kept ob (TransportConfig.ws w) e h = absurd h
hysteria_kept ob (TransportConfig.xhttp x) e h = absurd h

layers_kept :
    (k : OutboundProtocol) (ob : CustomOutbound)
    → AreSettledLayers k ob.transport ob.security ob.finalmask ob.mux
    → AreKept k ob
unfolding AreKept outbound_to_form
layers_kept OutboundProtocol.vless ob (ht, hs, hm) = (
  build_client_transport_opened ob.transport ht,
  build_client_security_opened ob.security hs,
  build_final_mask-hydrate_final_mask finalmask_defaults ob.finalmask refl hm,
  refl,
)
layers_kept OutboundProtocol.hysteria ob h = hysteria_kept ob ob.transport refl h
layers_kept OutboundProtocol.wireguard ob (et, es, em, ex) = (sym et, sym es, sym em, sym ex)

module _ (read : Text → Number) (read-print : (x : Number) → IsNatural x → read (print x) ≡ x) where
  -- A settled outbound that is opened in the form, and saved without an edit, is sent back as it is
  -- stored, under its identifier and time of creation, with the time of the save; `Number` is taken to
  -- read every printed natural number.
  pub form_to_outbound-outbound_to_form :
      (fresh now : Text) (ob : CustomOutbound)
      → IsSettledOutbound ob
      → form_to_outbound read fresh now (outbound_to_form ob) (some ob)
        ≡ record ob { updated_at = now }
  unfolding form_to_outbound outbound_to_form AreKept
  form_to_outbound-outbound_to_form fresh now ob h =
      let k = layers_kept (client_kind ob.protocol) ob h.layers in
      λ i. record {
        id = ob.id;
        tag = h.tag i;
        enabled = ob.enabled;
        protocol = build_client_protocol_opened read read-print ob.protocol h.protocol i;
        transport = k.0 i;
        security = k.1 i;
        finalmask = k.2 i;
        mux = k.3 i;
        send_through = h.send_through i;
        proxy_tag = h.proxy_tag i;
        created_at = ob.created_at;
        updated_at = now;
      }

  -- A form whose path and fingerprint in use are not blank, whose mask is one that is read back, and whose
  -- tunnel has numbers where numbers belong, is stable: an outbound that it created, opened and saved
  -- again, differs from the first in the time of the save alone.
  pub form_to_outbound_stable :
      (fresh now fresh' now' : Text) (v : OutboundFormValues)
      → IsSendableOutbound read v
      → form_to_outbound read fresh' now'
          (outbound_to_form (form_to_outbound read fresh now v none))
          (some (form_to_outbound read fresh now v none))
        ≡ record (form_to_outbound read fresh now v none) { updated_at = now' }
  form_to_outbound_stable fresh now fresh' now' v h =
      form_to_outbound-outbound_to_form fresh' now' (form_to_outbound read fresh now v none)
        (form_to_outbound-IsSettledOutbound read fresh now v none h)
