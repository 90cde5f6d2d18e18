-- ===== src/Outbounds/Form/Protocol/RoundTrip.antt =====
-- The protocol block that the outbound form sends, and a stored one that is opened and saved.
use rx_ui.Base.{◌≡◌, ◌≢◌, refl, sym, ap, true, [], Option, none, some, get_or, All, arith}
use rx_ui.Js.Text.{Text, trim}
use rx_ui.Js.Text.Trim.{trim_idem}
use rx_ui.Js.Number.{Number, is_finite, nan, int, num, pos, negsuc, print}
use rx_ui.Js.Number.Decimal.{IsNatural}
use rx_ui.Api.Protocol.{VlessEncryptionMode, VlessXorMode}
use rx_ui.Api.Outbound.{OutboundProtocolConfig, VlessOutbound, WireguardOutbound}
use rx_ui.Inbounds.Values.{or_null}
use rx_ui.Inbounds.Values.Laws.{
  IsFilledText, IsSettledText, or_null-IsSettled, or_null-get_or, some-get_or, some-ne-none,
  trimmed_items-IsFilled, trimmed_items_of_IsFilled,
}
use rx_ui.Outbounds.Form.{OutboundProtocol, OutboundVlessFields, OutboundWireguardFields}
use rx_ui.Outbounds.Form.Protocol.{
  build_client_protocol, build_client_vless, build_client_wireguard, client_address, client_kind,
  client_port, client_vless_form, client_wireguard_form, non_zero, parse_reserved, when_encrypted,
}
use rx_ui.Outbounds.Form.Protocol.Reserved.{parse_reserved-join}

-- Cipher details are there under the cipher alone.
abbrev pub AreSettledDetails :
    VlessEncryptionMode → Option VlessXorMode → Option Text → Option Text → Type 0
AreSettledDetails VlessEncryptionMode.none x k p = (x ≡ none) × (k ≡ none) × (p ≡ none)
AreSettledDetails VlessEncryptionMode.mlkem768x25519plus x k p =
    (x ≢ none) × IsSettledText k × IsSettledText p

abbrev pub IsTrimmed : Text → Type 0
IsTrimmed s = trim s ≡ s

pub record IsSettledClientVless (p : VlessOutbound) : Type 0 where
  pub address : IsTrimmed p.address
  pub id : IsTrimmed p.id
  pub reverse_tag : IsTrimmed p.reverse_tag
  pub details :
      AreSettledDetails p.encryption_mode p.encryption_xor_mode p.encryption_client_key
        p.encryption_padding

pub record IsSettledClientWireguard (p : WireguardOutbound) : Type 0 where
  pub secret_key : IsTrimmed p.secret_key
  pub address : All IsFilledText p.address
  pub peer_public_key : IsTrimmed p.peer_public_key
  pub endpoint : IsTrimmed p.endpoint
  pub reserved : All IsNatural p.reserved
  pub mtu : is_finite p.mtu ≡ true
  pub keep_alive : is_finite p.keep_alive ≡ true
  pub pre_shared_key : IsTrimmed p.pre_shared_key
  pub remote_dns : All IsFilledText p.remote_dns
  pub domain_strategy : IsTrimmed p.domain_strategy

abbrev pub IsSettledClientProtocol : OutboundProtocolConfig → Type 0
IsSettledClientProtocol (OutboundProtocolConfig.vless p) = IsSettledClientVless p
IsSettledClientProtocol (OutboundProtocolConfig.hysteria p) = IsTrimmed p.address
IsSettledClientProtocol (OutboundProtocolConfig.wireguard p) = IsSettledClientWireguard p

details-AreSettled :
    (m : VlessEncryptionMode) (x : VlessXorMode) (k p : Text)
    → AreSettledDetails m
        (when_encrypted m (some x))
        (when_encrypted m (or_null k))
        (when_encrypted m (or_null p))
details-AreSettled VlessEncryptionMode.none x k p = (refl, refl, refl)
details-AreSettled VlessEncryptionMode.mlkem768x25519plus x k p =
    (some-ne-none x, or_null-IsSettled k, or_null-IsSettled p)

build_client_vless-IsSettled :
    (address : Text) (port : Number) (v : OutboundVlessFields)
    → IsSettledClientVless (build_client_vless address port v)
unfolding build_client_vless
build_client_vless-IsSettled address port v = record {
  address = trim_idem address;
  id = trim_idem v.uuid;
  reverse_tag = trim_idem v.reverse_tag;
  details =
      details-AreSettled v.encryption_mode v.encryption_xor_mode v.encryption_client_key
        v.encryption_padding;
}

-- The numbers of the tunnel are numbers, and the client id is made of natural numbers.
pub record IsTypedWell (read : Text → Number) (v : OutboundWireguardFields) : Type 0 where
  pub reserved : All IsNatural (parse_reserved read v.wg_reserved)
  pub mtu : is_finite (get_or v.wg_mtu (num 0)) ≡ true
  pub keep_alive : is_finite (get_or v.wg_keep_alive (num 0)) ≡ true

build_client_wireguard-IsSettled :
    (read : Text → Number) (v : OutboundWireguardFields)
    → IsTypedWell read v
    → IsSettledClientWireguard (build_client_wireguard read v)
unfolding build_client_wireguard
build_client_wireguard-IsSettled read v h = record {
  secret_key = trim_idem v.wg_secret_key;
  address = trimmed_items-IsFilled v.wg_address;
  peer_public_key = trim_idem v.wg_peer_public_key;
  endpoint = trim_idem v.wg_endpoint;
  reserved = h.reserved;
  mtu = h.mtu;
  keep_alive = h.keep_alive;
  pre_shared_key = trim_idem v.wg_pre_shared_key;
  remote_dns = trimmed_items-IsFilled v.wg_remote_dns;
  domain_strategy = trim_idem v.wg_domain_strategy;
}

pub build_client_protocol-IsSettled :
    (read : Text → Number) (k : OutboundProtocol) (address : Text) (port : Number)
    (v : OutboundVlessFields) (w : OutboundWireguardFields)
    → (k ≡ OutboundProtocol.wireguard → IsTypedWell read w)
    → IsSettledClientProtocol (build_client_protocol read k address port v w)
unfolding build_client_protocol
build_client_protocol-IsSettled read OutboundProtocol.vless address port v w h =
    build_client_vless-IsSettled address port v
build_client_protocol-IsSettled read OutboundProtocol.hysteria address port v w h =
    trim_idem address
build_client_protocol-IsSettled read OutboundProtocol.wireguard address port v w h =
    build_client_wireguard-IsSettled read w (h refl)

xor_opened :
    (m : VlessEncryptionMode) (x : Option VlessXorMode) (k p : Option Text)
    → AreSettledDetails m x k p
    → (when_encrypted m (some (get_or x VlessXorMode.native)) ≡ x)
      × (when_encrypted m (or_null (get_or k [])) ≡ k)
      × (when_encrypted m (or_null (get_or p [])) ≡ p)
xor_opened VlessEncryptionMode.none x k p (ex, ek, ep) = (sym ex, sym ek, sym ep)
xor_opened VlessEncryptionMode.mlkem768x25519plus x k p (hx, hk, hp) =
    (some-get_or x VlessXorMode.native hx, or_null-get_or k hk, or_null-get_or p hp)

build_client_vless_opened :
    (p : VlessOutbound)
    → IsSettledClientVless p
    → build_client_vless p.address p.port (client_vless_form (OutboundProtocolConfig.vless p)) ≡ p
unfolding build_client_vless client_vless_form
build_client_vless_opened p h =
    let d =
      xor_opened p.encryption_mode p.encryption_xor_mode p.encryption_client_key
        p.encryption_padding h.details in
    λ i. record {
      address = h.address i;
      port = p.port;
      id = h.id i;
      flow = p.flow;
      reverse_tag = h.reverse_tag i;
      encryption_mode = p.encryption_mode;
      encryption_xor_mode = d.0 i;
      encryption_client_key = d.1 i;
      encryption_padding = d.2 i;
    }

non_zero_back : (x : Number) → is_finite x ≡ true → get_or (non_zero x) (num 0) ≡ x
non_zero_back nan h = cc
non_zero_back (int (pos n)) h = ground arith
non_zero_back (int (negsuc n)) h = refl

module _ (read : Text → Number) (read-print : (x : Number) → IsNatural x → read (print x) ≡ x) where
  build_client_wireguard_opened :
      (p : WireguardOutbound)
      → IsSettledClientWireguard p
      → build_client_wireguard read (client_wireguard_form (OutboundProtocolConfig.wireguard p)) ≡ p
  unfolding build_client_wireguard client_wireguard_form
  build_client_wireguard_opened p h = λ i. record {
    secret_key = h.secret_key i;
    address = trimmed_items_of_IsFilled p.address h.address i;
    peer_public_key = h.peer_public_key i;
    endpoint = h.endpoint i;
    reserved = parse_reserved-join read read-print p.reserved h.reserved i;
    mtu = non_zero_back p.mtu h.mtu i;
    keep_alive = non_zero_back p.keep_alive h.keep_alive i;
    pre_shared_key = h.pre_shared_key i;
    remote_dns = trimmed_items_of_IsFilled p.remote_dns h.remote_dns i;
    domain_strategy = h.domain_strategy i;
    warp = p.warp;
  }

  pub build_client_protocol_opened :
      (p : OutboundProtocolConfig)
      → IsSettledClientProtocol p
      → build_client_protocol read
          (client_kind p)
          (client_address p)
          (client_port p)
          (client_vless_form p)
          (client_wireguard_form p)
        ≡ p
  unfolding build_client_protocol
  build_client_protocol_opened (OutboundProtocolConfig.vless p) h =
      ap OutboundProtocolConfig.vless (build_client_vless_opened p h)
  build_client_protocol_opened (OutboundProtocolConfig.hysteria p) h =
      λ i. OutboundProtocolConfig.hysteria (record { address = h i; port = p.port })
  build_client_protocol_opened (OutboundProtocolConfig.wireguard p) h =
      ap OutboundProtocolConfig.wireguard (build_client_wireguard_opened p h)
