-- ===== src/Inbounds/Protocol/RoundTrip.antt =====
-- The protocol layer that the form sends, and a stored layer that is opened and saved.
use rx_ui.Base.{
  ◌≡◌, ◌≢◌, refl, [], Option, none, some, get_or, ap, not, is_empty, arith, if◌then◌else◌,
}
use rx_ui.Js.Text.{Text, trim}
use rx_ui.Js.Text.Trim.{trim_idem, trim-nil}
use rx_ui.Js.Number.{num, is_num}
use rx_ui.Api.Protocol.{ProtocolConfig, VlessEncryptionMode, VlessProtocol}
use rx_ui.Inbounds.Form.{FormProtocol, VlessFormFields, WireguardFormFields}
use rx_ui.Inbounds.Values.Laws.{IsSettledText, IsSettledList, non_empty-IsSettled, non_empty-get_or}
use rx_ui.Inbounds.Protocol.{protocol_kind, vless_form, wireguard_form, build_vless, build_protocol}

-- Encryption off: none of its details is stored. Encryption on: the details that the core needs are
-- there, and there is no fallback.
abbrev pub HasSettledEncryption : VlessEncryptionMode → VlessProtocol → Type 0
HasSettledEncryption VlessEncryptionMode.none p =
    (p.encryption_auth ≡ none)
    × (p.encryption_xor_mode ≡ none)
    × (p.encryption_seconds_from ≡ none)
    × (p.encryption_seconds_to ≡ none)
    × (p.encryption_padding ≡ none)
    × (p.encryption_server_key ≡ none)
    × (p.encryption_client_key ≡ none)
HasSettledEncryption VlessEncryptionMode.mlkem768x25519plus p =
    (p.encryption_auth ≢ none)
    × (p.encryption_xor_mode ≢ none)
    × (p.encryption_seconds_from ≢ none)
    × IsSettledText p.encryption_padding
    × IsSettledList p.encryption_server_key
    × IsSettledList p.encryption_client_key
    × (p.fallbacks ≡ [])

abbrev pub IsSettledProtocol : ProtocolConfig → Type 0
IsSettledProtocol (ProtocolConfig.vless p) = HasSettledEncryption p.encryption_mode p
IsSettledProtocol ProtocolConfig.hysteria2 = Unit
IsSettledProtocol (ProtocolConfig.wireguard p) =
    (trim p.subnet ≡ p.subnet)
    × (trim p.dns ≡ p.dns)
    × (trim p.client_allowed_ips ≡ p.client_allowed_ips)

-- `trim() !== '' ? trim() : null`
padding-IsSettled :
    (s : Text) → IsSettledText (if not (is_empty (trim s)) then some (trim s) else none)
padding-IsSettled s = ground (arith, trim_idem s)

padding_of_IsSettled :
    (o : Option Text)
    → IsSettledText o
    → (if not (is_empty (trim (get_or o []))) then some (trim (get_or o [])) else none) ≡ o
padding_of_IsSettled none h = rw trim-nil
padding_of_IsSettled (some s) (t, ne) = ground arith

build_vless-IsSettled :
    (m : VlessEncryptionMode) (v : VlessFormFields)
    → v.vless_encryption_mode ≡ m
    → HasSettledEncryption m (build_vless v)
unfolding build_vless
build_vless-IsSettled VlessEncryptionMode.none v e = ground arith
build_vless-IsSettled VlessEncryptionMode.mlkem768x25519plus v e = rw e (
  (λ h. cc),
  (λ h. cc),
  (λ h. cc),
  padding-IsSettled v.vless_encryption_padding,
  non_empty-IsSettled v.vless_encryption_server_key,
  non_empty-IsSettled v.vless_encryption_client_key,
  refl,
)

-- Whatever the form holds, the protocol layer that it sends is settled: without encryption no detail of
-- the cipher is stored; with it the cipher, the XOR mode and the session time are there, and the
-- fallbacks, which the core refuses beside encryption, are dropped. WireGuard texts are trimmed.
pub build_protocol-IsSettled :
    (k : FormProtocol) (v : VlessFormFields) (w : WireguardFormFields)
    → IsSettledProtocol (build_protocol k v w)
unfolding build_protocol
build_protocol-IsSettled FormProtocol.hysteria2 v w = tt
build_protocol-IsSettled FormProtocol.wireguard v w =
    (trim_idem w.wg_subnet, trim_idem w.wg_dns, trim_idem w.wg_client_allowed_ips)
build_protocol-IsSettled FormProtocol.vless v w =
    build_vless-IsSettled v.vless_encryption_mode v refl

-- What saving an opened layer changes: an MTU of 0 becomes the default that the form shows.
abbrev pub with_shown_mtu : ProtocolConfig → ProtocolConfig
with_shown_mtu (ProtocolConfig.vless p) = ProtocolConfig.vless p
with_shown_mtu ProtocolConfig.hysteria2 = ProtocolConfig.hysteria2
with_shown_mtu (ProtocolConfig.wireguard p) =
    ProtocolConfig.wireguard (record p { mtu = if is_num 0 p.mtu then num 1420 else p.mtu })

build_vless-vless_form :
    (m : VlessEncryptionMode) (p : VlessProtocol)
    → p.encryption_mode ≡ m
    → HasSettledEncryption m p
    → build_vless (vless_form (ProtocolConfig.vless p)) ≡ p
unfolding build_vless vless_form
build_vless-vless_form VlessEncryptionMode.none p e h = ground arith
build_vless-vless_form VlessEncryptionMode.mlkem768x25519plus p e (ha, hx, hs, hp, hk, hc, hf) =
    ground (
      arith,
      padding_of_IsSettled p.encryption_padding hp,
      non_empty-get_or p.encryption_server_key hk,
      non_empty-get_or p.encryption_client_key hc,
    )

-- Opening a settled protocol layer in the form and saving it sends the layer back, but for a WireGuard
-- MTU of 0, which is sent as 1420.
pub build_protocol_opened :
    (p : ProtocolConfig)
    → IsSettledProtocol p
    → build_protocol (protocol_kind p) (vless_form p) (wireguard_form p) ≡ with_shown_mtu p
unfolding build_protocol
build_protocol_opened (ProtocolConfig.vless p) h =
    ap ProtocolConfig.vless (build_vless-vless_form p.encryption_mode p refl h)
build_protocol_opened ProtocolConfig.hysteria2 h = refl
build_protocol_opened (ProtocolConfig.wireguard p) h = unfold wireguard_form in ground arith
