-- ===== src/Inbounds/Guards/Sending.antt =====
-- What a form whose protocol rules have settled sends.
use rx_ui.Base.{◌≡◌}
use rx_ui.Api.Protocol.{ProtocolConfig, VlessFlow}
use rx_ui.Api.Transport.{TransportConfig}
use rx_ui.Api.Security.{SecurityConfig}
use rx_ui.Inbounds.Form.{FormValues}
use rx_ui.Inbounds.Adapters.{form_to_create}

-- The combinations of layers that the protocol rules allow, written on the payload: VLESS with Vision on raw
-- TCP alone, REALITY on anything but WebSocket and Hysteria, Hysteria 2 on its own transport under TLS,
-- WireGuard bare.
abbrev pub IsServable : ProtocolConfig → TransportConfig → SecurityConfig → Type 0
IsServable (ProtocolConfig.vless p) TransportConfig.tcp s = Unit
IsServable (ProtocolConfig.vless p) (TransportConfig.ws w) (SecurityConfig.reality r) = ⊥
IsServable (ProtocolConfig.vless p) (TransportConfig.ws w) _ = p.flow ≡ VlessFlow.none
IsServable (ProtocolConfig.vless p) (TransportConfig.xhttp x) s = p.flow ≡ VlessFlow.none
IsServable (ProtocolConfig.vless p) (TransportConfig.hysteria h) s = ⊥
IsServable ProtocolConfig.hysteria2 (TransportConfig.hysteria h) (SecurityConfig.tls t) = Unit
IsServable ProtocolConfig.hysteria2 _ _ = ⊥
IsServable (ProtocolConfig.wireguard p) TransportConfig.tcp SecurityConfig.none = Unit
IsServable (ProtocolConfig.wireguard p) _ _ = ⊥

abbrev pub IsSentServable : FormValues → Type 0
IsSentServable v =
    IsServable (form_to_create v).protocol (form_to_create v).transport (form_to_create v).security
