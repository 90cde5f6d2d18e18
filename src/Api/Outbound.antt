-- ===== src/Api/Outbound.antt =====
-- frontend/src/api/types/outbound.ts
use rx_ui.Base.{Bool, List, Option}
use rx_ui.Js.Text.{Text}
use rx_ui.Js.Number.{Number}
use rx_ui.Api.FinalMask.{FinalMask}
use rx_ui.Api.Protocol.{VlessEncryptionMode, VlessXorMode}
use rx_ui.Api.Transport.{TransportConfig}
use rx_ui.Api.Security.{SecurityConfig}

pub record HysteriaOutbound : Type 0 where
  pub address : Text
  pub port : Number

pub record OutboundMux : Type 0 where
  pub enabled : Bool
  pub concurrency : Number

pub record VlessOutbound : Type 0 where
  pub address : Text
  pub port : Number
  pub id : Text
  pub flow : Text
  pub reverse_tag : Text
  pub encryption_mode : VlessEncryptionMode
  pub encryption_xor_mode : Option VlessXorMode
  pub encryption_client_key : Option Text
  pub encryption_padding : Option Text

pub record WireguardOutbound : Type 0 where
  pub secret_key : Text
  pub address : List Text
  pub peer_public_key : Text
  pub endpoint : Text
  pub reserved : List Number
  pub mtu : Number
  pub keep_alive : Number
  pub pre_shared_key : Text
  pub remote_dns : List Text
  pub domain_strategy : Text
  pub warp : Bool

pub data OutboundProtocolConfig : Type 0 where
  vless : VlessOutbound → OutboundProtocolConfig
  hysteria : HysteriaOutbound → OutboundProtocolConfig
  wireguard : WireguardOutbound → OutboundProtocolConfig

pub record CustomOutbound : Type 0 where
  pub id : Text
  pub tag : Text
  pub enabled : Bool
  pub protocol : OutboundProtocolConfig
  pub transport : TransportConfig
  pub security : SecurityConfig
  pub finalmask : FinalMask
  pub mux : OutboundMux
  pub send_through : Text
  pub proxy_tag : Text
  pub created_at : Text
  pub updated_at : Text
