-- ===== src/Api/Protocol.antt =====
-- frontend/src/api/types/protocol.ts
use rx_ui.Base.{Bool, List, Option}
use rx_ui.Js.Text.{Text}
use rx_ui.Js.Number.{Number}

pub data VlessEncryptionAuth : Type 0 where
  mlkem768 x25519 : VlessEncryptionAuth

pub data VlessEncryptionMode : Type 0 where
  none mlkem768x25519plus : VlessEncryptionMode

pub data VlessFallbackType : Type 0 where
  tcp unix serve : VlessFallbackType

pub data VlessFlow : Type 0 where
  none xtls_rprx_vision : VlessFlow

pub data VlessXorMode : Type 0 where
  native xorpub random : VlessXorMode

-- The field `type`.
pub record VlessFallback : Type 0 where
  pub name : Text
  pub alpn : Text
  pub path : Text
  pub type : VlessFallbackType
  pub dest : Text
  pub xver : Number

pub record VlessProtocol : Type 0 where
  pub flow : VlessFlow
  pub encryption_mode : VlessEncryptionMode
  pub encryption_auth : Option VlessEncryptionAuth
  pub encryption_xor_mode : Option VlessXorMode
  pub encryption_seconds_from : Option Number
  pub encryption_seconds_to : Option Number
  pub encryption_padding : Option Text
  pub encryption_server_key : Option Text
  pub encryption_client_key : Option Text
  pub fallbacks : List VlessFallback

pub record WireguardProtocol : Type 0 where
  pub secret_key : Text
  pub public_key : Text
  pub subnet : Text
  pub mtu : Number
  pub dns : Text
  pub client_allowed_ips : Text
  pub client_keepalive : Number
  pub issue_preshared_key : Bool

pub data ProtocolConfig : Type 0 where
  vless : VlessProtocol → ProtocolConfig
  hysteria2 : ProtocolConfig
  wireguard : WireguardProtocol → ProtocolConfig
