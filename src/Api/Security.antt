-- ===== src/Api/Security.antt =====
-- frontend/src/api/types/security.ts
use rx_ui.Base.{Bool, List, Option}
use rx_ui.Js.Text.{Text}
use rx_ui.Js.Number.{Number}

pub record RealitySecurity : Type 0 where
  pub dest : Text
  pub server_names : List Text
  pub private_key : Text
  pub public_key : Text
  pub short_ids : List Text
  pub fingerprint : Text
  pub xver : Number
  pub spider_x : Text
  pub min_client_ver : Text
  pub max_client_ver : Text

pub data TlsCertSource : Type 0 where
  inline path : TlsCertSource

pub data TlsCertUsage : Type 0 where
  encipherment verify issue : TlsCertUsage

pub record TlsCertificate : Type 0 where
  pub source : TlsCertSource
  pub cert : Text
  pub key : Text
  pub usage : TlsCertUsage
  pub ocsp_stapling : Number
  pub build_chain : Bool
  pub one_time_loading : Bool

pub record TlsSecurity : Type 0 where
  pub certificates : List TlsCertificate
  pub server_name : Option Text
  pub alpn : Option (List Text)
  pub min_version : Option Text
  pub max_version : Option Text
  pub cipher_suites : Option Text
  pub enable_session_resumption : Option Bool
  pub reject_unknown_sni : Option Bool
  pub master_key_log : Option Text
  pub ech_server_keys : Option Text
  pub ech_config_list : Option Text
  pub curve_preferences : Option (List Text)
  pub fingerprint : Option Text
  pub verify_peer_cert_by_name : Option (List Text)
  pub pinned_peer_cert_sha256 : Option (List Text)
  pub self_signed : Option Bool

pub data SecurityConfig : Type 0 where
  none : SecurityConfig
  tls : TlsSecurity → SecurityConfig
  reality : RealitySecurity → SecurityConfig

pub data SecurityKind : Type 0 where
  none tls reality : SecurityKind
