-- ===== src/Api/Inbound.antt =====
-- frontend/src/api/types/inbound.ts
use rx_ui.Base.{Bool, List, Option}
use rx_ui.Js.Text.{Text}
use rx_ui.Js.Number.{Number}
use rx_ui.Api.FinalMask.{FinalMask}
use rx_ui.Api.Protocol.{ProtocolConfig}
use rx_ui.Api.Transport.{TransportConfig}
use rx_ui.Api.Security.{SecurityConfig}

pub record Sniffing : Type 0 where
  pub enabled : Bool
  pub dest_override : List Text
  pub route_only : Bool
  pub metadata_only : Bool
  pub domains_excluded : List Text
  pub ips_excluded : List Text

pub record SocketOpt : Type 0 where
  pub trusted_x_forwarded_for : List Text
  pub tcp_keep_alive_interval : Option Number
  pub tcp_keep_alive_idle : Option Number
  pub tcp_mptcp : Bool
  pub accept_proxy_protocol : Bool
  pub tcp_fast_open : Option Number
  pub v6only : Bool

pub record Inbound : Type 0 where
  pub id : Text
  pub tag : Text
  pub enabled : Bool
  pub listen : Text
  pub port : Number
  pub protocol : ProtocolConfig
  pub transport : TransportConfig
  pub security : SecurityConfig
  pub sniffing : Sniffing
  pub finalmask : FinalMask
  pub sockopt : SocketOpt
  pub created_at : Text
  pub updated_at : Text

pub record InboundCreate : Type 0 where
  pub tag : Text
  pub listen : Option Text
  pub port : Number
  pub protocol : ProtocolConfig
  pub transport : TransportConfig
  pub security : SecurityConfig
  pub sniffing : Option Sniffing
  pub finalmask : Option FinalMask
  pub sockopt : Option SocketOpt

pub record InboundUpdate : Type 0 where
  pub tag : Option Text
  pub enabled : Option Bool
  pub listen : Option Text
  pub port : Option Number
  pub protocol : Option ProtocolConfig
  pub transport : Option TransportConfig
  pub security : Option SecurityConfig
  pub sniffing : Option Sniffing
  pub finalmask : Option FinalMask
  pub sockopt : Option SocketOpt
