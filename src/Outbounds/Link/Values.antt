-- ===== src/Outbounds/Link/Values.antt =====
-- The values that `parseOutboundLink` of frontend/src/pages/Outbounds/parseLink.ts reads off a VLESS link.
use rx_ui.Base.{List, Option}
use rx_ui.Js.Text.{Text}
use rx_ui.Js.Number.{Number}
use rx_ui.Outbounds.Link.Extra.{LinkMask, XhttpExtra}

-- The cipher of a link; the code casts the xor mode, whatever the link says.
pub record LinkCipher : Type 0 where
  pub xor_mode : Text
  pub client_key : Text
  pub padding : Text

pub record LinkReality : Type 0 where
  pub server_name : Text
  pub public_key : Text
  pub short_id : Text
  pub fingerprint : Text
  pub spider_x : Text

pub record LinkTls : Type 0 where
  pub server_name : Text
  pub alpn : List Text
  pub fingerprint : Text

pub data LinkSecurity : Type 0 where
  none : LinkSecurity
  tls : LinkTls → LinkSecurity
  reality : LinkReality → LinkSecurity

-- A mode that the link names is cast as well.
pub data LinkTransport : Type 0 where
  tcp : LinkTransport
  ws : (path host : Text) → LinkTransport
  xhttp : (path host mode : Text) → Option XhttpExtra → LinkTransport

-- The values of a VLESS link. What it does not set is none.
pub record VlessLink : Type 0 where
  pub tag : Text
  pub address : Text
  pub port : Number
  pub uuid : Text
  pub flow : Text
  pub cipher : Option LinkCipher
  pub security : LinkSecurity
  pub transport : LinkTransport
  pub mask : Option LinkMask
  pub reverse_tag : Option Text
