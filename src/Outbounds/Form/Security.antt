-- ===== src/Outbounds/Form/Security.antt =====
-- The security layer of the outbound form: `buildSecurity` and the security blocks of `outboundToForm`
-- (frontend/src/pages/Outbounds/form.ts).
pub mod RoundTrip
use rx_ui.Base.{[], ◌∷◌, none, get_or, first}
use rx_ui.Js.Text.{codes, trim}
use rx_ui.Js.Number.{num}
use rx_ui.Api.Security.{RealitySecurity, SecurityConfig, TlsSecurity}
use rx_ui.Inbounds.Values.{non_empty, or_null, or_text}
use rx_ui.Outbounds.Form.{OutboundRealityFields, OutboundSecurity, OutboundTlsFields}
use rx_ui.Outbounds.Form.Defaults.{outbound_reality_defaults, outbound_tls_defaults}

unfoldable pub build_client_tls : OutboundTlsFields → TlsSecurity
build_client_tls v = record {
  certificates = [];
  server_name = or_null v.tls_server_name;
  alpn = non_empty v.tls_alpn;
  min_version = none;
  max_version = none;
  cipher_suites = none;
  enable_session_resumption = none;
  reject_unknown_sni = none;
  master_key_log = none;
  ech_server_keys = none;
  ech_config_list = none;
  curve_preferences = none;
  fingerprint = or_null v.tls_fingerprint;
  verify_peer_cert_by_name = non_empty v.tls_verify_peer_cert_by_name;
  pinned_peer_cert_sha256 = non_empty v.tls_pinned_peer_cert_sha256;
  self_signed = none;
}

unfoldable pub build_client_reality : OutboundRealityFields → RealitySecurity
build_client_reality v = record {
  dest = [];
  server_names = trim v.reality_server_name ∷ [];
  private_key = [];
  public_key = trim v.reality_public_key;
  short_ids = trim v.reality_short_id ∷ [];
  fingerprint = or_text (trim v.reality_fingerprint) (codes "chrome");
  xver = num 0;
  spider_x = or_text (trim v.reality_spider_x) (codes "/");
  min_client_ver = [];
  max_client_ver = [];
}

unfoldable pub build_client_security :
    OutboundSecurity → OutboundTlsFields → OutboundRealityFields → SecurityConfig
build_client_security OutboundSecurity.none t r = SecurityConfig.none
build_client_security OutboundSecurity.tls t r = SecurityConfig.tls (build_client_tls t)
build_client_security OutboundSecurity.reality t r = SecurityConfig.reality (build_client_reality r)

abbrev pub client_security : SecurityConfig → OutboundSecurity
client_security SecurityConfig.none = OutboundSecurity.none
client_security (SecurityConfig.tls s) = OutboundSecurity.tls
client_security (SecurityConfig.reality r) = OutboundSecurity.reality

unfoldable pub client_tls_form : SecurityConfig → OutboundTlsFields
client_tls_form (SecurityConfig.tls s) = record {
  tls_server_name = get_or s.server_name [];
  tls_alpn = get_or s.alpn [];
  tls_fingerprint = get_or s.fingerprint (codes "chrome");
  tls_verify_peer_cert_by_name = get_or s.verify_peer_cert_by_name [];
  tls_pinned_peer_cert_sha256 = get_or s.pinned_peer_cert_sha256 [];
}
client_tls_form _ = outbound_tls_defaults

unfoldable pub client_reality_form : SecurityConfig → OutboundRealityFields
client_reality_form (SecurityConfig.reality r) = record {
  reality_server_name = get_or (first r.server_names) [];
  reality_public_key = r.public_key;
  reality_short_id = get_or (first r.short_ids) [];
  reality_fingerprint = r.fingerprint;
  reality_spider_x = or_text r.spider_x (codes "/");
}
client_reality_form _ = outbound_reality_defaults
