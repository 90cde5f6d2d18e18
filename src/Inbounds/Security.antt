-- ===== src/Inbounds/Security.antt =====
-- The security layer of frontend/src/pages/Inbounds/form/adapters.ts: the security blocks of
-- `inboundToForm`, and `buildSecurity`.
pub mod RoundTrip
use rx_ui.Base.{Bool, false, ◌&&◌, not, List, [], ◌∷◌, Option, none, some, get_or, filter, is_empty}
use rx_ui.Js.Text.{Text, codes, join, split, trim}
use rx_ui.Api.Security.{RealitySecurity, SecurityConfig, TlsCertificate, TlsSecurity}
use rx_ui.Inbounds.Form.{FormSecurity, RealityFormFields, TlsFormFields}
use rx_ui.Inbounds.Defaults.{reality_defaults, tls_defaults}
use rx_ui.Inbounds.Values.{non_empty, or_null, or_text}

abbrev pub security_kind : SecurityConfig → FormSecurity
security_kind SecurityConfig.none = FormSecurity.none
security_kind (SecurityConfig.tls s) = FormSecurity.tls
security_kind (SecurityConfig.reality r) = FormSecurity.reality

unfoldable pub reality_form : SecurityConfig → RealityFormFields
reality_form (SecurityConfig.reality r) = record {
  reality_dest = r.dest;
  reality_server_names = r.server_names;
  reality_short_ids = r.short_ids;
  reality_fingerprint = r.fingerprint;
  reality_spider_x = or_text r.spider_x (codes "/");
  reality_min_client_ver = r.min_client_ver;
  reality_max_client_ver = r.max_client_ver;
  reality_xver = r.xver;
  reality_private_key = r.private_key;
  reality_public_key = r.public_key;
}
reality_form _ = reality_defaults

-- `s ? s.split(':').filter(Boolean) : []`
unfoldable pub split_suites : Option Text → List Text
split_suites none = []
split_suites (some []) = []
split_suites (some (c ∷ s)) = filter (λ p. not (is_empty p)) (split b':' (c ∷ s))

-- `suites.length > 0 ? suites.join(':') : null`
unfoldable pub join_suites : List Text → Option Text
join_suites [] = none
join_suites (p ∷ ps) = some (join (b':' ∷ []) (p ∷ ps))

unfoldable pub tls_form : SecurityConfig → TlsFormFields
tls_form (SecurityConfig.tls s) = record {
  tls_certificates = s.certificates;
  tls_server_name = get_or s.server_name [];
  tls_alpn = get_or s.alpn [];
  tls_fingerprint = get_or s.fingerprint (codes "chrome");
  tls_min_version = get_or s.min_version [];
  tls_max_version = get_or s.max_version [];
  tls_cipher_suites = split_suites s.cipher_suites;
  tls_enable_session_resumption = get_or s.enable_session_resumption false;
  tls_reject_unknown_sni = get_or s.reject_unknown_sni false;
  tls_self_signed = get_or s.self_signed false;
  tls_master_key_log = get_or s.master_key_log [];
  tls_ech_server_keys = get_or s.ech_server_keys [];
  tls_ech_config_list = get_or s.ech_config_list [];
  tls_curve_preferences = get_or s.curve_preferences [];
}
tls_form _ = tls_defaults

unfoldable pub build_reality : RealityFormFields → RealitySecurity
build_reality v = record {
  dest = v.reality_dest;
  server_names = v.reality_server_names;
  private_key = v.reality_private_key;
  public_key = v.reality_public_key;
  short_ids = v.reality_short_ids;
  fingerprint = or_text v.reality_fingerprint (codes "chrome");
  xver = v.reality_xver;
  spider_x = or_text v.reality_spider_x (codes "/");
  min_client_ver = trim v.reality_min_client_ver;
  max_client_ver = trim v.reality_max_client_ver;
}

abbrev pub has_cert_and_key : TlsCertificate → Bool
has_cert_and_key c = not (is_empty (trim c.cert)) && not (is_empty (trim c.key))

unfoldable pub build_tls : TlsFormFields → TlsSecurity
build_tls v = record {
  certificates = filter has_cert_and_key v.tls_certificates;
  server_name = non_empty v.tls_server_name;
  alpn = non_empty v.tls_alpn;
  min_version = non_empty v.tls_min_version;
  max_version = non_empty v.tls_max_version;
  cipher_suites = join_suites v.tls_cipher_suites;
  enable_session_resumption = some v.tls_enable_session_resumption;
  reject_unknown_sni = some v.tls_reject_unknown_sni;
  master_key_log = or_null v.tls_master_key_log;
  ech_server_keys = or_null v.tls_ech_server_keys;
  ech_config_list = or_null v.tls_ech_config_list;
  curve_preferences = non_empty v.tls_curve_preferences;
  fingerprint = or_null v.tls_fingerprint;
  verify_peer_cert_by_name = none;
  pinned_peer_cert_sha256 = none;
  self_signed = some v.tls_self_signed;
}

unfoldable pub build_security : FormSecurity → RealityFormFields → TlsFormFields → SecurityConfig
build_security FormSecurity.none r t = SecurityConfig.none
build_security FormSecurity.reality r t = SecurityConfig.reality (build_reality r)
build_security FormSecurity.tls r t = SecurityConfig.tls (build_tls t)
