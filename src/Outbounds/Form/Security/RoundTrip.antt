-- ===== src/Outbounds/Form/Security/RoundTrip.antt =====
-- The security layer that the outbound form sends, and a stored one that is opened and saved.
use rx_ui.Base.{◌≡◌, ◌≢◌, refl, sym, ap, ◌∙◌, [], ◌∷◌, List, none, first, get_or, arith}
use mathlib.Core.List.{cons-ne-nil}
use rx_ui.Js.Text.{Text, codes, trim}
use rx_ui.Js.Text.Trim.{trim_idem}
use rx_ui.Js.Number.{num}
use rx_ui.Api.Security.{RealitySecurity, SecurityConfig, TlsSecurity}
use rx_ui.Inbounds.Values.{or_text}
use rx_ui.Inbounds.Values.Laws.{
  IsFilledText, IsSettledList, IsSettledText, non_empty-IsSettled, non_empty-get_or,
  or_null-IsSettled, or_null-get_or,
}
use rx_ui.Inbounds.Security.RoundTrip.{
  IsPresentText, or_null-IsPresentText, or_null-shown, or_text_of_ne,
}
use rx_ui.Outbounds.Form.{OutboundRealityFields, OutboundSecurity, OutboundTlsFields}
use rx_ui.Outbounds.Form.Security.{
  build_client_reality, build_client_security, build_client_tls, client_reality_form,
  client_security, client_tls_form,
}

pub record IsSettledClientTls (s : TlsSecurity) : Type 0 where
  pub certificates : s.certificates ≡ []
  pub server_name : IsSettledText s.server_name
  pub alpn : IsSettledList s.alpn
  pub min_version : s.min_version ≡ none
  pub max_version : s.max_version ≡ none
  pub cipher_suites : s.cipher_suites ≡ none
  pub enable_session_resumption : s.enable_session_resumption ≡ none
  pub reject_unknown_sni : s.reject_unknown_sni ≡ none
  pub master_key_log : s.master_key_log ≡ none
  pub ech_server_keys : s.ech_server_keys ≡ none
  pub ech_config_list : s.ech_config_list ≡ none
  pub curve_preferences : s.curve_preferences ≡ none
  pub fingerprint : IsPresentText s.fingerprint
  pub verify_peer_cert_by_name : IsSettledList s.verify_peer_cert_by_name
  pub pinned_peer_cert_sha256 : IsSettledList s.pinned_peer_cert_sha256
  pub self_signed : s.self_signed ≡ none

-- One trimmed text.
abbrev pub IsOneText : List Text → Type 0
IsOneText xs = (s : Text) × (trim s ≡ s) × (xs ≡ s ∷ [])

pub record IsSettledClientReality (r : RealitySecurity) : Type 0 where
  pub dest : r.dest ≡ []
  pub server_names : IsOneText r.server_names
  pub private_key : r.private_key ≡ []
  pub public_key : trim r.public_key ≡ r.public_key
  pub short_ids : IsOneText r.short_ids
  pub fingerprint : IsFilledText r.fingerprint
  pub xver : r.xver ≡ num 0
  pub spider_x : IsFilledText r.spider_x
  pub min_client_ver : r.min_client_ver ≡ []
  pub max_client_ver : r.max_client_ver ≡ []

abbrev pub IsSettledClientSecurity : SecurityConfig → Type 0
IsSettledClientSecurity SecurityConfig.none = Unit
IsSettledClientSecurity (SecurityConfig.tls s) = IsSettledClientTls s
IsSettledClientSecurity (SecurityConfig.reality r) = IsSettledClientReality r

trim_or-IsFilled : (s d : Text) → IsFilledText d → IsFilledText (or_text (trim s) d)
trim_or-IsFilled s d h = ground (arith, trim_idem s)

trim_or_of_IsFilled : (s d : Text) → IsFilledText s → or_text (trim s) d ≡ s
trim_or_of_IsFilled s d (t, ne) = ap (λ r. or_text r d) t ∙ or_text_of_ne s d ne

first_of_one : (xs : List Text) → IsOneText xs → trim (get_or (first xs) []) ∷ [] ≡ xs
first_of_one xs (s, t, e) = rw e (ap (λ r. r ∷ []) t)

chrome-IsFilled : IsFilledText (codes "chrome")
unfolding trim
chrome-IsFilled = (refl, cons-ne-nil _ _)

slash-IsFilled : IsFilledText (codes "/")
unfolding trim
slash-IsFilled = (refl, cons-ne-nil _ _)

build_client_tls-IsSettled :
    (v : OutboundTlsFields) → trim v.tls_fingerprint ≢ [] → IsSettledClientTls (build_client_tls v)
unfolding build_client_tls
build_client_tls-IsSettled v h = record {
  certificates = refl;
  server_name = or_null-IsSettled v.tls_server_name;
  alpn = non_empty-IsSettled v.tls_alpn;
  min_version = refl;
  max_version = refl;
  cipher_suites = refl;
  enable_session_resumption = refl;
  reject_unknown_sni = refl;
  master_key_log = refl;
  ech_server_keys = refl;
  ech_config_list = refl;
  curve_preferences = refl;
  fingerprint = or_null-IsPresentText v.tls_fingerprint h;
  verify_peer_cert_by_name = non_empty-IsSettled v.tls_verify_peer_cert_by_name;
  pinned_peer_cert_sha256 = non_empty-IsSettled v.tls_pinned_peer_cert_sha256;
  self_signed = refl;
}

build_client_reality-IsSettled :
    (v : OutboundRealityFields) → IsSettledClientReality (build_client_reality v)
unfolding build_client_reality
build_client_reality-IsSettled v = record {
  dest = refl;
  server_names = (trim v.reality_server_name, trim_idem v.reality_server_name, refl);
  private_key = refl;
  public_key = trim_idem v.reality_public_key;
  short_ids = (trim v.reality_short_id, trim_idem v.reality_short_id, refl);
  fingerprint = trim_or-IsFilled v.reality_fingerprint (codes "chrome") chrome-IsFilled;
  xver = refl;
  spider_x = trim_or-IsFilled v.reality_spider_x (codes "/") slash-IsFilled;
  min_client_ver = refl;
  max_client_ver = refl;
}

pub build_client_security-IsSettled :
    (k : OutboundSecurity) (t : OutboundTlsFields) (r : OutboundRealityFields)
    → (k ≡ OutboundSecurity.tls → trim t.tls_fingerprint ≢ [])
    → IsSettledClientSecurity (build_client_security k t r)
unfolding build_client_security
build_client_security-IsSettled OutboundSecurity.none t r h = tt
build_client_security-IsSettled OutboundSecurity.tls t r h = build_client_tls-IsSettled t (h refl)
build_client_security-IsSettled OutboundSecurity.reality t r h = build_client_reality-IsSettled r

build_client_tls_opened :
    (s : TlsSecurity)
    → IsSettledClientTls s
    → build_client_tls (client_tls_form (SecurityConfig.tls s)) ≡ s
unfolding build_client_tls client_tls_form
build_client_tls_opened s h = λ i. record {
  certificates = sym h.certificates i;
  server_name = or_null-get_or s.server_name h.server_name i;
  alpn = non_empty-get_or s.alpn h.alpn i;
  min_version = sym h.min_version i;
  max_version = sym h.max_version i;
  cipher_suites = sym h.cipher_suites i;
  enable_session_resumption = sym h.enable_session_resumption i;
  reject_unknown_sni = sym h.reject_unknown_sni i;
  master_key_log = sym h.master_key_log i;
  ech_server_keys = sym h.ech_server_keys i;
  ech_config_list = sym h.ech_config_list i;
  curve_preferences = sym h.curve_preferences i;
  fingerprint = or_null-shown s.fingerprint (codes "chrome") h.fingerprint i;
  verify_peer_cert_by_name =
      non_empty-get_or s.verify_peer_cert_by_name h.verify_peer_cert_by_name i;
  pinned_peer_cert_sha256 = non_empty-get_or s.pinned_peer_cert_sha256 h.pinned_peer_cert_sha256 i;
  self_signed = sym h.self_signed i;
}

build_client_reality_opened :
    (r : RealitySecurity)
    → IsSettledClientReality r
    → build_client_reality (client_reality_form (SecurityConfig.reality r)) ≡ r
unfolding build_client_reality client_reality_form
build_client_reality_opened r h =
    let slash = or_text_of_ne r.spider_x (codes "/") h.spider_x.1 in
    λ i. record {
      dest = sym h.dest i;
      server_names = first_of_one r.server_names h.server_names i;
      private_key = sym h.private_key i;
      public_key = h.public_key i;
      short_ids = first_of_one r.short_ids h.short_ids i;
      fingerprint = trim_or_of_IsFilled r.fingerprint (codes "chrome") h.fingerprint i;
      xver = sym h.xver i;
      spider_x =
          (ap (λ s. or_text (trim s) (codes "/")) slash
              ∙ trim_or_of_IsFilled r.spider_x (codes "/") h.spider_x)
            i;
      min_client_ver = sym h.min_client_ver i;
      max_client_ver = sym h.max_client_ver i;
    }

pub build_client_security_opened :
    (s : SecurityConfig)
    → IsSettledClientSecurity s
    → build_client_security (client_security s) (client_tls_form s) (client_reality_form s) ≡ s
unfolding build_client_security
build_client_security_opened SecurityConfig.none h = refl
build_client_security_opened (SecurityConfig.tls s) h =
    ap SecurityConfig.tls (build_client_tls_opened s h)
build_client_security_opened (SecurityConfig.reality r) h =
    ap SecurityConfig.reality (build_client_reality_opened r h)
