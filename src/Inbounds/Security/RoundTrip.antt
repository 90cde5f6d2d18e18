-- ===== src/Inbounds/Security/RoundTrip.antt =====
-- The security layer that the form sends, and a stored layer that is opened and saved.
use rx_ui.Base.{
  ◌≡◌, ◌≢◌, refl, sym, ap, ◌∙◌, [], ◌∷◌, true, false, not, List, Option, none, some, get_or, All,
  All-mono, filter, filter_kept, filter_holds, is_empty, arith,
}
use mathlib.Core.List.{cons-ne-nil}
use rx_ui.Js.Text.{Text, codes, join, split, trim}
use rx_ui.Js.Text.Trim.{trim_idem}
use rx_ui.Js.Text.Split.{Lacks, split-join}
use rx_ui.Api.Security.{RealitySecurity, SecurityConfig, TlsSecurity}
use rx_ui.Inbounds.Form.{FormSecurity, RealityFormFields, TlsFormFields}
use rx_ui.Inbounds.Values.{or_null, or_text}
use rx_ui.Inbounds.Values.Laws.{
  IsFilledText, IsSettledText, IsSettledList, or_null-get_or, or_null-IsSettled,
  non_empty-IsSettled, non_empty-get_or, some-get_or, some-ne-none,
}
use rx_ui.Inbounds.Security.{
  build_reality, build_security, build_tls, has_cert_and_key, join_suites, reality_form,
  security_kind, split_suites, tls_form,
}

-- A suite is a name without colons.
abbrev pub IsSuite : Text → Type 0
IsSuite p = Lacks b':' p × (p ≢ [])

abbrev pub IsSettledSuites : Option Text → Type 0
IsSettledSuites none = Unit
IsSettledSuites (some s) = (ps : List Text) × (ps ≢ []) × All IsSuite ps × (s ≡ join (b':' ∷ []) ps)

-- A fingerprint is there: a blank one is shown as `chrome`.
abbrev pub IsPresentText : Option Text → Type 0
IsPresentText none = ⊥
IsPresentText (some s) = IsFilledText s

abbrev pub IsSettledReality : RealitySecurity → Type 0
IsSettledReality r =
    (r.fingerprint ≢ [])
    × (r.spider_x ≢ [])
    × (trim r.min_client_ver ≡ r.min_client_ver)
    × (trim r.max_client_ver ≡ r.max_client_ver)

pub record IsSettledTls (s : TlsSecurity) : Type 0 where
  pub certificates : All (λ c. has_cert_and_key c ≡ true) s.certificates
  pub server_name : IsSettledList s.server_name
  pub alpn : IsSettledList s.alpn
  pub min_version : IsSettledList s.min_version
  pub max_version : IsSettledList s.max_version
  pub cipher_suites : IsSettledSuites s.cipher_suites
  pub enable_session_resumption : s.enable_session_resumption ≢ none
  pub reject_unknown_sni : s.reject_unknown_sni ≢ none
  pub master_key_log : IsSettledText s.master_key_log
  pub ech_server_keys : IsSettledText s.ech_server_keys
  pub ech_config_list : IsSettledText s.ech_config_list
  pub curve_preferences : IsSettledList s.curve_preferences
  pub fingerprint : IsPresentText s.fingerprint
  pub verify_peer_cert_by_name : s.verify_peer_cert_by_name ≡ none
  pub pinned_peer_cert_sha256 : s.pinned_peer_cert_sha256 ≡ none
  pub self_signed : s.self_signed ≢ none

abbrev pub IsSettledSecurity : SecurityConfig → Type 0
IsSettledSecurity SecurityConfig.none = Unit
IsSettledSecurity (SecurityConfig.tls s) = IsSettledTls s
IsSettledSecurity (SecurityConfig.reality r) = IsSettledReality r

-- The TLS fields that the settled layer asks for: suites without colons, and a fingerprint.
abbrev pub HasTlsChoices : TlsFormFields → Type 0
HasTlsChoices v = All IsSuite v.tls_cipher_suites × (trim v.tls_fingerprint ≢ [])

pub or_text-ne-nil : (s d : Text) → d ≢ [] → or_text s d ≢ []
or_text-ne-nil [] d h = h
or_text-ne-nil (c ∷ s) d h = cons-ne-nil c s

pub or_text_of_ne : (s d : Text) → s ≢ [] → or_text s d ≡ s
or_text_of_ne [] d h = absurd (h refl)
or_text_of_ne (c ∷ s) d h = refl

pub or_null-IsPresentText : (s : Text) → trim s ≢ [] → IsPresentText (or_null s)
unfolding or_null
or_null-IsPresentText s h = ground (arith, trim_idem s)

pub or_null-shown : (o : Option Text) (d : Text) → IsPresentText o → or_null (get_or o d) ≡ o
or_null-shown none d h = absurd h
or_null-shown (some s) d h = or_null-get_or (some s) h

join_suites-IsSettled : (ps : List Text) → All IsSuite ps → IsSettledSuites (join_suites ps)
unfolding join_suites
join_suites-IsSettled [] h = tt
join_suites-IsSettled (p ∷ ps) h = (p ∷ ps, cons-ne-nil p ps, h, refl)

IsSuite-kept : (ps : List Text) → All IsSuite ps → filter (λ p. not (is_empty p)) ps ≡ ps
IsSuite-kept ps h = filter_kept _ ps (All-mono IsSuite _ (λ p hp. ground arith) ps h)

suites_lack_colons : (ps : List Text) → All IsSuite ps → All (Lacks b':') ps
suites_lack_colons ps h = All-mono IsSuite (Lacks b':') (λ p hp. hp.0) ps h

parts_of_join :
    (ps : List Text)
    → ps ≢ []
    → All IsSuite ps
    → filter (λ q. not (is_empty q)) (split b':' (join (b':' ∷ []) ps)) ≡ ps
parts_of_join ps ne h =
    ap (filter (λ q. not (is_empty q))) (split-join b':' ps ne (suites_lack_colons ps h))
    ∙ IsSuite-kept ps h

split_suites-join :
    (ps : List Text) → ps ≢ [] → All IsSuite ps → split_suites (some (join (b':' ∷ []) ps)) ≡ ps
unfolding split_suites join
split_suites-join [] ne h = absurd (ne refl)
split_suites-join ([] ∷ ps) ne ((_, hp), h) = absurd (hp refl)
split_suites-join ((c ∷ p) ∷ []) ne h = parts_of_join ((c ∷ p) ∷ []) ne h
split_suites-join ((c ∷ p) ∷ q ∷ ps) ne h = parts_of_join ((c ∷ p) ∷ q ∷ ps) ne h

join_suites_of_ne : (ps : List Text) → ps ≢ [] → join_suites ps ≡ some (join (b':' ∷ []) ps)
unfolding join_suites
join_suites_of_ne [] h = absurd (h refl)
join_suites_of_ne (p ∷ ps) h = refl

-- No suites, or some that are stored joined by colons, none of them empty and none with a colon, are split
-- and joined again as they were.
pub join_suites-split_suites :
    (o : Option Text) → IsSettledSuites o → join_suites (split_suites o) ≡ o
join_suites-split_suites none h = unfold join_suites split_suites in refl
join_suites-split_suites (some s) (ps, ne, h, e) =
    ap (λ t. join_suites (split_suites (some t))) e
    ∙ ap join_suites (split_suites-join ps ne h)
    ∙ join_suites_of_ne ps ne
    ∙ ap some (sym e)

build_tls-IsSettled : (v : TlsFormFields) → HasTlsChoices v → IsSettledTls (build_tls v)
unfolding build_tls
build_tls-IsSettled v (hs, hf) = record {
  certificates = filter_holds has_cert_and_key _ (λ c e. e) v.tls_certificates;
  server_name = non_empty-IsSettled v.tls_server_name;
  alpn = non_empty-IsSettled v.tls_alpn;
  min_version = non_empty-IsSettled v.tls_min_version;
  max_version = non_empty-IsSettled v.tls_max_version;
  cipher_suites = join_suites-IsSettled v.tls_cipher_suites hs;
  enable_session_resumption = some-ne-none v.tls_enable_session_resumption;
  reject_unknown_sni = some-ne-none v.tls_reject_unknown_sni;
  master_key_log = or_null-IsSettled v.tls_master_key_log;
  ech_server_keys = or_null-IsSettled v.tls_ech_server_keys;
  ech_config_list = or_null-IsSettled v.tls_ech_config_list;
  curve_preferences = non_empty-IsSettled v.tls_curve_preferences;
  fingerprint = or_null-IsPresentText v.tls_fingerprint hf;
  verify_peer_cert_by_name = refl;
  pinned_peer_cert_sha256 = refl;
  self_signed = some-ne-none v.tls_self_signed;
}

-- Whatever the form holds, if under TLS its suites are names without colons and its fingerprint is not
-- blank, the security layer that it sends is settled: no certificate lacks its text or its key, a REALITY layer
-- has a fingerprint and a spider path, and the fields that only outbounds use are null.
pub build_security-IsSettled :
    (k : FormSecurity) (r : RealityFormFields) (t : TlsFormFields)
    → (k ≡ FormSecurity.tls → HasTlsChoices t)
    → IsSettledSecurity (build_security k r t)
unfolding build_security build_reality
build_security-IsSettled FormSecurity.none r t h = tt
build_security-IsSettled FormSecurity.tls r t h = build_tls-IsSettled t (h refl)
build_security-IsSettled FormSecurity.reality r t h = (
  or_text-ne-nil r.reality_fingerprint (codes "chrome") (cons-ne-nil _ _),
  or_text-ne-nil r.reality_spider_x (codes "/") (cons-ne-nil _ _),
  trim_idem r.reality_min_client_ver,
  trim_idem r.reality_max_client_ver,
)

build_tls_opened :
    (s : TlsSecurity) → IsSettledTls s → build_tls (tls_form (SecurityConfig.tls s)) ≡ s
unfolding build_tls tls_form
build_tls_opened s h = λ i. record {
  certificates = filter_kept has_cert_and_key s.certificates h.certificates i;
  server_name = non_empty-get_or s.server_name h.server_name i;
  alpn = non_empty-get_or s.alpn h.alpn i;
  min_version = non_empty-get_or s.min_version h.min_version i;
  max_version = non_empty-get_or s.max_version h.max_version i;
  cipher_suites = join_suites-split_suites s.cipher_suites h.cipher_suites i;
  enable_session_resumption =
      some-get_or s.enable_session_resumption false h.enable_session_resumption i;
  reject_unknown_sni = some-get_or s.reject_unknown_sni false h.reject_unknown_sni i;
  master_key_log = or_null-get_or s.master_key_log h.master_key_log i;
  ech_server_keys = or_null-get_or s.ech_server_keys h.ech_server_keys i;
  ech_config_list = or_null-get_or s.ech_config_list h.ech_config_list i;
  curve_preferences = non_empty-get_or s.curve_preferences h.curve_preferences i;
  fingerprint = or_null-shown s.fingerprint (codes "chrome") h.fingerprint i;
  verify_peer_cert_by_name = sym h.verify_peer_cert_by_name i;
  pinned_peer_cert_sha256 = sym h.pinned_peer_cert_sha256 i;
  self_signed = some-get_or s.self_signed false h.self_signed i;
}

build_reality_opened :
    (r : RealitySecurity)
    → IsSettledReality r
    → build_reality (reality_form (SecurityConfig.reality r)) ≡ r
unfolding build_reality reality_form
build_reality_opened r (hf, hx, h1, h2) =
    let slash = or_text_of_ne r.spider_x (codes "/") hx in
    λ i. record r {
      fingerprint = or_text_of_ne r.fingerprint (codes "chrome") hf i;
      spider_x = (ap (λ s. or_text s (codes "/")) slash ∙ slash) i;
      min_client_ver = h1 i;
      max_client_ver = h2 i;
    }

-- A settled security layer that is opened in the form, and saved, is sent back unchanged.
pub build_security_opened :
    (s : SecurityConfig)
    → IsSettledSecurity s
    → build_security (security_kind s) (reality_form s) (tls_form s) ≡ s
unfolding build_security
build_security_opened SecurityConfig.none h = refl
build_security_opened (SecurityConfig.tls s) h = ap SecurityConfig.tls (build_tls_opened s h)
build_security_opened (SecurityConfig.reality r) h =
    ap SecurityConfig.reality (build_reality_opened r h)
