-- ===== src/Outbounds/Link.antt =====
-- frontend/src/pages/Outbounds/parseLink.ts: hosts, ports and Hysteria 2 links. `decodeURIComponent` is a
-- parameter that answers nothing where it throws, and so is `get` of `URLSearchParams`.
pub mod Authority
pub mod Query
pub mod Hysteria
pub mod Extra
pub mod Values
pub mod Vless
use rx_ui.Base.{
  ℕ, Bool, true, false, ◌||◌, not, is_empty, List, [], ◌∷◌, Option, none, some, get_or, ◌==◌, map,
  if◌then◌else◌,
}
use rx_ui.Js.Text.{Text, codes, split, text_eq}
use rx_ui.Js.Number.{Number, between, parse_int}
use rx_ui.Inbounds.Values.{or_text, trimmed_items}

-- The i18n keys that `LinkParseError` carries.
pub data LinkParseError : Type 0 where
  link_err_host_port link_err_ipv6 link_err_no_host : LinkParseError
  link_err_empty link_err_unknown link_err_no_uuid : LinkParseError
  link_err_scheme : Text → LinkParseError

-- `crashed` is an error of the language, which the caller reports without a reason.
pub data Parsed {ℓ} (A : Type ℓ) : Type ℓ where
  ok : A → Parsed A
  thrown : LinkParseError → Parsed A
  crashed : Parsed A

-- The text before and behind the first `c`: `indexOf`, then two slices.
unfoldable pub cut_first : ℕ → Text → Option (Text × Text)
cut_first c [] = none
cut_first c (d ∷ s) =
    let rest = cut_first c s in
    if d == c then some ([], s) else elim rest [ none ↦ none | some p ↦ some (d ∷ p.0, p.1) ]

-- The same for the last `c`: `lastIndexOf`.
unfoldable pub cut_last : ℕ → Text → Option (Text × Text)
cut_last c [] = none
cut_last c (d ∷ s) = elim (cut_last c s) [
  | none ↦ if d == c then some ([], s) else none
  | some p ↦ some (d ∷ p.0, p.1)
]

unfoldable pub parse_port : Text → Parsed Number
parse_port s =
    let p = parse_int s in
    if between 0 65536 p then Parsed.ok p else Parsed.thrown LinkParseError.link_err_host_port

-- `s.slice(1)`
abbrev pub behind_first : Text → Text
behind_first [] = []
behind_first (c ∷ s) = s

-- `hostport.startsWith('[')`
abbrev pub is_bracketed : Text → Bool
is_bracketed [] = false
is_bracketed (c ∷ s) = c == b'['

unfoldable pub split_host_port : Text → Parsed (Text × Text)
split_host_port s =
    if is_bracketed s
    then elim (cut_first b']' (behind_first s)) [
      | none ↦ Parsed.thrown LinkParseError.link_err_ipv6
      | some p ↦ Parsed.ok (p.0, behind_first p.1)
    ]
    else elim (cut_last b':' s) [ none ↦ Parsed.ok (s, []) | some p ↦ Parsed.ok p ]

-- The values of a Hysteria 2 link. Its `protocol_kind` is `hysteria` and its `security` is `tls`; a list
-- that the link does not set is none, and so is the Salamander password.
pub record HysteriaLink : Type 0 where
  pub tag : Text
  pub address : Text
  pub port : Number
  pub hysteria_auth : Text
  pub tls_server_name : Text
  pub tls_pinned_peer_cert_sha256 : Option (List Text)
  pub tls_verify_peer_cert_by_name : Option (List Text)
  pub tls_alpn : List Text
  pub finalmask_salamander_password : Option Text

module _ (decode : Text → Option Text) (search : Text → Text → Option Text) where
  unfoldable pub safe_decode : Text → Text
  safe_decode s = get_or (decode s) s

  -- `q.get(k) ?? ''`
  abbrev pub get : Text → Text → Text
  get query k = get_or (search query k) []

  abbrev pub pin : Text → Text
  pin query = or_text (get query (codes "pinSHA256")) (get query (codes "pinsha256"))

  abbrev pub is_insecure : Text → Bool
  is_insecure query =
      text_eq (get query (codes "insecure")) (codes "1")
      || text_eq (get query (codes "insecure")) (codes "true")

  abbrev pub hysteria_alpn : Text → List Text
  hysteria_alpn query =
      let alpn = get query (codes "alpn") in
      if is_empty alpn then [] else trimmed_items (split b',' alpn)

  unfoldable pub hysteria_values : Text → Text → Text → Text → Number → HysteriaLink
  hysteria_values query name auth host port =
      let server_name = or_text (get query (codes "sni")) host in
      record {
        tag = name;
        address = host;
        port = port;
        hysteria_auth = auth;
        tls_server_name = server_name;
        tls_pinned_peer_cert_sha256 = if is_empty (pin query) then none else some (pin query ∷ []);
        tls_verify_peer_cert_by_name =
            if is_empty (pin query)
            then if is_insecure query then some (server_name ∷ []) else none
            else none;
        tls_alpn = hysteria_alpn query;
        finalmask_salamander_password =
            if text_eq (get query (codes "obfs")) (codes "salamander")
            then some (get query (codes "obfs-password"))
            else none;
      }

  -- `at >= 0 ? s.slice(0, at) : s`, and the text behind, which is empty where there is none.
  abbrev pub before_or : Option (Text × Text) → Text → Text
  before_or none s = s
  before_or (some p) s = p.0

  abbrev pub behind : Option (Text × Text) → Text
  behind none = []
  behind (some p) = p.1

  -- `at >= 0 ? safeDecode(authority.slice(0, at)) : ''`
  abbrev pub decoded_auth : Option (Text × Text) → Text
  decoded_auth none = []
  decoded_auth (some p) = safe_decode p.0

  -- `at >= 0 ? authority.slice(at + 1) : authority`
  abbrev pub behind_or : Option (Text × Text) → Text → Text
  behind_or none s = s
  behind_or (some p) s = p.1

  abbrev pub decoded_name : Option (Text × Text) → Text
  decoded_name none = []
  decoded_name (some p) = safe_decode p.1

  unfoldable pub with_host_port : Text → Text → Text → Parsed (Text × Text) → Parsed HysteriaLink
  with_host_port query name auth (Parsed.thrown e) = Parsed.thrown e
  with_host_port query name auth Parsed.crashed = Parsed.crashed
  with_host_port query name auth (Parsed.ok (host, port)) =
      if is_empty host
      then Parsed.thrown LinkParseError.link_err_no_host
      else elim (parse_port port) [
        | Parsed.ok p ↦ Parsed.ok (hysteria_values query name auth host p)
        | Parsed.thrown e ↦ Parsed.thrown e
        | Parsed.crashed ↦ Parsed.crashed
      ]

  -- `parseHysteriaLink`, of the link behind `://`.
  unfoldable pub parse_hysteria_link : Text → Parsed HysteriaLink
  parse_hysteria_link body =
      let named = cut_first b'#' body in
      let before_hash = before_or named body in
      let asked = cut_first b'?' before_hash in
      let authority = before_or asked before_hash in
      let sent = cut_last b'@' authority in
      let host_part = behind_or sent authority in
      with_host_port (behind asked) (decoded_name named) (decoded_auth sent)
        (split_host_port (before_or (cut_first b'/' host_part) host_part))
