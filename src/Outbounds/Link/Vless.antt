-- ===== src/Outbounds/Link/Vless.antt =====
-- `parseOutboundLink` of frontend/src/pages/Outbounds/parseLink.ts: the dispatch on the scheme, and VLESS
-- links. `json` is `JSON.parse`.
pub mod Cipher
pub mod Laws
pub mod Spelling
pub mod Written
use rx_ui.Base.{
  ℕ, zero, suc, Bool, true, false, not, ◌||◌, ◌==◌, List, [], ◌∷◌, Option, none, some, get_or,
  first, is_empty, map, if◌then◌else◌,
}
use rx_ui.Js.Text.{Text, behind_prefix, codes, join, lower, split, text_eq, trim}
use rx_ui.Js.Number.{Number}
use rx_ui.Js.Json.{Json}
use rx_ui.Inbounds.Values.{or_text, trimmed_items}
use rx_ui.Outbounds.Link.{
  HysteriaLink, LinkParseError, Parsed, before_or, behind, cut_first, cut_last, decoded_name, get,
  parse_hysteria_link, parse_port, safe_decode, split_host_port,
}
use rx_ui.Outbounds.Link.Extra.{LinkMask, XhttpExtra, apply_final_mask, apply_xhttp_extra}
use rx_ui.Outbounds.Link.Values.{
  LinkCipher, LinkReality, LinkSecurity, LinkTls, LinkTransport, VlessLink,
}

-- The text before and behind the first `sep`.
unfoldable pub cut_text : Text → Text → Option (Text × Text)
unfolding behind_prefix
cut_text sep [] = none
cut_text sep (c ∷ s) =
    let rest = cut_text sep s in
    elim (behind_prefix sep (c ∷ s)) [
      | some after ↦ some ([], after)
      | none ↦ elim rest [ none ↦ none | some p ↦ some (c ∷ p.0, p.1) ]
    ]

-- `s.slice(0, -1)`
abbrev pub but_last {ℓ} : {A : Type ℓ} → List A → List A
but_last [] = []
but_last (x ∷ []) = []
but_last (x ∷ y ∷ ys) = x ∷ but_last (y ∷ ys)

-- `s.slice(n)`
abbrev pub drop {ℓ} : {A : Type ℓ} → ℕ → List A → List A
drop zero xs = xs
drop (suc n) [] = []
drop (suc n) (x ∷ xs) = drop n xs

-- `link.slice(0, link.indexOf('://'))`: where there is no "://", the index is -1.
abbrev pub scheme_of : Option (Text × Text) → Text → Text
scheme_of none link = but_last link
scheme_of (some p) link = p.0

-- `link.slice(link.indexOf('://') + 3)`
abbrev pub behind_scheme_of : Option (Text × Text) → Text → Text
behind_scheme_of none link = drop 2 link
behind_scheme_of (some p) link = p.1

abbrev pub last_of : Text → List Text → Text
last_of x [] = x
last_of x (y ∷ ys) = last_of y ys

abbrev pub second_of : List Text → Text
second_of (x ∷ y ∷ ys) = y
second_of _ = []

-- `parts.slice(3)` split into the padding and the client key.
abbrev pub cipher_parts : Text → List Text → LinkCipher
cipher_parts xor [] = record { xor_mode = xor; client_key = []; padding = [] }
cipher_parts xor (k ∷ []) = record { xor_mode = xor; client_key = k; padding = [] }
cipher_parts xor (p ∷ q ∷ rest) = record {
  xor_mode = xor;
  client_key = last_of q rest;
  padding = join (codes ".") (but_last (p ∷ q ∷ rest));
}

-- `mlkem768x25519plus . <xor> . 0rtt [ . <padding> ] . <client_key>`
unfoldable pub link_cipher : Text → Option LinkCipher
unfolding behind_prefix
link_cipher enc = elim (behind_prefix (codes "mlkem768x25519plus") enc) [
  | none ↦ none
  | some _ ↦
      let parts = split b'.' enc in
      some (cipher_parts (or_text (second_of parts) (codes "native")) (drop 3 parts))
]

-- `[a, b]`, or what is thrown first.
abbrev pub both {ℓ κ μ} :
    {A : Type ℓ} {B : Type κ} {C : Type μ} → (A → B → C) → Parsed A → Parsed B → Parsed C
both f (Parsed.ok a) (Parsed.ok b) = Parsed.ok (f a b)
both f (Parsed.ok a) (Parsed.thrown e) = Parsed.thrown e
both f (Parsed.ok a) Parsed.crashed = Parsed.crashed
both f (Parsed.thrown e) _ = Parsed.thrown e
both f Parsed.crashed _ = Parsed.crashed

-- What `parseOutboundLink` returns.
pub data ParsedLink : Type 0 where
  hysteria : HysteriaLink → ParsedLink
  vless : VlessLink → ParsedLink

abbrev pub as_hysteria : Parsed HysteriaLink → Parsed ParsedLink
as_hysteria (Parsed.ok v) = Parsed.ok (ParsedLink.hysteria v)
as_hysteria (Parsed.thrown e) = Parsed.thrown e
as_hysteria Parsed.crashed = Parsed.crashed

abbrev pub as_vless : Parsed VlessLink → Parsed ParsedLink
as_vless (Parsed.ok v) = Parsed.ok (ParsedLink.vless v)
as_vless (Parsed.thrown e) = Parsed.thrown e
as_vless Parsed.crashed = Parsed.crashed

module _ (decode : Text → Option Text) (search : Text → Text → Option Text)
    (json : Text → Option Json) where
  abbrev pub asked : Text → Text → Text
  asked query k = get decode search query k

  abbrev pub link_flow : Text → Text
  link_flow query =
      if text_eq (asked query (codes "flow")) (codes "xtls-rprx-vision")
      then codes "xtls-rprx-vision"
      else []

  abbrev pub link_alpn : Text → List Text
  link_alpn alpn = if is_empty alpn then [] else trimmed_items (split b',' alpn)

  unfoldable pub link_security : Text → LinkSecurity
  link_security query =
      let sec = asked query (codes "security") in
      if text_eq sec (codes "reality")
      then LinkSecurity.reality (record {
        server_name = asked query (codes "sni");
        public_key = asked query (codes "pbk");
        short_id = asked query (codes "sid");
        fingerprint = or_text (asked query (codes "fp")) (codes "chrome");
        spider_x = or_text (asked query (codes "spx")) (codes "/");
      })
      else if text_eq sec (codes "tls")
      then LinkSecurity.tls (record {
        server_name = asked query (codes "sni");
        alpn = link_alpn (asked query (codes "alpn"));
        fingerprint = or_text (asked query (codes "fp")) (codes "chrome");
      })
      else LinkSecurity.none

  -- An XHTTP transport, with the answer of `applyXhttpExtra`.
  abbrev pub xhttp_transport : Text → Parsed (Option XhttpExtra) → Parsed LinkTransport
  xhttp_transport query (Parsed.ok extra) = Parsed.ok (
      LinkTransport.xhttp (or_text (asked query (codes "path")) (codes "/"))
        (asked query (codes "host")) (or_text (asked query (codes "mode")) (codes "auto")) extra)
  xhttp_transport query (Parsed.thrown e) = Parsed.thrown e
  xhttp_transport query Parsed.crashed = Parsed.crashed

  unfoldable pub link_transport : Text → Parsed LinkTransport
  link_transport query =
      let type = or_text (asked query (codes "type")) (codes "tcp") in
      if text_eq type (codes "ws")
      then Parsed.ok (
          LinkTransport.ws (or_text (asked query (codes "path")) (codes "/"))
            (asked query (codes "host")))
      else if text_eq type (codes "xhttp") || text_eq type (codes "splithttp")
      then xhttp_transport query (apply_xhttp_extra json (asked query (codes "extra")))
      else Parsed.ok LinkTransport.tcp

  -- `if (reverse) out.reverse_tag = reverse`
  abbrev pub reverse_of : Text → Option Text
  reverse_of [] = none
  reverse_of (c ∷ s) = some (c ∷ s)

  unfoldable pub vless_values : Text → Text → Text → Text → Number → Parsed VlessLink
  vless_values query name uuid host port =
      both
        (λ transport mask. record {
          tag = name;
          address = host;
          port = port;
          uuid = uuid;
          flow = link_flow query;
          cipher = link_cipher (asked query (codes "encryption"));
          security = link_security query;
          transport = transport;
          mask = mask;
          reverse_tag = reverse_of (asked query (codes "reverse"));
        })
        (link_transport query) (apply_final_mask json (asked query (codes "fm")))

  unfoldable pub with_vless_port : Text → Text → Text → Parsed (Text × Text) → Parsed VlessLink
  with_vless_port query name uuid (Parsed.thrown e) = Parsed.thrown e
  with_vless_port query name uuid Parsed.crashed = Parsed.crashed
  with_vless_port query name uuid (Parsed.ok (host, port)) =
      if is_empty host
      then Parsed.thrown LinkParseError.link_err_no_host
      else elim (parse_port port) [
        | Parsed.ok p ↦ vless_values query name uuid host p
        | Parsed.thrown e ↦ Parsed.thrown e
        | Parsed.crashed ↦ Parsed.crashed
      ]

  abbrev pub with_uuid : Text → Text → Option (Text × Text) → Parsed VlessLink
  with_uuid query name none = Parsed.thrown LinkParseError.link_err_no_uuid
  with_uuid query name (some (uuid, rest)) =
      with_vless_port query name (safe_decode decode search uuid) (split_host_port rest)

  -- The VLESS branch, of the link behind `vless://`.
  unfoldable pub parse_vless_link : Text → Parsed VlessLink
  parse_vless_link body =
      let named = cut_first b'#' body in
      let before_hash = before_or decode search named body in
      let questioned = cut_first b'?' before_hash in
      with_uuid (behind decode search questioned) (decoded_name decode search named)
        (cut_last b'@' (before_or decode search questioned before_hash))

  -- A scheme that is known and not supported, or one that is not known.
  abbrev pub refused_scheme : Text → LinkParseError
  refused_scheme scheme =
      if text_eq scheme (codes "vmess")
        || text_eq scheme (codes "trojan")
        || text_eq scheme (codes "ss")
      then LinkParseError.link_err_scheme scheme
      else LinkParseError.link_err_unknown

  -- The dispatch on the scheme, with the link as each branch slices it.
  unfoldable pub parse_by_scheme : (scheme hysteria_body vless_body : Text) → Parsed ParsedLink
  parse_by_scheme scheme hysteria_body vless_body =
      if text_eq scheme (codes "hysteria2") || text_eq scheme (codes "hy2")
      then as_hysteria (parse_hysteria_link decode search hysteria_body)
      else if text_eq scheme (codes "vless")
      then as_vless (parse_vless_link vless_body)
      else Parsed.thrown (refused_scheme scheme)

  unfoldable pub parse_outbound_link : Text → Parsed ParsedLink
  parse_outbound_link raw =
      let link = trim raw in
      let cut = cut_text (codes "://") link in
      if is_empty link
      then Parsed.thrown LinkParseError.link_err_empty
      else parse_by_scheme (map lower (scheme_of cut link)) (behind_scheme_of cut link)
          (drop 8 link)
