-- ===== src/Outbounds/Link/Vless/Laws.antt =====
-- What every link that is read satisfies, and the parts of a well-formed VLESS link.
use rx_ui.Base.{
  ℕ, ◌≡◌, ◌≢◌, ◌⊎◌, refl, sym, ap, true, inl, inr, [], ◌∷◌, ◌++◌, Option, none, some, All-append,
  arith, is_empty, Bool-cases, ◌||◌,
}
use mathlib.Core.List.{cons-ne-nil}
use rx_ui.Js.Text.{Text, behind_prefix, codes, text_eq, trim}
use rx_ui.Js.Text.Split.{Lacks}
use rx_ui.Js.Number.{Number, between, parse_int, print}
use rx_ui.Js.Number.Decimal.{between-IsNatural, print-All}
use rx_ui.Js.Json.{Json}
use rx_ui.Inbounds.Ranges.RoundTrip.{digits-Lacks}
use rx_ui.Outbounds.Link.{HysteriaLink, Parsed, parse_hysteria_link, parse_port, safe_decode}
use rx_ui.Outbounds.Link.Authority.{
  cut_first_at, cut_last_at, parse_port-print, split_host_port_bare,
}
use rx_ui.Outbounds.Link.Hysteria.{
  IsHost, IsPlain, host_port, host_port-Lacks, parse_hysteria_link-IsUsable,
}
use rx_ui.Outbounds.Link.Extra.{LinkMask}
use rx_ui.Outbounds.Link.Values.{LinkSecurity, LinkTransport, VlessLink}
use rx_ui.Outbounds.Link.Vless.{
  ParsedLink, as_hysteria, as_vless, both, cut_text, link_flow, link_security, link_transport,
  parse_by_scheme, parse_outbound_link, parse_vless_link, vless_values, with_uuid, with_vless_port,
}

-- Fingerprints and spider paths are not empty.
abbrev pub IsUsableSecurity : LinkSecurity → Type 0
IsUsableSecurity LinkSecurity.none = Unit
IsUsableSecurity (LinkSecurity.tls s) = s.fingerprint ≢ []
IsUsableSecurity (LinkSecurity.reality r) = (r.fingerprint ≢ []) × (r.spider_x ≢ [])

-- Paths and modes are not empty.
abbrev pub IsUsableTransport : LinkTransport → Type 0
IsUsableTransport LinkTransport.tcp = Unit
IsUsableTransport (LinkTransport.ws path host) = path ≢ []
IsUsableTransport (LinkTransport.xhttp path host mode extra) = (path ≢ []) × (mode ≢ [])

pub record IsUsableVless (v : VlessLink) : Type 0 where
  pub address : v.address ≢ []
  pub port : between 0 65536 v.port ≡ true
  pub flow : (v.flow ≡ []) ⊎ (v.flow ≡ codes "xtls-rprx-vision")
  pub security : IsUsableSecurity v.security
  pub transport : IsUsableTransport v.transport

abbrev pub IsUsableLink : ParsedLink → Type 0
IsUsableLink (ParsedLink.hysteria v) = (v.address ≢ []) × (between 0 65536 v.port ≡ true)
IsUsableLink (ParsedLink.vless v) = IsUsableVless v

-- What is returned, if anything is, satisfies `P`.
abbrev pub Returns {ℓ} : {A : Type ℓ} → (A → Type 0) → Parsed A → Type 0
Returns P (Parsed.ok a) = P a
Returns P (Parsed.thrown e) = Unit
Returns P Parsed.crashed = Unit

module _ (decode : Text → Option Text) (search : Text → Text → Option Text)
    (json : Text → Option Json) where
  link_flow_lem :
      (query : Text)
      → (link_flow decode search json query ≡ [])
        ⊎ (link_flow decode search json query ≡ codes "xtls-rprx-vision")
  link_flow_lem query = ground arith

  link_security-IsUsable :
      (query : Text) → IsUsableSecurity (link_security decode search json query)
  unfolding link_security
  link_security-IsUsable query = ground arith

  link_transport-IsUsable :
      (query : Text) → Returns IsUsableTransport (link_transport decode search json query)
  unfolding link_transport
  link_transport-IsUsable query = ground arith

  both-Returns :
      (P : VlessLink → Type 0) (f : LinkTransport → Option LinkMask → VlessLink)
      (t : Parsed LinkTransport) (m : Parsed (Option LinkMask))
      → Returns IsUsableTransport t
      → ((a : LinkTransport) (b : Option LinkMask) → IsUsableTransport a → P (f a b))
      → Returns P (both f t m)
  both-Returns P f (Parsed.ok a) (Parsed.ok b) h k = k a b h
  both-Returns P f (Parsed.ok a) (Parsed.thrown e) h k = tt
  both-Returns P f (Parsed.ok a) Parsed.crashed h k = tt
  both-Returns P f (Parsed.thrown e) m h k = tt
  both-Returns P f Parsed.crashed m h k = tt

  vless_values-IsUsable :
      (query name uuid host : Text) (port : Number)
      → host ≢ []
      → between 0 65536 port ≡ true
      → Returns IsUsableVless (vless_values decode search json query name uuid host port)
  unfolding vless_values
  vless_values-IsUsable query name uuid host port hh hp =
      both-Returns IsUsableVless _ (link_transport decode search json query) _
        (link_transport-IsUsable query)
        (λ a b ha. record {
          address = hh;
          port = hp;
          flow = link_flow_lem query;
          security = link_security-IsUsable query;
          transport = ha;
        })

  with_vless_port-IsUsable :
      (query name uuid : Text) (hp : Parsed (Text × Text))
      → Returns IsUsableVless (with_vless_port decode search json query name uuid hp)
  unfolding with_vless_port parse_port
  with_vless_port-IsUsable query name uuid (Parsed.thrown e) = tt
  with_vless_port-IsUsable query name uuid Parsed.crashed = tt
  with_vless_port-IsUsable query name uuid (Parsed.ok ([], port)) = tt
  with_vless_port-IsUsable query name uuid (Parsed.ok (c ∷ host, port)) =
      elim (Bool-cases (between 0 65536 (parse_int port))) [
        | inl e ↦ rw e (
            vless_values-IsUsable query name uuid (c ∷ host) (parse_int port) (cons-ne-nil c host)
              e)
        | inr e ↦ rw e tt
      ]

  with_uuid-IsUsable :
      (query name : Text) (cut : Option (Text × Text))
      → Returns IsUsableVless (with_uuid decode search json query name cut)
  with_uuid-IsUsable query name none = tt
  with_uuid-IsUsable query name (some (uuid, rest)) = with_vless_port-IsUsable query name _ _

  as_vless-Returns :
      (p : Parsed VlessLink) → Returns IsUsableVless p → Returns IsUsableLink (as_vless p)
  as_vless-Returns (Parsed.ok v) h = h
  as_vless-Returns (Parsed.thrown e) h = tt
  as_vless-Returns Parsed.crashed h = tt

  as_hysteria-Returns :
      (body : Text) (p : Parsed HysteriaLink)
      → parse_hysteria_link decode search body ≡ p
      → Returns IsUsableLink (as_hysteria p)
  as_hysteria-Returns body (Parsed.ok v) e =
      let (ha, hp, _) = parse_hysteria_link-IsUsable decode search body v e in (ha, hp)
  as_hysteria-Returns body (Parsed.thrown e) _ = tt
  as_hysteria-Returns body Parsed.crashed _ = tt

  parse_by_scheme-IsUsable :
      (scheme hy vl : Text) → Returns IsUsableLink (parse_by_scheme decode search json scheme hy vl)
  unfolding parse_by_scheme parse_vless_link
  parse_by_scheme-IsUsable scheme hy vl =
      elim (Bool-cases (text_eq scheme (codes "hysteria2") || text_eq scheme (codes "hy2"))) [
        | inl e ↦ rw e (as_hysteria-Returns hy (parse_hysteria_link decode search hy) refl)
        | inr e ↦ elim (Bool-cases (text_eq scheme (codes "vless"))) [
          | inl k ↦ rw (e, k) (as_vless-Returns _ (with_uuid-IsUsable _ _ _))
          | inr k ↦ rw (e, k) tt
        ]
      ]

  -- Whatever text is pasted, a link that is read has an address that is not empty and a port from 1 to
  -- 65535; one of VLESS names Vision or no flow, a fingerprint wherever it names a security, and a path
  -- wherever its transport has one.
  pub parse_outbound_link-IsUsable :
      (raw : Text) → Returns IsUsableLink (parse_outbound_link decode search json raw)
  unfolding parse_outbound_link
  parse_outbound_link-IsUsable raw = elim (Bool-cases (is_empty (trim raw))) [
    | inl e ↦ rw e tt
    | inr e ↦ rw e (parse_by_scheme-IsUsable _ _ _)
  ]

abbrev authority : Text → Text → Number → Text
authority uuid host p = uuid ++ b'@' ∷ host_port host p

-- `UUID@HOST:PORT?QUERY#NAME`
abbrev pub rendered : Text → Text → Number → Text → Text → Text
rendered uuid host p query name = (authority uuid host p ++ b'?' ∷ query) ++ b'#' ∷ name

authority-Lacks :
    (c : ℕ) (uuid host : Text) (p : Number)
    → c ≢ b'@'
    → Lacks c uuid
    → Lacks c (host_port host p)
    → Lacks c (authority uuid host p)
authority-Lacks c uuid host p at ku kh =
    All-append _ uuid (b'@' ∷ host_port host p) ku ((λ e. at (sym e)), kh)

module _ (decode : Text → Option Text) (search : Text → Text → Option Text)
    (json : Text → Option Json) where
  vless_parsed :
      (uuid host query name : Text) (p : Number)
      → IsPlain uuid
      → IsHost host
      → Lacks b'#' query
      → between 0 65536 p ≡ true
      → parse_vless_link decode search json (rendered uuid host p query name)
        ≡ vless_values decode search json query
            (safe_decode decode search name)
            (safe_decode decode search uuid)
            host
            p
  unfolding parse_vless_link with_vless_port
  vless_parsed uuid host query name p (u_hash, u_ask) (ne, bare, (h_hash, h_ask), h_at, h_slash)
        q_hash hp =
      let hp_ask = host_port-Lacks b'?' host p (omega arith) (omega arith) hp h_ask in
      let hp_hash = host_port-Lacks b'#' host p (omega arith) (omega arith) hp h_hash in
      let hp_at = host_port-Lacks b'@' host p (omega arith) (omega arith) hp h_at in
      let before_query = authority-Lacks b'?' uuid host p (omega arith) u_ask hp_ask in
      let before_name =
        All-append _ (authority uuid host p) (b'?' ∷ query)
          (authority-Lacks b'#' uuid host p (omega arith) u_hash hp_hash) (ground arith, q_hash) in
      let port_text =
        digits-Lacks b':' (print p) (omega arith) (print-All p (between-IsNatural 0 65536 p hp)) in
      rw (cut_first_at b'#' (authority uuid host p ++ b'?' ∷ query) name before_name) (
        rw (cut_first_at b'?' (authority uuid host p) query before_query) (
          rw (cut_last_at b'@' uuid (host_port host p) hp_at) (
            rw (split_host_port_bare host (print p) bare port_text, parse_port-print p hp)
              (ground arith))))

  -- A link `vless://UUID@HOST:PORT?QUERY#NAME`, with white space around it or none, is cut into
  -- these parts, if HOST is not empty, begins with no bracket and holds none of `#?@/`, PORT is from 1 to
  -- 65535, UUID holds neither `#` nor `?`, and QUERY no `#`.
  pub parse_outbound_link-rendered :
      (raw uuid host query name : Text) (p : Number)
      → trim raw ≡ codes "vless://" ++ rendered uuid host p query name
      → IsPlain uuid
      → IsHost host
      → Lacks b'#' query
      → between 0 65536 p ≡ true
      → parse_outbound_link decode search json raw
        ≡ as_vless (
            vless_values decode search json query
              (safe_decode decode search name)
              (safe_decode decode search uuid)
              host
              p)
  unfolding parse_outbound_link parse_by_scheme cut_text behind_prefix text_eq
  parse_outbound_link-rendered raw uuid host query name p e hu hh hq hp =
      rw e (ap as_vless (vless_parsed uuid host query name p hu hh hq hp))
