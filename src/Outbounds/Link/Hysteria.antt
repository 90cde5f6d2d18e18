-- ===== src/Outbounds/Link/Hysteria.antt =====
-- Hysteria 2 links: the parts of a well-formed link, and what every parsed link satisfies.
pub mod Written
use rx_ui.Base.{ℕ, ◌≡◌, ◌≢◌, ◌⊎◌, sym, true, false, [], ◌∷◌, ◌++◌, Option, none, All-append, arith}
use rx_ui.Js.Text.{Text}
use rx_ui.Js.Text.Split.{Lacks}
use rx_ui.Js.Number.{Number, between, print}
use rx_ui.Js.Number.Decimal.{IsDigit, between-IsNatural, print-All}
use rx_ui.Inbounds.Ranges.RoundTrip.{digits-Lacks}
use rx_ui.Outbounds.Link.{
  HysteriaLink, Parsed, hysteria_values, is_bracketed, parse_hysteria_link, parse_port, safe_decode,
  with_host_port,
}
use rx_ui.Outbounds.Link.Authority.{
  cut_first_at, cut_last_at, parse_port-print, split_host_port_bare,
}

abbrev pub IsPlain : Text → Type 0
IsPlain s = Lacks b'#' s × Lacks b'?' s

-- A host that a link can hold as it stands.
abbrev pub IsHost : Text → Type 0
IsHost s = (s ≢ []) × (is_bracketed s ≡ false) × IsPlain s × Lacks b'@' s × Lacks b'/' s

abbrev pub host_port : Text → Number → Text
host_port host p = host ++ b':' ∷ print p

-- `AUTH@HOST:PORT/`
abbrev authority : Text → Text → Number → Text
authority auth host p = auth ++ b'@' ∷ (host_port host p ++ b'/' ∷ [])

-- `AUTH@HOST:PORT/?QUERY#NAME`
abbrev pub rendered : Text → Text → Number → Text → Text → Text
rendered auth host p query name = (authority auth host p ++ b'?' ∷ query) ++ b'#' ∷ name

pub host_port-Lacks :
    (c : ℕ) (host : Text) (p : Number)
    → c ≢ b':'
    → ¬ IsDigit c
    → between 0 65536 p ≡ true
    → Lacks c host
    → Lacks c (host_port host p)
host_port-Lacks c host p colon digit h k = All-append _ host (b':' ∷ print p) k (
  (λ e. colon (sym e)),
  digits-Lacks c (print p) digit (print-All p (between-IsNatural 0 65536 p h)),
)

authority-Lacks :
    (c : ℕ) (auth host : Text) (p : Number)
    → c ≢ b'@'
    → c ≢ b'/'
    → Lacks c auth
    → Lacks c (host_port host p)
    → Lacks c (authority auth host p)
authority-Lacks c auth host p at slash ka kh =
    All-append _ auth (b'@' ∷ (host_port host p ++ b'/' ∷ [])) ka
      ((λ e. at (sym e)), All-append _ (host_port host p) (b'/' ∷ []) kh ((λ e. slash (sym e)), tt))

module _ (decode : Text → Option Text) (search : Text → Text → Option Text) where
  -- A link `AUTH@HOST:PORT/?QUERY#NAME` is cut into these parts, if HOST is not empty, begins with no
  -- bracket and holds none of `#?@/`, PORT is from 1 to 65535, AUTH holds neither `#` nor `?`, and QUERY
  -- no `#`.
  pub parse_hysteria_link-rendered :
      (auth host query name : Text) (p : Number)
      → IsPlain auth
      → IsHost host
      → Lacks b'#' query
      → between 0 65536 p ≡ true
      → parse_hysteria_link decode search (rendered auth host p query name)
        ≡ Parsed.ok (
            hysteria_values decode search query
              (safe_decode decode search name)
              (safe_decode decode search auth)
              host
              p)
  unfolding parse_hysteria_link with_host_port
  parse_hysteria_link-rendered auth host query name p (a_hash, a_ask)
        (ne, bare, (h_hash, h_ask), h_at, h_slash) q_hash hp =
      let hp_ask = host_port-Lacks b'?' host p (omega arith) (omega arith) hp h_ask in
      let hp_hash = host_port-Lacks b'#' host p (omega arith) (omega arith) hp h_hash in
      let hp_at = host_port-Lacks b'@' host p (omega arith) (omega arith) hp h_at in
      let hp_slash = host_port-Lacks b'/' host p (omega arith) (omega arith) hp h_slash in
      let before_query =
        authority-Lacks b'?' auth host p (omega arith) (omega arith) a_ask hp_ask in
      let before_name =
        All-append _ (authority auth host p) (b'?' ∷ query)
          (authority-Lacks b'#' auth host p (omega arith) (omega arith) a_hash hp_hash)
          (ground arith, q_hash) in
      let port_text =
        digits-Lacks b':' (print p) (omega arith) (print-All p (between-IsNatural 0 65536 p hp)) in
      rw (cut_first_at b'#' (authority auth host p ++ b'?' ∷ query) name before_name) (
        rw (cut_first_at b'?' (authority auth host p) query before_query) (
          rw
            (cut_last_at b'@' auth (host_port host p ++ b'/' ∷ [])
              (All-append _ (host_port host p) (b'/' ∷ []) hp_at (ground arith, tt)))
            (rw (cut_first_at b'/' (host_port host p) [] hp_slash) (
              rw (split_host_port_bare host (print p) bare port_text, parse_port-print p hp)
                (ground arith)))))

  with_host_port-IsUsable :
      (query name auth : Text) (hp : Parsed (Text × Text)) (v : HysteriaLink)
      → with_host_port decode search query name auth hp ≡ Parsed.ok v
      → (v.address ≢ [])
        × (between 0 65536 v.port ≡ true)
        × ((v.tls_pinned_peer_cert_sha256 ≡ none) ⊎ (v.tls_verify_peer_cert_by_name ≡ none))
  unfolding with_host_port hysteria_values parse_port
  with_host_port-IsUsable query name auth hp v h = ground arith

  -- Whatever the text, a link that is read has an address that is not empty and a port from 1 to 65535,
  -- and it does not both pin a certificate and accept one by its name.
  pub parse_hysteria_link-IsUsable :
      (body : Text) (v : HysteriaLink)
      → parse_hysteria_link decode search body ≡ Parsed.ok v
      → (v.address ≢ [])
        × (between 0 65536 v.port ≡ true)
        × ((v.tls_pinned_peer_cert_sha256 ≡ none) ⊎ (v.tls_verify_peer_cert_by_name ≡ none))
  unfolding parse_hysteria_link
  parse_hysteria_link-IsUsable body v h = with_host_port-IsUsable _ _ _ _ v h
