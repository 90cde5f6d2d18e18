-- ===== src/Outbounds/Link/Hysteria/Written.antt =====
-- A Hysteria 2 link that spells given values is read as these values.
use rx_ui.Base.{
  ◌≡◌, ◌≢◌, ◌⊎◌, refl, ap, ◌∙◌, true, inl, inr, List, [], ◌∷◌, Option, none, some, get_or, is_empty,
  arith, if◌then◌else◌,
}
use rx_ui.Js.Text.{Text, codes, text_eq}
use rx_ui.Js.Text.Split.{Lacks}
use rx_ui.Js.Number.{between}
use rx_ui.Outbounds.Link.{
  HysteriaLink, Parsed, hysteria_alpn, hysteria_values, is_insecure, parse_hysteria_link, pin,
  safe_decode,
}
use rx_ui.Outbounds.Link.Query.{SpellsAlpn, SpellsOr, or_text_of_SpellsOr, trimmed_items-join}
use rx_ui.Outbounds.Link.Hysteria.{IsHost, IsPlain, parse_hysteria_link-rendered, rendered}

-- A pinned certificate, or one that is accepted by the name of the server, or neither.
abbrev pub SpellsTrust : (Text → Text) → Text → Option (List Text) → Option (List Text) → Type 0
SpellsTrust ask server (some (x ∷ [])) none = (ask (codes "pinSHA256") ≡ x) × (x ≢ [])
SpellsTrust ask server none (some (n ∷ [])) =
    (n ≡ server)
    × (ask (codes "pinSHA256") ≡ [])
    × (ask (codes "pinsha256") ≡ [])
    × ((ask (codes "insecure") ≡ codes "1") ⊎ (ask (codes "insecure") ≡ codes "true"))
SpellsTrust ask server none none =
    (ask (codes "pinSHA256") ≡ []) × (ask (codes "pinsha256") ≡ []) × (ask (codes "insecure") ≡ [])
SpellsTrust ask server _ _ = ⊥

abbrev pub SpellsObfs : (Text → Text) → Option Text → Type 0
SpellsObfs ask none = ask (codes "obfs") ≡ []
SpellsObfs ask (some password) =
    (ask (codes "obfs") ≡ codes "salamander") × (ask (codes "obfs-password") ≡ password)

-- The query spells the values: a server name that is left out is the host.
pub record SpellsHysteria (ask : Text → Text) (v : HysteriaLink) : Type 0 where
  pub server_name : SpellsOr ask (codes "sni") v.address v.tls_server_name
  pub trust :
      SpellsTrust ask v.tls_server_name v.tls_pinned_peer_cert_sha256 v.tls_verify_peer_cert_by_name
  pub alpn : SpellsAlpn ask v.tls_alpn
  pub obfs : SpellsObfs ask v.finalmask_salamander_password

module _ (decode : Text → Option Text) (search : Text → Text → Option Text) (query : Text) where
  abbrev ask : Text → Text
  ask k = get_or (search query k) []

  -- What is pinned, and what is accepted by the name `server`.
  abbrev pinned : Option (List Text)
  pinned = if is_empty (pin decode search query) then none else some (pin decode search query ∷ [])

  abbrev by_name : Text → Option (List Text)
  by_name server =
      if is_empty (pin decode search query)
      then if is_insecure decode search query then some (server ∷ []) else none
      else none

  trust_of_SpellsTrust :
      (server : Text) (p n : Option (List Text))
      → SpellsTrust ask server p n
      → (pinned ≡ p) × (by_name server ≡ n)
  unfolding text_eq
  trust_of_SpellsTrust server (some (x ∷ [])) none (e, ne) = ground arith
  trust_of_SpellsTrust server none (some (n ∷ [])) (en, e, f, inl i) = rw (e, f, i, en) (refl, refl)
  trust_of_SpellsTrust server none (some (n ∷ [])) (en, e, f, inr i) = rw (e, f, i, en) (refl, refl)
  trust_of_SpellsTrust server none none (e, f, i) = rw (e, f, i) (refl, refl)
  trust_of_SpellsTrust server none (some []) h = absurd h
  trust_of_SpellsTrust server none (some (n ∷ m ∷ ns)) h = absurd h
  trust_of_SpellsTrust server (some []) n h = absurd h
  trust_of_SpellsTrust server (some (x ∷ [])) (some n) h = absurd h
  trust_of_SpellsTrust server (some (x ∷ y ∷ xs)) n h = absurd h

  abbrev obfs_password : Option Text
  obfs_password =
      if text_eq (ask (codes "obfs")) (codes "salamander")
      then some (ask (codes "obfs-password"))
      else none

  obfs_of_SpellsObfs : (o : Option Text) → SpellsObfs ask o → obfs_password ≡ o
  unfolding text_eq
  obfs_of_SpellsObfs none e = rw e refl
  obfs_of_SpellsObfs (some password) (e, f) = rw (e, f) refl

  alpn_of_SpellsAlpn :
      (alpn : List Text) → SpellsAlpn ask alpn → hysteria_alpn decode search query ≡ alpn
  alpn_of_SpellsAlpn alpn (e, (h, k)) = rw e (trimmed_items-join alpn h k)

  hysteria_values_written :
      (v : HysteriaLink)
      → SpellsHysteria ask v
      → hysteria_values decode search query v.tag v.hysteria_auth v.address v.port ≡ v
  unfolding hysteria_values
  hysteria_values_written v h =
      let server =
        or_text_of_SpellsOr ask (codes "sni") v.address v.tls_server_name h.server_name in
      let trust =
        trust_of_SpellsTrust v.tls_server_name v.tls_pinned_peer_cert_sha256
          v.tls_verify_peer_cert_by_name h.trust in
      let named = ap by_name server ∙ trust.1 in
      λ i. record {
        tag = v.tag;
        address = v.address;
        port = v.port;
        hysteria_auth = v.hysteria_auth;
        tls_server_name = server i;
        tls_pinned_peer_cert_sha256 = trust.0 i;
        tls_verify_peer_cert_by_name = named i;
        tls_alpn = alpn_of_SpellsAlpn v.tls_alpn h.alpn i;
        finalmask_salamander_password = obfs_of_SpellsObfs v.finalmask_salamander_password h.obfs i;
      }

module _ (decode : Text → Option Text) (search : Text → Text → Option Text) where
  -- A link `AUTH@HOST:PORT/?QUERY#NAME` that spells the values `v` is read as `v`: AUTH and NAME decode to
  -- the secret and the tag, HOST and PORT are the address and the port, and QUERY holds the rest, where a
  -- server name that is left out is the host. HOST is not empty, begins with no bracket and holds none of
  -- `#?@/`, PORT is from 1 to 65535, AUTH holds neither `#` nor `?`, and QUERY no `#`.
  pub parse_hysteria_link-written :
      (v : HysteriaLink) (auth query name : Text)
      → decode auth ≡ some v.hysteria_auth
      → decode name ≡ some v.tag
      → IsPlain auth
      → IsHost v.address
      → Lacks b'#' query
      → between 0 65536 v.port ≡ true
      → SpellsHysteria (λ k. get_or (search query k) []) v
      → parse_hysteria_link decode search (rendered auth v.address v.port query name) ≡ Parsed.ok v
  unfolding safe_decode
  parse_hysteria_link-written v auth query name ea en ha hh hq hp h =
      parse_hysteria_link-rendered decode search auth v.address query name v.port ha hh hq hp
      ∙ rw (ea, en) (ap Parsed.ok (hysteria_values_written decode search query v h))
