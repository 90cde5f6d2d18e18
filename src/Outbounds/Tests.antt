-- ===== src/Outbounds/Tests.antt =====
-- A concrete Hysteria 2 link.
use rx_ui.Base.{◌≡◌, refl, inl, inr, [], ◌∷◌, Option, none, some, get_or, arith}
use mathlib.Core.List.{cons-ne-nil}
use rx_ui.Js.Text.{Text, codes, join, text_eq, trim}
use rx_ui.Js.Number.{num}
use rx_ui.Js.Object.{Object, lookup}
use rx_ui.Outbounds.Link.{HysteriaLink, Parsed, parse_hysteria_link}
use rx_ui.Outbounds.Link.Hysteria.{rendered}
use rx_ui.Outbounds.Link.Hysteria.Written.{SpellsHysteria, parse_hysteria_link-written}

-- A decoder that leaves everything alone, and a query of four parameters.
abbrev decode : Text → Option Text
decode s = some s

abbrev params : Object Text
params =
    (codes "insecure", codes "1")
    ∷ (codes "alpn", codes "h3,h2")
    ∷ (codes "obfs", codes "salamander")
    ∷ (codes "obfs-password", codes "salt")
    ∷ []

abbrev search : Text → Text → Option Text
search query k = lookup k params

-- The server name is left out.
abbrev sample : HysteriaLink
sample = record {
  tag = codes "N";
  address = codes "a.b";
  port = num 443;
  hysteria_auth = codes "pw";
  tls_server_name = codes "a.b";
  tls_pinned_peer_cert_sha256 = none;
  tls_verify_peer_cert_by_name = some (codes "a.b" ∷ []);
  tls_alpn = codes "h3" ∷ codes "h2" ∷ [];
  finalmask_salamander_password = some (codes "salt");
}

sample_spelled : SpellsHysteria (λ k. get_or (search (codes "q") k) []) sample
unfolding lookup text_eq join trim
sample_spelled = record {
  server_name = inr (refl, refl);
  trust = (refl, refl, refl, inl refl);
  alpn = (
    refl,
    (((refl, cons-ne-nil _ _), ((refl, cons-ne-nil _ _), tt)), (ground arith, (ground arith, tt))),
  );
  obfs = (refl, refl);
}

parse_hysteria_link-written_example :
    parse_hysteria_link decode search
      (rendered (codes "pw") (codes "a.b") (num 443) (codes "q") (codes "N"))
    ≡ Parsed.ok sample
parse_hysteria_link-written_example =
    parse_hysteria_link-written decode search sample (codes "pw") (codes "q") (codes "N") refl refl
      (ground arith) (cons-ne-nil _ _, refl, ground arith, ground arith, ground arith)
      (ground arith) refl sample_spelled
