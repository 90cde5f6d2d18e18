-- ===== src/Outbounds/LinkTests.antt =====
-- Concrete VLESS links, and a Hysteria 2 link that is pasted into the form.
use rx_ui.Base.{◌≡◌, refl, true, Option, none, some, arith}
use mathlib.Core.List.{cons-ne-nil}
use rx_ui.Js.Text.{Text, codes, trim}
use rx_ui.Js.Number.{between, num, parse_int}
use rx_ui.Js.Json.{Json}
use rx_ui.Api.Outbound.{OutboundProtocolConfig}
use rx_ui.Outbounds.Form.Defaults.{outbound_defaults}
use rx_ui.Outbounds.Form.Adapters.{form_to_outbound}
use rx_ui.Outbounds.Form.Adapters.RoundTrip.{IsSettledOutbound}
use rx_ui.Outbounds.Link.{HysteriaLink, Parsed, hysteria_values, parse_hysteria_link, safe_decode}
use rx_ui.Outbounds.Link.Hysteria.{parse_hysteria_link-rendered}
use rx_ui.Outbounds.Link.Vless.{link_cipher, parse_outbound_link}
use rx_ui.Outbounds.Link.Vless.Cipher.{cipher_text, link_cipher-cipher_text}
use rx_ui.Outbounds.Link.Vless.Laws.{IsUsableLink, Returns, parse_outbound_link-IsUsable}
use rx_ui.Outbounds.Paste.{paste_hysteria, paste_hysteria-IsSettledOutbound}
use rx_ui.Outbounds.Link.Hysteria
use rx_ui.Js.Object.{Object, lookup}
use rx_ui.Outbounds.Link.Extra.{LinkMask}
use rx_ui.Outbounds.Link.Values.{LinkSecurity, LinkTransport, VlessLink}
use rx_ui.Outbounds.Link.Vless.Spelling.{password_mask}
use rx_ui.Base.{[], ◌∷◌}

-- A decoder that leaves everything alone, a query that asks for TLS, and no JSON.
abbrev decode : Text → Option Text
decode s = some s

abbrev search : Text → Text → Option Text
search query k = some (codes "tls")

abbrev json : Text → Option Json
json s = none

abbrev link : Text
link = codes " vless://u@a.b:443?q#N "

parse_outbound_link-IsUsable_example :
    Returns IsUsableLink (parse_outbound_link decode search json link)
parse_outbound_link-IsUsable_example = parse_outbound_link-IsUsable decode search json link

link_cipher-cipher_text_example :
    link_cipher (cipher_text (codes "native") (codes "100-1.75-0") (codes "KEY"))
    ≡ some (record {
      xor_mode = codes "native";
      client_key = codes "KEY";
      padding = codes "100-1.75-0";
    })
link_cipher-cipher_text_example =
    link_cipher-cipher_text (codes "native") (codes "100-1.75-0") (codes "KEY") (cons-ne-nil _ _)
      (ground arith) (ground arith)

abbrev hysteria_body : Text
hysteria_body = Hysteria.rendered (codes "pw") (codes "a.b") (num 443) (codes "q") (codes "N")

abbrev hysteria_sample : HysteriaLink
hysteria_sample =
    hysteria_values decode search (codes "q") (codes "N") (codes "pw") (codes "a.b") (num 443)

hysteria_body_parsed : parse_hysteria_link decode search hysteria_body ≡ Parsed.ok hysteria_sample
unfolding safe_decode
hysteria_body_parsed =
    parse_hysteria_link-rendered decode search (codes "pw") (codes "a.b") (codes "q") (codes "N")
      (num 443) (ground arith) (cons-ne-nil _ _, refl, ground arith, ground arith, ground arith)
      (ground arith) refl

paste_hysteria-IsSettledOutbound_example :
    IsSettledOutbound (
      form_to_outbound parse_int
        (codes "id")
        (codes "now")
        (paste_hysteria outbound_defaults hysteria_sample)
        none)
    × ((form_to_outbound parse_int
          (codes "id")
          (codes "now")
          (paste_hysteria outbound_defaults hysteria_sample)
          none).protocol
        ≡ OutboundProtocolConfig.hysteria
            (record { address = trim hysteria_sample.address; port = hysteria_sample.port }))
    × (between 0 65536 hysteria_sample.port ≡ true)
paste_hysteria-IsSettledOutbound_example =
    paste_hysteria-IsSettledOutbound decode search parse_int (codes "id") (codes "now")
      hysteria_body outbound_defaults hysteria_sample hysteria_body_parsed

-- A portal's link: the fingerprint, the path and the mode are left out.
abbrev params : Object Text
params =
    (codes "flow", codes "xtls-rprx-vision")
    ∷ (codes "encryption", cipher_text (codes "native") (codes "100-1.75-0") (codes "KEY"))
    ∷ (codes "security", codes "reality")
    ∷ (codes "sni", codes "s")
    ∷ (codes "pbk", codes "pub")
    ∷ (codes "sid", codes "01")
    ∷ (codes "type", codes "splithttp")
    ∷ (codes "host", codes "h")
    ∷ (codes "fm", codes "M")
    ∷ (codes "reverse", codes "back")
    ∷ []

abbrev read_params : Text → Text → Option Text
read_params query k = lookup k params

abbrev read_mask_text : Text → Option Json
read_mask_text s = some (password_mask (codes "udp") (codes "salamander") (codes "salt"))

abbrev portal : VlessLink
portal = record {
  tag = codes "N";
  address = codes "a.b";
  port = num 443;
  uuid = codes "u";
  flow = codes "xtls-rprx-vision";
  cipher = some (record {
    xor_mode = codes "native";
    client_key = codes "KEY";
    padding = codes "100-1.75-0";
  });
  security = LinkSecurity.reality (record {
    server_name = codes "s";
    public_key = codes "pub";
    short_id = codes "01";
    fingerprint = codes "chrome";
    spider_x = codes "/";
  });
  transport = LinkTransport.xhttp (codes "/") (codes "h") (codes "auto") none;
  mask = some (LinkMask.salamander (codes "salt"));
  reverse_tag = some (codes "back");
}
