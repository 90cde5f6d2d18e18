-- ===== src/Outbounds/Link/Vless/Spelling.antt =====
-- What the query of a VLESS link says where it spells given values, defaults left out or not.
use rx_ui.Base.{◌≡◌, ◌≢◌, ◌⊎◌, [], Option, none, some}
use rx_ui.Js.Text.{Text, codes}
use rx_ui.Js.Text.Split.{Lacks}
use rx_ui.Js.Json.{Fields, Items, Json}
use rx_ui.Outbounds.Link.Query.{SpellsAlpn, SpellsOr}
use rx_ui.Outbounds.Link.Extra.{LinkMask, XhttpExtra}
use rx_ui.Outbounds.Link.Values.{LinkCipher, LinkSecurity, LinkTransport, VlessLink}
use rx_ui.Outbounds.Link.Vless.Cipher.{cipher_text}

-- The object that spells the parameters of XHTTP.
abbrev pub extra_fields : XhttpExtra → Json
extra_fields e = Json.object (
    Fields.field (codes "xPaddingObfsMode") (Json.bool e.xhttp_x_padding_obfs_mode) (
      Fields.field (codes "xPaddingKey") (Json.text e.xhttp_x_padding_key) (
        Fields.field (codes "xPaddingHeader") (Json.text e.xhttp_x_padding_header) (
          Fields.field (codes "xPaddingPlacement") (Json.text e.xhttp_x_padding_placement) (
            Fields.field (codes "xPaddingMethod") (Json.text e.xhttp_x_padding_method) (
              Fields.field (codes "sessionIDPlacement") (Json.text e.xhttp_session_placement) (
                Fields.field (codes "sessionIDKey") (Json.text e.xhttp_session_key) (
                  Fields.field (codes "sessionIDTable") (Json.text e.xhttp_session_id_table) (
                    Fields.field (codes "sessionIDLength") (Json.text e.xhttp_session_id_length) (
                      Fields.field (codes "seqPlacement") (Json.text e.xhttp_seq_placement) (
                        Fields.field (codes "seqKey") (Json.text e.xhttp_seq_key) (
                          Fields.field (codes "uplinkDataPlacement")
                            (Json.text e.xhttp_uplink_data_placement)
                            (Fields.field (codes "uplinkDataKey")
                              (Json.text e.xhttp_uplink_data_key) Fields.end)))))))))))))

-- A mask that has a password alone, in the list `list`.
abbrev pub password_mask : (list type password : Text) → Json
password_mask list type password = Json.object (
    Fields.field list
      (Json.array (
        Items.cons
          (Json.object (
            Fields.field (codes "type") (Json.text type) (
              Fields.field (codes "settings")
                (Json.object (Fields.field (codes "password") (Json.text password) Fields.end))
                Fields.end)))
          Items.nil))
      Fields.end)

module _ (json : Text → Option Json) (ask : Text → Text) where
  abbrev pub SpellsCipher : Option LinkCipher → Type 0
  SpellsCipher none = ask (codes "encryption") ≡ codes "none"
  SpellsCipher (some c) =
      (ask (codes "encryption") ≡ cipher_text c.xor_mode c.padding c.client_key)
      × (c.xor_mode ≢ [])
      × Lacks b'.' c.xor_mode
      × Lacks b'.' c.client_key

  abbrev pub SpellsSecurity : LinkSecurity → Type 0
  SpellsSecurity LinkSecurity.none = ask (codes "security") ≡ codes "none"
  SpellsSecurity (LinkSecurity.tls s) =
      (ask (codes "security") ≡ codes "tls")
      × (ask (codes "sni") ≡ s.server_name)
      × SpellsAlpn ask s.alpn
      × SpellsOr ask (codes "fp") (codes "chrome") s.fingerprint
  SpellsSecurity (LinkSecurity.reality r) =
      (ask (codes "security") ≡ codes "reality")
      × (ask (codes "sni") ≡ r.server_name)
      × (ask (codes "pbk") ≡ r.public_key)
      × (ask (codes "sid") ≡ r.short_id)
      × SpellsOr ask (codes "fp") (codes "chrome") r.fingerprint
      × SpellsOr ask (codes "spx") (codes "/") r.spider_x

  abbrev pub SpellsExtra : Option XhttpExtra → Type 0
  SpellsExtra none = ask (codes "extra") ≡ []
  SpellsExtra (some e) =
      (ask (codes "extra") ≢ []) × (json (ask (codes "extra")) ≡ some (extra_fields e))

  abbrev pub SpellsTransport : LinkTransport → Type 0
  SpellsTransport LinkTransport.tcp = SpellsOr ask (codes "type") (codes "tcp") (codes "tcp")
  SpellsTransport (LinkTransport.ws path host) =
      (ask (codes "type") ≡ codes "ws")
      × SpellsOr ask (codes "path") (codes "/") path
      × (ask (codes "host") ≡ host)
  SpellsTransport (LinkTransport.xhttp path host mode extra) =
      ((ask (codes "type") ≡ codes "xhttp") ⊎ (ask (codes "type") ≡ codes "splithttp"))
      × SpellsOr ask (codes "path") (codes "/") path
      × (ask (codes "host") ≡ host)
      × SpellsOr ask (codes "mode") (codes "auto") mode
      × SpellsExtra extra

  -- No mask, or one that has a password alone.
  abbrev pub SpellsMask : Option LinkMask → Type 0
  SpellsMask none = ask (codes "fm") ≡ []
  SpellsMask (some (LinkMask.salamander password)) =
      (ask (codes "fm") ≢ [])
      × (json (ask (codes "fm")) ≡ some (password_mask (codes "udp") (codes "salamander") password))
  SpellsMask (some (LinkMask.sudoku password)) =
      (ask (codes "fm") ≢ [])
      × (json (ask (codes "fm")) ≡ some (password_mask (codes "tcp") (codes "sudoku") password))
  SpellsMask (some _) = ⊥

  abbrev pub SpellsReverse : Option Text → Type 0
  SpellsReverse none = ask (codes "reverse") ≡ []
  SpellsReverse (some tag) = (ask (codes "reverse") ≡ tag) × (tag ≢ [])

  -- The query spells the values.
  pub record SpellsVless (v : VlessLink) : Type 0 where
    pub flow : (ask (codes "flow") ≡ v.flow) × ((v.flow ≡ []) ⊎ (v.flow ≡ codes "xtls-rprx-vision"))
    pub cipher : SpellsCipher v.cipher
    pub security : SpellsSecurity v.security
    pub transport : SpellsTransport v.transport
    pub mask : SpellsMask v.mask
    pub reverse_tag : SpellsReverse v.reverse_tag
