-- ===== src/Outbounds/Link/Extra.antt =====
-- The JSON parameters of a VLESS link: `applyXhttpExtra` and `applyFinalMask` of
-- frontend/src/pages/Outbounds/parseLink.ts. `JSON.parse` is a parameter that answers nothing where it
-- throws.
use rx_ui.Base.{Bool, false, not, ◌&&◌, List, [], ◌∷◌, Option, none, some, is_empty, if◌then◌else◌}
use rx_ui.Js.Text.{Text, codes, join, text_eq}
use rx_ui.Js.Number.{Number, nan, int}
use rx_ui.Js.Json.{
  Items, Json, array_field, element_texts, field_of, is_truthy, map_items, text_field,
}
use rx_ui.Api.FinalMask.{NoiseItem, XmcProfile}
use rx_ui.Inbounds.Form.{FragmentPacketsMode}
use rx_ui.Inbounds.Defaults.{blank_noise_item, blank_xmc_profile}
use rx_ui.Inbounds.Ranges.{dash_numbers, rest_of}
use rx_ui.Outbounds.Link.{Parsed}

pub record XhttpExtra : Type 0 where
  pub xhttp_x_padding_obfs_mode : Bool
  pub xhttp_x_padding_key : Text
  pub xhttp_x_padding_header : Text
  pub xhttp_x_padding_placement : Text
  pub xhttp_x_padding_method : Text
  pub xhttp_session_placement : Text
  pub xhttp_session_key : Text
  pub xhttp_session_id_table : Text
  pub xhttp_session_id_length : Text
  pub xhttp_seq_placement : Text
  pub xhttp_seq_key : Text
  pub xhttp_uplink_data_placement : Text
  pub xhttp_uplink_data_key : Text

-- `x === true`
abbrev pub is_true : Option Json → Bool
is_true (some (Json.bool b)) = b
is_true _ = false

unfoldable pub extra_of : Json → XhttpExtra
extra_of ex = record {
  xhttp_x_padding_obfs_mode = is_true (field_of (codes "xPaddingObfsMode") ex);
  xhttp_x_padding_key = text_field (codes "xPaddingKey") ex;
  xhttp_x_padding_header = text_field (codes "xPaddingHeader") ex;
  xhttp_x_padding_placement = text_field (codes "xPaddingPlacement") ex;
  xhttp_x_padding_method = text_field (codes "xPaddingMethod") ex;
  xhttp_session_placement = text_field (codes "sessionIDPlacement") ex;
  xhttp_session_key = text_field (codes "sessionIDKey") ex;
  xhttp_session_id_table = text_field (codes "sessionIDTable") ex;
  xhttp_session_id_length = text_field (codes "sessionIDLength") ex;
  xhttp_seq_placement = text_field (codes "seqPlacement") ex;
  xhttp_seq_key = text_field (codes "seqKey") ex;
  xhttp_uplink_data_placement = text_field (codes "uplinkDataPlacement") ex;
  xhttp_uplink_data_key = text_field (codes "uplinkDataKey") ex;
}

-- Text that is no JSON leaves the defaults; a read of null throws.
abbrev pub read_extra : Option Json → Parsed (Option XhttpExtra)
read_extra none = Parsed.ok none
read_extra (some Json.null) = Parsed.crashed
read_extra (some ex) = Parsed.ok (some (extra_of ex))

unfoldable pub apply_xhttp_extra : (Text → Option Json) → Text → Parsed (Option XhttpExtra)
apply_xhttp_extra json raw = if is_empty raw then Parsed.ok none else read_extra (json raw)

pub record LinkFragment : Type 0 where
  pub packets_mode : FragmentPacketsMode
  pub packets_from : Option Number
  pub packets_to : Option Number
  pub lengths : Text
  pub delays : Text

-- The mask fields that a link sets; `finalmask_kind` is the constructor.
pub data LinkMask : Type 0 where
  fragment : LinkFragment → LinkMask
  sudoku : Text → LinkMask
  noise : List NoiseItem → LinkMask
  salamander : Text → LinkMask
  xmc : (hostname password : Text) → List XmcProfile → LinkMask

-- `Number.isFinite(x) ? x : undefined`, of the first number.
abbrev pub finite_first : List Number → Option Number
finite_first [] = none
finite_first (nan ∷ _) = none
finite_first (int z ∷ _) = some (int z)

abbrev pub fragment_of : Json → LinkFragment
fragment_of st =
    let packets = text_field (codes "packets") st in
    let ns = dash_numbers packets in
    let is_hello = text_eq packets (codes "tlshello") in
    let is_range = not is_hello && not (is_empty packets) in
    record {
      packets_mode =
          if is_hello
          then FragmentPacketsMode.tlshello
          else if is_empty packets
          then FragmentPacketsMode.whole
          else FragmentPacketsMode.range;
      packets_from = if is_range then finite_first ns else none;
      packets_to = if is_range then finite_first (rest_of ns) else none;
      lengths = join (codes ", ") (element_texts (array_field (codes "lengths") st));
      delays = join (codes ", ") (element_texts (array_field (codes "delays") st));
    }

abbrev pub or_least : Option Number → Option Number → Option Number
or_least none least = least
or_least (some x) least = some x

-- `parseRange`
unfoldable pub parse_range : Option Json → Option Number × Option Number
parse_range (some (Json.text s)) =
    let least = finite_first (dash_numbers s) in
    (least, or_least (finite_first (rest_of (dash_numbers s))) least)
parse_range _ = (none, none)

-- A literal packet wins over a random count.
unfoldable pub noise_item_of : Json → NoiseItem
noise_item_of ni =
    let packet = text_field (codes "packet") ni in
    let rand = parse_range (field_of (codes "rand") ni) in
    let delay = parse_range (field_of (codes "delay") ni) in
    record {
      packet_hex = packet;
      rand_min = if is_empty packet then rand.0 else none;
      rand_max = if is_empty packet then rand.1 else none;
      delay_min = delay.0;
      delay_max = delay.1;
    }

abbrev pub profile_of : Json → XmcProfile
profile_of pr = record {
  username = text_field (codes "username") pr;
  uuid = text_field (codes "uuid") pr;
  textures_value = text_field (codes "texturesValue") pr;
  textures_signature = text_field (codes "texturesSignature") pr;
}

-- `xs.length ? xs : [blank]`
abbrev pub or_one {ℓ} : {A : Type ℓ} → List A → A → List A
or_one [] x = x ∷ []
or_one (y ∷ ys) x = y ∷ ys

unfoldable pub mask_of_type : Text → Json → Option LinkMask
mask_of_type type st =
    if text_eq type (codes "fragment")
    then some (LinkMask.fragment (fragment_of st))
    else if text_eq type (codes "sudoku")
    then some (LinkMask.sudoku (text_field (codes "password") st))
    else if text_eq type (codes "noise")
    then some (
        LinkMask.noise
          (or_one (map_items noise_item_of (array_field (codes "noise") st)) blank_noise_item))
    else if text_eq type (codes "salamander")
    then some (LinkMask.salamander (text_field (codes "password") st))
    else if text_eq type (codes "xmc")
    then some (
        LinkMask.xmc (text_field (codes "hostname") st) (text_field (codes "password") st)
          (or_one (map_items profile_of (array_field (codes "profiles") st)) blank_xmc_profile))
    else none

-- `if (!item?.type || !item.settings) return`; a type that is no string is none of the five.
unfoldable pub mask_of_item : Option Json → Option Json → Option LinkMask
mask_of_item (some (Json.text type)) (some st) =
    if not (is_empty type) && is_truthy (some st) then mask_of_type type st else none
mask_of_item _ _ = none

-- The letters of a string, when it is spread.
abbrev letters : Text → Items
letters [] = Items.nil
letters (c ∷ s) = Items.cons (Json.text (c ∷ [])) (letters s)

-- `...(x ?? [])`: what is not iterable throws.
unfoldable pub spread : Option Json → Parsed Items
spread none = Parsed.ok Items.nil
spread (some Json.null) = Parsed.ok Items.nil
spread (some (Json.array xs)) = Parsed.ok xs
spread (some (Json.text s)) = Parsed.ok (letters s)
spread (some (Json.bool b)) = Parsed.crashed
spread (some (Json.number x)) = Parsed.crashed
spread (some (Json.object fs)) = Parsed.crashed

abbrev pub mask_of_first : Items → Option LinkMask
mask_of_first Items.nil = none
mask_of_first (Items.cons item xs) =
    mask_of_item (field_of (codes "type") item) (field_of (codes "settings") item)

-- The first item of the two lists.
abbrev pub mask_of_lists : Parsed Items → Parsed Items → Parsed (Option LinkMask)
mask_of_lists (Parsed.ok Items.nil) (Parsed.ok ys) = Parsed.ok (mask_of_first ys)
mask_of_lists (Parsed.ok (Items.cons x xs)) (Parsed.ok ys) =
    Parsed.ok (mask_of_first (Items.cons x xs))
mask_of_lists _ _ = Parsed.crashed

abbrev pub read_mask : Option Json → Parsed (Option LinkMask)
read_mask none = Parsed.ok none
read_mask (some Json.null) = Parsed.crashed
read_mask (some fm) =
    mask_of_lists (spread (field_of (codes "tcp") fm)) (spread (field_of (codes "udp") fm))

unfoldable pub apply_final_mask : (Text → Option Json) → Text → Parsed (Option LinkMask)
apply_final_mask json raw = if is_empty raw then Parsed.ok none else read_mask (json raw)
