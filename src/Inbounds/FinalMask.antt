-- ===== src/Inbounds/FinalMask.antt =====
-- `hydrateFinalMask` and `buildFinalMask` of frontend/src/pages/Inbounds/form/adapters.ts: the mask
-- fields of the form from a stored mask, and the mask that the form sends.
pub mod Settled
pub mod RoundTrip
use rx_ui.Base.{
  Bool, true, false, ◌&&◌, List, [], ◌∷◌, Option, none, some, get_or, map, filter, not, is_empty,
  if◌then◌else◌,
}
use rx_ui.Js.Text.{Text, codes, text_eq, trim, lower, remove_space}
use rx_ui.Js.Number.{Number, num, is_num}
use rx_ui.Api.FinalMask.{
  FinalMask, FinalMaskKind, SudokuParams, FragmentParams, NoiseItem, NoiseParams, XmcProfile,
  XmcParams,
}
use rx_ui.Inbounds.Form.{FinalMaskFormFields, FragmentPacketsMode, SudokuAscii}
use rx_ui.Inbounds.Defaults.{blank_noise_item, blank_xmc_profile}
use rx_ui.Inbounds.Ranges.{parse_ranges, render_ranges}

-- The string that a `SudokuAscii` is, and the option that a stored string stands for.
abbrev pub ascii_text : SudokuAscii → Text
ascii_text SudokuAscii.unset = []
ascii_text SudokuAscii.prefer_entropy = codes "prefer_entropy"
ascii_text SudokuAscii.prefer_ascii = codes "prefer_ascii"

pub narrow_ascii : Text → SudokuAscii
unfolding text_eq
narrow_ascii s =
    if text_eq s (codes "prefer_entropy")
    then SudokuAscii.prefer_entropy
    else if text_eq s (codes "prefer_ascii")
    then SudokuAscii.prefer_ascii
    else SudokuAscii.unset

-- `xs.length ? … : d`
abbrev or_list {ℓ} : {A : Type ℓ} → List A → List A → List A
or_list [] d = d
or_list (x ∷ xs) d = x ∷ xs

-- The list of tables, with a scalar table in its place where the list is empty.
abbrev stored_tables : SudokuParams → List Text
stored_tables p =
    or_list p.custom_tables (if is_empty p.custom_table then [] else p.custom_table ∷ [])

-- The mode that a stored pair stands for: (0, 1) is the ClientHello, (0, 0) the whole stream.
unfoldable pub packets_mode : Option Number → Option Number → FragmentPacketsMode
packets_mode from to =
    let pf = get_or from (num 0) in
    let pt = get_or to (num 0) in
    if is_num 0 pf && is_num 1 pt
    then FragmentPacketsMode.tlshello
    else if is_num 0 pf && is_num 0 pt
    then FragmentPacketsMode.whole
    else FragmentPacketsMode.range

unfoldable pub hydrate_final_mask : FinalMaskFormFields → FinalMask → FinalMaskFormFields
hydrate_final_mask target FinalMask.none = target
hydrate_final_mask target (FinalMask.sudoku p) = record target {
  finalmask_kind = FinalMaskKind.sudoku;
  finalmask_sudoku_password = p.password;
  finalmask_sudoku_ascii = narrow_ascii p.ascii;
  finalmask_sudoku_custom_tables = stored_tables p;
  finalmask_sudoku_padding_min = p.padding_min;
  finalmask_sudoku_padding_max = p.padding_max;
}
hydrate_final_mask target (FinalMask.fragment p) = record target {
  finalmask_kind = FinalMaskKind.fragment;
  finalmask_fragment_packets_mode = packets_mode p.packets_from p.packets_to;
  finalmask_fragment_packets_from = p.packets_from;
  finalmask_fragment_packets_to = p.packets_to;
  finalmask_fragment_lengths = render_ranges p.lengths_min p.lengths_max;
  finalmask_fragment_delays = render_ranges p.delays_min p.delays_max;
}
hydrate_final_mask target (FinalMask.noise p) = record target {
  finalmask_kind = FinalMaskKind.noise;
  finalmask_noise_items = or_list p.items (blank_noise_item ∷ []);
}
hydrate_final_mask target (FinalMask.salamander p) = record target {
  finalmask_kind = FinalMaskKind.salamander;
  finalmask_salamander_password = p.password;
}
hydrate_final_mask target (FinalMask.xmc p) = record target {
  finalmask_kind = FinalMaskKind.xmc;
  finalmask_xmc_hostname = p.hostname;
  finalmask_xmc_password = p.password;
  finalmask_xmc_profiles = or_list p.profiles (blank_xmc_profile ∷ []);
}

-- A table as it is sent: `t.trim().toLowerCase().replace(/\s+/g, '')`.
pub clean_table : Text → Text
clean_table t = remove_space (map lower (trim t))

pub clean_tables : List Text → List Text
clean_tables ts = filter (λ t. not (is_empty t)) (map clean_table ts)

-- The pair that a mode stands for; a range is the pair that was entered.
abbrev pub packets_from : FragmentPacketsMode → Option Number → Option Number
packets_from FragmentPacketsMode.tlshello from = some (num 0)
packets_from FragmentPacketsMode.whole from = some (num 0)
packets_from FragmentPacketsMode.range from = from

abbrev pub packets_to : FragmentPacketsMode → Option Number → Option Number
packets_to FragmentPacketsMode.tlshello to = some (num 1)
packets_to FragmentPacketsMode.whole to = some (num 0)
packets_to FragmentPacketsMode.range to = to

-- A row as it is sent: a literal packet drops the random count.
pub clean_noise_item : NoiseItem → NoiseItem
clean_noise_item it =
    let has_literal = not (is_empty (trim it.packet_hex)) in
    record {
      packet_hex = it.packet_hex;
      rand_min = if has_literal then none else it.rand_min;
      rand_max = if has_literal then none else it.rand_max;
      delay_min = it.delay_min;
      delay_max = it.delay_max;
    }

pub is_complete_profile : XmcProfile → Bool
is_complete_profile p =
    not (is_empty (trim p.username))
    && not (is_empty (trim p.uuid))
    && not (is_empty (trim p.textures_value))
    && not (is_empty (trim p.textures_signature))

abbrev pub trim_profile : XmcProfile → XmcProfile
trim_profile p = record {
  username = trim p.username;
  uuid = trim p.uuid;
  textures_value = trim p.textures_value;
  textures_signature = trim p.textures_signature;
}

pub complete_profiles : List XmcProfile → List XmcProfile
complete_profiles ps = map trim_profile (filter is_complete_profile ps)

build_as : FinalMaskKind → FinalMaskFormFields → FinalMask
build_as FinalMaskKind.none v = FinalMask.none
build_as FinalMaskKind.sudoku v = FinalMask.sudoku (record {
  password = v.finalmask_sudoku_password;
  ascii = ascii_text v.finalmask_sudoku_ascii;
  custom_table = [];
  padding_min = v.finalmask_sudoku_padding_min;
  padding_max = v.finalmask_sudoku_padding_max;
  custom_tables = clean_tables v.finalmask_sudoku_custom_tables;
})
build_as FinalMaskKind.fragment v = FinalMask.fragment (record {
  packets_from = packets_from v.finalmask_fragment_packets_mode v.finalmask_fragment_packets_from;
  packets_to = packets_to v.finalmask_fragment_packets_mode v.finalmask_fragment_packets_to;
  lengths_min = (parse_ranges v.finalmask_fragment_lengths).0;
  lengths_max = (parse_ranges v.finalmask_fragment_lengths).1;
  delays_min = (parse_ranges v.finalmask_fragment_delays).0;
  delays_max = (parse_ranges v.finalmask_fragment_delays).1;
  max_split_min = none;
  max_split_max = none;
})
build_as FinalMaskKind.noise v = FinalMask.noise (record {
  items = map clean_noise_item v.finalmask_noise_items;
  reset_min = none;
  reset_max = none;
})
build_as FinalMaskKind.salamander v =
    FinalMask.salamander (record { password = v.finalmask_salamander_password })
build_as FinalMaskKind.xmc v = FinalMask.xmc (record {
  hostname = trim v.finalmask_xmc_hostname;
  password = v.finalmask_xmc_password;
  profiles = complete_profiles v.finalmask_xmc_profiles;
})

unfoldable pub build_final_mask : FinalMaskFormFields → FinalMask
unfolding build_as
build_final_mask v = build_as v.finalmask_kind v
