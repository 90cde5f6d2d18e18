-- ===== src/Inbounds/FinalMask/Settled.antt =====
-- The masks that the form sends: the normal form in which a mask is stored by the panel.
use rx_ui.Base.{
  ℕ, false, List, ◌≡◌, ◌≢◌, ◌⊎◌, [], ◌∷◌, Option, none, some, All, map, filter_holds, filter-All,
  All-map_of_All, All-map, refl, arith, true, is_empty, not, Bool-cases, inl, inr,
}
use rx_ui.Js.Text.{Text, trim, lower, remove_space}
use rx_ui.Js.Text.Trim.{IsSolid, trim_idem, remove_space-IsSolid, lower_idem}
use rx_ui.Js.Number.{Number, nan, int, pos, negsuc, is_num, num}
use rx_ui.Api.FinalMask.{final_mask_kind, FinalMask, FinalMaskKind, NoiseItem, XmcProfile}
use rx_ui.Inbounds.Form.{FinalMaskFormFields, FragmentPacketsMode, SudokuAscii}
use rx_ui.Inbounds.Ranges.RoundTrip.{AreRanges, parse_ranges-AreRanges}
use rx_ui.Inbounds.Values.Laws.{IsFilledText}
use rx_ui.Inbounds.FinalMask.{
  packets_from, packets_to, ascii_text, packets_mode, clean_table, clean_tables, clean_noise_item,
  is_complete_profile, trim_profile, complete_profiles, build_as, build_final_mask,
}

-- A lower-case table without white space that is not empty.
abbrev pub IsTable : Text → Type 0
IsTable t = IsSolid t × All (λ c. lower c ≡ c) t × (t ≢ [])

-- A literal packet and a random count exclude one another.
abbrev pub IsSettledItem : NoiseItem → Type 0
IsSettledItem it = (trim it.packet_hex ≡ []) ⊎ ((it.rand_min ≡ none) × (it.rand_max ≡ none))

abbrev pub IsSettledProfile : XmcProfile → Type 0
IsSettledProfile p =
    IsFilledText p.username
    × IsFilledText p.uuid
    × IsFilledText p.textures_value
    × IsFilledText p.textures_signature

-- The lower bound is there and not 0, or the upper one is there and neither 0 nor 1.
abbrev pub IsRange : Option Number → Option Number → Type 0
IsRange from to =
    ((x : Number) × ((from ≡ some x) × (x ≢ num 0)))
    ⊎ ((y : Number) × ((to ≡ some y) × ((y ≢ num 0) × (y ≢ num 1))))

-- The pair is one that a mode stands for, or a range.
abbrev pub AreSettledPackets : Option Number → Option Number → Type 0
AreSettledPackets from to =
    ((from ≡ some (num 0)) × ((to ≡ some (num 0)) ⊎ (to ≡ some (num 1)))) ⊎ IsRange from to

abbrev pub IsSettledMask : FinalMask → Type 0
IsSettledMask FinalMask.none = Unit
IsSettledMask (FinalMask.sudoku p) =
    ((a : SudokuAscii) × (p.ascii ≡ ascii_text a))
    × (p.custom_table ≡ [])
    × All IsTable p.custom_tables
IsSettledMask (FinalMask.fragment p) =
    AreSettledPackets p.packets_from p.packets_to
    × AreRanges p.lengths_min p.lengths_max
    × AreRanges p.delays_min p.delays_max
    × (p.max_split_min ≡ none)
    × (p.max_split_max ≡ none)
IsSettledMask (FinalMask.noise p) =
    (p.items ≢ []) × All IsSettledItem p.items × (p.reset_min ≡ none) × (p.reset_max ≡ none)
IsSettledMask (FinalMask.salamander p) = Unit
IsSettledMask (FinalMask.xmc p) = (trim p.hostname ≡ p.hostname) × All IsSettledProfile p.profiles

clean_table-lower : (t : Text) → All (λ c. lower c ≡ c) (clean_table t)
unfolding clean_table remove_space
clean_table-lower t =
    filter-All _ (λ c. lower c ≡ c) (λ c. lower c ≡ c) (λ c h _. h) _
      (All-map (λ c. lower c ≡ c) lower lower_idem (trim t))

clean_table-IsSolid : (t : Text) → IsSolid (clean_table t)
unfolding clean_table
clean_table-IsSolid t = remove_space-IsSolid (map lower (trim t))

-- Whatever tables the form holds, those that it sends are lower-case, without white space, and none is
-- empty.
clean_tables-IsTable : (ts : List Text) → All IsTable (clean_tables ts)
unfolding clean_tables
clean_tables-IsTable ts =
    filter-All (λ t. not (is_empty t)) (λ t. IsSolid t × All (λ c. lower c ≡ c) t) IsTable
      (λ t h k. (h.0, h.1, ground arith)) _
      (All-map _ clean_table (λ t. (clean_table-IsSolid t, clean_table-lower t)) ts)

clean_noise_item-IsSettled : (it : NoiseItem) → IsSettledItem (clean_noise_item it)
unfolding clean_noise_item
clean_noise_item-IsSettled it = elim (Bool-cases (is_empty (trim it.packet_hex))) [
  | inl e ↦ inl (ground arith)
  | inr e ↦ inr (rw e (refl, refl))
]

trim_profile-IsSettled :
    (p : XmcProfile) → is_complete_profile p ≡ true → IsSettledProfile (trim_profile p)
unfolding is_complete_profile
trim_profile-IsSettled p h = (
  (trim_idem p.username, ground arith),
  (trim_idem p.uuid, ground arith),
  (trim_idem p.textures_value, ground arith),
  (trim_idem p.textures_signature, ground arith),
)

complete_profiles-IsSettled : (ps : List XmcProfile) → All IsSettledProfile (complete_profiles ps)
unfolding complete_profiles
complete_profiles-IsSettled ps =
    All-map_of_All IsSettledProfile trim_profile (λ p. is_complete_profile p ≡ true)
      trim_profile-IsSettled _ (filter_holds _ _ (λ p h. h) ps)

is_num_of_ne : (k : ℕ) (x : Number) → x ≢ num k → is_num k x ≡ false
is_num_of_ne k nan h = refl
is_num_of_ne k (int (pos n)) h = ground arith
is_num_of_ne k (int (negsuc n)) h = refl

pub packets_mode_of_IsRange :
    (from to : Option Number) → IsRange from to → packets_mode from to ≡ FragmentPacketsMode.range
unfolding packets_mode
packets_mode_of_IsRange from to (inl (x, (e, n))) = rw e (rw (is_num_of_ne 0 x n) refl)
packets_mode_of_IsRange from to (inr (y, (e, (n, k)))) =
    rw e (ground (arith, is_num_of_ne 0 y n, is_num_of_ne 1 y k))

packets-AreSettled :
    (m : FragmentPacketsMode) (from to : Option Number)
    → (m ≡ FragmentPacketsMode.range → IsRange from to)
    → AreSettledPackets (packets_from m from) (packets_to m to)
packets-AreSettled FragmentPacketsMode.tlshello from to h = inl (refl, inr refl)
packets-AreSettled FragmentPacketsMode.whole from to h = inl (refl, inl refl)
packets-AreSettled FragmentPacketsMode.range from to h = inr (h refl)

-- A form that sends a settled mask: the noise list has a row, and in the mode `range` one of the bounds
-- sets the pair apart from those of the other modes.
abbrev pub IsSavable : FinalMaskFormFields → Type 0
IsSavable v =
    (v.finalmask_noise_items ≢ [])
    × (v.finalmask_fragment_packets_mode ≡ FragmentPacketsMode.range
        → IsRange v.finalmask_fragment_packets_from v.finalmask_fragment_packets_to)

map-ne-nil : (items : List NoiseItem) → items ≢ [] → map clean_noise_item items ≢ []
map-ne-nil [] h = h
map-ne-nil (it ∷ items) h = ground arith

build_as-IsSettled :
    (k : FinalMaskKind) (v : FinalMaskFormFields) → IsSavable v → IsSettledMask (build_as k v)
unfolding build_as
build_as-IsSettled FinalMaskKind.none v h = tt
build_as-IsSettled FinalMaskKind.sudoku v h =
    ((v.finalmask_sudoku_ascii, refl), refl, clean_tables-IsTable v.finalmask_sudoku_custom_tables)
build_as-IsSettled FinalMaskKind.fragment v h = (
  packets-AreSettled v.finalmask_fragment_packets_mode _ _ h.1,
  parse_ranges-AreRanges v.finalmask_fragment_lengths,
  parse_ranges-AreRanges v.finalmask_fragment_delays,
  refl,
  refl,
)
build_as-IsSettled FinalMaskKind.noise v h = (
  map-ne-nil v.finalmask_noise_items h.0,
  All-map IsSettledItem clean_noise_item clean_noise_item-IsSettled v.finalmask_noise_items,
  refl,
  refl,
)
build_as-IsSettled FinalMaskKind.salamander v h = tt
build_as-IsSettled FinalMaskKind.xmc v h =
    (trim_idem v.finalmask_xmc_hostname, complete_profiles-IsSettled v.finalmask_xmc_profiles)

-- Whatever is typed into the mask fields, the mask that is sent is in its normal form, if the noise list
-- has a row and a range of packets has a lower bound other than 0 or an upper one other than 0 and 1: tables
-- are lower-case and free of white space, range lists are parallel, a literal packet goes with no random
-- count, and every profile is complete.
pub build_final_mask-IsSettled :
    (v : FinalMaskFormFields) → IsSavable v → IsSettledMask (build_final_mask v)
unfolding build_final_mask
build_final_mask-IsSettled v h = build_as-IsSettled v.finalmask_kind v h

pub final_mask_kind-build_final_mask :
    (v : FinalMaskFormFields) → final_mask_kind (build_final_mask v) ≡ v.finalmask_kind
unfolding final_mask_kind build_final_mask
final_mask_kind-build_final_mask v = ground arith
