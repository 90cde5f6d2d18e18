-- ===== src/Inbounds/FinalMask/RoundTrip.antt =====
-- A stored mask that is opened in the form and saved again.
use rx_ui.Base.{
  ◌≡◌, ◌≢◌, refl, ap, ◌∙◌, inl, inr, [], ◌∷◌, List, Option, All, map, map_id, All-mono, arith,
  is_empty, if◌then◌else◌,
}
use rx_ui.Js.Text.{Text, lower}
use rx_ui.Js.Text.Trim.{trim_of_IsSolid, trim-nil, remove_space_of_IsSolid}
use rx_ui.Js.Number.{Number}
use rx_ui.Api.FinalMask.{
  FinalMask, FinalMaskKind, SudokuParams, FragmentParams, NoiseItem, NoiseParams, XmcProfile,
  XmcParams,
}
use rx_ui.Inbounds.Form.{FinalMaskFormFields, SudokuAscii}
use rx_ui.Inbounds.Defaults.{blank_noise_item, blank_xmc_profile}
use rx_ui.Inbounds.Ranges.RoundTrip.{parse_ranges-render_ranges}
use rx_ui.Inbounds.FinalMask.{
  or_list, stored_tables, packets_from, packets_to, ascii_text, narrow_ascii, packets_mode,
  clean_table, clean_tables, clean_noise_item, is_complete_profile, complete_profiles,
  hydrate_final_mask, build_final_mask,
}
use rx_ui.Inbounds.FinalMask.Settled.{
  IsTable, IsSettledItem, IsSettledProfile, AreSettledPackets, IsSettledMask, IsSavable,
  build_final_mask-IsSettled, packets_mode_of_IsRange,
}

narrow_ascii-ascii_text : (a : SudokuAscii) → narrow_ascii (ascii_text a) ≡ a
unfolding narrow_ascii
narrow_ascii-ascii_text SudokuAscii.unset = refl
narrow_ascii-ascii_text SudokuAscii.prefer_entropy = refl
narrow_ascii-ascii_text SudokuAscii.prefer_ascii = refl

clean_table_of_IsTable : (t : Text) → IsTable t → clean_table t ≡ t
unfolding clean_table
clean_table_of_IsTable t (solid, low, ne) =
    rw (trim_of_IsSolid t solid, map_id lower t low) (remove_space_of_IsSolid t solid)

clean_tables_of_IsTable : (ts : List Text) → All IsTable ts → clean_tables ts ≡ ts
unfolding clean_tables
clean_tables_of_IsTable [] h = refl
clean_tables_of_IsTable (t ∷ ts) (ht, h) =
    ground (arith, clean_table_of_IsTable t ht, clean_tables_of_IsTable ts h)

clean_noise_item_of_IsSettled : (it : NoiseItem) → IsSettledItem it → clean_noise_item it ≡ it
unfolding clean_noise_item
clean_noise_item_of_IsSettled it h = ground arith

map_of_settled_items :
    (items : List NoiseItem) → All IsSettledItem items → map clean_noise_item items ≡ items
map_of_settled_items items h =
    map_id clean_noise_item items (All-mono IsSettledItem _ clean_noise_item_of_IsSettled items h)

complete_profiles_of_IsSettled :
    (ps : List XmcProfile) → All IsSettledProfile ps → complete_profiles ps ≡ ps
unfolding complete_profiles is_complete_profile
complete_profiles_of_IsSettled [] h = refl
complete_profiles_of_IsSettled (p ∷ ps) (hp, h) =
    ground (arith, complete_profiles_of_IsSettled ps h)

or_nil : (ts : List Text) → or_list ts [] ≡ ts
or_nil [] = refl
or_nil (t ∷ ts) = refl

clean_stored_tables :
    (p : SudokuParams)
    → p.custom_table ≡ []
    → All IsTable p.custom_tables
    → clean_tables (stored_tables p) ≡ p.custom_tables
clean_stored_tables p e h =
    ap (λ t. clean_tables (or_list p.custom_tables (if is_empty t then [] else t ∷ []))) e
    ∙ ap clean_tables (or_nil p.custom_tables)
    ∙ clean_tables_of_IsTable p.custom_tables h

complete_stored_profiles :
    (ps : List XmcProfile)
    → All IsSettledProfile ps
    → complete_profiles (or_list ps (blank_xmc_profile ∷ [])) ≡ ps
complete_stored_profiles [] h = unfold complete_profiles is_complete_profile in rw trim-nil
complete_stored_profiles (p ∷ ps) h = complete_profiles_of_IsSettled (p ∷ ps) h

or_list_of_ne {ℓ} : {A : Type ℓ} (xs d : List A) → xs ≢ [] → or_list xs d ≡ xs
or_list_of_ne [] d h = absurd (h refl)
or_list_of_ne (x ∷ xs) d h = refl

packets-settled :
    (from to : Option Number)
    → AreSettledPackets from to
    → (packets_from (packets_mode from to) from ≡ from)
      × (packets_to (packets_mode from to) to ≡ to)
unfolding packets_mode
packets-settled from to (inl (ef, inl et)) = rw (ef, et) (refl, refl)
packets-settled from to (inl (ef, inr et)) = rw (ef, et) (refl, refl)
packets-settled from to (inr h) = rw (packets_mode_of_IsRange from to h) (refl, refl)

build_hydrate_sudoku :
    (v : FinalMaskFormFields) (p : SudokuParams)
    → IsSettledMask (FinalMask.sudoku p)
    → build_final_mask (hydrate_final_mask v (FinalMask.sudoku p)) ≡ FinalMask.sudoku p
unfolding build_final_mask hydrate_final_mask
build_hydrate_sudoku v p ((a, ea), et, h) =
    ground (arith, clean_stored_tables p et h, narrow_ascii-ascii_text a)

build_hydrate_fragment :
    (v : FinalMaskFormFields) (p : FragmentParams)
    → IsSettledMask (FinalMask.fragment p)
    → build_final_mask (hydrate_final_mask v (FinalMask.fragment p)) ≡ FinalMask.fragment p
unfolding build_final_mask hydrate_final_mask
build_hydrate_fragment v p (hp, hl, hd, e1, e2) = ground (
  arith,
  packets-settled p.packets_from p.packets_to hp,
  parse_ranges-render_ranges p.lengths_min p.lengths_max hl,
  parse_ranges-render_ranges p.delays_min p.delays_max hd,
)

build_hydrate_noise :
    (v : FinalMaskFormFields) (p : NoiseParams)
    → IsSettledMask (FinalMask.noise p)
    → build_final_mask (hydrate_final_mask v (FinalMask.noise p)) ≡ FinalMask.noise p
unfolding build_final_mask hydrate_final_mask
build_hydrate_noise v p (ne, h, e1, e2) =
    let kept : map clean_noise_item (or_list p.items (blank_noise_item ∷ [])) ≡ p.items =
      ap (map clean_noise_item) (or_list_of_ne p.items _ ne) ∙ map_of_settled_items p.items h in
    ground (arith, kept)

build_hydrate_xmc :
    (v : FinalMaskFormFields) (p : XmcParams)
    → IsSettledMask (FinalMask.xmc p)
    → build_final_mask (hydrate_final_mask v (FinalMask.xmc p)) ≡ FinalMask.xmc p
unfolding build_final_mask hydrate_final_mask
build_hydrate_xmc v p (t, h) = ground (arith, complete_stored_profiles p.profiles h)

-- A stored mask in its normal form that is opened in a form whose mask is off, and saved, is sent back
-- unchanged.
pub build_final_mask-hydrate_final_mask :
    (v : FinalMaskFormFields) (fm : FinalMask)
    → v.finalmask_kind ≡ FinalMaskKind.none
    → IsSettledMask fm
    → build_final_mask (hydrate_final_mask v fm) ≡ fm
build_final_mask-hydrate_final_mask v FinalMask.none off h =
    unfold build_final_mask hydrate_final_mask in ground arith
build_final_mask-hydrate_final_mask v (FinalMask.sudoku p) off h = build_hydrate_sudoku v p h
build_final_mask-hydrate_final_mask v (FinalMask.fragment p) off h = build_hydrate_fragment v p h
build_final_mask-hydrate_final_mask v (FinalMask.noise p) off h = build_hydrate_noise v p h
build_final_mask-hydrate_final_mask v (FinalMask.salamander p) off h =
    unfold build_final_mask hydrate_final_mask in refl
build_final_mask-hydrate_final_mask v (FinalMask.xmc p) off h = build_hydrate_xmc v p h

-- A mask that was saved from a form, opened again and saved again is sent unchanged, whatever was typed
-- into the form, if the noise list has a row and, in the mode `range`, the packets have a lower bound other
-- than 0 or an upper bound other than 0 and 1; a blank bound is neither.
pub build_final_mask_stable :
    (v d : FinalMaskFormFields)
    → IsSavable v
    → d.finalmask_kind ≡ FinalMaskKind.none
    → build_final_mask (hydrate_final_mask d (build_final_mask v)) ≡ build_final_mask v
build_final_mask_stable v d h off =
    build_final_mask-hydrate_final_mask d (build_final_mask v) off (build_final_mask-IsSettled v h)
