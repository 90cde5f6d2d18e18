-- ===== src/Api/MaskSupport.antt =====
-- frontend/src/api/finalmaskSupport.ts: which masks a transport and a security run, as the backend's
-- matrix says, and the effect that drops a mask that they do not run.
pub mod Laws
use rx_ui.Base.{
  Bool, true, false, ◌&&◌, ◌||◌, any, is_empty, not, List, [], ◌∷◌, Option, none, some,
  if◌then◌else◌,
}
use rx_ui.Js.Text.{Text}
use rx_ui.Js.Object.{Object, lookup}
use rx_ui.Api.FinalMask.{FinalMaskKind}

-- `transport -> security -> kinds`, as the endpoint returns it.
abbrev pub FinalMaskSupport : Type 0
FinalMaskSupport = Object (Object (List FinalMaskKind))

-- `Object.keys(FINALMASK_LABEL_KEYS)`
abbrev pub final_mask_kinds : List FinalMaskKind
final_mask_kinds =
    FinalMaskKind.none ∷ FinalMaskKind.sudoku ∷ FinalMaskKind.fragment ∷ FinalMaskKind.noise
    ∷ FinalMaskKind.salamander ∷ FinalMaskKind.xmc ∷ []

abbrev pub is_kind : FinalMaskKind → FinalMaskKind → Bool
is_kind FinalMaskKind.none FinalMaskKind.none = true
is_kind FinalMaskKind.sudoku FinalMaskKind.sudoku = true
is_kind FinalMaskKind.fragment FinalMaskKind.fragment = true
is_kind FinalMaskKind.noise FinalMaskKind.noise = true
is_kind FinalMaskKind.salamander FinalMaskKind.salamander = true
is_kind FinalMaskKind.xmc FinalMaskKind.xmc = true
is_kind _ _ = false

-- `data?.[transport]?.[security]`, where all three are there.
unfoldable pub supported_kinds :
    Option FinalMaskSupport → Option Text → Option Text → Option (List FinalMaskKind)
supported_kinds (some matrix) (some t) (some s) = elim (lookup t matrix) [
  | none ↦ none
  | some row ↦ lookup s row
]
supported_kinds _ _ _ = none

-- `!s`
abbrev pub is_missing : Option Text → Bool
is_missing none = true
is_missing (some s) = is_empty s

abbrev pub is_some {ℓ} : {A : Type ℓ} → Option A → Bool
is_some none = false
is_some (some a) = true

abbrev pub or_all_kinds : Option (List FinalMaskKind) → List FinalMaskKind
or_all_kinds none = final_mask_kinds
or_all_kinds (some kinds) = FinalMaskKind.none ∷ kinds

-- `useAllowedFinalMasks`: the kinds on offer, and whether the matrix has answered.
unfoldable pub allowed_final_masks :
    Option FinalMaskSupport → Option Text → Option Text → List FinalMaskKind
allowed_final_masks matrix t s =
    or_all_kinds (if is_missing t || is_missing s then none else supported_kinds matrix t s)

unfoldable pub is_resolved : Option FinalMaskSupport → Option Text → Option Text → Bool
is_resolved matrix t s = is_some (supported_kinds matrix t s)

-- The mask of the form after the effect, and the mask that the warning names.
pub record GuardedMask : Type 0 where
  pub kind : Option FinalMaskKind
  pub dropped : Option FinalMaskKind

-- The effect of `useFinalMaskGuard`.
unfoldable pub final_mask_guard :
    Option FinalMaskSupport → Option Text → Option Text → Option FinalMaskKind → GuardedMask
final_mask_guard matrix t s none = record { kind = none; dropped = none }
final_mask_guard matrix t s (some k) =
    if is_missing t || is_missing s || not (is_resolved matrix t s)
    then record { kind = some k; dropped = none }
    else if any (is_kind k) (allowed_final_masks matrix t s)
    then record { kind = some k; dropped = none }
    else record { kind = some FinalMaskKind.none; dropped = some k }
