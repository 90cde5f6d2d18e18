-- ===== src/Api/MaskSupport/Laws.antt =====
-- What the mask effect drops, and what it leaves alone.
use rx_ui.Base.{get_or, ◌≡◌, ◌≢◌, ◌↔◌, ◌⊎◌, true, any, List, [], Option, none, some, arith}
use rx_ui.Js.Text.{Text}
use rx_ui.Api.FinalMask.{FinalMaskKind}
use rx_ui.Api.MaskSupport.{
  FinalMaskSupport, allowed_final_masks, final_mask_guard, is_kind, is_resolved, supported_kinds,
}

-- The matrix says nothing of the pair, or it lists the mask, or there is no mask.
abbrev pub IsRunnable : Option (List FinalMaskKind) → FinalMaskKind → Type 0
IsRunnable none k = Unit
IsRunnable (some kinds) k = (k ≡ FinalMaskKind.none) ⊎ (any (is_kind k) kinds ≡ true)

-- A mask stays exactly where the matrix says nothing or allows it: the effect drops what the transport
-- cannot run, and nothing else.
pub final_mask_guard_keeps_iff :
    (matrix : Option FinalMaskSupport) (t s : Text) (k : FinalMaskKind)
    → t ≢ []
    → s ≢ []
    → ((final_mask_guard matrix (some t) (some s) (some k)).kind ≡ some k)
      ↔ IsRunnable (supported_kinds matrix (some t) (some s)) k
unfolding final_mask_guard is_resolved allowed_final_masks
final_mask_guard_keeps_iff matrix t s k ht hs = ground arith

-- Running the effect again on what it left drops nothing more and warns of nothing.
pub final_mask_guard_idem :
    (matrix : Option FinalMaskSupport) (t s : Option Text) (k : Option FinalMaskKind)
    → final_mask_guard matrix t s (final_mask_guard matrix t s k).kind
      ≡ record { kind = (final_mask_guard matrix t s k).kind; dropped = none }
unfolding final_mask_guard is_resolved allowed_final_masks
final_mask_guard_idem matrix t s k = ground arith

-- For a known transport and security, the mask that the effect leaves is one that the matrix allows, or
-- one of which it says nothing.
pub final_mask_guard-IsRunnable :
    (matrix : Option FinalMaskSupport) (t s : Text) (k : FinalMaskKind)
    → t ≢ []
    → s ≢ []
    → IsRunnable
        (supported_kinds matrix (some t) (some s))
        (get_or (final_mask_guard matrix (some t) (some s) (some k)).kind k)
unfolding final_mask_guard is_resolved allowed_final_masks
final_mask_guard-IsRunnable matrix t s k ht hs = ground arith
