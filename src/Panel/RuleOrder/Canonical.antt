-- ===== src/Panel/RuleOrder/Canonical.antt =====
-- The derived order: whatever was saved, it is canonical, and a canonical order is derived as it is.
use rx_ui.Base.{◌≡◌, refl, true, false, not, ◌||◌, List, [], some, first, filter, arith}
use rx_ui.Js.Text.{Text, text_eq}
use rx_ui.Js.Text.Trim.{text_eq_refl}
use rx_ui.Js.Text.Includes.{IsDistinct, filter-IsDistinct, filter_none, includes, includes-filter}
use rx_ui.Panel.RuleOrder.{
  SystemRows, active_system, api, behind_system, is_known, is_system_token, derived_order,
  keep_known, push_missing, splice_in,
}
use rx_ui.Panel.RuleOrder.Steps.{
  includes-keep_known, includes-pin_api, includes-push_missing, includes-splice_in, keep_known_all,
  keep_known-IsDistinct, first-pin_api, pin_api_pinned, pin_api-IsDistinct, push_missing_none,
  push_missing-IsDistinct, splice_in-IsDistinct, splice_in-nil,
}

-- The control channel leads, no token repeats, and the tokens are the active system rows and the custom
-- rules.
pub record IsCanonical (active ids order : List Text) : Type 0 where
  pub pinned : first order ≡ some api
  pub distinct : IsDistinct order
  pub members : (t : Text) → includes t order ≡ (includes t active || includes t ids)

pub active_system-IsDistinct : (s : SystemRows) → IsDistinct (active_system s)
unfolding active_system includes text_eq
active_system-IsDistinct s = ground arith

api-active : (s : SystemRows) → includes api (active_system s) ≡ true
unfolding active_system includes
api-active s = ground (arith, text_eq_refl api)

-- Whatever order is saved, the derived one is canonical: the control channel leads it, no token repeats,
-- and its tokens are the active system rows and the custom rules.
pub derived_order-IsCanonical :
    (s : SystemRows) (ids saved : List Text)
    → IsCanonical (active_system s) ids (derived_order (active_system s) ids saved)
unfolding derived_order
derived_order-IsCanonical s ids saved =
    let active = active_system s in
    let known = keep_known (is_known active ids) [] saved in
    let missing = filter (λ t. not (includes t known)) active in
    let placed = splice_in (behind_system 0 0 known) missing known in
    let all = push_missing placed ids in
    let in_known = λ (t : Text). includes-keep_known (is_known active ids) t [] saved in
    let in_missing = λ (t : Text). includes-filter (λ k. not (includes k known)) t active in
    let in_placed = λ (t : Text). includes-splice_in t (behind_system 0 0 known) missing known in
    let in_all = λ (t : Text). includes-push_missing t placed ids in
    let placed_distinct =
      splice_in-IsDistinct (behind_system 0 0 known) missing known
        (filter-IsDistinct (λ k. not (includes k known)) active (active_system-IsDistinct s))
        (keep_known-IsDistinct (is_known active ids) [] saved)
        (λ t k. ground (arith, in_missing t)) in
    record {
      pinned =
          first-pin_api all
            (ground (arith, in_all api, in_placed api, in_missing api, api-active s));
      distinct = pin_api-IsDistinct all (push_missing-IsDistinct placed ids placed_distinct);
      members = λ t.
          ground (arith, includes-pin_api t all, in_all t, in_placed t, in_missing t, in_known t);
    }

-- A canonical order is derived as it is saved.
pub derived_order_of_IsCanonical :
    (active ids order : List Text)
    → IsCanonical active ids order
    → derived_order active ids order ≡ order
unfolding derived_order includes
derived_order_of_IsCanonical active ids order h =
    let kept =
      keep_known_all (is_known active ids) [] order h.distinct
        (λ t k. (ground (arith, h.members t), refl)) in
    let none_missing =
      filter_none (λ t. not (includes t order)) active (λ t k. ground (arith, h.members t)) in
    let placed = splice_in-nil (behind_system 0 0 order) order in
    let pushed = push_missing_none order ids (λ t k. ground (arith, h.members t)) in
    rw (kept, none_missing, placed, pushed) (pin_api_pinned order h.pinned)

pub is_system-active :
    (s : SystemRows) (t : Text) → is_system_token t ≡ false → includes t (active_system s) ≡ false
unfolding active_system includes
is_system-active s t h = ground arith
