-- ===== src/Panel/RuleOrder/Edits.antt =====
-- The orders that the operations of the rule editor save are canonical for the rules that they leave.
use rx_ui.Base.{
  ℕ, ◌≡◌, ◌≢◌, refl, ◌∙◌, false, not, ◌&&◌, ◌||◌, List, [], ◌∷◌, ◌++◌, map, filter, first, some,
  move_row, arith,
}
use rx_ui.Js.Text.{Text, text_eq}
use rx_ui.Js.Text.Trim.{text_eq_iff}
use rx_ui.Js.Text.Includes.{
  append-IsDistinct, filter-IsDistinct, includes, includes-append, includes-filter,
}
use rx_ui.Js.Text.Rows.{first-move_row, includes-move_row, move_row-IsDistinct}
use rx_ui.Api.Settings.{RoutingRule}
use rx_ui.Panel.RuleOrder.{
  RuleState, SystemRows, active_system, api, is_system_token, order_of, rule_ids,
}
use rx_ui.Panel.RuleOrder.Canonical.{IsCanonical, derived_order-IsCanonical, is_system-active}

pub rule_ids-map :
    (f : RoutingRule → RoutingRule) (rules : List RoutingRule)
    → ((r : RoutingRule) → (f r).id ≡ r.id)
    → rule_ids (map f rules) ≡ rule_ids rules
rule_ids-map f [] h = refl
rule_ids-map f (r ∷ rules) h = λ i. h r i ∷ rule_ids-map f rules h i

includes-rule_ids-filter :
    (t id : Text) (rules : List RoutingRule)
    → includes t (rule_ids (filter (λ r. not (text_eq r.id id)) rules))
      ≡ (includes t (rule_ids rules) && not (text_eq t id))
unfolding includes
includes-rule_ids-filter t id [] = refl
includes-rule_ids-filter t id (r ∷ rules) =
    ground (arith, includes-rule_ids-filter t id rules, text_eq_iff r.id t)

includes-rule_ids-append :
    (t : Text) (rules : List RoutingRule) (rule : RoutingRule)
    → includes t (rule_ids (rules ++ rule ∷ []))
      ≡ (includes t (rule_ids rules) || text_eq rule.id t)
unfolding includes
includes-rule_ids-append t [] rule = ground arith
includes-rule_ids-append t (r ∷ rules) rule = ground (arith, includes-rule_ids-append t rules rule)

first-filter :
    (id : Text) (xs : List Text)
    → first xs ≡ some api
    → text_eq api id ≡ false
    → first (filter (λ tok. not (text_eq tok id)) xs) ≡ some api
first-filter id [] h e = h
first-filter id (x ∷ xs) h e = ground arith

first-append : (xs ys : List Text) → first xs ≡ some api → first (xs ++ ys) ≡ some api
first-append [] ys h = cc
first-append (x ∷ xs) ys h = h

not-api : (id : Text) → is_system_token id ≡ false → text_eq api id ≡ false
unfolding includes
not-api id h = ground arith

module _ (s : SystemRows) (rows : RuleState) where
  abbrev order : List Text
  order = order_of (active_system s) rows

  pub order-IsCanonical : IsCanonical (active_system s) (rule_ids rows.rules) order
  order-IsCanonical = derived_order-IsCanonical s (rule_ids rows.rules) rows.saved

  pub moved-IsCanonical :
      (from to : ℕ)
      → from ≢ 0
      → to ≢ 0
      → IsCanonical (active_system s) (rule_ids rows.rules) (move_row from to order)
  moved-IsCanonical from to hf ht = record {
    pinned = first-move_row from to order hf ht ∙ order-IsCanonical.pinned;
    distinct = move_row-IsDistinct from to order order-IsCanonical.distinct;
    members = λ t. includes-move_row t from to order ∙ order-IsCanonical.members t;
  }

  pub deleted-IsCanonical :
      (id : Text)
      → is_system_token id ≡ false
      → IsCanonical
          (active_system s)
          (rule_ids (filter (λ r. not (text_eq r.id id)) rows.rules))
          (filter (λ tok. not (text_eq tok id)) order)
  deleted-IsCanonical id h = record {
    pinned = first-filter id order order-IsCanonical.pinned (not-api id h);
    distinct = filter-IsDistinct _ order order-IsCanonical.distinct;
    members = λ t. ground (
      arith,
      includes-filter (λ tok. not (text_eq tok id)) t order,
      order-IsCanonical.members t,
      includes-rule_ids-filter t id rows.rules,
      is_system-active s id h,
      text_eq_iff t id,
    );
  }

  pub saved-IsCanonical :
      (rule : RoutingRule)
      → is_system_token rule.id ≡ false
      → includes rule.id (rule_ids rows.rules) ≡ false
      → IsCanonical (active_system s) (rule_ids (rows.rules ++ rule ∷ [])) (order ++ rule.id ∷ [])
  unfolding includes
  saved-IsCanonical rule h new = record {
    pinned = first-append order (rule.id ∷ []) order-IsCanonical.pinned;
    distinct =
        append-IsDistinct order (rule.id ∷ []) order-IsCanonical.distinct (refl, tt)
          (λ t k. ground (
            arith,
            order-IsCanonical.members rule.id,
            is_system-active s rule.id h,
            text_eq_iff rule.id t,
          ));
    members = λ t. ground (
      arith,
      includes-append t order (rule.id ∷ []),
      order-IsCanonical.members t,
      includes-rule_ids-append t rows.rules rule,
    );
  }
