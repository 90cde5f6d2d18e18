-- ===== src/Panel/RuleOrder/Refinement.antt =====
-- The rule editor implements a list of tokens: each operation on the rules and the saved order is, seen
-- through the derived order, one edit of that list.
use rx_ui.Base.{
  ℕ, ◌≡◌, ◌≢◌, refl, ap, ◌∙◌, false, not, ◌||◌, ltb, ◌==◌, List, [], ◌∷◌, ◌++◌, All, filter, length,
  move_row, arith, Bool-cases, inl, inr, if◌then◌else◌,
}
use rx_ui.Js.Text.{Text, text_eq}
use rx_ui.Js.Text.Trim.{text_eq_iff}
use rx_ui.Js.Text.Includes.{includes}
use rx_ui.Api.Settings.{RoutingRule}
use rx_ui.Panel.RuleOrder.{
  RuleState, SystemRows, active_system, delete_id, derived_order, is_system_token, move_token,
  order_of, rule_ids, save_rule, toggle_id, toggled,
}
use rx_ui.Panel.RuleOrder.Canonical.{derived_order_of_IsCanonical, is_system-active}
use rx_ui.Panel.RuleOrder.Edits.{
  deleted-IsCanonical, moved-IsCanonical, order-IsCanonical, rule_ids-map, saved-IsCanonical,
}

-- What the handlers of the editor do.
pub data RuleEvent : Type 0 where
  toggle : Text → RuleEvent
  delete : Text → RuleEvent
  move : ℕ → ℕ → RuleEvent
  save : RoutingRule → RuleEvent

unfoldable pub step : List Text → RuleState → RuleEvent → RuleState
step active s (RuleEvent.toggle id) = toggle_id id s
step active s (RuleEvent.delete id) = delete_id active id s
step active s (RuleEvent.move from to) = move_token active from to s
step active s (RuleEvent.save rule) = save_rule active rule s

unfoldable pub run : List Text → RuleState → List RuleEvent → RuleState
unfolding step
run active s [] = s
run active s (e ∷ es) = run active (step active s e) es

-- The edit that the list of tokens sees.
unfoldable pub edit : List Text → RuleEvent → List Text
edit order (RuleEvent.toggle id) = order
edit order (RuleEvent.delete id) = filter (λ tok. not (text_eq tok id)) order
edit order (RuleEvent.move from to) =
    if from == to || not (ltb from (length order)) || not (ltb to (length order))
    then order
    else move_row from to order
edit order (RuleEvent.save rule) = if includes rule.id order then order else order ++ rule.id ∷ []

unfoldable pub edits : List Text → List RuleEvent → List Text
unfolding edit
edits order [] = order
edits order (e ∷ es) = edits (edit order e) es

-- The row of the control channel has no grip, and the rows of the system no menu; a rule is not named
-- after a system row.
abbrev pub IsOffered : RuleEvent → Type 0
IsOffered (RuleEvent.toggle id) = Unit
IsOffered (RuleEvent.delete id) = is_system_token id ≡ false
IsOffered (RuleEvent.move from to) = (from ≢ 0) × (to ≢ 0)
IsOffered (RuleEvent.save rule) = is_system_token rule.id ≡ false

-- One operation of the editor, seen through the derived order, is one edit of the list of tokens, if the
-- row it works on is one that the editor offers it for.
pub order_of-step :
    (s : SystemRows) (rows : RuleState) (e : RuleEvent)
    → IsOffered e
    → order_of (active_system s) (step (active_system s) rows e)
      ≡ edit (order_of (active_system s) rows) e
unfolding step edit toggle_id delete_id move_token save_rule
order_of-step s rows (RuleEvent.toggle id) h =
    ap (λ ids. derived_order (active_system s) ids rows.saved)
      (rule_ids-map (λ r. if text_eq r.id id then toggled r else r) rows.rules (λ r. ground arith))
order_of-step s rows (RuleEvent.delete id) h =
    derived_order_of_IsCanonical _ _ _ (deleted-IsCanonical s rows id h)
order_of-step s rows (RuleEvent.move from to) (hf, ht) =
    let order = order_of (active_system s) rows in
    elim (Bool-cases (from == to || not (ltb from (length order)) || not (ltb to (length order)))) [
      | inl e ↦ rw e refl
      | inr e ↦ rw e (derived_order_of_IsCanonical _ _ _ (moved-IsCanonical s rows from to hf ht))
    ]
order_of-step s rows (RuleEvent.save rule) h =
    let order = order_of (active_system s) rows in
    let same : includes rule.id order ≡ includes rule.id (rule_ids rows.rules) =
      ground (arith, (order-IsCanonical s rows).members rule.id, is_system-active s rule.id h) in
    elim (Bool-cases (includes rule.id (rule_ids rows.rules))) [
      | inl e ↦
          rw (same, e)
            (ap (λ ids. derived_order (active_system s) ids rows.saved)
              (rule_ids-map (λ r. if text_eq r.id rule.id then rule else r) rows.rules
                (λ r. ground (arith, text_eq_iff r.id rule.id))))
      | inr e ↦
          rw (same, e) (derived_order_of_IsCanonical _ _ _ (saved-IsCanonical s rows rule h e))
    ]

-- A session in the editor, whatever order was saved before it, refines the same edits of a list of tokens:
-- the derived order after it is the derived order before it with those edits made, if no edit takes hold
-- of the control channel, deletes a system row or saves a rule under the name of one.
pub order_of-run :
    (s : SystemRows) (rows : RuleState) (es : List RuleEvent)
    → All IsOffered es
    → order_of (active_system s) (run (active_system s) rows es)
      ≡ edits (order_of (active_system s) rows) es
unfolding run edits
order_of-run s rows [] h = refl
order_of-run s rows (e ∷ es) (he, h) =
    order_of-run s (step (active_system s) rows e) es h
    ∙ ap (λ order. edits order es) (order_of-step s rows e he)
