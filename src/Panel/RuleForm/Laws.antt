-- ===== src/Panel/RuleForm/Laws.antt =====
-- What is saved, what the preview shows and what the row says of it agree.
use rx_ui.Base.{
  ◌≡◌, ◌↔◌, refl, ap, ◌∙◌, Bool, false, not, ◌||◌, List, [], ◌∷◌, ◌++◌, Option, none, some, get_or,
  filter, map, is_empty, arith, if◌then◌else◌,
}
use rx_ui.Js.Text.{Text, trim}
use rx_ui.Js.Text.Trim.{trim-nil}
use rx_ui.Api.Settings.{RoutingRule}
use rx_ui.Inbounds.Values.{or_null}
use rx_ui.Panel.RuleForm.{
  CondGroup, condition_groups, RuleFormValues, XrayRule, has_condition, has_items, has_text,
  non_empty_field, one_item, saved_rule, submit, summarize_groups, to_xray_rule, trimmed_field,
}

-- The values of a matcher, if the rule carries it.
abbrev matcher : Option (List Text) → List (List Text)
matcher none = []
matcher (some items) = items ∷ []

abbrev text_matcher : Option Text → List (List Text)
text_matcher none = []
text_matcher (some s) = (s ∷ []) ∷ []

abbrev joined : List (List (List Text)) → List (List Text)
joined [] = []
joined (x ∷ xs) = x ++ joined xs

-- The matchers of a rule as the core gets it, in the order of the row, each in a list that is empty where
-- the rule lacks the matcher.
abbrev matcher_slots : XrayRule → List (List (List Text))
matcher_slots r =
    matcher r.domain
    ∷ matcher r.ip
    ∷ matcher r.source
    ∷ text_matcher r.port
    ∷ text_matcher r.source_port
    ∷ matcher r.network
    ∷ matcher r.protocol
    ∷ matcher r.inbound_tag
    ∷ matcher r.user
    ∷ matcher r.local_os
    ∷ []

abbrev pub matchers : XrayRule → List (List Text)
matchers r = joined (matcher_slots r)

has_items-matcher :
    (a : Option (List Text)) → has_items a ≡ not (is_empty (matcher (non_empty_field a)))
has_items-matcher none = refl
has_items-matcher (some []) = refl
has_items-matcher (some (x ∷ a)) = refl

has_text-matcher : (s : Option Text) → has_text s ≡ not (is_empty (text_matcher (trimmed_field s)))
has_text-matcher none = refl
has_text-matcher (some s) = unfold or_null in ground arith

abbrev any_filled : List (List (List Text)) → Bool
any_filled [] = false
any_filled (x ∷ xs) = not (is_empty x) || any_filled xs

is_empty-joined : (xs : List (List (List Text))) → any_filled xs ≡ not (is_empty (joined xs))
is_empty-joined [] = refl
is_empty-joined ([] ∷ xs) = is_empty-joined xs
is_empty-joined ((m ∷ ms) ∷ xs) = refl

abbrev shown : List Text → List (List Text)
shown [] = []
shown (x ∷ xs) = (x ∷ xs) ∷ []

abbrev all_shown : List CondGroup → List (List Text)
all_shown [] = []
all_shown (g ∷ gs) = shown g.items ++ all_shown gs

items-filter :
    (gs : List CondGroup)
    → map (λ g. g.items) (filter (λ g. not (is_empty g.items)) gs) ≡ all_shown gs
items-filter [] = refl
items-filter (g ∷ gs) = ground (arith, items-filter gs)

shown-list : (a : Option (List Text)) → shown (get_or a []) ≡ matcher (non_empty_field a)
shown-list none = refl
shown-list (some []) = refl
shown-list (some (x ∷ a)) = refl

shown-text :
    (s : Option Text) → shown (one_item (trim (get_or s []))) ≡ text_matcher (trimmed_field s)
shown-text none = ap (λ r. shown (one_item r)) trim-nil
shown-text (some s) = unfold or_null in ground arith

-- The row of a saved rule shows, group by group, the values of the matchers that the core gets, none left
-- out and none added.
pub summarize_groups-saved_rule :
    (fresh : Text) (initial : Option RoutingRule) (v : RuleFormValues)
    → map (λ g. g.items) (summarize_groups (saved_rule fresh initial v)) ≡ matchers (to_xray_rule v)
unfolding summarize_groups saved_rule to_xray_rule
summarize_groups-saved_rule fresh initial v =
    items-filter (condition_groups (saved_rule fresh initial v)) ∙ (λ i. joined (
      shown-list v.domain i
      ∷ shown-list v.ip i
      ∷ shown-list v.source_ip i
      ∷ shown-text v.port i
      ∷ shown-text v.source_port i
      ∷ shown-list v.network i
      ∷ shown-list v.protocol i
      ∷ shown-list v.inbound_tag i
      ∷ shown-list v.user i
      ∷ shown-list v.local_os i
      ∷ []))

abbrev filled : Option (List Text) → Bool
filled o = not (is_empty (matcher o))

abbrev filled_text : Option Text → Bool
filled_text o = not (is_empty (text_matcher o))

reordered :
    (a b c d e f g h i j : Bool)
    → (a || b || c || d || e || f || g || h || i || j)
      ≡ (a || (b || (f || (c || (g || (d || (e || (h || (i || (j || false))))))))))
reordered a b c d e f g h i j = ground arith

-- A rule has a condition just when the core gets a matcher.
pub has_condition-matchers :
    (v : RuleFormValues) → has_condition v ≡ not (is_empty (matchers (to_xray_rule v)))
unfolding has_condition to_xray_rule
has_condition-matchers v =
    let r = to_xray_rule v in
    (λ i.
      has_items-matcher v.domain i
      || has_items-matcher v.ip i
      || has_text-matcher v.port i
      || has_items-matcher v.network i
      || has_items-matcher v.protocol i
      || has_items-matcher v.source_ip i
      || has_text-matcher v.source_port i
      || has_items-matcher v.inbound_tag i
      || has_items-matcher v.user i
      || has_items-matcher v.local_os i)
    ∙ reordered (filled r.domain) (filled r.ip) (filled_text r.port) (filled r.network)
        (filled r.protocol) (filled r.source) (filled_text r.source_port) (filled r.inbound_tag)
        (filled r.user) (filled r.local_os)
    ∙ is_empty-joined (matcher_slots r)

refused_iff {ℓ κ} :
    {A : Type ℓ} {B : Type κ} (b : Bool) (x : A) (ms : List B)
    → b ≡ not (is_empty ms)
    → ((if b then some x else none) ≡ none) ↔ (ms ≡ [])
refused_iff b x [] e = ground arith
refused_iff b x (m ∷ ms) e = ground arith

-- The dialog refuses a form just when the rule would reach the core without a matcher.
pub submit_none_iff :
    (fresh : Text) (initial : Option RoutingRule) (v : RuleFormValues)
    → (submit fresh initial v ≡ none) ↔ (matchers (to_xray_rule v) ≡ [])
unfolding submit
submit_none_iff fresh initial v =
    refused_iff (has_condition v) (saved_rule fresh initial v) (matchers (to_xray_rule v))
      (has_condition-matchers v)
