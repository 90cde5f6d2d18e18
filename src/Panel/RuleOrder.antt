-- ===== src/Panel/RuleOrder.antt =====
-- The evaluation order of the routing rules, as frontend/src/components/RoutingRulesField.tsx derives it
-- from the saved order, the rows of "Basic connections" and the custom rules, and the operations on it.
-- A token is a system name or the identifier of a custom rule; identifiers that name a member of every
-- object (`toString`), which `in` takes for system names, are outside the model.
pub mod Steps
pub mod Canonical
pub mod Edits
pub mod Refinement
use rx_ui.Base.{
  ℕ, zero, suc, Bool, true, false, not, ◌&&◌, ◌||◌, ltb, ◌==◌, List, [], ◌∷◌, ◌++◌, Option, none,
  some, map, filter, length, is_empty, move_row, if◌then◌else◌,
}
use rx_ui.Js.Text.{Text, codes, text_eq}
use rx_ui.Js.Text.Includes.{includes}
use rx_ui.Api.Settings.{RoutingRule}

abbrev pub api : Text
api = codes "api"

-- The keys of `sysInfo`.
abbrev pub system_tokens : List Text
system_tokens =
    codes "api"
    ∷ codes "bittorrent"
    ∷ codes "blocked_domains"
    ∷ codes "blocked_ips"
    ∷ codes "ipv4"
    ∷ codes "direct_domains"
    ∷ codes "direct_ips"
    ∷ []

-- `isSystemToken`
abbrev pub is_system_token : Text → Bool
is_system_token tok = includes tok system_tokens

-- The fields of "Basic connections" that the system rows come from.
pub record SystemRows : Type 0 where
  pub bittorrent : Bool
  pub blocked_ips : List Text
  pub blocked_domains : List Text
  pub ipv4 : List Text
  pub direct_ips : List Text
  pub direct_domains : List Text

-- `if (on) active.push(tok)`, before the rest.
abbrev pub when_on : Bool → Text → List Text → List Text
when_on b tok rest = if b then tok ∷ rest else rest

unfoldable pub active_system : SystemRows → List Text
active_system s =
    api
    ∷ when_on s.bittorrent (codes "bittorrent") (
        when_on (not (is_empty s.blocked_domains)) (codes "blocked_domains") (
          when_on (not (is_empty s.blocked_ips)) (codes "blocked_ips") (
            when_on (not (is_empty s.direct_domains)) (codes "direct_domains") (
              when_on (not (is_empty s.direct_ips)) (codes "direct_ips")
                (when_on (not (is_empty s.ipv4)) (codes "ipv4") [])))))

-- The known tokens of the saved order, the first occurrence of each.
unfoldable pub keep_known : (Text → Bool) → List Text → List Text → List Text
keep_known valid seen [] = []
keep_known valid seen (tok ∷ toks) =
    let fresh = valid tok && not (includes tok seen) in
    let rest = keep_known valid (if fresh then tok ∷ seen else seen) toks in
    if fresh then tok ∷ rest else rest

-- The place behind the last system row: `idx + 1` at each of them, `at` so far.
unfoldable pub behind_system : (at idx : ℕ) → List Text → ℕ
behind_system at idx [] = at
behind_system at idx (tok ∷ toks) =
    behind_system (if is_system_token tok then suc idx else at) (suc idx) toks

-- `order.splice(n, 0, ...ys)`
unfoldable pub splice_in : ℕ → List Text → List Text → List Text
splice_in n ys [] = ys
splice_in zero ys (x ∷ xs) = ys ++ x ∷ xs
splice_in (suc n) ys (x ∷ xs) = x ∷ splice_in n ys xs

-- Custom rules that the order lacks go to its end.
unfoldable pub push_missing : List Text → List Text → List Text
push_missing order [] = order
push_missing order (id ∷ ids) =
    push_missing (if includes id order then order else order ++ id ∷ []) ids

unfoldable pub remove_first : Text → List Text → List Text
remove_first k [] = []
remove_first k (x ∷ xs) = let rest = remove_first k xs in if text_eq x k then xs else x ∷ rest

-- `if (apiAt > 0) order.unshift(...order.splice(apiAt, 1))`
unfoldable pub pin_api : List Text → List Text
pin_api [] = []
pin_api (x ∷ xs) =
    if text_eq x api
    then x ∷ xs
    else if includes api xs
    then api ∷ x ∷ remove_first api xs
    else x ∷ xs

-- `valid.has(tok)`
abbrev pub is_known : (active ids : List Text) → Text → Bool
is_known active ids tok = includes tok active || includes tok ids

-- `order`: from the active system rows, the identifiers of the custom rules and the saved order.
unfoldable pub derived_order : (active ids saved : List Text) → List Text
derived_order active ids saved =
    let known = keep_known (is_known active ids) [] saved in
    let missing = filter (λ tok. not (includes tok known)) active in
    pin_api (push_missing (splice_in (behind_system 0 0 known) missing known) ids)

-- The value of the field and `xray_rule_order`.
pub record RuleState : Type 0 where
  pub rules : List RoutingRule
  pub saved : List Text

abbrev pub rule_ids : List RoutingRule → List Text
rule_ids rules = map (λ r. r.id) rules

abbrev pub order_of : List Text → RuleState → List Text
order_of active s = derived_order active (rule_ids s.rules) s.saved

-- `moveToken`
unfoldable pub move_token : List Text → ℕ → ℕ → RuleState → RuleState
move_token active from to s =
    let order = order_of active s in
    if from == to || not (ltb from (length order)) || not (ltb to (length order))
    then s
    else record s { saved = move_row from to order }

abbrev pub toggled : RoutingRule → RoutingRule
toggled r = record r { enabled = not r.enabled }

-- `toggleId`: the order stays as it is saved.
unfoldable pub toggle_id : Text → RuleState → RuleState
toggle_id id s = record s { rules = map (λ r. if text_eq r.id id then toggled r else r) s.rules }

-- `deleteId`
unfoldable pub delete_id : List Text → Text → RuleState → RuleState
delete_id active id s = record {
  rules = filter (λ r. not (text_eq r.id id)) s.rules;
  saved = filter (λ tok. not (text_eq tok id)) (order_of active s);
}

-- `handleSave`, and the rule that a WARP tunnel adds: an edit leaves the order as it is saved.
unfoldable pub save_rule : List Text → RoutingRule → RuleState → RuleState
save_rule active rule s =
    if includes rule.id (rule_ids s.rules)
    then record s { rules = map (λ r. if text_eq r.id rule.id then rule else r) s.rules }
    else record { rules = s.rules ++ rule ∷ []; saved = order_of active s ++ rule.id ∷ [] }
