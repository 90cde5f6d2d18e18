-- ===== src/Panel/RuleForm.antt =====
-- The rule dialog of frontend/src/components/RoutingRulesField.tsx: `toXrayRule`, `hasCondition`,
-- `summarizeGroups` and `submit`. A field that the form does not hold is `none`.
pub mod Laws
use rx_ui.Base.{
  ℕ, ◌+◌, Bool, true, false, not, ◌&&◌, ◌||◌, List, [], ◌∷◌, Option, none, some, get_or, filter,
  length, is_empty, if◌then◌else◌,
}
use rx_ui.Js.Text.{Text, codes, trim}
use rx_ui.Api.Settings.{RoutingRule}
use rx_ui.Inbounds.Values.{non_empty, or_null, or_text}

pub record RuleFormValues : Type 0 where
  pub name : Option Text
  pub outbound_tag : Text
  pub domain : Option (List Text)
  pub ip : Option (List Text)
  pub port : Option Text
  pub network : Option (List Text)
  pub protocol : Option (List Text)
  pub source_ip : Option (List Text)
  pub source_port : Option Text
  pub local_os : Option (List Text)
  pub inbound_tag : Option (List Text)
  pub user : Option (List Text)

-- The object that `toXrayRule` builds; its `type` is always "field".
pub record XrayRule : Type 0 where
  pub domain : Option (List Text)
  pub ip : Option (List Text)
  pub port : Option Text
  pub network : Option (List Text)
  pub protocol : Option (List Text)
  pub source : Option (List Text)
  pub source_port : Option Text
  pub inbound_tag : Option (List Text)
  pub user : Option (List Text)
  pub local_os : Option (List Text)
  pub outbound_tag : Text

-- `a && a.length ? a : undefined`
abbrev pub non_empty_field {ℓ} : {A : Type ℓ} → Option (List A) → Option (List A)
non_empty_field none = none
non_empty_field (some a) = non_empty a

-- `if (s?.trim()) … s.trim()`
abbrev pub trimmed_field : Option Text → Option Text
trimmed_field none = none
trimmed_field (some s) = or_null s

unfoldable pub to_xray_rule : RuleFormValues → XrayRule
to_xray_rule v = record {
  domain = non_empty_field v.domain;
  ip = non_empty_field v.ip;
  port = trimmed_field v.port;
  network = non_empty_field v.network;
  protocol = non_empty_field v.protocol;
  source = non_empty_field v.source_ip;
  source_port = trimmed_field v.source_port;
  inbound_tag = non_empty_field v.inbound_tag;
  user = non_empty_field v.user;
  local_os = non_empty_field v.local_os;
  outbound_tag = v.outbound_tag;
}

-- `Boolean(a?.length)` and `Boolean(s?.trim())`
abbrev pub has_items {ℓ} : {A : Type ℓ} → Option (List A) → Bool
has_items none = false
has_items (some a) = not (is_empty a)

abbrev pub has_text : Option Text → Bool
has_text none = false
has_text (some s) = not (is_empty (trim s))

unfoldable pub has_condition : RuleFormValues → Bool
has_condition v =
    has_items v.domain
    || has_items v.ip
    || has_text v.port
    || has_items v.network
    || has_items v.protocol
    || has_items v.source_ip
    || has_text v.source_port
    || has_items v.inbound_tag
    || has_items v.user
    || has_items v.local_os

pub record CondGroup : Type 0 where
  pub key : Text
  pub items : List Text

-- `s ? [s] : []`
abbrev pub one_item : Text → List Text
one_item [] = []
one_item (c ∷ s) = (c ∷ s) ∷ []

-- `groups`, before the empty ones are dropped.
abbrev pub condition_groups : RoutingRule → List CondGroup
condition_groups rule =
    record { key = codes "settings.ruleDomain"; items = rule.domain }
    ∷ record { key = codes "settings.ruleIp"; items = rule.ip }
    ∷ record { key = codes "settings.ruleSourceIp"; items = rule.source_ip }
    ∷ record { key = codes "settings.rulePort"; items = one_item rule.port }
    ∷ record { key = codes "settings.ruleSourcePort"; items = one_item rule.source_port }
    ∷ record { key = codes "settings.ruleNetwork"; items = rule.network }
    ∷ record { key = codes "settings.ruleProtocol"; items = rule.protocol }
    ∷ record { key = codes "settings.ruleInboundTag"; items = rule.inbound_tag }
    ∷ record { key = codes "settings.ruleUser"; items = rule.user }
    ∷ record { key = codes "settings.ruleLocalOs"; items = rule.local_os }
    ∷ []

unfoldable pub summarize_groups : RoutingRule → List CondGroup
summarize_groups rule = filter (λ g. not (is_empty g.items)) (condition_groups rule)

unfoldable pub cond_count : List CondGroup → ℕ
cond_count [] = 0
cond_count (g ∷ groups) = length g.items + cond_count groups

abbrev pub empty_rule : RoutingRule
empty_rule = record {
  id = [];
  enabled = true;
  name = [];
  domain = [];
  ip = [];
  source_ip = [];
  port = [];
  source_port = [];
  network = [];
  protocol = [];
  inbound_tag = [];
  user = [];
  local_os = [];
  outbound_tag = codes "blocked";
}

-- `initial?.enabled ?? true`
abbrev pub enabled_of : Option RoutingRule → Bool
enabled_of none = true
enabled_of (some rule) = rule.enabled

-- The rule that the dialog saves; `fresh` is what `uuid()` draws.
unfoldable pub saved_rule : Text → Option RoutingRule → RuleFormValues → RoutingRule
saved_rule fresh initial v = record {
  id = or_text (get_or initial empty_rule).id fresh;
  enabled = enabled_of initial;
  name = trim (get_or v.name []);
  domain = get_or v.domain [];
  ip = get_or v.ip [];
  source_ip = get_or v.source_ip [];
  port = trim (get_or v.port []);
  source_port = trim (get_or v.source_port []);
  network = get_or v.network [];
  protocol = get_or v.protocol [];
  inbound_tag = get_or v.inbound_tag [];
  user = get_or v.user [];
  local_os = get_or v.local_os [];
  outbound_tag = v.outbound_tag;
}

-- A form without a condition is refused with a warning.
unfoldable pub submit : Text → Option RoutingRule → RuleFormValues → Option RoutingRule
unfolding has_condition
submit fresh initial v = if has_condition v then some (saved_rule fresh initial v) else none
