-- ===== src/Panel/RuleTests.antt =====
-- Concrete routing rules and resolver lists.
use rx_ui.Base.{
  ◌≡◌, ◌↔◌, refl, true, false, [], ◌∷◌, List, none, some, map, item_at, without, arith,
}
use mathlib.Core.List.{cons-ne-nil}
use rx_ui.Js.Text.{Text, codes, text_eq, trim}
use rx_ui.Js.Text.Includes.{includes}
use rx_ui.Api.Settings.{DnsServer, RoutingRule}
use rx_ui.Panel.RuleOrder.{
  RuleState, SystemRows, active_system, behind_system, derived_order, keep_known, order_of, pin_api,
  push_missing, remove_first, splice_in,
}
use rx_ui.Panel.RuleOrder.Canonical.{IsCanonical, derived_order-IsCanonical}
use rx_ui.Panel.RuleOrder.Refinement.{RuleEvent, edits, order_of-run, run}
use rx_ui.Panel.RuleForm.{
  RuleFormValues, empty_rule, saved_rule, submit, summarize_groups, to_xray_rule,
}
use rx_ui.Panel.RuleForm.Laws.{matchers, submit_none_iff, summarize_groups-saved_rule}
use rx_ui.Panel.DnsServers.{empty_dns_server, move_server, role_of}
use rx_ui.Panel.DnsServers.Roles.{above, role_below, role_of-item_at}
use rx_ui.Panel.DnsServers.Address.{display_address, display_address_of_scheme}
use rx_ui.Panel.DnsServers.Moves.{move_server_lem}

abbrev rows : SystemRows
rows = record {
  bittorrent = true;
  blocked_ips = [];
  blocked_domains = codes "geosite:ads" ∷ [];
  ipv4 = [];
  direct_ips = codes "geoip:ru" ∷ [];
  direct_domains = [];
}

abbrev rule_a : RoutingRule
rule_a = record empty_rule { id = codes "a"; domain = codes "x" ∷ [] }

abbrev rule_b : RoutingRule
rule_b = record empty_rule { id = codes "b"; ip = codes "1.1.1.1" ∷ [] }

-- A stale order: a repeated token, a deleted rule, and the control channel in the middle.
abbrev stale_order : List Text
stale_order = codes "a" ∷ codes "gone" ∷ codes "api" ∷ codes "a" ∷ codes "bittorrent" ∷ []

derived :
    derived_order (active_system rows) (codes "a" ∷ codes "b" ∷ []) stale_order
    ≡ codes "api"
      ∷ codes "a"
      ∷ codes "bittorrent"
      ∷ codes "blocked_domains"
      ∷ codes "direct_ips"
      ∷ codes "b"
      ∷ []
unfolding derived_order active_system pin_api push_missing includes splice_in keep_known text_eq
    behind_system remove_first
derived = refl

derived_order-IsCanonical_example :
    IsCanonical
      (active_system rows)
      (codes "a" ∷ codes "b" ∷ [])
      (derived_order (active_system rows) (codes "a" ∷ codes "b" ∷ []) stale_order)
derived_order-IsCanonical_example =
    derived_order-IsCanonical rows (codes "a" ∷ codes "b" ∷ []) stale_order

abbrev rule_state : RuleState
rule_state = record { rules = rule_a ∷ []; saved = stale_order }

abbrev session : List RuleEvent
session =
    RuleEvent.save rule_b
    ∷ RuleEvent.move 5 1
    ∷ RuleEvent.toggle (codes "a")
    ∷ RuleEvent.delete (codes "a")
    ∷ []

order_of-run_example :
    order_of (active_system rows) (run (active_system rows) rule_state session)
    ≡ edits (order_of (active_system rows) rule_state) session
unfolding includes text_eq
order_of-run_example =
    order_of-run rows rule_state session (refl, ((ground arith, ground arith), (tt, (refl, tt))))

abbrev rule_values : RuleFormValues
rule_values = record {
  name = some (codes "n");
  outbound_tag = codes "direct";
  domain = some (codes "geosite:ru" ∷ []);
  ip = none;
  port = some (codes " 443 ");
  network = some [];
  protocol = none;
  source_ip = none;
  source_port = none;
  local_os = none;
  inbound_tag = none;
  user = some (codes "u" ∷ []);
}

summarize_groups-saved_rule_example :
    map (λ g. g.items) (summarize_groups (saved_rule (codes "id") none rule_values))
    ≡ matchers (to_xray_rule rule_values)
summarize_groups-saved_rule_example = summarize_groups-saved_rule (codes "id") none rule_values

submit_none_iff_example :
    (submit (codes "id") none rule_values ≡ none) ↔ (matchers (to_xray_rule rule_values) ≡ [])
submit_none_iff_example = submit_none_iff (codes "id") none rule_values

abbrev local_server : DnsServer
local_server = record empty_dns_server { address = codes "10.0.0.1"; domains = codes "lan" ∷ [] }

abbrev general_server : DnsServer
general_server = record empty_dns_server { address = codes "1.1.1.1" }

abbrev servers : List DnsServer
servers = local_server ∷ general_server ∷ general_server ∷ []

role_of-item_at_example :
    role_of servers 2 false true ≡ some (role_below (above 2 servers) general_server false true)
role_of-item_at_example = role_of-item_at servers 2 general_server false true refl

move_server_lem_example :
    (item_at 0 (move_server 2 0 servers) ≡ item_at 2 servers)
    × (without 0 (move_server 2 0 servers) ≡ without 2 servers)
    × (move_server 0 2 (move_server 2 0 servers) ≡ servers)
move_server_lem_example = move_server_lem 2 0 servers (omega arith) (omega arith)

display_address_of_scheme_example :
    display_address (codes " https://1.1.1.1/dns-query ") ≡ codes "1.1.1.1/dns-query"
unfolding trim
display_address_of_scheme_example =
    display_address_of_scheme (codes " https://1.1.1.1/dns-query ") (codes "https")
      (codes "1.1.1.1/dns-query") refl (cons-ne-nil _ _) (ground arith) (cons-ne-nil _ _) refl
