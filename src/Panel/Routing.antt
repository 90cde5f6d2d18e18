-- ===== src/Panel/Routing.antt =====
-- frontend/src/lib/routingReport.ts and dnsPresets.ts: what a save of the settings reports, and DNS
-- strategies that exclude one another.
pub mod Laws
use rx_ui.Base.{
  Bool, true, false, ◌&&◌, ◌||◌, not, is_empty, any, List, [], ◌∷◌, Option, none, some, get_or,
  if◌then◌else◌,
}
use rx_ui.Js.Text.{Text, codes, text_eq}

pub record RoutingApplyResult : Type 0 where
  pub routing_live : Option Bool
  pub routing_restarted : Option Bool
  pub routing_detail : Option Text

pub data RoutingReport : Type 0 where
  clean warned restarted : RoutingReport

-- The two keyed messages on screen, before they expire: the detail of the warning, if it is there, and
-- whether the restart is reported.
pub record Messages : Type 0 where
  pub routing_not_live : Option Text
  pub routing_restarted : Bool

abbrev pub is_false : Option Bool → Bool
is_false none = false
is_false (some b) = not b

unfoldable pub report_routing : RoutingApplyResult → Messages → Messages × RoutingReport
report_routing r shown =
    if is_false r.routing_live
    then (
      record shown { routing_not_live = some (get_or r.routing_detail []) },
      RoutingReport.warned,
    )
    else if get_or r.routing_restarted false
    then (
      record shown { routing_not_live = none; routing_restarted = true },
      RoutingReport.restarted,
    )
    else (record shown { routing_not_live = none }, RoutingReport.clean)

-- Several sections saved one after another, each with its answer.
unfoldable pub report_all : List RoutingApplyResult → Messages → Messages
report_all [] shown = shown
report_all (r ∷ rs) shown = report_all rs (report_routing r shown).0

-- `DNS_QUERY_STRATEGIES`
pub data QueryStrategy : Type 0 where
  use_ip use_ipv4 use_ipv6 use_system : QueryStrategy

abbrev pub strategy_text : QueryStrategy → Text
strategy_text QueryStrategy.use_ip = codes "UseIP"
strategy_text QueryStrategy.use_ipv4 = codes "UseIPv4"
strategy_text QueryStrategy.use_ipv6 = codes "UseIPv6"
strategy_text QueryStrategy.use_system = codes "UseSystem"

unfoldable pub strategy_clashes : Text → Text → Bool
strategy_clashes section per_server =
    (text_eq section (codes "UseIPv4") && text_eq per_server (codes "UseIPv6"))
    || (text_eq section (codes "UseIPv6") && text_eq per_server (codes "UseIPv4"))
