-- ===== src/Panel/Routing/Laws.antt =====
-- The messages after a row of saves, and the families that two DNS strategies leave.
use rx_ui.Base.{
  ◌≡◌, ◌≢◌, ◌↔◌, refl, Bool, true, false, ◌&&◌, ◌++◌, List, [], ◌∷◌, none, some, arith,
}
use rx_ui.Js.Text.{text_eq}
use rx_ui.Panel.Routing.{
  Messages, QueryStrategy, RoutingApplyResult, report_all, report_routing, strategy_clashes,
  strategy_text,
}

report_all-append :
    (rs : List RoutingApplyResult) (last : RoutingApplyResult) (shown : Messages)
    → report_all (rs ++ last ∷ []) shown ≡ (report_routing last (report_all rs shown)).0
unfolding report_all
report_all-append [] last shown = refl
report_all-append (r ∷ rs) last shown = report_all-append rs last (report_routing r shown).0

-- After a row of saves the warning stands exactly if the last answer says that the router is not live:
-- no earlier warning outlives a later success.
pub report_all_warns_iff :
    (rs : List RoutingApplyResult) (last : RoutingApplyResult) (shown : Messages)
    → ((report_all (rs ++ last ∷ []) shown).routing_not_live ≢ none)
      ↔ (last.routing_live ≡ some false)
report_all_warns_iff rs last shown =
    rw (report_all-append rs last shown) (warns_iff last (report_all rs shown))
  where
    warns_iff :
        (r : RoutingApplyResult) (m : Messages)
        → ((report_routing r m).0.routing_not_live ≢ none) ↔ (r.routing_live ≡ some false)
    warns_iff r m = unfold report_routing in ground arith

-- A strategy asks for IPv4 and for IPv6 addresses.
abbrev pub asks_v4 : QueryStrategy → Bool
asks_v4 QueryStrategy.use_ipv6 = false
asks_v4 _ = true

abbrev pub asks_v6 : QueryStrategy → Bool
asks_v6 QueryStrategy.use_ipv4 = false
asks_v6 _ = true

-- Two of the four strategies clash exactly if neither family is one that both ask for.
pub strategy_clashes_iff :
    (section per_server : QueryStrategy)
    → (strategy_clashes (strategy_text section) (strategy_text per_server) ≡ true) ↔ (
        ((asks_v4 section && asks_v4 per_server) ≡ false)
        × ((asks_v6 section && asks_v6 per_server) ≡ false))
unfolding strategy_clashes text_eq
strategy_clashes_iff section per_server = ground arith
