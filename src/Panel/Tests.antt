-- ===== src/Panel/Tests.antt =====
-- Concrete pages: one whose list has arrived and whose poll has failed, and one that recovered.
use rx_ui.Base.{
  arith, ℕ, ◌≡◌, ◌≢◌, ◌↔◌, ◌⊎◌, inr, refl, true, false, List, [], ◌∷◌, ◌++◌, none, some, All,
}
use rx_ui.Panel.Routing.{Messages, RoutingApplyResult, report_all}
use rx_ui.Panel.Routing.Laws.{report_all_warns_iff}
use mathlib.Core.List.{cons-ne-nil}
use rx_ui.Js.Text.{codes, trim}
use rx_ui.Js.Number.{num}
use rx_ui.Api.Settings.{PanelSettings, PanelSettingsUpdate}
use rx_ui.Panel.Settings.{Overrides, merge_panel_settings, settings_defaults}
use rx_ui.Panel.SaveAll.{DirtyHandle, Outcome, SettingsPage, save_all, save_all_field}
use rx_ui.Panel.Settings.ReadBack.{merge_panel_settings-read_back, no_overrides, read_back}
use rx_ui.Panel.Settings.Fields.{SettingsField}
use rx_ui.Js.Text.Trim.{trim_idem}
use rx_ui.Panel.LoadState.{Query, error_of, has_failed, load_state}
use rx_ui.Panel.LoadState.Laws.{load_state_error_lem, load_state_exclusive}

abbrev rows : Query ℕ ℕ
rows = record {
  name = 1;
  data_seen = some 7;
  is_error = false;
  error_update_count = 3;
  error = none;
  failure_reason = none;
  is_refetching = false;
}

abbrev poll : Query ℕ ℕ
poll = record {
  name = 2;
  data_seen = none;
  is_error = false;
  error_update_count = 1;
  error = none;
  failure_reason = some 503;
  is_refetching = true;
}

load_state_exclusive_example :
    ((load_state (poll ∷ []) (rows ∷ [])).blocked ≡ false)
    ⊎ ((load_state (poll ∷ []) (rows ∷ [])).failed ≡ false)
load_state_exclusive_example = load_state_exclusive (poll ∷ []) (rows ∷ [])

load_state_error_lem_example :
    (q : Query ℕ ℕ) × (before : List (Query ℕ ℕ)) × (after : List (Query ℕ ℕ)) × ((rows ∷ [])
        ++ (poll ∷ [])
      ≡ before ++ q ∷ after)
    × (has_failed q ≡ true)
    × All (λ r. has_failed r ≡ false) before
    × ((load_state (rows ∷ []) (poll ∷ [])).error ≡ error_of (some q))
unfolding load_state
load_state_error_lem_example = load_state_error_lem (rows ∷ []) (poll ∷ []) (inr refl)

abbrev not_live : RoutingApplyResult
not_live = record { routing_live = some false; routing_restarted = none; routing_detail = none }

abbrev live : RoutingApplyResult
live = record { routing_live = some true; routing_restarted = none; routing_detail = none }

abbrev blank : Messages
blank = record { routing_not_live = none; routing_restarted = false }

report_all_warns_iff_example :
    ((report_all ((not_live ∷ []) ++ live ∷ []) blank).routing_not_live ≢ none)
    ↔ (live.routing_live ≡ some false)
report_all_warns_iff_example = report_all_warns_iff (not_live ∷ []) live blank

abbrev saved : PanelSettingsUpdate
saved = record settings_defaults { sub_port = num 8443; panel_tls_key = codes "secret" }

merge_panel_settings-read_back_example :
    merge_panel_settings (some (read_back saved true false)) no_overrides
    ≡ record saved { panel_tls_key = []; sub_key_pem = [] }
merge_panel_settings-read_back_example =
    merge_panel_settings-read_back saved true false (cons-ne-nil _ _)

abbrev brand_section : Overrides
brand_section = record no_overrides { sub_brand_name = some (codes " Brand ") }

abbrev dns_section : Overrides
dns_section = record no_overrides { xray_dns_query_strategy = some (codes "UseIPv4") }

-- The DNS section is refused between two that are stored.
abbrev unsaved : List DirtyHandle
unsaved =
    record { overrides = brand_section; outcome = Outcome.stored }
    ∷ record { overrides = dns_section; outcome = Outcome.refused }
    ∷ record { overrides = no_overrides; outcome = Outcome.stored }
    ∷ []

-- A backend that trims the name of the brand.
abbrev stored_row : PanelSettings → PanelSettingsUpdate → PanelSettings
stored_row row u = record (read_back u true false) { sub_brand_name = trim u.sub_brand_name }

abbrev page : SettingsPage
page = record { server = read_back saved true false; cache = read_back saved true false }

save_all_field_example :
    (save_all stored_row false unsaved page).server.sub_brand_name ≡ codes "Brand"
unfolding trim
save_all_field_example =
    save_all_field stored_row SettingsField.sub_brand_name trim trim_idem (λ row u. refl) unsaved
      page (refl, refl) ((λ e. ground arith), ((λ e. ground arith), ((λ e. ground arith), tt)))
