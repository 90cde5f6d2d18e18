-- ===== src/Panel/ClientTests.antt =====
-- Concrete quotas, identifiers, clients and traffic headers.
use rx_ui.Base.{◌≡◌, true, false, List, [], ◌∷◌, some, none, IsSortedBy, sort_by, insert_by, arith}
use rx_ui.Js.Text.{behind_prefix, codes, text_eq, trim}
use rx_ui.Api.Client.{Client}
use rx_ui.Panel.Clients.{bytes_to_traffic_form, traffic_form_to_bytes}
use rx_ui.Panel.Clients.Laws.{traffic_form_to_bytes-shown}
use rx_ui.Panel.ClientGroups.{
  EnabledFilter, by_email, client_group, client_groups, contains, expires_first, known, max_limit,
  text_le, total_limit_of,
}
use rx_ui.Panel.ClientGroups.{is_shown}
use rx_ui.Base.{◌↔◌}
use rx_ui.Panel.ClientGroups.State.{IsInState, is_shown-client_group_iff}
use rx_ui.Panel.ClientGroups.Summary.{
  IsEarliest, IsEffectiveLimit, client_group_lem, text_le_total, text_le_trans,
}
use rx_ui.Panel.ClientGroups.Table.{
  HasDistinctEmails, client_groups-IsSortedBy, find_group, find_group-client_groups,
}
use rx_ui.Panel.Userinfo.{parse_userinfo, parse_userinfo-userinfo_text, userinfo_text}
use rx_ui.Js.Number.{num, parse_int}
use rx_ui.Js.Number.Decimal.{parse_int-print}
use rx_ui.Panel.Uuid.{Matches, uuid, uuid-Matches}

traffic_form_to_bytes-shown_example :
    traffic_form_to_bytes
      (bytes_to_traffic_form (some 5242881)).value
      (bytes_to_traffic_form (some 5242881)).unit
    ≡ some 5242881
traffic_form_to_bytes-shown_example = traffic_form_to_bytes-shown (some 5242881)

uuid-Matches_example : Matches (codes "xxxxxxxx-xxxx-4xxx-yxxx-xxxxxxxxxxxx") (uuid none (λ i. 171))
uuid-Matches_example = uuid-Matches (λ i. 171) (λ i. ground arith)

-- Two inbounds of one user, one of whom has run out, and another user.
abbrev ann : Client
ann = record {
  id = codes "1";
  inbound_id = codes "in-1";
  email = codes "Ann";
  uuid = codes "u";
  auth = none;
  flow = none;
  reverse_tag = none;
  enabled = true;
  note = none;
  traffic_limit_bytes = some 5;
  disabled_reason = none;
  expires_at = some (codes "2027");
  sub_token = codes "t";
  wg_private_key = none;
  wg_public_key = none;
  wg_address = none;
  wg_preshared_key = none;
  created_at = codes "2025";
  updated_at = codes "2025";
}

abbrev ann_again : Client
ann_again = record ann {
  id = codes "2";
  inbound_id = codes "in-2";
  enabled = false;
  disabled_reason = some (codes "quota");
  traffic_limit_bytes = some 7;
  expires_at = some (codes "2026");
}

abbrev bob : Client
bob = record ann { id = codes "3"; email = codes "bob"; traffic_limit_bytes = none }

abbrev stored : List Client
stored = bob ∷ ann ∷ ann_again ∷ []

find_group-client_groups_example :
    find_group
      (codes "Ann")
      (client_groups text_le (codes " ANN ") EnabledFilter.quota (λ _. false) stored)
    ≡ some (client_group (codes "Ann") (ann ∷ ann_again ∷ []))
unfolding client_group contains behind_prefix trim text_eq
find_group-client_groups_example =
    find_group-client_groups text_le (codes " ANN ") EnabledFilter.quota (λ _. false) stored
      (codes "Ann")

client_groups-IsSortedBy_example :
    HasDistinctEmails (client_groups text_le [] EnabledFilter.everyone (λ _. false) stored)
    × IsSortedBy
        (by_email text_le)
        (client_groups text_le [] EnabledFilter.everyone (λ _. false) stored)
client_groups-IsSortedBy_example =
    client_groups-IsSortedBy text_le [] EnabledFilter.everyone (λ _. false) stored text_le_total
      text_le_trans

client_group_lem_example :
    ((client_group (codes "Ann") (ann ∷ ann_again ∷ [])).email ≡ codes "Ann")
    × ((client_group (codes "Ann") (ann ∷ ann_again ∷ [])).rows ≡ ann ∷ ann_again ∷ [])
    × IsEarliest (ann ∷ ann_again ∷ []) (some (codes "2026"))
    × IsEffectiveLimit (ann ∷ ann_again ∷ []) (some 7)
unfolding client_group expires_first known sort_by insert_by text_le total_limit_of max_limit
client_group_lem_example = client_group_lem (codes "Ann") (ann ∷ ann_again ∷ [])

is_shown-client_group_iff_example :
    (is_shown EnabledFilter.quota (λ _. false) (client_group (codes "Ann") (ann ∷ ann_again ∷ []))
      ≡ true)
    ↔ IsInState EnabledFilter.quota (λ _. false) (codes "Ann") (ann ∷ ann_again ∷ [])
is_shown-client_group_iff_example =
    is_shown-client_group_iff EnabledFilter.quota (λ _. false) (codes "Ann") (ann ∷ ann_again ∷ [])

-- Bytes sent, bytes received, and no quota.
parse_userinfo-userinfo_text_example :
    parse_userinfo parse_int (userinfo_text (num 12) (num 3456) (num 0))
    ≡ record { upload = num 12; download = num 3456; total = num 0 }
parse_userinfo-userinfo_text_example =
    parse_userinfo-userinfo_text parse_int parse_int-print (num 12) (num 3456) (num 0) tt tt tt
