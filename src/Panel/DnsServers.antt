-- ===== src/Panel/DnsServers.antt =====
-- The resolver list of frontend/src/components/DnsServersField.tsx: what each server is for, how its
-- address is shown, and the changes to the list.
pub mod Roles
pub mod Address
pub mod Moves
use rx_ui.Base.{
  ℕ, zero, suc, ◌+◌, Bool, true, false, not, ◌&&◌, ◌||◌, ltb, ◌==◌, List, [], ◌∷◌, ◌++◌, Option,
  none, some, length, is_empty, item_at, map, move_row, if◌then◌else◌,
}
use rx_ui.Js.Text.{Text, codes, lower, text_eq, trim}
use rx_ui.Js.Number.{num}
use rx_ui.Api.Settings.{DnsServer}

abbrev pub empty_dns_server : DnsServer
empty_dns_server = record {
  address = [];
  port = num 0;
  domains = [];
  expect_ips = [];
  unexpected_ips = [];
  skip_fallback = false;
  final_query = false;
  timeout_ms = num 0;
  client_ip = [];
  query_strategy = [];
}

pub data Role : Type 0 where
  own rest back dead : Role

-- A server without domains of its own answers for anything.
abbrev pub is_general : DnsServer → Bool
is_general s = is_empty s.domains

-- `list.findIndex(…)`; `none` is -1.
unfoldable pub first_general : List DnsServer → Option ℕ
first_general [] = none
first_general (s ∷ list) = if is_general s then some 0 else after (first_general list)
  where
    after : Option ℕ → Option ℕ
    after none = none
    after (some n) = some (suc n)

-- `i === firstGeneral(list)`
abbrev pub is_index : ℕ → Option ℕ → Bool
is_index i none = false
is_index i (some n) = i == n

-- The role of the server at `i`; an index past the end has none.
unfoldable pub role_of : List DnsServer → ℕ → (parallel no_fallback : Bool) → Option Role
role_of list i parallel no_fallback = elim (item_at i list) [
  | none ↦ none
  | some s ↦ some (
      if not (is_general s)
      then Role.own
      else if parallel
      then Role.rest
      else if is_index i (first_general list)
      then Role.rest
      else if no_fallback
      then Role.dead
      else Role.back)
]

-- `move`, for a row of the list.
unfoldable pub move_server : ℕ → ℕ → List DnsServer → List DnsServer
move_server from to list = if ltb to (length list) then move_row from to list else list

-- The entry "custom" opens the dialog instead, and changes nothing.
unfoldable pub add_pick : Text → List DnsServer → List DnsServer
add_pick key list =
    if text_eq key (codes "custom")
    then list
    else list ++ record empty_dns_server { address = key } ∷ []
