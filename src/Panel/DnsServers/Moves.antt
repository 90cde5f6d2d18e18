-- ===== src/Panel/DnsServers/Moves.antt =====
-- Moving a resolver.
use rx_ui.Base.{
  ℕ, ◌≡◌, ◌<◌, ap, ◌∙◌, List, length, item_at, without, move_row, move_row_lem, move_row_back,
  length-move_row, arith,
}
use rx_ui.Api.Settings.{DnsServer}
use rx_ui.Panel.DnsServers.{move_server}

move_server_inside :
    (from to : ℕ) (list : List DnsServer)
    → to < length list
    → move_server from to list ≡ move_row from to list
unfolding move_server
move_server_inside from to list ht = ground arith

-- Moving a server inside the list puts it at its new place, keeps the order of the others, and is undone by
-- moving it back.
pub move_server_lem :
    (from to : ℕ) (list : List DnsServer)
    → from < length list
    → to < length list
    → (item_at to (move_server from to list) ≡ item_at from list)
      × (without to (move_server from to list) ≡ without from list)
      × (move_server to from (move_server from to list) ≡ list)
move_server_lem from to list hf ht =
    let m = move_server_inside from to list ht in
    let (p, q) = move_row_lem from to list hf ht in
    let n = length-move_row from to list hf in
    (
      ap (item_at to) m ∙ p,
      ap (without to) m ∙ q,
      ap (move_server to from) m
          ∙ move_server_inside to from (move_row from to list) (omega arith)
          ∙ move_row_back from to list hf ht,
    )
