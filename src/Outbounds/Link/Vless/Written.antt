-- ===== src/Outbounds/Link/Vless/Written.antt =====
-- A VLESS link that spells given values is read as these values.
use rx_ui.Base.{[], Option, get_or}
use rx_ui.Js.Text.{Text}
use rx_ui.Js.Json.{Json}

module _ (decode : Text → Option Text) (search : Text → Text → Option Text)
    (json : Text → Option Json) (query : Text) where
  abbrev ask : Text → Text
  ask k = get_or (search query k) []
