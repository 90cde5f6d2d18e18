-- ===== src/Panel/Clients/Laws.antt =====
-- Quotas survive a trip through the form.
use rx_ui.Base.{ℕ, ◌≡◌, refl, ◌==◌, Option, none, some, arith, if◌then◌else◌}
use rx_ui.Panel.Clients.{bytes_to_traffic_form, traffic_form_to_bytes}

-- A quota of one byte or more that is shown in the form, and saved, is the same number of bytes, whatever
-- unit the form shows it in; none, and one of 0 bytes, are saved as none.
pub traffic_form_to_bytes-shown :
    (bytes : Option ℕ)
    → traffic_form_to_bytes (bytes_to_traffic_form bytes).value (bytes_to_traffic_form bytes).unit
      ≡ elim bytes [ none ↦ none | some n ↦ if n == 0 then none else some n ]
unfolding traffic_form_to_bytes bytes_to_traffic_form
traffic_form_to_bytes-shown none = refl
traffic_form_to_bytes-shown (some n) = ground arith
