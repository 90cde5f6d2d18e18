-- ===== src/Inbounds/Values.antt =====
-- The helpers at the end of frontend/src/pages/Inbounds/form/adapters.ts: values that the form holds
-- blank and the payload holds as null, and header lists.
pub mod Laws
pub mod Headers
use rx_ui.Base.{List, [], ◌∷◌, Option, none, some, map, is_empty, filter, not, if◌then◌else◌}
use rx_ui.Js.Text.{Text, trim}
use rx_ui.Js.Number.{Number, nan, int}
use rx_ui.Js.Object.{Object, put}
use rx_ui.Inbounds.Form.{HeaderRow}

unfoldable pub or_null : Text → Option Text
or_null s = if is_empty (trim s) then none else some (trim s)

unfoldable pub or_null_num : Option Number → Option Number
or_null_num none = none
or_null_num (some nan) = none
or_null_num (some (int z)) = some (int z)

-- `s || null`, for a string and for a list whose length is tested.
abbrev pub non_empty {ℓ} : {A : Type ℓ} → List A → Option (List A)
non_empty [] = none
non_empty (x ∷ xs) = some (x ∷ xs)

-- `s || d`
abbrev pub or_text : Text → Text → Text
or_text [] d = d
or_text (c ∷ s) d = c ∷ s

-- `xs.map((s) => s.trim()).filter(Boolean)`
unfoldable pub trimmed_items : List Text → List Text
trimmed_items xs = filter (λ s. not (is_empty s)) (map trim xs)

-- One round of the loop of `collapseHeaders`.
abbrev pub add_header : Object Text → HeaderRow → Object Text
add_header out h = let k = trim h.name in if is_empty k then out else put k h.value out

collapse_from : Object Text → List HeaderRow → Object Text
collapse_from out [] = out
collapse_from out (h ∷ rows) = collapse_from (add_header out h) rows

unfoldable pub collapse_headers : List HeaderRow → Object Text
unfolding collapse_from
collapse_headers rows = collapse_from [] rows

-- `Object.entries(h).map(([name, value]) => ({ name, value }))`
abbrev pub header_rows : Object Text → List HeaderRow
header_rows h = map (λ e. record { name = e.0; value = e.1 }) h

-- `h ? Object.entries(h).map(…) : []`
abbrev pub stored_rows : Option (Object Text) → List HeaderRow
stored_rows none = []
stored_rows (some h) = header_rows h
