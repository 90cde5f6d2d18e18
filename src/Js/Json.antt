-- ===== src/Js/Json.antt =====
-- What `JSON.parse` yields, with the reads that the program makes of it. An object is the list of its
-- fields; `JSON.parse` leaves no name twice.
use rx_ui.Base.{Bool, true, false, not, List, [], ◌∷◌, Option, none, some, is_empty, if◌then◌else◌}
use rx_ui.Js.Text.{Text, codes, join, text_eq}
use rx_ui.Js.Number.{Number, nan, int, is_num, print}

mutual
  pub data Json : Type 0 where
    null : Json
    bool : Bool → Json
    number : Number → Json
    text : Text → Json
    array : Items → Json
    object : Fields → Json

  pub data Items : Type 0 where
    nil : Items
    cons : Json → Items → Items

  pub data Fields : Type 0 where
    end : Fields
    field : Text → Json → Fields → Fields

unfoldable pub field_in : Text → Fields → Option Json
field_in k Fields.end = none
field_in k (Fields.field j v fs) = if text_eq j k then some v else field_in k fs

-- `x[k]`, for names that no array and no string has a member of; `none` is undefined.
unfoldable pub field_of : Text → Json → Option Json
unfolding field_in
field_of k (Json.object fs) = field_in k fs
field_of k _ = none

-- `typeof x[k] === 'string' ? x[k] : ''`
unfoldable pub text_field : Text → Json → Text
unfolding field_of
text_field k x = elim (field_of k x) [ some (Json.text s) ↦ s | _ ↦ [] ]

-- `Array.isArray(x[k]) ? x[k] : []`
unfoldable pub array_field : Text → Json → Items
unfolding field_of
array_field k x = elim (field_of k x) [ some (Json.array xs) ↦ xs | _ ↦ Items.nil ]

-- `Boolean(x)`
abbrev pub is_truthy : Option Json → Bool
is_truthy none = false
is_truthy (some Json.null) = false
is_truthy (some (Json.bool b)) = b
is_truthy (some (Json.number nan)) = false
is_truthy (some (Json.number (int z))) = not (is_num 0 (int z))
is_truthy (some (Json.text s)) = not (is_empty s)
is_truthy (some (Json.array xs)) = true
is_truthy (some (Json.object fs)) = true

-- What `join` makes of an element, and of the elements of an array.
unfoldable mutual
  pub element_text : Json → Text
  element_text Json.null = []
  element_text (Json.bool true) = codes "true"
  element_text (Json.bool false) = codes "false"
  element_text (Json.number x) = print x
  element_text (Json.text s) = s
  element_text (Json.array xs) = join (codes ",") (element_texts xs)
  element_text (Json.object fs) = codes "[object Object]"

  pub element_texts : Items → List Text
  element_texts Items.nil = []
  element_texts (Items.cons x xs) = element_text x ∷ element_texts xs

-- `xs.map(f)`
abbrev pub map_items {ℓ} : {A : Type ℓ} → (Json → A) → Items → List A
map_items f Items.nil = []
map_items f (Items.cons x xs) = f x ∷ map_items f xs
