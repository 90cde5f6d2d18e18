-- ===== src/Inbounds/Values/Laws.antt =====
-- What the form's helpers send and what survives a trip through the form.
use rx_ui.Base.{◌≡◌, ◌≢◌, refl, true, List, [], ◌∷◌, Option, none, some, get_or, All, arith}
use rx_ui.Js.Text.{Text, trim}
use rx_ui.Js.Text.Trim.{trim_idem, trim-nil}
use rx_ui.Js.Number.{Number, nan, int, is_finite}
use rx_ui.Inbounds.Values.{or_null, or_null_num, non_empty, trimmed_items}

-- Text that the form would send as it stands: trimmed, and not blank.
abbrev pub IsFilledText : Text → Type 0
IsFilledText s = (trim s ≡ s) × (s ≢ [])

abbrev pub IsSettledText : Option Text → Type 0
IsSettledText none = Unit
IsSettledText (some s) = IsFilledText s

abbrev pub IsSettledList {ℓ} : {A : Type ℓ} → Option (List A) → Type ℓ
IsSettledList none = Unit
IsSettledList (some s) = s ≢ []

abbrev pub IsSettledNumber : Option Number → Type 0
IsSettledNumber none = Unit
IsSettledNumber (some x) = is_finite x ≡ true

pub or_null-get_or : (o : Option Text) → IsSettledText o → or_null (get_or o []) ≡ o
unfolding or_null
or_null-get_or none h = rw trim-nil
or_null-get_or (some []) (t, ne) = absurd (ne refl)
or_null-get_or (some (c ∷ s)) (t, ne) = rw t

pub or_null-IsSettled : (s : Text) → IsSettledText (or_null s)
unfolding or_null
or_null-IsSettled s = ground (arith, trim_idem s)

pub or_null_num_of_IsSettled : (o : Option Number) → IsSettledNumber o → or_null_num o ≡ o
unfolding or_null_num
or_null_num_of_IsSettled none h = refl
or_null_num_of_IsSettled (some nan) h = cc
or_null_num_of_IsSettled (some (int z)) h = refl

pub or_null_num-IsSettled : (o : Option Number) → IsSettledNumber (or_null_num o)
unfolding or_null_num
or_null_num-IsSettled none = tt
or_null_num-IsSettled (some nan) = tt
or_null_num-IsSettled (some (int z)) = refl

pub non_empty-get_or {ℓ} :
    {A : Type ℓ} (o : Option (List A)) → IsSettledList o → non_empty (get_or o []) ≡ o
non_empty-get_or none h = refl
non_empty-get_or (some []) ne = absurd (ne refl)
non_empty-get_or (some (c ∷ s)) ne = refl

pub some-ne-none {ℓ} : {A : Type ℓ} (a : A) → some a ≢ none
some-ne-none a h = cc

pub some-get_or {ℓ} : {A : Type ℓ} (o : Option A) (d : A) → o ≢ none → some (get_or o d) ≡ o
some-get_or none d h = absurd (h refl)
some-get_or (some a) d h = refl

pub non_empty-IsSettled {ℓ} : {A : Type ℓ} (s : List A) → IsSettledList (non_empty s)
non_empty-IsSettled [] = tt
non_empty-IsSettled (c ∷ s) = ground arith

pub trimmed_items-cons :
    (x y : Text) (xs : List Text)
    → trim x ≡ y
    → y ≢ []
    → trimmed_items (x ∷ xs) ≡ y ∷ trimmed_items xs
unfolding trimmed_items
trimmed_items-cons x y xs e ne = ground arith

pub trimmed_items_of_IsFilled : (xs : List Text) → All IsFilledText xs → trimmed_items xs ≡ xs
unfolding trimmed_items
trimmed_items_of_IsFilled [] h = refl
trimmed_items_of_IsFilled (x ∷ xs) ((t, ne), h) = ground (arith, trimmed_items_of_IsFilled xs h)

-- Whatever the list holds, only trimmed and non-blank items are sent.
pub trimmed_items-IsFilled : (xs : List Text) → All IsFilledText (trimmed_items xs)
unfolding trimmed_items
trimmed_items-IsFilled [] = tt
trimmed_items-IsFilled (x ∷ xs) = ground (arith, trim_idem x, trimmed_items-IsFilled xs)
