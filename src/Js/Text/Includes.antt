-- ===== src/Js/Text/Includes.antt =====
-- Membership of a text in a list, `xs.includes(t)`, and lists without repetition.
use rx_ui.Base.{◌≡◌, refl, Bool, true, false, ◌&&◌, ◌||◌, List, [], ◌∷◌, ◌++◌, filter, arith}
use rx_ui.Js.Text.{Text, text_eq}
use rx_ui.Js.Text.Trim.{text_eq_iff, text_eq_refl}

unfoldable pub includes : Text → List Text → Bool
includes t [] = false
includes t (x ∷ xs) = text_eq x t || includes t xs

abbrev pub IsDistinct : List Text → Type 0
IsDistinct [] = Unit
IsDistinct (x ∷ xs) = (includes x xs ≡ false) × IsDistinct xs

pub includes-append :
    (t : Text) (xs ys : List Text) → includes t (xs ++ ys) ≡ (includes t xs || includes t ys)
unfolding includes
includes-append t [] ys = refl
includes-append t (x ∷ xs) ys = ground (arith, includes-append t xs ys)

pub includes-filter :
    (p : Text → Bool) (t : Text) (xs : List Text)
    → includes t (filter p xs) ≡ (includes t xs && p t)
unfolding includes
includes-filter p t [] = refl
includes-filter p t (x ∷ xs) = ground (arith, includes-filter p t xs, text_eq_iff x t)

pub filter-IsDistinct :
    (p : Text → Bool) (xs : List Text) → IsDistinct xs → IsDistinct (filter p xs)
filter-IsDistinct p [] h = tt
filter-IsDistinct p (x ∷ xs) (hx, h) =
    ground (arith, includes-filter p x xs, filter-IsDistinct p xs h)

-- Lists that share no text, each without repetition, have none when they are joined.
pub append-IsDistinct :
    (xs ys : List Text)
    → IsDistinct xs
    → IsDistinct ys
    → ((t : Text) → includes t xs ≡ true → includes t ys ≡ false)
    → IsDistinct (xs ++ ys)
unfolding includes
append-IsDistinct [] ys hx hy d = hy
append-IsDistinct (x ∷ xs) ys (hx, h) hy d = (
  ground (arith, includes-append x xs ys, d x, text_eq_refl x),
  append-IsDistinct xs ys h hy (λ t k. d t (ground arith)),
)

-- A filter that no member passes keeps nothing.
pub filter_none :
    (p : Text → Bool) (xs : List Text)
    → ((t : Text) → includes t xs ≡ true → p t ≡ false)
    → filter p xs ≡ []
unfolding includes
filter_none p [] h = refl
filter_none p (x ∷ xs) h =
    ground (arith, h x, text_eq_refl x, filter_none p xs (λ t k. h t (ground arith)))
