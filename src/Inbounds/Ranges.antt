-- ===== src/Inbounds/Ranges.antt =====
-- The comma-separated "min-max" lists of the fragment mask: `parseRanges` of `buildFinalMask` and the
-- rendering in `hydrateFinalMask` (frontend/src/pages/Inbounds/form/adapters.ts).
pub mod RoundTrip
use rx_ui.Base.{ℕ, List, [], ◌∷◌, ◌++◌, map}
use rx_ui.Js.Text.{Text, codes, trim, split, join}
use rx_ui.Js.Number.{Number, nan, int, num, print, parse_int}
use rx_ui.Inbounds.Values.{trimmed_items}

-- `Number.isFinite(x) ? x : d`, where a missing element is not finite.
abbrev pub finite_or : List Number → Number → Number
finite_or [] d = d
finite_or (nan ∷ _) d = d
finite_or (int z ∷ _) d = int z

abbrev pub rest_of : List Number → List Number
rest_of [] = []
rest_of (x ∷ xs) = xs

-- `s.split('-').map((x) => Number.parseInt(x.trim(), 10))`
pub dash_numbers : Text → List Number
dash_numbers s = map (λ x. parse_int (trim x)) (split b'-' s)

-- "100" is (100, 100), "3-5" is (3, 5); what is no number counts as 0, or as the minimum.
pub range_of : Text → Number × Number
range_of part =
    let ns = dash_numbers part in
    let least = finite_or ns (num 0) in (least, finite_or (rest_of ns) least)

pub collect_ranges : List Text → List Number × List Number
collect_ranges [] = ([], [])
collect_ranges (part ∷ parts) =
    let rest = collect_ranges parts in ((range_of part).0 ∷ rest.0, (range_of part).1 ∷ rest.1)

pub parse_ranges : Text → List Number × List Number
parse_ranges s = collect_ranges (trimmed_items (split b',' s))

-- `${min}-${max}`
abbrev pub range_text : Number → Number → Text
range_text least most = print least ++ b'-' ∷ print most

-- `mins.map((min, i) => …)`: a missing maximum is the minimum.
pub range_texts : List Number → List Number → List Text
range_texts [] maxs = []
range_texts (m ∷ mins) [] = range_text m m ∷ range_texts mins []
range_texts (m ∷ mins) (x ∷ maxs) = range_text m x ∷ range_texts mins maxs

pub render_ranges : List Number → List Number → Text
unfolding range_texts
render_ranges mins maxs = join (codes ", ") (range_texts mins maxs)
