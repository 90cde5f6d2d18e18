-- ===== src/Inbounds/Ranges/RoundTrip.antt =====
-- Rendered range lists are read back, and what is read is always of the kind that is rendered.
use rx_ui.Base.{
  ℕ, ◌≡◌, ◌≢◌, refl, ap, subst, ◌∙◌, List, [], ◌∷◌, ◌++◌, All, All-append, All-mono, All-map_of_All,
  append-ne-nil, map, arith,
}
use rx_ui.Js.Text.{Text, codes, is_space, trim, split, join}
use rx_ui.Js.Text.Trim.{trim-All, IsSolid, trim_of_IsSolid, trim-cons, trim-nil}
use rx_ui.Js.Text.Split.{Lacks, split_at_sep, split_whole, split-join_padded, split-Lacks}
use rx_ui.Js.Number.{Number, nan, int, num, print, parse_int}
use rx_ui.Js.Number.Decimal.{
  IsDigit, IsNatural, print-All, digits-IsSolid, parse_int-print, IsNaturalOrNan,
  parse_int-IsNaturalOrNan,
}
use rx_ui.Inbounds.Values.{trimmed_items}
use rx_ui.Inbounds.Values.Laws.{trimmed_items-cons}
use rx_ui.Inbounds.Ranges.{
  finite_or, rest_of, dash_numbers, range_of, collect_ranges, parse_ranges, range_text, range_texts,
  render_ranges,
}

-- Two parallel lists of natural numbers.
abbrev pub AreRanges : List Number → List Number → Type 0
AreRanges [] [] = Unit
AreRanges [] (x ∷ maxs) = ⊥
AreRanges (m ∷ mins) [] = ⊥
AreRanges (m ∷ mins) (x ∷ maxs) = IsNatural m × IsNatural x × AreRanges mins maxs

pub digits-Lacks : (c : ℕ) (s : Text) → ¬ IsDigit c → All IsDigit s → Lacks c s
digits-Lacks c s h d = All-mono IsDigit (λ e. e ≢ c) (λ e k p. h (subst IsDigit p k)) s d

module _ (a b : Text) (da : All IsDigit a) (db : All IsDigit b) where
  -- A dash between two numerals.
  dash_numbers_lem : dash_numbers (a ++ b'-' ∷ b) ≡ parse_int a ∷ parse_int b ∷ []
  unfolding dash_numbers
  dash_numbers_lem = rw (
    split_at_sep b'-' a b (digits-Lacks b'-' a (omega arith) da),
    split_whole b'-' b (digits-Lacks b'-' b (omega arith) db),
    trim_of_IsSolid a (digits-IsSolid a da),
    trim_of_IsSolid b (digits-IsSolid b db),
  )

  -- It holds no white space and no comma, and is not empty.
  dashed-IsItem : IsSolid (a ++ b'-' ∷ b) × Lacks b',' (a ++ b'-' ∷ b) × ((a ++ b'-' ∷ b) ≢ [])
  unfolding is_space
  dashed-IsItem = (
    All-append _ a (b'-' ∷ b) (digits-IsSolid a da) (refl, digits-IsSolid b db),
    All-append _ a (b'-' ∷ b) (digits-Lacks b',' a (omega arith) da)
        (omega arith, digits-Lacks b',' b (omega arith) db),
    append-ne-nil a b'-' b,
  )

finite_or_of_IsNatural :
    (m : Number) (rest : List Number) (d : Number) → IsNatural m → finite_or (m ∷ rest) d ≡ m
finite_or_of_IsNatural nan rest d h = absurd h
finite_or_of_IsNatural (int z) rest d h = refl

-- A range is read back from its text.
range_of-range_text :
    (m x : Number) → IsNatural m → IsNatural x → range_of (range_text m x) ≡ (m, x)
unfolding range_of
range_of-range_text m x hm hx =
    rw (dash_numbers_lem (print m) (print x) (print-All m hm) (print-All x hx)) (
      rw (parse_int-print m hm, parse_int-print x hx, finite_or_of_IsNatural x [] _ hx)
        (rw (finite_or_of_IsNatural m (x ∷ []) _ hm)))

-- A range as it is rendered: no white space and no comma, and not empty.
abbrev IsItem : Text → Type 0
IsItem s = IsSolid s × Lacks b',' s × (s ≢ [])

range_texts-IsItem :
    (mins maxs : List Number) → AreRanges mins maxs → All IsItem (range_texts mins maxs)
unfolding range_texts
range_texts-IsItem [] [] h = tt
range_texts-IsItem [] (x ∷ maxs) h = absurd h
range_texts-IsItem (m ∷ mins) [] h = absurd h
range_texts-IsItem (m ∷ mins) (x ∷ maxs) (hm, hx, h) = (
  dashed-IsItem (print m) (print x) (print-All m hm) (print-All x hx),
  range_texts-IsItem mins maxs h,
)

collect_ranges-range_texts :
    (mins maxs : List Number)
    → AreRanges mins maxs
    → collect_ranges (range_texts mins maxs) ≡ (mins, maxs)
unfolding collect_ranges range_texts
collect_ranges-range_texts [] [] h = refl
collect_ranges-range_texts [] (x ∷ maxs) h = absurd h
collect_ranges-range_texts (m ∷ mins) [] h = absurd h
collect_ranges-range_texts (m ∷ mins) (x ∷ maxs) (hm, hx, h) =
    rw (range_of-range_text m x hm hx, collect_ranges-range_texts mins maxs h)

trim_item : (p : Text) → IsSolid p → trim (codes " " ++ p) ≡ p
unfolding is_space
trim_item p h = trim-cons b' ' p refl ∙ trim_of_IsSolid p h

-- The items of a padded list, one space behind each comma.
trimmed_items-padded :
    (ps : List Text) → All IsItem ps → trimmed_items (map (λ q. codes " " ++ q) ps) ≡ ps
trimmed_items-padded [] h = unfold trimmed_items in refl
trimmed_items-padded (p ∷ ps) ((solid, _, ne), h) =
    trimmed_items-cons _ p _ (trim_item p solid) ne ∙ ap (λ r. p ∷ r) (trimmed_items-padded ps h)

trimmed_items-split-join :
    (ps : List Text) → All IsItem ps → trimmed_items (split b',' (join (codes ", ") ps)) ≡ ps
trimmed_items-split-join [] h = unfold join split trimmed_items in rw trim-nil
trimmed_items-split-join (p ∷ ps) ((solid, lacks, ne), h) =
    ap trimmed_items (
      split-join_padded b',' (codes " ") p ps (omega arith) lacks
        (All-mono IsItem (Lacks b',') (λ q k. k.1) ps h))
    ∙ trimmed_items-cons p p _ (trim_of_IsSolid p solid) ne
    ∙ ap (λ r. p ∷ r) (trimmed_items-padded ps h)

-- Two lists of natural numbers, as long as one another, are read back from the text of ranges that shows
-- them.
pub parse_ranges-render_ranges :
    (mins maxs : List Number)
    → AreRanges mins maxs
    → parse_ranges (render_ranges mins maxs) ≡ (mins, maxs)
unfolding parse_ranges render_ranges
parse_ranges-render_ranges mins maxs h =
    ap collect_ranges (trimmed_items-split-join _ (range_texts-IsItem mins maxs h))
    ∙ collect_ranges-range_texts mins maxs h

dash_numbers-IsNaturalOrNan : (s : Text) → All IsNaturalOrNan (dash_numbers s)
unfolding dash_numbers
dash_numbers-IsNaturalOrNan s =
    All-map_of_All IsNaturalOrNan (λ x. parse_int (trim x)) (Lacks b'-')
      (λ x h. parse_int-IsNaturalOrNan _ (trim-All _ x h)) _ (split-Lacks b'-' s)

finite_or-IsNatural :
    (ns : List Number) (d : Number)
    → All IsNaturalOrNan ns
    → IsNatural d
    → IsNatural (finite_or ns d)
finite_or-IsNatural [] d h hd = hd
finite_or-IsNatural (nan ∷ ns) d h hd = hd
finite_or-IsNatural (int z ∷ ns) d (hz, h) hd = hz

rest_of-All : (ns : List Number) → All IsNaturalOrNan ns → All IsNaturalOrNan (rest_of ns)
rest_of-All [] h = tt
rest_of-All (x ∷ ns) (_, h) = h

range_of-IsNatural : (s : Text) → IsNatural (range_of s).0 × IsNatural (range_of s).1
unfolding range_of
range_of-IsNatural s =
    let all = dash_numbers-IsNaturalOrNan s in
    let least = finite_or-IsNatural (dash_numbers s) (num 0) all tt in
    (least, finite_or-IsNatural (rest_of (dash_numbers s)) _ (rest_of-All _ all) least)

collect_ranges-AreRanges :
    (parts : List Text) → AreRanges (collect_ranges parts).0 (collect_ranges parts).1
unfolding collect_ranges
collect_ranges-AreRanges [] = tt
collect_ranges-AreRanges (p ∷ parts) =
    ((range_of-IsNatural p).0, (range_of-IsNatural p).1, collect_ranges-AreRanges parts)

-- Whatever the text, the two lists that are read from it are as long as one another, and hold natural
-- numbers.
pub parse_ranges-AreRanges : (s : Text) → AreRanges (parse_ranges s).0 (parse_ranges s).1
unfolding parse_ranges
parse_ranges-AreRanges s = collect_ranges-AreRanges (trimmed_items (split b',' s))
