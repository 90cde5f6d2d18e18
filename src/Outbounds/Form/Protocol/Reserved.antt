-- ===== src/Outbounds/Form/Protocol/Reserved.antt =====
-- WARP's client id, shown as text and read back.
use rx_ui.Base.{
  ◌≡◌, ◌≢◌, refl, ap, ap₂, ◌∙◌, true, false, List, [], ◌∷◌, ◌++◌, All, All-map_of_All, All-mono,
  filter, filter_kept, map, arith,
}
use rx_ui.Js.Text.{Text, codes, is_space, join, trim}
use rx_ui.Js.Text.Trim.{trim_of_IsSolid}
use rx_ui.Js.Number.{Number, is_finite, nan, int, print}
use rx_ui.Js.Number.Decimal.{IsDigit, IsNatural, digits-IsSolid, print-All, print-ne-nil}
use rx_ui.Inbounds.Values.{trimmed_items}
use rx_ui.Inbounds.Values.Laws.{IsFilledText, trimmed_items_of_IsFilled}
use rx_ui.Outbounds.Form.Protocol.{is_gap, parse_reserved, split_gaps, starts_with_gap}

abbrev IsUnbroken : Text → Type 0
IsUnbroken p = All (λ c. is_gap c ≡ false) p

split_gaps_whole : (p : Text) → IsUnbroken p → split_gaps p ≡ p ∷ []
unfolding split_gaps
split_gaps_whole [] h = refl
split_gaps_whole (c ∷ p) (hc, h) = ground (arith, split_gaps_whole p h)

split_gaps_at :
    (p rest : Text)
    → IsUnbroken p
    → starts_with_gap rest ≡ false
    → split_gaps (p ++ b',' ∷ b' ' ∷ rest) ≡ p ∷ split_gaps rest
unfolding split_gaps
split_gaps_at [] rest h e = ground arith
split_gaps_at (c ∷ p) rest (hc, h) e = ground (arith, split_gaps_at p rest h e)

abbrev IsPart : Text → Type 0
IsPart p = IsUnbroken p × (p ≢ [])

join-starts :
    (p : Text) (ps : List Text) → IsPart p → starts_with_gap (join (codes ", ") (p ∷ ps)) ≡ false
unfolding join
join-starts [] ps (h, ne) = absurd (ne refl)
join-starts (c ∷ p) [] (h, ne) = h.0
join-starts (c ∷ p) (q ∷ ps) (h, ne) = h.0

split_gaps-join :
    (p : Text) (ps : List Text)
    → All IsPart (p ∷ ps)
    → split_gaps (join (codes ", ") (p ∷ ps)) ≡ p ∷ ps
unfolding join
split_gaps-join p [] (hp, h) = split_gaps_whole p hp.0
split_gaps-join p (q ∷ ps) (hp, (hq, h)) =
    split_gaps_at p _ hp.0 (join-starts q ps hq) ∙ ap (λ r. p ∷ r) (split_gaps-join q ps (hq, h))

digit-no-gap : (c : _) → IsDigit c → is_gap c ≡ false
unfolding is_space
digit-no-gap c h = ground arith

print-IsPart : (x : Number) → IsNatural x → IsPart (print x)
print-IsPart x h = (All-mono IsDigit _ digit-no-gap (print x) (print-All x h), print-ne-nil x h)

print-IsFilled : (x : Number) → IsNatural x → IsFilledText (print x)
print-IsFilled x h =
    (trim_of_IsSolid (print x) (digits-IsSolid _ (print-All x h)), print-ne-nil x h)

IsNatural-finite : (x : Number) → IsNatural x → is_finite x ≡ true
IsNatural-finite nan h = absurd h
IsNatural-finite (int z) h = refl

module _ (read : Text → Number) (read-print : (x : Number) → IsNatural x → read (print x) ≡ x) where
  map-read-print : (xs : List Number) → All IsNatural xs → map read (map print xs) ≡ xs
  map-read-print [] h = refl
  map-read-print (x ∷ xs) (hx, h) = ap₂ (λ y ys. y ∷ ys) (read-print x hx) (map-read-print xs h)

  -- A list of natural numbers that is shown as text is read back, if `Number` reads every printed
  -- natural number.
  pub parse_reserved-join :
      (xs : List Number)
      → All IsNatural xs
      → parse_reserved read (join (codes ", ") (map print xs)) ≡ xs
  unfolding parse_reserved
  parse_reserved-join [] h = unfold join split_gaps trimmed_items trim in refl
  parse_reserved-join (x ∷ xs) h =
      let parts = All-map_of_All IsPart print IsNatural print-IsPart (x ∷ xs) h in
      let filled = All-map_of_All IsFilledText print IsNatural print-IsFilled (x ∷ xs) h in
      ap (λ ps. filter is_finite (map read (trimmed_items ps))) (split_gaps-join _ _ parts)
      ∙ ap (λ ps. filter is_finite (map read ps))
          (trimmed_items_of_IsFilled (map print (x ∷ xs)) filled)
      ∙ ap (filter is_finite) (map-read-print (x ∷ xs) h)
      ∙ filter_kept is_finite (x ∷ xs) (All-mono IsNatural _ IsNatural-finite (x ∷ xs) h)
