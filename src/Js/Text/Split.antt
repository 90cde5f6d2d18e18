-- ===== src/Js/Text/Split.antt =====
-- Splitting a string that was joined.
use rx_ui.Base.{
  ℕ, ◌≡◌, ◌≢◌, refl, sym, ap, ◌∙◌, List, [], ◌∷◌, ◌++◌, All, All-append, map, arith, append_assoc,
}
use rx_ui.Js.Text.{Text, split, join}

abbrev pub Lacks : ℕ → Text → Type 0
Lacks sep s = All (λ c. c ≢ sep) s

append-join :
    (sep pad q : Text) (qs : List Text) → pad ++ join sep (q ∷ qs) ≡ join sep ((pad ++ q) ∷ qs)
unfolding join
append-join sep pad q [] = refl
append-join sep pad q (r ∷ qs) = sym (append_assoc pad q _)

module _ (sep : ℕ) where
  -- A part that lacks the separator ends where the separator stands.
  pub split_at_sep :
      (p rest : Text) → Lacks sep p → split sep (p ++ sep ∷ rest) ≡ p ∷ split sep rest
  unfolding split
  split_at_sep [] rest h = ground arith
  split_at_sep (c ∷ p) rest (hc, h) = ground (arith, split_at_sep p rest h)

  pub split_whole : (p : Text) → Lacks sep p → split sep p ≡ p ∷ []
  unfolding split
  split_whole [] h = refl
  split_whole (c ∷ p) (hc, h) = ground (arith, split_whole p h)

  -- Splitting a text that was joined by the separator alone gives the parts back.
  pub split-join :
      (ps : List Text) → ps ≢ [] → All (Lacks sep) ps → split sep (join (sep ∷ []) ps) ≡ ps
  unfolding join
  split-join [] h _ = absurd (h refl)
  split-join (p ∷ []) h (hp, _) = split_whole p hp
  split-join (p ∷ q ∷ ps) h (hp, hps) =
      rw (split_at_sep p _ hp) (rw (split-join (q ∷ ps) (ground arith) hps))

  -- Where the parts were joined by the separator and some padding, the padding begins every part
  -- but the first.
  pub split-join_padded :
      (pad p : Text) (ps : List Text)
      → Lacks sep pad
      → Lacks sep p
      → All (Lacks sep) ps
      → split sep (join (sep ∷ pad) (p ∷ ps)) ≡ p ∷ map (λ q. pad ++ q) ps
  unfolding join
  split-join_padded pad p [] hpad hp _ = split_whole p hp
  split-join_padded pad p (q ∷ qs) hpad hp (hq, hqs) =
      split_at_sep p _ hp
      ∙ ap (λ r. p ∷ split sep r) (append-join (sep ∷ pad) pad q qs)
      ∙ ap (λ r. p ∷ r) (split-join_padded pad (pad ++ q) qs hpad (All-append _ pad q hpad hq) hqs)

  -- No part of a split holds the separator.
  pub split-Lacks : (s : Text) → All (Lacks sep) (split sep s)
  unfolding split
  split-Lacks [] = (tt, tt)
  split-Lacks (c ∷ s) = ground (arith, split-Lacks s)
