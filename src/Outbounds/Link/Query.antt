-- ===== src/Outbounds/Link/Query.antt =====
-- How the query of a link spells its values: `ask k` is what it holds under the name `k`, blank where it
-- holds nothing.
use rx_ui.Base.{ℕ, false, ◌≡◌, ◌≢◌, ◌⊎◌, refl, List, [], ◌∷◌, All, is_empty, arith, if◌then◌else◌}
use mathlib.Core.List.{cons-ne-nil}
use rx_ui.Js.Text.{Text, codes, join, split}
use rx_ui.Js.Text.Split.{Lacks, split-join}
use rx_ui.Inbounds.Values.{or_text, trimmed_items}
use rx_ui.Inbounds.Values.Laws.{IsFilledText, trimmed_items_of_IsFilled}

-- `x` is there and not blank, or it is `d` and left out.
abbrev pub SpellsOr : (Text → Text) → (k d x : Text) → Type 0
SpellsOr ask k d x = ((ask k ≡ x) × (x ≢ [])) ⊎ ((ask k ≡ []) × (x ≡ d))

pub or_text_of_SpellsOr :
    (ask : Text → Text) (k d x : Text) → SpellsOr ask k d x → or_text (ask k) d ≡ x
or_text_of_SpellsOr ask k d x h = ground arith

-- Trimmed names that are not blank and hold no comma, joined by commas.
abbrev pub SpellsAlpn : (Text → Text) → List Text → Type 0
SpellsAlpn ask alpn =
    (ask (codes "alpn") ≡ join (codes ",") alpn) × (All IsFilledText alpn × All (Lacks b',') alpn)

is_empty-join :
    (c : ℕ) (s : Text) (ps : List Text) → is_empty (join (codes ",") ((c ∷ s) ∷ ps)) ≡ false
unfolding join
is_empty-join c s [] = refl
is_empty-join c s (p ∷ ps) = refl

pub trimmed_items-join :
    (alpn : List Text)
    → All IsFilledText alpn
    → All (Lacks b',') alpn
    → (if is_empty (join (codes ",") alpn)
        then []
        else trimmed_items (split b',' (join (codes ",") alpn)))
      ≡ alpn
trimmed_items-join [] h k = unfold join in refl
trimmed_items-join ([] ∷ ps) ((_, ne), h) k = absurd (ne refl)
trimmed_items-join ((c ∷ s) ∷ ps) h k =
    rw (is_empty-join c s ps, split-join b',' ((c ∷ s) ∷ ps) (cons-ne-nil _ _) k)
      (trimmed_items_of_IsFilled ((c ∷ s) ∷ ps) h)
