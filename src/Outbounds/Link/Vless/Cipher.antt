-- ===== src/Outbounds/Link/Vless/Cipher.antt =====
-- The `encryption` parameter of a VLESS link.
use rx_ui.Base.{ℕ, ◌≡◌, ◌≢◌, refl, ap, ◌∙◌, List, [], ◌∷◌, ◌++◌, some, arith}
use mathlib.Core.List.{cons-ne-nil}
use rx_ui.Js.Text.{Text, codes, join, split, push_first, behind_prefix}
use rx_ui.Js.Text.Split.{Lacks, split_at_sep, split_whole}
use rx_ui.Inbounds.Values.{or_text}
use rx_ui.Outbounds.Link.Values.{LinkCipher}
use rx_ui.Outbounds.Link.Vless.{but_last, cipher_parts, drop, last_of, link_cipher, second_of}

split-ne-nil : (sep : ℕ) (s : Text) → split sep s ≢ []
unfolding split
split-ne-nil sep [] = cons-ne-nil _ _
split-ne-nil sep (c ∷ s) = ground arith

join-push_first :
    (sep : Text) (c : ℕ) (ps : List Text) → ps ≢ [] → join sep (push_first c ps) ≡ c ∷ join sep ps
unfolding join
join-push_first sep c [] h = absurd (h refl)
join-push_first sep c (p ∷ []) h = refl
join-push_first sep c (p ∷ q ∷ ps) h = refl

join-cons : (sep : Text) (ps : List Text) → ps ≢ [] → join sep ([] ∷ ps) ≡ sep ++ join sep ps
unfolding join
join-cons sep [] h = absurd (h refl)
join-cons sep (p ∷ ps) h = refl

-- The parts of a text, joined again, are the text.
join-split : (sep : ℕ) (s : Text) → join (sep ∷ []) (split sep s) ≡ s
unfolding split
join-split sep [] = unfold join in refl
join-split sep (c ∷ s) = ground (
  arith,
  join-split sep s,
  join-cons (sep ∷ []) (split sep s) (split-ne-nil sep s),
  join-push_first (sep ∷ []) c (split sep s) (split-ne-nil sep s),
)

-- Behind the last separator stands the last part.
split-append :
    (sep : ℕ) (s k : Text) → Lacks sep k → split sep (s ++ sep ∷ k) ≡ split sep s ++ k ∷ []
unfolding split
split-append sep [] k h = ground (arith, split_whole sep k h)
split-append sep (c ∷ s) k h =
    ground (arith, split-append sep s k h, pushed c (split sep s) (split-ne-nil sep s))
  where
    pushed :
        (c : ℕ) (ps : List Text) → ps ≢ [] → push_first c (ps ++ k ∷ []) ≡ push_first c ps ++ k ∷ []
    pushed c [] h = absurd (h refl)
    pushed c (p ∷ ps) h = refl

last_of-append : (x : Text) (ps : List Text) (k : Text) → last_of x (ps ++ k ∷ []) ≡ k
last_of-append x [] k = refl
last_of-append x (p ∷ ps) k = last_of-append p ps k

but_last-append : (ps : List Text) (k : Text) → but_last (ps ++ k ∷ []) ≡ ps
but_last-append [] k = refl
but_last-append (p ∷ []) k = refl
but_last-append (p ∷ q ∷ ps) k = ap (λ r. p ∷ r) (but_last-append (q ∷ ps) k)

abbrev sent : Text → Text → Text → LinkCipher
sent xor padding key = record { xor_mode = xor; client_key = key; padding = padding }

cipher_parts-append :
    (xor k : Text) (ps : List Text)
    → ps ≢ []
    → cipher_parts xor (ps ++ k ∷ []) ≡ sent xor (join (codes ".") ps) k
cipher_parts-append xor k [] h = absurd (h refl)
cipher_parts-append xor k (p ∷ []) h = unfold join in refl
cipher_parts-append xor k (p ∷ q ∷ ps) h =
    λ i. sent xor (join (codes ".") (but_last-append (p ∷ q ∷ ps) k i)) (last_of-append q ps k i)

-- `mlkem768x25519plus.XOR.0rtt.PADDING.KEY`
abbrev pub cipher_text : (xor padding key : Text) → Text
cipher_text xor padding key =
    codes "mlkem768x25519plus"
    ++ b'.' ∷ (xor ++ b'.' ∷ (codes "0rtt" ++ b'.' ∷ (padding ++ b'.' ∷ key)))

split-cipher_text :
    (xor padding key : Text)
    → Lacks b'.' xor
    → Lacks b'.' key
    → split b'.' (cipher_text xor padding key)
      ≡ codes "mlkem768x25519plus" ∷ xor ∷ codes "0rtt" ∷ (split b'.' padding ++ key ∷ [])
split-cipher_text xor padding key hx hk =
    split_at_sep b'.' (codes "mlkem768x25519plus") _ (ground arith)
    ∙ ap (λ r. codes "mlkem768x25519plus" ∷ r)
        (split_at_sep b'.' xor _ hx
          ∙ ap (λ r. xor ∷ r)
              (split_at_sep b'.' (codes "0rtt") _ (ground arith)
                ∙ ap (λ r. codes "0rtt" ∷ r) (split-append b'.' padding key hk)))

-- A cipher that a link spells `mlkem768x25519plus.XOR.0rtt.PADDING.KEY` is read as it is written, if XOR is
-- not empty and neither XOR nor KEY holds a dot; PADDING may hold dots.
pub link_cipher-cipher_text :
    (xor padding key : Text)
    → xor ≢ []
    → Lacks b'.' xor
    → Lacks b'.' key
    → link_cipher (cipher_text xor padding key)
      ≡ some (record { xor_mode = xor; client_key = key; padding = padding })
unfolding link_cipher behind_prefix
link_cipher-cipher_text [] padding key ne hx hk = absurd (ne refl)
link_cipher-cipher_text (c ∷ xor) padding key ne hx hk =
    ap (λ parts. some (cipher_parts (or_text (second_of parts) (codes "native")) (drop 3 parts)))
      (split-cipher_text (c ∷ xor) padding key hx hk)
    ∙ ap some (
        cipher_parts-append (c ∷ xor) key (split b'.' padding) (split-ne-nil b'.' padding)
        ∙ ap (λ p. sent (c ∷ xor) p key) (join-split b'.' padding))
