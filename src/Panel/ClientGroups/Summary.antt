-- ===== src/Panel/ClientGroups/Summary.antt =====
-- What a group says of its rows: the first expiry, and the quota.
use rx_ui.Base.{
  ℕ, ◌≤◌, ◌≡◌, ◌≢◌, ◌⊎◌, refl, sym, ap, ◌∙◌, true, false, leb, List, [], ◌∷◌, Option, none, some,
  get_or, any, first, All, All-mono, sort_by, sort_by-All, sort_by-All_back, sort_by-IsSortedBy,
  IsSortedBy, subst, arith, Bool-cases, Option-cases, inl, inr,
}
use rx_ui.Js.Text.{Text}
use rx_ui.Api.Client.{Client}
use rx_ui.Panel.ClientGroups.{
  client_group, expires_first, is_unlimited, known, max_limit, max_of, text_le, total_limit_of,
}

pub text_le_total : (s t : Text) → text_le s t ≡ false → text_le t s ≡ true
unfolding text_le
text_le_total [] t h = ground arith
text_le_total (c ∷ s) [] h = refl
text_le_total (c ∷ s) (d ∷ t) h = ground (arith, text_le_total s t)

text_le_refl : (s : Text) → text_le s s ≡ true
unfolding text_le
text_le_refl [] = refl
text_le_refl (c ∷ s) = ground (arith, text_le_refl s)

pub text_le_trans : (s t u : Text) → text_le s t ≡ true → text_le t u ≡ true → text_le s u ≡ true
unfolding text_le
text_le_trans [] t u h k = refl
text_le_trans (c ∷ s) [] u h k = ground arith
text_le_trans (c ∷ s) (d ∷ t) [] h k = ground arith
text_le_trans (c ∷ s) (d ∷ t) (e ∷ u) h k = ground (arith, text_le_trans s t u)

-- Every expiry of the row satisfies `P`.
abbrev Expires : (Text → Type 0) → Client → Type 0
Expires P c = (t : Text) → c.expires_at ≡ some t → P t

-- None where no row expires; else an expiry of a row that is at most every other.
abbrev pub IsEarliest : List Client → Option Text → Type 0
IsEarliest rows none = All (λ c. c.expires_at ≡ none) rows
IsEarliest rows (some e) =
    (¬ All (λ c. c.expires_at ≢ some e) rows)
    × All (λ c. (t : Text) → c.expires_at ≡ some t → text_le e t ≡ true) rows

module _ (P : Text → Type 0) where
  known-All : (rows : List Client) → All (Expires P) rows → All P (known (λ c. c.expires_at) rows)
  unfolding known
  known-All [] h = tt
  known-All (c ∷ rows) (hc, h) = elim (Option-cases c.expires_at) [
    | inl e ↦ rw e (known-All rows h)
    | inr (t, e) ↦ rw e (hc t e, known-All rows h)
  ]

  known-All_back :
      (rows : List Client) → All P (known (λ c. c.expires_at) rows) → All (Expires P) rows
  unfolding known
  known-All_back [] h = tt
  known-All_back (c ∷ rows) h =
      let back : All P (known (λ x. x.expires_at) (c ∷ rows)) → All (Expires P) (c ∷ rows) =
        elim (Option-cases c.expires_at) [
          | inl e ↦ rw e (λ k. ((λ u q. ground arith), known-All_back rows k))
          | inr (t, e) ↦
              rw e (λ k. ((λ u q. subst (λ o. P (get_or o u)) q k.0), known-All_back rows k.1))
        ] in
      back h

first-IsEarliest :
    (rows : List Client) (ys : List Text)
    → sort_by text_le (known (λ c. c.expires_at) rows) ≡ ys
    → IsEarliest rows (first ys)
first-IsEarliest rows [] e =
    let empty =
      sort_by-All_back text_le (λ _. ⊥) (known (λ c. c.expires_at) rows)
        (subst (All (λ _. ⊥)) (sym e) tt) in
    All-mono (Expires (λ _. ⊥)) (λ c. c.expires_at ≡ none) never rows
      (known-All_back (λ _. ⊥) rows empty)
  where
    never : (c : Client) → Expires (λ _. ⊥) c → c.expires_at ≡ none
    never c h = elim (Option-cases c.expires_at) [ inl e ↦ e | inr (t, e) ↦ absurd (h t e) ]
first-IsEarliest rows (t ∷ ys) e =
    let ts = known (λ c. c.expires_at) rows in
    let sorted : IsSortedBy text_le (t ∷ ys) =
      subst (IsSortedBy text_le) e (sort_by-IsSortedBy text_le text_le_total text_le_trans ts) in
    (
      (λ nope.
          let others =
            sort_by-All text_le (λ u. u ≢ t) ts
              (known-All (λ u. u ≢ t) rows
                (All-mono (λ c. c.expires_at ≢ some t) (Expires (λ u. u ≢ t))
                  (λ c k u q r. k (q ∙ ap some r)) rows nope)) in
          (subst (All (λ u. u ≢ t)) e others).0 refl),
      known-All_back (λ u. text_le t u ≡ true) rows
          (sort_by-All_back text_le (λ u. text_le t u ≡ true) ts
            (subst (All (λ u. text_le t u ≡ true)) (sym e) (text_le_refl t, sorted.0))),
    )

-- None where a row has no quota; else at least the quota of every row, and that of one of them.
abbrev pub IsEffectiveLimit : List Client → Option ℕ → Type 0
IsEffectiveLimit rows none = ¬ All (λ c. c.traffic_limit_bytes ≢ none) rows
IsEffectiveLimit rows (some m) =
    All (λ c. (l : ℕ) × ((c.traffic_limit_bytes ≡ some l) × (l ≤ m))) rows
    × ((rows ≡ []) ⊎ (¬ All (λ c. c.traffic_limit_bytes ≢ some m) rows))

any-is_unlimited :
    (rows : List Client)
    → any is_unlimited rows ≡ true
    → ¬ All (λ c. c.traffic_limit_bytes ≢ none) rows
any-is_unlimited [] e h = ground arith
any-is_unlimited (c ∷ rows) e (hc, h) = elim (Option-cases c.traffic_limit_bytes) [
  | inl k ↦ hc k
  | inr (l, k) ↦ any-is_unlimited rows (ground arith) h
]

-- The quotas of rows that all have one are at most `m`, if they are so with 0 for those that have none.
unlimited-All :
    (m : ℕ) (rows : List Client)
    → any is_unlimited rows ≡ false
    → All (λ c. get_or c.traffic_limit_bytes 0 ≤ m) rows
    → All (λ c. (l : ℕ) × ((c.traffic_limit_bytes ≡ some l) × (l ≤ m))) rows
unlimited-All m [] e h = tt
unlimited-All m (c ∷ rows) e (hc, h) = elim (Option-cases c.traffic_limit_bytes) [
  | inl k ↦ ground arith
  | inr (l, k) ↦ ((l, (k, ground arith)), unlimited-All m rows (ground arith) h)
]

max_limit_least :
    (acc : ℕ) (rows : List Client)
    → (acc ≤ max_limit acc rows)
      × All (λ c. get_or c.traffic_limit_bytes 0 ≤ max_limit acc rows) rows
unfolding max_limit
max_limit_least acc [] = (omega arith, tt)
max_limit_least acc (c ∷ rows) =
    let (a, r) = max_limit_least (max_of acc (get_or c.traffic_limit_bytes 0)) rows in
    (ground arith, (ground arith, r))

max_limit_reached :
    (acc : ℕ) (rows : List Client)
    → (max_limit acc rows ≡ acc)
      ⊎ (¬ All (λ c. get_or c.traffic_limit_bytes 0 ≢ max_limit acc rows) rows)
unfolding max_limit
max_limit_reached acc [] = inl refl
max_limit_reached acc (c ∷ rows) =
    let l = get_or c.traffic_limit_bytes 0 in
    elim (max_limit_reached (max_of acc l) rows) [
      | inr n ↦ inr (λ h. n h.1)
      | inl e ↦ elim (Bool-cases (leb acc l)) [
        | inl k ↦ inr (λ h. h.0 (sym (e ∙ rw k refl)))
        | inr k ↦ inl (e ∙ rw k refl)
      ]
    ]

reached_by :
    (m : ℕ) (rows : List Client)
    → any is_unlimited rows ≡ false
    → All (λ c. c.traffic_limit_bytes ≢ some m) rows
    → All (λ c. get_or c.traffic_limit_bytes 0 ≢ m) rows
reached_by m [] e h = tt
reached_by m (c ∷ rows) e (hc, h) = elim (Option-cases c.traffic_limit_bytes) [
  | inl k ↦ ground arith
  | inr (l, k) ↦ (ground arith, reached_by m rows (ground arith) h)
]

limit_reached :
    (rows : List Client)
    → any is_unlimited rows ≡ false
    → (rows ≡ []) ⊎ (¬ All (λ c. c.traffic_limit_bytes ≢ some (max_limit 0 rows)) rows)
unfolding max_limit
limit_reached [] e = inl refl
limit_reached (c ∷ rows) e =
    let m = max_limit 0 (c ∷ rows) in
    inr (λ h.
      let k = reached_by m (c ∷ rows) e h in
      elim (max_limit_reached (max_of 0 (get_or c.traffic_limit_bytes 0)) rows) [
        | inl q ↦ k.0 (ground arith)
        | inr n ↦ n k.1
      ])

total_limit_of-IsEffectiveLimit : (rows : List Client) → IsEffectiveLimit rows (total_limit_of rows)
unfolding total_limit_of
total_limit_of-IsEffectiveLimit rows = elim (Bool-cases (any is_unlimited rows)) [
  | inl e ↦ rw e (any-is_unlimited rows e)
  | inr e ↦
      rw e
        (unlimited-All (max_limit 0 rows) rows e (max_limit_least 0 rows).1, limit_reached rows e)
]

-- A group has the email and the rows that it is made of. It expires with the first of its rows, in the order
-- of the code units of their dates, and never if no row does. Its quota is the largest of its rows, which no
-- row exceeds and one of them has, and none if a row has none.
pub client_group_lem :
    (email : Text) (rows : List Client)
    → ((client_group email rows).email ≡ email)
      × ((client_group email rows).rows ≡ rows)
      × IsEarliest rows (client_group email rows).expires_at
      × IsEffectiveLimit rows (client_group email rows).total_limit
unfolding client_group expires_first
client_group_lem email rows = (
  refl,
  refl,
  first-IsEarliest rows (sort_by text_le (known (λ c. c.expires_at) rows)) refl,
  total_limit_of-IsEffectiveLimit rows,
)
