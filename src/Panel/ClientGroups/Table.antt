-- ===== src/Panel/ClientGroups/Table.antt =====
-- What the table lists: one row for each email that is searched for and in the state asked for, sorted.
use rx_ui.Base.{
  ◌≡◌, ◌≢◌, refl, sym, ap, subst, ◌∙◌, Bool, true, false, List, [], ◌∷◌, Option, none, some, filter,
  map, All, IsSortedBy, insert_by, sort_by, insert_by-All, sort_by-All, sort_by-IsSortedBy, arith,
  Bool-cases, inl, inr, if◌then◌else◌,
}
use rx_ui.Js.Text.{Text, lower, text_eq, trim}
use rx_ui.Js.Text.Trim.{text_eq_iff}
use rx_ui.Js.Object.{HasDistinctKeys, Keys, Object, lookup}
use rx_ui.Api.Client.{Client}
use rx_ui.Panel.ClientGroups.{
  ClientGroup, EnabledFilter, by_email, client_group, client_groups, group_from, is_searched,
  is_shown, shown_groups,
}
use rx_ui.Panel.ClientGroups.Rows.{group_from-HasDistinctKeys, lookup-grouped, rows_of, unless_none}

-- The row of an email.
abbrev pub find_group : Text → List ClientGroup → Option ClientGroup
find_group k [] = none
find_group k (g ∷ gs) = if text_eq g.email k then some g else find_group k gs

-- No row has the email `k`.
abbrev pub Misses : Text → List ClientGroup → Type 0
Misses k gs = All (λ g. g.email ≢ k) gs

abbrev pub HasDistinctEmails : List ClientGroup → Type 0
HasDistinctEmails [] = Unit
HasDistinctEmails (g ∷ gs) = Misses g.email gs × HasDistinctEmails gs

module _ (state : EnabledFilter) (is_online : Text → Bool) where
  -- The group of an email, where it is shown.
  abbrev pub group_shown : Text → Option (List Client) → Option ClientGroup
  group_shown k none = none
  group_shown k (some rows) =
      if is_shown state is_online (client_group k rows) then some (client_group k rows) else none

  shown_groups-Misses :
      (k : Text) (o : Object (List Client))
      → Keys (λ j. j ≢ k) o
      → Misses k (shown_groups state is_online o)
  unfolding shown_groups client_group
  shown_groups-Misses k [] h = tt
  shown_groups-Misses k ((j, rows) ∷ o) (hj, h) =
      elim (Bool-cases (is_shown state is_online (client_group j rows))) [
        | inl e ↦ rw e (hj, shown_groups-Misses k o h)
        | inr e ↦ rw e (shown_groups-Misses k o h)
      ]

  shown_groups-HasDistinctEmails :
      (o : Object (List Client))
      → HasDistinctKeys o
      → HasDistinctEmails (shown_groups state is_online o)
  unfolding shown_groups client_group
  shown_groups-HasDistinctEmails [] h = tt
  shown_groups-HasDistinctEmails ((j, rows) ∷ o) (hj, h) =
      elim (Bool-cases (is_shown state is_online (client_group j rows))) [
        | inl e ↦ rw e (shown_groups-Misses j o hj, shown_groups-HasDistinctEmails o h)
        | inr e ↦ rw e (shown_groups-HasDistinctEmails o h)
      ]

find_group_missing : (k : Text) (gs : List ClientGroup) → Misses k gs → find_group k gs ≡ none
find_group_missing k [] h = refl
find_group_missing k (g ∷ gs) (hg, h) =
    ground (arith, text_eq_iff g.email k, find_group_missing k gs h)

module _ (state : EnabledFilter) (is_online : Text → Bool) where
  find_group-shown_groups :
      (k : Text) (o : Object (List Client))
      → HasDistinctKeys o
      → find_group k (shown_groups state is_online o) ≡ group_shown state is_online k (lookup k o)
  unfolding shown_groups client_group lookup
  find_group-shown_groups k [] h = refl
  find_group-shown_groups k ((j, rows) ∷ o) (hj, h) = elim (Bool-cases (text_eq j k)) [
    | inl e ↦
        let same : j ≡ k = (text_eq_iff j k).0 e in
        let missing =
          find_group_missing k (shown_groups state is_online o)
            (shown_groups-Misses state is_online k o (subst (λ i. Keys (λ l. l ≢ i) o) same hj)) in
        let here : find_group k (shown_groups state is_online ((j, rows) ∷ o))
            ≡ group_shown state is_online j (some rows) =
          elim (Bool-cases (is_shown state is_online (client_group j rows))) [
            | inl s ↦ rw (s, e) refl
            | inr s ↦ rw s missing
          ] in
        rw e (here ∙ ap (λ i. group_shown state is_online i (some rows)) same)
    | inr e ↦
        let rest = find_group-shown_groups k o h in
        elim (Bool-cases (is_shown state is_online (client_group j rows))) [
          | inl s ↦ rw (s, e) rest
          | inr s ↦ rw (s, e) rest
        ]
  ]

module _ (le : ClientGroup → ClientGroup → Bool) where
  find_group-insert_by :
      (k : Text) (g : ClientGroup) (gs : List ClientGroup)
      → Misses g.email gs
      → find_group k (insert_by le g gs) ≡ find_group k (g ∷ gs)
  unfolding insert_by
  find_group-insert_by k g [] h = refl
  find_group-insert_by k g (x ∷ gs) (hx, h) =
      let rest = find_group-insert_by k g gs h in
      ground (arith, rest, text_eq_iff x.email k, text_eq_iff g.email k)

  find_group-sort_by :
      (k : Text) (gs : List ClientGroup)
      → HasDistinctEmails gs
      → find_group k (sort_by le gs) ≡ find_group k gs
  unfolding sort_by
  find_group-sort_by k [] h = refl
  find_group-sort_by k (g ∷ gs) (hg, h) =
      find_group-insert_by k g (sort_by le gs) (sort_by-All le (λ x. x.email ≢ g.email) gs hg)
      ∙ ap (λ o. if text_eq g.email k then some g else o) (find_group-sort_by k gs h)

  insert_by-HasDistinctEmails :
      (g : ClientGroup) (gs : List ClientGroup)
      → Misses g.email gs
      → HasDistinctEmails gs
      → HasDistinctEmails (insert_by le g gs)
  unfolding insert_by
  insert_by-HasDistinctEmails g [] h d = (tt, tt)
  insert_by-HasDistinctEmails g (x ∷ gs) (hx, h) (dx, d) = elim (Bool-cases (le g x)) [
    | inl e ↦ rw e ((hx, h), (dx, d))
    | inr e ↦ rw e (
      insert_by-All le (λ y. y.email ≢ x.email) g gs (λ q. hx (sym q)) dx,
      insert_by-HasDistinctEmails g gs h d,
    )
  ]

  sort_by-HasDistinctEmails :
      (gs : List ClientGroup) → HasDistinctEmails gs → HasDistinctEmails (sort_by le gs)
  unfolding sort_by
  sort_by-HasDistinctEmails [] h = tt
  sort_by-HasDistinctEmails (g ∷ gs) (hg, h) =
      insert_by-HasDistinctEmails g (sort_by le gs) (sort_by-All le (λ x. x.email ≢ g.email) gs hg)
        (sort_by-HasDistinctEmails gs h)

module _ (le : Text → Text → Bool) (email_filter : Text) (state : EnabledFilter)
    (is_online : Text → Bool) (clients : List Client) where
  abbrev searched : List Client
  searched = filter (is_searched (map lower (trim email_filter))) clients

  -- Under every email, the table has the group of the clients of that email that the search finds, in
  -- their order, if there are any and the group is in the state asked for; else it has no such row.
  pub find_group-client_groups :
      (k : Text)
      → find_group k (client_groups le email_filter state is_online clients)
        ≡ group_shown state is_online k
            (unless_none (rows_of k (filter (is_searched (map lower (trim email_filter))) clients)))
  unfolding client_groups
  find_group-client_groups k =
      let o = group_from [] searched in
      let d = group_from-HasDistinctKeys [] searched tt in
      find_group-sort_by (by_email le) k (shown_groups state is_online o)
        (shown_groups-HasDistinctEmails state is_online o d)
      ∙ find_group-shown_groups state is_online k o d
      ∙ ap (group_shown state is_online k) (lookup-grouped k searched)

  -- The emails of the table differ from one another, and the rows are in the order of their emails, if
  -- that order is total and transitive.
  pub client_groups-IsSortedBy :
      ((a b : Text) → le a b ≡ false → le b a ≡ true)
      → ((a b c : Text) → le a b ≡ true → le b c ≡ true → le a c ≡ true)
      → HasDistinctEmails (client_groups le email_filter state is_online clients)
        × IsSortedBy (by_email le) (client_groups le email_filter state is_online clients)
  unfolding client_groups
  client_groups-IsSortedBy total trans =
      let o = group_from [] searched in
      let shown = shown_groups state is_online o in
      (
        sort_by-HasDistinctEmails (by_email le) shown (
            shown_groups-HasDistinctEmails state is_online o
              (group_from-HasDistinctKeys [] searched tt)),
        sort_by-IsSortedBy (by_email le) (λ x y. total x.email y.email)
            (λ x y z. trans x.email y.email z.email) shown,
      )
