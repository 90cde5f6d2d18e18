-- ===== src/Panel/ClientGroups/Rows.antt =====
-- Grouping by email: each group has the rows of its email, in their order.
use rx_ui.Base.{
  ◌≡◌, refl, sym, ap, ◌∙◌, List, [], ◌∷◌, ◌++◌, append_assoc, append-nil, Option, none, some,
  get_or, filter, Bool-cases, inl, inr,
}
use rx_ui.Js.Text.{Text, text_eq}
use rx_ui.Js.Text.Trim.{text_eq_iff}
use rx_ui.Js.Object.{HasDistinctKeys, Object, lookup, lookup-put, put-HasDistinctKeys}
use rx_ui.Api.Client.{Client}
use rx_ui.Panel.ClientGroups.{add_row, group_from}

-- The rows of one email.
abbrev pub rows_of : Text → List Client → List Client
rows_of k cs = filter (λ c. text_eq c.email k) cs

-- `xs`, where there is something to list.
abbrev pub unless_none : List Client → Option (List Client)
unless_none [] = none
unless_none (x ∷ xs) = some (x ∷ xs)

-- What stands under a name, with more rows behind it.
abbrev with_rows : Option (List Client) → List Client → Option (List Client)
with_rows none ys = unless_none ys
with_rows (some xs) ys = some (xs ++ ys)

with_rows-nil : (o : Option (List Client)) → with_rows o [] ≡ o
with_rows-nil none = refl
with_rows-nil (some xs) = ap some (append-nil xs)

with_rows_added :
    (o : Option (List Client)) (c : Client) (ys : List Client)
    → with_rows (some (get_or o [] ++ c ∷ [])) ys ≡ with_rows o (c ∷ ys)
with_rows_added none c ys = refl
with_rows_added (some xs) c ys = ap some (append_assoc xs (c ∷ []) ys)

lookup-group_from :
    (k : Text) (out : Object (List Client)) (cs : List Client)
    → lookup k (group_from out cs) ≡ with_rows (lookup k out) (rows_of k cs)
unfolding group_from
lookup-group_from k out [] = sym (with_rows-nil (lookup k out))
lookup-group_from k out (c ∷ cs) =
    let added = get_or (lookup c.email out) [] ++ c ∷ [] in
    let step =
      lookup-group_from k (add_row out c) cs
      ∙ ap (λ o. with_rows o (rows_of k cs)) (lookup-put c.email k added out) in
    elim (Bool-cases (text_eq c.email k)) [
      | inl e ↦
          let same : c.email ≡ k = (text_eq_iff c.email k).0 e in
          step
          ∙ rw e (
              ap (λ j. with_rows (some (get_or (lookup j out) [] ++ c ∷ [])) (rows_of k cs)) same
              ∙ with_rows_added (lookup k out) c (rows_of k cs))
      | inr e ↦ step ∙ rw e refl
    ]

pub lookup-grouped :
    (k : Text) (cs : List Client) → lookup k (group_from [] cs) ≡ unless_none (rows_of k cs)
unfolding lookup
lookup-grouped k cs = lookup-group_from k [] cs

pub group_from-HasDistinctKeys :
    (out : Object (List Client)) (cs : List Client)
    → HasDistinctKeys out
    → HasDistinctKeys (group_from out cs)
unfolding group_from
group_from-HasDistinctKeys out [] h = h
group_from-HasDistinctKeys out (c ∷ cs) h =
    group_from-HasDistinctKeys (add_row out c) cs
      (put-HasDistinctKeys c.email (get_or (lookup c.email out) [] ++ c ∷ []) out h)
