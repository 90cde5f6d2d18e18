-- ===== src/Js/Object.antt =====
-- Objects with string keys, as the list of their entries in the order of `Object.entries`. The order
-- is that of insertion; that array indices come first is outside the model.
use rx_ui.Base.{
  ◌≡◌, ◌≢◌, refl, sym, List, ◌++◌, [], ◌∷◌, Option, none, some, All, All_middle, arith,
  if◌then◌else◌, Bool-cases, inl, inr,
}
use rx_ui.Js.Text.{Text, text_eq}
use rx_ui.Js.Text.Trim.{text_eq_iff}

abbrev pub Object {ℓ} : Type ℓ → Type ℓ
Object V = List (Text × V)

module _ {ℓ} {V : Type ℓ} where
  -- `o[k]`
  unfoldable pub lookup : Text → Object V → Option V
  lookup k [] = none
  lookup k ((j, v) ∷ o) = if text_eq j k then some v else lookup k o

  -- `o[k] = v`
  unfoldable pub put : Text → V → Object V → Object V
  put k v [] = (k, v) ∷ []
  put k v ((j, w) ∷ o) = if text_eq j k then (j, v) ∷ o else (j, w) ∷ put k v o

  pub lookup-put :
      (k j : Text) (v : V) (o : Object V)
      → lookup j (put k v o) ≡ (if text_eq k j then some v else lookup j o)
  unfolding lookup put
  lookup-put k j v [] = refl
  lookup-put k j v ((i, w) ∷ o) =
      ground (arith, text_eq_iff k j, text_eq_iff i k, text_eq_iff i j, lookup-put k j v o)

  -- Every name satisfies `P`.
  abbrev pub Keys : (Text → Type 0) → Object V → Type 0
  Keys P o = All (λ e. P e.0) o

  -- The names differ from one another.
  abbrev pub HasDistinctKeys : Object V → Type 0
  HasDistinctKeys [] = Unit
  HasDistinctKeys ((k, v) ∷ o) = Keys (λ j. j ≢ k) o × HasDistinctKeys o

  pub put-Keys :
      (P : Text → Type 0) (k : Text) (v : V) (o : Object V) → P k → Keys P o → Keys P (put k v o)
  unfolding put
  put-Keys P k v [] hk h = (hk, tt)
  put-Keys P k v ((j, w) ∷ o) hk (hj, h) = elim (Bool-cases (text_eq j k)) [
    | inl e ↦ rw e (hj, h)
    | inr e ↦ rw e (hj, put-Keys P k v o hk h)
  ]

  -- Assigning a name keeps the names distinct.
  pub put-HasDistinctKeys :
      (k : Text) (v : V) (o : Object V) → HasDistinctKeys o → HasDistinctKeys (put k v o)
  unfolding put
  put-HasDistinctKeys k v [] h = (tt, tt)
  put-HasDistinctKeys k v ((j, w) ∷ o) (hj, h) = elim (Bool-cases (text_eq j k)) [
    | inl e ↦ rw e (hj, h)
    | inr e ↦
        let ne : k ≢ j = ground (arith, text_eq_iff j k) in
        rw e (put-Keys (λ i. i ≢ j) k v o ne hj, put-HasDistinctKeys k v o h)
  ]

  -- A new name goes to the end.
  pub put_fresh :
      (k : Text) (v : V) (o : Object V) → Keys (λ j. j ≢ k) o → put k v o ≡ o ++ (k, v) ∷ []
  unfolding put
  put_fresh k v [] h = refl
  put_fresh k v ((j, w) ∷ o) (hj, h) = ground (arith, text_eq_iff j k, put_fresh k v o h)

  pub fresh_of_HasDistinctKeys :
      (o : Object V) (k : Text) (v : V) (rest : Object V)
      → HasDistinctKeys (o ++ (k, v) ∷ rest)
      → Keys (λ j. j ≢ k) o
  fresh_of_HasDistinctKeys [] k v rest h = tt
  fresh_of_HasDistinctKeys ((j, w) ∷ o) k v rest (hj, h) =
      (λ e. All_middle _ o (k, v) rest hj (sym e), fresh_of_HasDistinctKeys o k v rest h)
