-- ===== src/Panel/LoadState/Laws.antt =====
-- What a page shows while its queries load, fail and recover.
use rx_ui.Base.{
  ◌≡◌, ◌↔◌, ◌⊎◌, inl, inr, refl, ap, Bool, true, false, List, [], ◌∷◌, ◌++◌, none, some, all, any,
  find, All, All-mono, arith, Bool-cases,
}
use rx_ui.Panel.LoadState.{Query, error_of, has_data, has_failed, is_found, load_state}

module _ {ℓ} {B : Type ℓ} (p : B → Bool) where
  all-true_iff : (xs : List B) → (all p xs ≡ true) ↔ All (λ x. p x ≡ true) xs
  all-true_iff [] = (λ _. tt, λ _. refl)
  all-true_iff (x ∷ xs) = ground (arith, all-true_iff xs)

  find_none : (xs : List B) → All (λ x. p x ≡ false) xs → find p xs ≡ none
  find_none [] h = refl
  find_none (x ∷ xs) (hx, h) = ground (arith, find_none xs h)

  -- The first element that passes, and its place.
  find_first :
      (xs : List B)
      → is_found (find p xs) ≡ true
      → (x : B) × (before : List B) × (after : List B) × (xs ≡ before ++ x ∷ after)
        × (p x ≡ true)
        × All (λ y. p y ≡ false) before
        × (find p xs ≡ some x)
  find_first [] h = cc
  find_first (x ∷ xs) h = elim (Bool-cases (p x)) [
    | inl e ↦ (x, [], xs, refl, e, tt, rw e refl)
    | inr e ↦
        let (y, before, after, split, py, early, found) = find_first xs (ground arith) in
        (y, x ∷ before, after, ap (λ r. x ∷ r) split, py, (e, early), rw e found)
  ]

  find-any-append : (xs ys : List B) → any p xs ≡ true → is_found (find p (xs ++ ys)) ≡ true
  find-any-append [] ys h = cc
  find-any-append (x ∷ xs) ys h = ground (arith, find-any-append xs ys)

All-prefix {ℓ κ} : {B : Type ℓ} (P : B → Type κ) (xs ys : List B) → All P (xs ++ ys) → All P xs
All-prefix P [] ys h = tt
All-prefix P (x ∷ xs) ys (hx, h) = (hx, All-prefix P xs ys h)

module _ {ℓ κ} {A : Type ℓ} {E : Type κ} where
  -- The page is drawn exactly when every query that it cannot be drawn without has data, whatever
  -- the other queries do and whatever has failed.
  pub load_state_drawn_iff :
      (gate watch : List (Query A E))
      → (((load_state gate watch).blocked ≡ false) × ((load_state gate watch).failed ≡ false))
        ↔ All (λ q. has_data q ≡ true) gate
  unfolding load_state
  load_state_drawn_iff gate watch = ground (arith, all-true_iff has_data gate)

  -- The page never blocks and fails at once.
  pub load_state_exclusive :
      (gate watch : List (Query A E))
      → ((load_state gate watch).blocked ≡ false) ⊎ ((load_state gate watch).failed ≡ false)
  unfolding load_state
  load_state_exclusive gate watch = ground arith

  failing_somewhere :
      (gate watch : List (Query A E))
      → ((load_state gate watch).failed ≡ true) ⊎ ((load_state gate watch).stale ≡ true)
      → is_found (find has_failed (gate ++ watch)) ≡ true
  unfolding load_state
  failing_somewhere gate watch h = ground (arith, find-any-append has_failed gate watch)

  -- Where the page failed or shows old content, the error that it names is that of the first of its
  -- queries that has failed.
  pub load_state_error_lem :
      (gate watch : List (Query A E))
      → ((load_state gate watch).failed ≡ true) ⊎ ((load_state gate watch).stale ≡ true)
      → (q : Query A E) × (before : List (Query A E)) × (after : List (Query A E)) × (gate ++ watch
          ≡ before ++ q ∷ after)
        × (has_failed q ≡ true)
        × All (λ r. has_failed r ≡ false) before
        × ((load_state gate watch).error ≡ error_of (some q))
  unfolding load_state
  load_state_error_lem gate watch h =
      let (q, before, after, split, failing, early, found) =
        find_first has_failed (gate ++ watch) (failing_somewhere gate watch h) in
      (q, before, after, split, failing, early, ap error_of found)

  settled_query_has_not_failed :
      (q : Query A E) → (has_data q ≡ true) × (q.is_error ≡ false) → has_failed q ≡ false
  settled_query_has_not_failed q h = ground arith

  -- Once every query has data and none is in error, the page is drawn without a banner or an error,
  -- however often the queries have failed before.
  pub load_state_recovered :
      (gate watch : List (Query A E))
      → All (λ q. (has_data q ≡ true) × (q.is_error ≡ false)) (gate ++ watch)
      → ((load_state gate watch).blocked ≡ false)
        × ((load_state gate watch).failed ≡ false)
        × ((load_state gate watch).stale ≡ false)
        × ((load_state gate watch).error ≡ none)
  unfolding load_state
  load_state_recovered gate watch h =
      let drawn =
        All-mono _ (λ q. has_data q ≡ true) (λ q k. k.0) gate (All-prefix _ gate watch h) in
      let calm =
        All-mono _ (λ q. has_failed q ≡ false) settled_query_has_not_failed (gate ++ watch) h in
      let nothing = find_none has_failed (gate ++ watch) calm in
      rw ((all-true_iff has_data gate).1 drawn, nothing) (refl, refl, refl, refl)
