-- ===== src/Panel/LoadState.antt =====
-- frontend/src/api/loadState.ts: one reading of the queries that a page waits for.
pub mod Laws
use rx_ui.Base.{
  ℕ, ◌≡◌, ◌↔◌, ◌⊎◌, inl, inr, refl, Bool, true, false, ◌&&◌, ◌||◌, not, List, [], ◌∷◌, ◌++◌, map,
  Option, none, some, all, any, find, ltb, All, arith, Bool-cases, if◌then◌else◌,
}

-- The fields of a `UseQueryResult` that are read; `name` stands for its `refetch`.
pub record Query {ℓ κ} (A : Type ℓ) (E : Type κ) : Type (ℓ ⊔ κ) where
  pub name : ℕ
  pub data_seen : Option A
  pub is_error : Bool
  pub error_update_count : ℕ
  pub error : Option E
  pub failure_reason : Option E
  pub is_refetching : Bool

pub record LoadState {κ} (E : Type κ) : Type κ where
  pub blocked : Bool
  pub failed : Bool
  pub stale : Bool
  pub error : Option E
  pub retry : List ℕ
  pub retrying : Bool

-- `firstError !== undefined`
abbrev pub is_found {ℓ} : {B : Type ℓ} → Option B → Bool
is_found none = false
is_found (some b) = true

module _ {ℓ κ} {A : Type ℓ} {E : Type κ} where
  -- `q.data !== undefined`
  abbrev pub has_data : Query A E → Bool
  has_data q = elim q.data_seen [ none ↦ false | some a ↦ true ]

  abbrev pub has_failed : Query A E → Bool
  has_failed q = q.is_error || (not (has_data q) && ltb 0 q.error_update_count)

  -- `firstError?.error ?? firstError?.failureReason`
  abbrev pub error_of : Option (Query A E) → Option E
  error_of none = none
  error_of (some q) = elim q.error [ none ↦ q.failure_reason | some e ↦ some e ]

  -- `useLoadState`; `retry` lists the queries that it fetches again, in order.
  unfoldable pub load_state : List (Query A E) → List (Query A E) → LoadState E
  load_state gate watch =
      let every = gate ++ watch in
      let ready = all has_data gate in
      let gate_failed = any has_failed gate in
      let first_error = find has_failed every in
      record {
        blocked = not ready && not gate_failed;
        failed = not ready && gate_failed;
        stale = ready && is_found first_error;
        error = error_of first_error;
        retry = map (λ q. q.name) every;
        retrying = any (λ q. q.is_refetching) every;
      }
