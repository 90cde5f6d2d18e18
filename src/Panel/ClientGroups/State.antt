-- ===== src/Panel/ClientGroups/State.antt =====
-- Which groups each state of the filter shows, in terms of their rows.
use rx_ui.Base.{
  ◌≡◌, ◌↔◌, refl, Bool, true, false, not, List, [], ◌∷◌, some, any, all, All, arith, Bool-cases,
  Option-cases, inl, inr,
}
use rx_ui.Js.Text.{Text, codes}
use rx_ui.Js.Text.Trim.{text_eq_iff}
use rx_ui.Api.Client.{Client}
use rx_ui.Panel.ClientGroups.{EnabledFilter, client_group, is_disabled_by, is_shown}

-- The row is disabled, and for the reason `reason`.
abbrev pub IsDisabledBy : Text → Client → Type 0
IsDisabledBy reason c = (c.enabled ≡ false) × (c.disabled_reason ≡ some reason)

-- What the rows of a group are like that the filter shows in a state.
abbrev pub IsInState : EnabledFilter → (Text → Bool) → Text → List Client → Type 0
IsInState EnabledFilter.everyone is_online email rows = Unit
IsInState EnabledFilter.enabled is_online email rows = All (λ c. c.enabled ≡ true) rows
IsInState EnabledFilter.disabled is_online email rows = All (λ c. c.enabled ≡ false) rows
IsInState EnabledFilter.quota is_online email rows =
    ¬ All (λ c. ¬ IsDisabledBy (codes "quota") c) rows
IsInState EnabledFilter.expired is_online email rows =
    ¬ All (λ c. ¬ IsDisabledBy (codes "expired") c) rows
IsInState EnabledFilter.online is_online email rows = is_online email ≡ true

is_disabled_by_iff :
    (reason : Text) (c : Client) → (is_disabled_by reason c ≡ true) ↔ IsDisabledBy reason c
is_disabled_by_iff reason c = elim (Option-cases c.disabled_reason) [
  | inl e ↦ ground arith
  | inr (r, e) ↦ ground (arith, text_eq_iff r reason)
]

module _ (p : Client → Bool) where
  all_iff : (rows : List Client) → (all p rows ≡ true) ↔ All (λ c. p c ≡ true) rows
  all_iff [] = (λ _. tt, λ _. refl)
  all_iff (c ∷ rows) =
      let rest = all_iff rows in
      ((λ e. (ground arith, rest.0 (ground arith))), λ h. ground (arith, rest.1 h.1))

  any_iff_none : (rows : List Client) → (not (any p rows) ≡ true) ↔ All (λ c. p c ≡ false) rows
  any_iff_none [] = (λ _. tt, λ _. refl)
  any_iff_none (c ∷ rows) =
      let rest = any_iff_none rows in
      ((λ e. (ground arith, rest.0 (ground arith))), λ h. ground (arith, rest.1 h.1))

  any_iff :
      (P : Client → Type 0)
      → ((c : Client) → (p c ≡ true) ↔ P c)
      → (rows : List Client) → (any p rows ≡ true) ↔ (¬ All (λ c. ¬ P c) rows)
  any_iff P k [] = ((λ e. ground arith), λ h. absurd (h tt))
  any_iff P k (c ∷ rows) =
      let rest = any_iff P k rows in
      elim (Bool-cases (p c)) [
        | inl e ↦ ((λ _ h. h.0 ((k c).0 e)), λ _. rw e refl)
        | inr e ↦ (
          (λ a h. rest.0 (ground arith) h.1),
          λ h. let out : ¬ P c = λ q. ground (arith, (k c).1 q) in rw e (rest.1 (λ r. h (out, r))),
        )
      ]

-- The filter shows a group just where its rows are in the state asked for: all enabled, all disabled, one of
-- them disabled by its quota or by its expiry, or the email online.
pub is_shown-client_group_iff :
    (state : EnabledFilter) (is_online : Text → Bool) (email : Text) (rows : List Client)
    → (is_shown state is_online (client_group email rows) ≡ true)
      ↔ IsInState state is_online email rows
unfolding client_group
is_shown-client_group_iff EnabledFilter.everyone is_online email rows = (λ _. tt, λ _. refl)
is_shown-client_group_iff EnabledFilter.enabled is_online email rows = all_iff (λ c. c.enabled) rows
is_shown-client_group_iff EnabledFilter.disabled is_online email rows =
    any_iff_none (λ c. c.enabled) rows
is_shown-client_group_iff EnabledFilter.quota is_online email rows =
    any_iff (is_disabled_by (codes "quota")) (IsDisabledBy (codes "quota"))
      (is_disabled_by_iff (codes "quota")) rows
is_shown-client_group_iff EnabledFilter.expired is_online email rows =
    any_iff (is_disabled_by (codes "expired")) (IsDisabledBy (codes "expired"))
      (is_disabled_by_iff (codes "expired")) rows
is_shown-client_group_iff EnabledFilter.online is_online email rows = (λ e. e, λ e. e)
