-- ===== src/Panel/SaveAll.antt =====
-- `saveAll` of frontend/src/pages/Settings.tsx: the run that saves the unsaved sections one at a time. Each
-- sends the whole row, which it merges over the cached one at the time of sending. `put_settings` is the
-- row that the backend holds after an update.
use rx_ui.Base.{
  ◌≡◌, ◌≢◌, refl, sym, ap, ◌∙◌, Bool, false, List, [], ◌∷◌, Option, none, some, get_or, All,
  if◌then◌else◌,
}
use rx_ui.Api.Settings.{PanelSettings, PanelSettingsUpdate}
use rx_ui.Panel.Settings.{Overrides, merge_panel_settings}
use rx_ui.Panel.Settings.Fields.{
  SettingsField, Value, of_overrides, of_row, of_update, of_update-merge_panel_settings,
}

-- The stored row, and the copy of it that the page holds.
pub record SettingsPage : Type 0 where
  pub server : PanelSettings
  pub cache : PanelSettings

-- How a save ends: it is stored and the row is read again, or it is refused, by the form or by the
-- backend, or it is stored and its answer is lost, so that nothing is read again.
pub data Outcome : Type 0 where
  stored refused lost : Outcome

pub record DirtyHandle : Type 0 where
  pub overrides : Overrides
  pub outcome : Outcome

module _ (put_settings : PanelSettings → PanelSettingsUpdate → PanelSettings) where
  -- The row, after a section has been stored.
  abbrev pub row_after : SettingsPage → Overrides → PanelSettings
  row_after page o = put_settings page.server (merge_panel_settings (some page.cache) o)

  -- The request, before its answer.
  abbrev pub send : Overrides → SettingsPage → SettingsPage
  send o page = record page { server = row_after page o }

  -- `qc.invalidateQueries(…)`, awaited: the row is read again.
  abbrev pub reread : SettingsPage → SettingsPage
  reread page = record page { cache = page.server }

  -- `await h?.onSave()`; an error is caught.
  abbrev pub save_outcome : Outcome → Overrides → SettingsPage → SettingsPage
  save_outcome Outcome.stored o page = reread (send o page)
  save_outcome Outcome.refused o page = page
  save_outcome Outcome.lost o page = send o page

  unfoldable pub save_each : List DirtyHandle → SettingsPage → SettingsPage
  save_each [] page = page
  save_each (h ∷ hs) page = save_each hs (save_outcome h.outcome h.overrides page)

  -- A run that is under way is not joined by another.
  unfoldable pub save_all : (is_saving : Bool) → List DirtyHandle → SettingsPage → SettingsPage
  save_all is_saving hs page = if is_saving then page else save_each hs page

-- What the backend makes of a value that a section sends, and what it held where nothing is sent.
abbrev pub set_by {ℓ} : {A : Type ℓ} → (A → A) → Outcome → Option A → A → A
set_by norm Outcome.refused o x = x
set_by norm _ none x = x
set_by norm _ (some v) x = norm v

-- The value of a field once the sections that are stored have set it, one after another.
abbrev pub last_set :
    (f : SettingsField) → (Value f → Value f) → List DirtyHandle → Value f → Value f
last_set f norm [] x = x
last_set f norm (h ∷ hs) x =
    last_set f norm hs (set_by norm h.outcome (of_overrides f h.overrides) x)

module _ (put_settings : PanelSettings → PanelSettingsUpdate → PanelSettings) (f : SettingsField)
    (norm : Value f → Value f) (norm_idem : (x : Value f) → norm (norm x) ≡ norm x)
    (stores : (row : PanelSettings) (u : PanelSettingsUpdate)
      → of_row f (put_settings row u) ≡ norm (of_update f u)) where
  -- The page shows the field as it is stored, in the form that the backend gives it.
  abbrev pub IsUpToDate : SettingsPage → Type 0
  IsUpToDate page =
      (of_row f page.server ≡ of_row f page.cache)
      × (norm (of_row f page.server) ≡ of_row f page.server)

  kept_or_set :
      (o : Option (Value f)) (x y : Value f)
      → x ≡ y
      → norm x ≡ x
      → (norm (get_or o y) ≡ set_by norm Outcome.stored o x)
        × (norm (norm (get_or o y)) ≡ norm (get_or o y))
  kept_or_set none x y e n = (ap norm (sym e) ∙ n, norm_idem y)
  kept_or_set (some v) x y e n = (refl, norm_idem v)

  sent_field :
      (page : SettingsPage) (o : Overrides)
      → of_row f (row_after put_settings page o)
        ≡ norm (get_or (of_overrides f o) (of_row f page.cache))
  sent_field page o = stores page.server _ ∙ ap norm (of_update-merge_panel_settings f page.cache o)

  -- A save whose answer is not lost leaves the page up to date.
  save_outcome_field :
      (r : Outcome) (o : Overrides) (page : SettingsPage)
      → IsUpToDate page
      → r ≢ Outcome.lost
      → IsUpToDate (save_outcome put_settings r o page)
        × (of_row f (save_outcome put_settings r o page).server
            ≡ set_by norm r (of_overrides f o) (of_row f page.server))
  save_outcome_field Outcome.stored o page (e, n) k =
      let sent = sent_field page o in
      let kept = kept_or_set (of_overrides f o) (of_row f page.server) (of_row f page.cache) e n in
      ((refl, ap norm sent ∙ kept.1 ∙ sym sent), sent ∙ kept.0)
  save_outcome_field Outcome.refused o page h k = (h, refl)
  save_outcome_field Outcome.lost o page h k = absurd (k refl)

  save_each_field :
      (hs : List DirtyHandle) (page : SettingsPage)
      → IsUpToDate page
      → All (λ h. h.outcome ≢ Outcome.lost) hs
      → of_row f (save_each put_settings hs page).server ≡ last_set f norm hs (of_row f page.server)
  unfolding save_each
  save_each_field [] page e k = refl
  save_each_field (h ∷ hs) page e (kh, k) =
      let next = save_outcome_field h.outcome h.overrides page e kh in
      save_each_field hs (save_outcome put_settings h.outcome h.overrides page) next.0 k
      ∙ ap (last_set f norm hs) next.1

  -- A run of the unsaved sections that is not under way already loses no change. Take any field of the row
  -- but the DNS strategy, the certificates and the keys, and let the backend store it as `norm` of what is
  -- sent, where `norm` changes nothing the second time. If the page is up to date on the field and no answer
  -- is lost, the field ends as `norm` of what the last stored section that sets it has sent, or as it was,
  -- however many sections that do not set it are saved before or after.
  pub save_all_field :
      (hs : List DirtyHandle) (page : SettingsPage)
      → IsUpToDate page
      → All (λ h. h.outcome ≢ Outcome.lost) hs
      → of_row f (save_all put_settings false hs page).server
        ≡ last_set f norm hs (of_row f page.server)
  unfolding save_all
  save_all_field hs page e k = save_each_field hs page e k
