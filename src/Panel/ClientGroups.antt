-- ===== src/Panel/ClientGroups.antt =====
-- The rows of the clients table, as `clientGroups` of frontend/src/pages/Clients.tsx derives them: the
-- stored clients narrowed by the search, grouped by email, summed up, narrowed by the state, and sorted
-- by email. `le a b` is `a.localeCompare(b) <= 0`, and `is_online` what the statistics say of an email.
pub mod Rows
pub mod Table
pub mod Summary
pub mod State
use rx_ui.Base.{
  ℕ, zero, Bool, true, false, not, ◌&&◌, ◌||◌, ltb, leb, ◌==◌, List, [], ◌∷◌, ◌++◌, Option, none,
  some, get_or, map, filter, first, any, all, is_empty, sort_by, if◌then◌else◌,
}
use rx_ui.Js.Text.{Text, behind_prefix, codes, lower, text_eq, trim}
use rx_ui.Js.Text.Includes.{includes}
use rx_ui.Js.Object.{Object, lookup, put}
use rx_ui.Api.Client.{Client}

pub record ClientGroup : Type 0 where
  pub email : Text
  pub rows : List Client
  pub all_enabled : Bool
  pub any_enabled : Bool
  pub any_disabled_by_quota : Bool
  pub any_disabled_by_expiry : Bool
  pub expires_at : Option Text
  pub total_limit : Option ℕ
  pub inbound_ids : List Text
  pub note : Option Text

pub data EnabledFilter : Type 0 where
  everyone enabled disabled quota expired online : EnabledFilter

-- `s.includes(needle)`
unfoldable pub contains : Text → Text → Bool
unfolding behind_prefix
contains needle [] = is_empty needle
contains needle (c ∷ s) =
    let rest = contains needle s in
    elim (behind_prefix needle (c ∷ s)) [ some _ ↦ true | none ↦ rest ]

-- `!(needle && !c.email.toLowerCase().includes(needle))`
abbrev pub is_searched : Text → Client → Bool
is_searched needle c = is_empty needle || contains needle (map lower c.email)

-- `list.push(c)`, in the list of the email or a new one
abbrev pub add_row : Object (List Client) → Client → Object (List Client)
add_row by_email c = put c.email (get_or (lookup c.email by_email) [] ++ c ∷ []) by_email

unfoldable pub group_from : Object (List Client) → List Client → Object (List Client)
group_from by_email [] = by_email
group_from by_email (c ∷ cs) = group_from (add_row by_email c) cs

-- `!r.enabled && r.disabled_reason === reason`
abbrev pub has_reason : Text → Option Text → Bool
has_reason reason none = false
has_reason reason (some r) = text_eq r reason

abbrev pub is_disabled_by : Text → Client → Bool
is_disabled_by reason c = not c.enabled && has_reason reason c.disabled_reason

-- The order of `sort` on strings: by code units.
unfoldable pub text_le : Text → Text → Bool
text_le [] t = true
text_le (c ∷ s) [] = false
text_le (c ∷ s) (d ∷ t) = ltb c d || (c == d && text_le s t)

-- `rows.map(f).filter((e) => e != null)`
unfoldable pub known {ℓ} : {A : Type ℓ} → (Client → Option A) → List Client → List A
known f [] = []
known f (c ∷ cs) = elim (f c) [ some a ↦ a ∷ known f cs | none ↦ known f cs ]

unfoldable pub expires_first : List Client → Option Text
expires_first rows = first (sort_by text_le (known (λ c. c.expires_at) rows))

-- `limits.some((l) => l == null)`
abbrev pub is_unlimited : Client → Bool
is_unlimited c = elim c.traffic_limit_bytes [ none ↦ true | some _ ↦ false ]

-- `Math.max`
abbrev pub max_of : ℕ → ℕ → ℕ
max_of a b = if leb a b then b else a

-- `limits.reduce((acc, l) => Math.max(acc, l ?? 0), acc)`
unfoldable pub max_limit : ℕ → List Client → ℕ
max_limit acc [] = acc
max_limit acc (c ∷ cs) = max_limit (max_of acc (get_or c.traffic_limit_bytes 0)) cs

unfoldable pub total_limit_of : List Client → Option ℕ
total_limit_of rows = if any is_unlimited rows then none else some (max_limit 0 rows)

-- `Array.from(new Set(xs))`, of what `seen` does not hold
unfoldable pub unique_from : List Text → List Text → List Text
unique_from seen [] = []
unique_from seen (x ∷ xs) =
    if includes x seen then unique_from seen xs else x ∷ unique_from (x ∷ seen) xs

-- `rows.find((r) => r.note)?.note ?? null`
unfoldable pub note_of : List Client → Option Text
note_of [] = none
note_of (c ∷ cs) = elim c.note [
  | some (u ∷ s) ↦ some (u ∷ s)
  | some [] ↦ note_of cs
  | none ↦ note_of cs
]

unfoldable pub client_group : Text → List Client → ClientGroup
client_group email rows = record {
  email = email;
  rows = rows;
  all_enabled = all (λ c. c.enabled) rows;
  any_enabled = any (λ c. c.enabled) rows;
  any_disabled_by_quota = any (is_disabled_by (codes "quota")) rows;
  any_disabled_by_expiry = any (is_disabled_by (codes "expired")) rows;
  expires_at = expires_first rows;
  total_limit = total_limit_of rows;
  inbound_ids = unique_from [] (map (λ c. c.inbound_id) rows);
  note = note_of rows;
}

-- No `continue` is met.
abbrev pub is_shown : EnabledFilter → (Text → Bool) → ClientGroup → Bool
is_shown EnabledFilter.everyone is_online g = true
is_shown EnabledFilter.enabled is_online g = g.all_enabled
is_shown EnabledFilter.disabled is_online g = not g.any_enabled
is_shown EnabledFilter.quota is_online g = g.any_disabled_by_quota
is_shown EnabledFilter.expired is_online g = g.any_disabled_by_expiry
is_shown EnabledFilter.online is_online g = is_online g.email

-- The loop over the entries of `byEmail`.
unfoldable pub shown_groups :
    EnabledFilter → (Text → Bool) → Object (List Client) → List ClientGroup
shown_groups state is_online [] = []
shown_groups state is_online ((email, rows) ∷ entries) =
    let rest = shown_groups state is_online entries in
    if is_shown state is_online (client_group email rows)
    then client_group email rows ∷ rest
    else rest

abbrev pub by_email : (Text → Text → Bool) → ClientGroup → ClientGroup → Bool
by_email le a b = le a.email b.email

unfoldable pub client_groups :
    (Text → Text → Bool) → Text → EnabledFilter → (Text → Bool) → List Client → List ClientGroup
client_groups le email_filter state is_online clients =
    let needle = map lower (trim email_filter) in
    sort_by (by_email le)
      (shown_groups state is_online (group_from [] (filter (is_searched needle) clients)))
