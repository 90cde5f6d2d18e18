-- ===== src/Panel/DnsServers/Roles.antt =====
-- The roles of the resolvers, against the order in which the core asks them.
use rx_ui.Base.{
  ℕ, zero, suc, ◌≡◌, Bool, true, false, not, ◌||◌, List, [], ◌∷◌, Option, none, some, item_at,
  arith, any, if◌then◌else◌, Option-cases, inl, inr,
}
use rx_ui.Api.Settings.{DnsServer}
use rx_ui.Panel.DnsServers.{Role, first_general, is_general, is_index, role_of}

-- The servers above the one at `i`.
abbrev pub above : ℕ → List DnsServer → List DnsServer
above n [] = []
above zero (s ∷ list) = []
above (suc n) (s ∷ list) = s ∷ above n list

-- What a server is for, from the servers above it: one with domains of its own answers for those; asked in
-- parallel, every general server answers for the rest; asked in order, the first general one does, and
-- those below it are its fallback, or are never asked where there is no fallback.
abbrev pub role_below : List DnsServer → DnsServer → (parallel no_fallback : Bool) → Role
role_below earlier s parallel no_fallback =
    if not (is_general s)
    then Role.own
    else if parallel || not (any is_general earlier)
    then Role.rest
    else if no_fallback
    then Role.dead
    else Role.back

is_index-first_general :
    (i : ℕ) (list : List DnsServer) (s : DnsServer)
    → item_at i list ≡ some s
    → is_general s ≡ true
    → is_index i (first_general list) ≡ not (any is_general (above i list))
unfolding first_general
is_index-first_general i [] s h g = cc
is_index-first_general zero (r ∷ list) s h g = ground arith
is_index-first_general (suc i) (r ∷ list) s h g =
    ground (arith, is_index-first_general i list s h g)

-- The list names each server what it is for in the order in which the core asks them: one with domains of
-- its own answers for those; asked in parallel, every other one answers for the rest; asked in order, the
-- first without domains does, and those below it are its fallback, or dead where there is no fallback.
pub role_of-item_at :
    (list : List DnsServer) (i : ℕ) (s : DnsServer) (parallel no_fallback : Bool)
    → item_at i list ≡ some s
    → role_of list i parallel no_fallback ≡ some (role_below (above i list) s parallel no_fallback)
unfolding role_of
role_of-item_at list i s parallel no_fallback h =
    rw (h, role_of) (ground (arith, is_index-first_general i list s h))

is_index_unique : (i j : ℕ) (o : Option ℕ) → is_index i o ≡ true → is_index j o ≡ true → i ≡ j
is_index_unique i j none hi hj = cc
is_index_unique i j (some n) hi hj = ground arith

is_index-role_of :
    (list : List DnsServer) (i : ℕ) (no_fallback : Bool)
    → role_of list i false no_fallback ≡ some Role.rest
    → is_index i (first_general list) ≡ true
unfolding role_of
is_index-role_of list i no_fallback h = elim (Option-cases (item_at i list)) [
  | inl e ↦ ground arith
  | inr (s, e) ↦ ground arith
]

-- Asked in order, at most one server of a list answers for the names that no server claims.
pub role_of_unique :
    (list : List DnsServer) (i j : ℕ) (no_fallback : Bool)
    → role_of list i false no_fallback ≡ some Role.rest
    → role_of list j false no_fallback ≡ some Role.rest
    → i ≡ j
role_of_unique list i j no_fallback hi hj =
    is_index_unique i j (first_general list) (is_index-role_of list i no_fallback hi)
      (is_index-role_of list j no_fallback hj)
