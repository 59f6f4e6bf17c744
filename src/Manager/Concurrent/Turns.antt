-- ===== src/Manager/Concurrent/Turns.antt =====
-- What holds at each stage of Reconcile, and what a turn leaves.
pub mod Kept
use mathlib.Core.Path.{subst}
use espejote.Base.{
  suc, String, Bool, true, false, Option, none, some, ◌∷◌, Listed, ◌≡◌, ◌≢◌, inl, inr, refl, sym,
  arith, ◌∙◌, ◌==◌, if◌then◌else◌, Result, ok, err, Result-cases, Option-cases, Bool-cases,
  none_ne_some, some_injective,
}
use espejote.Kube.{ApiError, not_found, other, NamespacedName}
use espejote.Api.{ManagedResource}
use espejote.Manager.Keyed.{lookup, insert, delete, lookup-delete, key_eq_iff}
use espejote.Manager.{
  State, Env, EnsureError, ResourceController, key_of, start_controller,
  stop_and_remove_controller_for, config_hash_for_managed_resource,
}
use espejote.Manager.Instances.{stop_and_remove_controller_for-lookup}
use espejote.Manager.Requests.{World, run_instance}
use espejote.Manager.Requests.Laws.{run_instance-ok}
use espejote.Manager.Spec.{Request, IsNamed, IsNamedOf}
use espejote.Manager.Concurrent.{
  new_instance, Stage, idle, taken, stopping, starting, ensured, Turn, blocked, proceeds, spawns,
  ends, turn, turn_taken, turn_read, turn_found, turn_stopping, turn_starting, turn_ensured,
  turn_made,
}
use espejote.Manager.Concurrent.Changes.{
  Keeps, Keeps-same, Keeps-cancel, Keeps-removed, Keeps-stop_and_remove, Made,
  start_controller-Made, Listed-cancel,
}
use espejote.Manager.Concurrent.Steps.{busy_with}

-- The controller in the map that a stage is about.
abbrev pub Held : {C : Type 0} → NamespacedName → State C → Type 0
Held {C} key st = (rc : ResourceController C) × (lookup key st.controllers ≡ some rc)

-- What holds at each stage: the controller that Reconcile waits for is in the map, with its context
-- canceled; before it starts one there is none; afterwards there is one.
abbrev pub IsStaged : {C : Type 0} → Stage C → State C → Type 0
IsStaged idle st = Unit
IsStaged (taken r) st = IsNamed r
IsStaged (stopping r mr hash) st =
    (key_of mr ≡ r.key) × ((h : Held r.key st) × (¬ Listed h.0.lifetime st.live))
IsStaged (starting r mr hash) st = (key_of mr ≡ r.key) × (lookup r.key st.controllers ≡ none)
IsStaged (ensured r mr) st = (key_of mr ≡ r.key) × Held r.key st

-- What a turn for a request for `key` does.
abbrev pub IsTurn : {S C : Type 0} → NamespacedName → State C → Turn S C → Type 0
IsTurn key st blocked = Unit
IsTurn key st (proceeds stage st') =
    Keeps st st' × IsStaged stage st' × (busy_with stage ≡ some key)
IsTurn key st (spawns i stage st') =
    (i ≡ new_instance key st.next)
    × (lookup key st.controllers ≡ none)
    × IsStaged stage st'
    × (busy_with stage ≡ some key)
    × ((rc : _) × (st'.controllers ≡ insert key rc st.controllers)
        × (rc.lifetime ≡ st.next)
        × (rc.done ≡ none)
        × (st'.live ≡ st.next ∷ st.live)
        × (st'.next ≡ suc st.next))
IsTurn {C} key st (ends error st' w) =
    Keeps st st'
    × (error ≡ none
        → (rc : ResourceController C) → lookup key st'.controllers ≡ some rc
        → rc.done ≡ none)
