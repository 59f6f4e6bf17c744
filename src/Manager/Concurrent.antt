-- ===== src/Manager/Concurrent.antt =====
-- Reconcile of controllers/managedresource_controller_manager.go in the turns that other goroutines
-- can come between, and these goroutines: for each instance that was started, one that runs its
-- controller and one that waits for the end of it and sends a request for the resource.
pub mod Changes
pub mod Goroutines
pub mod Invariant
pub mod Progress
pub mod Safety
pub mod Settled
pub mod Steps
pub mod Turns
use espejote.Base.{
  ℕ, String, Bool, Option, none, some, List, [], ◌∷◌, ◌==◌, ◌&&◌, num_eq, if◌then◌else◌, Result, ok,
  err,
}
use espejote.Kube.{Cause, ApiError, not_found, other, NamespacedName}
use espejote.Api.{ManagedResource}
use espejote.Manager.Keyed.{Table, lookup, delete, cancel, key_eq}
use espejote.Manager.{
  State, EnsureError, hash_failed, ResourceController, start_returned, key_of,
  stop_and_remove_controller_for, start_controller, config_hash_for_managed_resource,
}
use espejote.Manager.Requests.{World, ManagerError, get_failed, run_instance}
use espejote.Manager.Spec.{Request}

-- Start runs; it returned and `done` is closed; the request was sent to `notifyChan`.
pub data Phase : Type 0 where
  running closed notified : Phase

-- The two goroutines of an instance, which may be stopped and removed.
pub record Instance : Type 0 where
  pub key : NamespacedName
  pub context : ℕ
  pub phase : Phase

abbrev pub new_instance : NamespacedName → ℕ → Instance
new_instance key context = record { key = key; context = context; phase = running }

-- An instance, after the goroutines of the one of that key and context went on to a phase.
abbrev pub moved : Phase → NamespacedName → ℕ → Instance → Instance
moved phase key context i =
    if key_eq i.key key && num_eq i.context context then record i { phase = phase } else i

unfoldable pub set_phase : Phase → NamespacedName → ℕ → List Instance → List Instance
set_phase phase key context [] = []
set_phase phase key context (i ∷ is) = moved phase key context i ∷ set_phase phase key context is

-- Where Reconcile stands: it has a request; it waits for the controller that it stopped; it has none
-- for the resource and the hash; it has the one in the map.
pub data Stage (C : Type 0) : Type 0 where
  idle : Stage C
  taken : Request C → Stage C
  stopping starting : Request C → ManagedResource → String → Stage C
  ensured : Request C → ManagedResource → Stage C

-- What Reconcile does next. A controller that is made is started with goroutines of its own.
pub data Turn (S C : Type 0) : Type 0 where
  blocked : Turn S C
  proceeds : Stage C → State C → Turn S C
  spawns : Instance → Stage C → State C → Turn S C
  ends : Option ManagerError → State C → World S → Turn S C

-- The goroutine of a controller that is in the map sets its `startErr` and closes its `done`.
abbrev pub returned_for :
    {C : Type 0}
    → Option Cause
    → NamespacedName
    → ℕ
    → NamespacedName
    → ResourceController C
    → ResourceController C
returned_for outcome key context k rc =
    if key_eq k key && num_eq rc.lifetime context then start_returned outcome rc else rc

unfoldable pub controller_returned :
    {C : Type 0}
    → Option Cause
    → NamespacedName
    → ℕ
    → Table (ResourceController C)
    → Table (ResourceController C)
controller_returned outcome key context [] = []
controller_returned outcome key context ((k, rc) ∷ m) =
    (k, returned_for outcome key context k rc) ∷ controller_returned outcome key context m

abbrev pub ended : {S C : Type 0} → Option ManagerError × World S → State C → Turn S C
ended run st = ends run.0 st run.1

-- The wait for `done` of the controller, which is still in the map.
unfoldable pub turn_stopping :
    {S C : Type 0} → Request C → ManagedResource → String → State C → Turn S C
turn_stopping r mr hash st = elim (lookup (key_of mr) st.controllers) [
  | none ↦ blocked
  | some rc ↦ elim rc.done [
    | none ↦ blocked
    | some c ↦
        proceeds (starting r mr hash)
          (record st { controllers = delete (key_of mr) st.controllers })
  ]
]

module _ {S C : Type 0} (update_status : ManagedResource → S → Option ApiError × S)
    (started : ResourceController C → Bool) where
  -- Up to the wait for a controller that is replaced.
  unfoldable pub turn_found : Request C → ManagedResource → World S → State C → Turn S C
  turn_found r mr w st = elim (config_hash_for_managed_resource r.env.hasher mr) [
    | err c ↦ ended (run_instance update_status started (err (hash_failed c)) mr w) st
    | ok hash ↦ elim (lookup (key_of mr) st.controllers) [
      | none ↦ proceeds (starting r mr hash) st
      | some rc ↦
          if rc.config_hash == hash
          then proceeds (ensured r mr) st
          else proceeds (stopping r mr hash) (record st { live = cancel rc.lifetime st.live })
    ]
  ]

  unfoldable pub turn_read :
      Request C → World S → State C → Result ApiError ManagedResource → Turn S C
  turn_read r w st (err not_found) = ends none (stop_and_remove_controller_for r.key st) w
  turn_read r w st (err (other c)) = ends (some (get_failed (other c))) st w
  turn_read r w st (ok mr) =
      if mr.deleting
      then ends none (stop_and_remove_controller_for r.key st) w
      else turn_found r mr w st

  unfoldable pub turn_taken : Request C → World S → State C → Turn S C
  turn_taken r w st = turn_read r w st r.get

  -- What becomes of the attempt to start a controller.
  unfoldable pub turn_made :
      Request C
      → ManagedResource
      → World S
      → Result EnsureError (ResourceController C) × State C
      → Turn S C
  turn_made r mr w (err e, st) = ended (run_instance update_status started (err e) mr w) st
  turn_made r mr w (ok rc, st) = spawns (new_instance (key_of mr) rc.lifetime) (ensured r mr) st

  unfoldable pub turn_starting : Request C → ManagedResource → String → World S → State C → Turn S C
  turn_starting r mr hash w st = turn_made r mr w (start_controller r.env mr hash st)

  -- StartErr, and the request to an instance that runs.
  unfoldable pub turn_ensured : ManagedResource → World S → State C → Turn S C
  turn_ensured mr w st = elim (lookup (key_of mr) st.controllers) [
    | none ↦ blocked
    | some rc ↦ ended (run_instance update_status started (ok rc) mr w) st
  ]

  unfoldable pub turn : Stage C → World S → State C → Turn S C
  turn idle w st = blocked
  turn (taken r) w st = turn_taken r w st
  turn (stopping r mr hash) w st = turn_stopping r mr hash st
  turn (starting r mr hash) w st = turn_starting r mr hash w st
  turn (ensured r mr) w st = turn_ensured mr w st
