-- ===== src/Manager/Concurrent/Settled.antt =====
-- What a call of Reconcile that ends without an error leaves for its resource.
pub mod Reached
use mathlib.Core.Path.{subst}
use espejote.Base.{
  String, Bool, true, false, Option, none, some, ◌≡◌, ◌≢◌, ◌⊎◌, inl, inr, refl, sym, ap, arith, ◌∙◌,
  ◌==◌, eq_iff, if◌then◌else◌, Result, ok, err, Result-cases, Option-cases, Bool-cases,
  none_ne_some, some_injective,
}
use espejote.Kube.{ApiError, not_found, other}
use espejote.Api.{ManagedResource}
use espejote.Manager.Keyed.{lookup}
use espejote.Manager.{
  State, EnsureError, ResourceController, key_of, start_controller, stop_and_remove_controller_for,
  config_hash_for_managed_resource,
}
use espejote.Manager.Instances.{
  Ensured, start_controller-Ensured, stop_and_remove_controller_for-lookup,
}
use espejote.Manager.Requests.{World, ManagerError, run_instance}
use espejote.Manager.Spec.{Request}
use espejote.Manager.Concurrent.{
  Stage, idle, taken, stopping, starting, ensured, Turn, blocked, proceeds, spawns, ends, turn,
  turn_taken, turn_read, turn_found, turn_stopping, turn_starting, turn_made, turn_ensured,
}
use espejote.Manager.Concurrent.Turns.{IsStaged}
use espejote.Manager.Concurrent.Turns.Kept.{run_instance-errs, run_instance-runs}

-- The resource was read, is not being deleted, and has the hash.
abbrev pub IsFor : {C : Type 0} → Request C → ManagedResource → String → Type 0
IsFor r mr hash =
    (r.get ≡ ok mr)
    × (mr.deleting ≡ false)
    × (config_hash_for_managed_resource r.env.hasher mr ≡ ok hash)

-- The controller of the resource is for a hash.
abbrev pub HasHash : {C : Type 0} → ManagedResource → String → State C → Type 0
HasHash {C} mr hash st =
    (rc : ResourceController C) × (lookup (key_of mr) st.controllers ≡ some rc)
    × (rc.config_hash ≡ hash)

-- What a stage is up to.
abbrev pub IsAimed : {C : Type 0} → Stage C → State C → Type 0
IsAimed idle st = Unit
IsAimed (taken r) st = Unit
IsAimed (stopping r mr hash) st = IsFor r mr hash
IsAimed (starting r mr hash) st = IsFor r mr hash
IsAimed (ensured r mr) st = (hash : String) × IsFor r mr hash × HasHash mr hash st

-- The resource has no controller where it is gone or being deleted, and else one for the hash of the
-- configuration that was read, which runs.
abbrev pub IsSettled : {C : Type 0} → Request C → State C → Type 0
IsSettled {C} r st =
    (lookup r.key st.controllers ≡ none)
      × ((r.get ≡ err not_found)
          ⊎ ((mr : ManagedResource) × (r.get ≡ ok mr) × (mr.deleting ≡ true)))
    ⊎ ((mr : ManagedResource) × (hash : String) × IsFor r mr hash
        × ((rc : ResourceController C) × (lookup (key_of mr) st.controllers ≡ some rc)
            × (rc.config_hash ≡ hash)
            × (rc.done ≡ none)))

-- The request that a stage is for.
abbrev pub request_of : {C : Type 0} → Stage C → Option (Request C)
request_of idle = none
request_of (taken r) = some r
request_of (stopping r mr hash) = some r
request_of (starting r mr hash) = some r
request_of (ensured r mr) = some r

abbrev pub IsAim : {S C : Type 0} → Request C → Turn S C → Type 0
IsAim r blocked = Unit
IsAim r (proceeds stage st) = IsAimed stage st
IsAim r (spawns i stage st) = IsAimed stage st
IsAim r (ends error st w) = error ≡ none → IsSettled r st

if-IsAim :
    {S C : Type 0} (r : Request C) (b : Bool) (t u : Turn S C)
    → (b ≡ true → IsAim r t)
    → (b ≡ false → IsAim r u)
    → IsAim r (if b then t else u)
if-IsAim r true t u h k = h refl
if-IsAim r false t u h k = k refl

module _ {S C : Type 0} (update_status : ManagedResource → S → Option ApiError × S)
    (started : ResourceController C → Bool) where
  turn_found-IsAim :
      (r : Request C) (mr : ManagedResource) (w : World S) (st : State C)
      → r.get ≡ ok mr
      → mr.deleting ≡ false
      → IsAim r (turn_found update_status started r mr w st)
  unfolding turn_found
  turn_found-IsAim r mr w st got kept =
      elim (Result-cases (config_hash_for_managed_resource r.env.hasher mr)) [
        | inr (c, failed) ↦
            rw (failed, turn_found, IsAim)
              (λ h. absurd (run_instance-errs update_status started _ mr w h))
        | inl (hash, hashed) ↦ elim (Option-cases (lookup (key_of mr) st.controllers)) [
          | inl absent ↦ rw (hashed, absent, turn_found, IsAim) (got, kept, hashed)
          | inr (rc, there) ↦ elim (Bool-cases (rc.config_hash == hash)) [
            | inl same ↦
                rw (hashed, there, same, turn_found, IsAim)
                  (hash, (got, kept, hashed), (rc, there, (eq_iff rc.config_hash hash).0 same))
            | inr changed ↦ rw (hashed, there, changed, turn_found, IsAim) (got, kept, hashed)
          ]
        ]
      ]

  turn_read-IsAim :
      (r : Request C) (w : World S) (st : State C) (get : Result ApiError ManagedResource)
      → r.get ≡ get
      → IsAim r (turn_read update_status started r w st get)
  unfolding turn_read
  turn_read-IsAim r w st (err not_found) got =
      λ h. inl ((stop_and_remove_controller_for-lookup r.key r.key st).0, inl got)
  turn_read-IsAim r w st (err (other c)) got = λ h. cc
  turn_read-IsAim r w st (ok mr) got =
      if-IsAim r mr.deleting _ _
        (λ deleted h.
          inl ((stop_and_remove_controller_for-lookup r.key r.key st).0, inr (mr, got, deleted)))
        (turn_found-IsAim r mr w st got)

  turn_stopping-IsAim :
      (r : Request C) (mr : ManagedResource) (hash : String) (st : State C)
      → IsFor r mr hash
      → IsAim {S = S} r (turn_stopping r mr hash st)
  unfolding turn_stopping
  turn_stopping-IsAim r mr hash st aim = elim (Option-cases (lookup (key_of mr) st.controllers)) [
    | inl absent ↦ rw (absent, turn_stopping, IsAim) tt
    | inr (rc, there) ↦ elim (Option-cases rc.done) [
      | inl runs ↦ rw (there, runs, turn_stopping, IsAim) tt
      | inr (c, closed) ↦ rw (there, closed, turn_stopping, IsAim) aim
    ]
  ]

  turn_made-IsAim :
      (r : Request C) (mr : ManagedResource) (hash : String) (w : World S) (st : State C)
      (made : Result EnsureError (ResourceController C) × State C)
      → IsFor r mr hash
      → Ensured (key_of mr) hash st made
      → IsAim r (turn_made update_status started r mr w made)
  unfolding turn_made
  turn_made-IsAim r mr hash w st (err e, st') aim h =
      λ fine. absurd (run_instance-errs update_status started e mr w fine)
  turn_made-IsAim r mr hash w st (ok rc, st') aim (there, hashed, others) =
      (hash, aim, (rc, there, hashed))

  turn_ensured-IsAim :
      (r : Request C) (mr : ManagedResource) (w : World S) (st : State C)
      → IsAimed (ensured r mr) st
      → IsAim r (turn_ensured update_status started mr w st)
  unfolding turn_ensured
  turn_ensured-IsAim r mr w st (hash, aim, (rc, there, hashed)) =
      rw (there, turn_ensured, IsAim)
        (λ h. inr (
          mr,
          hash,
          aim,
          (rc, there, hashed, run_instance-runs update_status started r.env rc mr w h),
        ))

  turn_starting-IsAim :
      (r : Request C) (mr : ManagedResource) (hash : String) (w : World S) (st : State C)
      → IsFor r mr hash
      → IsStaged (starting r mr hash) st
      → IsAim r (turn_starting update_status started r mr hash w st)
  unfolding turn_starting
  turn_starting-IsAim r mr hash w st aim (named, absent) =
      turn_made-IsAim r mr hash w st (start_controller r.env mr hash st) aim (
        start_controller-Ensured r.env mr hash st
          (subst (λ k. lookup k st.controllers ≡ none) (sym named) absent))

  pub turn-IsAim :
      (stage : Stage C) (r : Request C) (w : World S) (st : State C)
      → request_of stage ≡ some r
      → IsStaged stage st
      → IsAimed stage st
      → IsAim r (turn update_status started stage w st)
  unfolding turn turn_taken
  turn-IsAim idle r w st for staged aim = absurd (none_ne_some for)
  turn-IsAim (taken r') r w st for staged aim =
      subst (λ x. IsAim x (turn_read update_status started r' w st r'.get)) (some_injective for)
        (turn_read-IsAim r' w st r'.get refl)
  turn-IsAim (stopping r' mr hash) r w st for staged aim =
      subst (λ x. IsAim x (turn_stopping {S = S} r' mr hash st)) (some_injective for)
        (turn_stopping-IsAim r' mr hash st aim)
  turn-IsAim (starting r' mr hash) r w st for staged aim =
      subst (λ x. IsAim x (turn_starting update_status started r' mr hash w st))
        (some_injective for) (turn_starting-IsAim r' mr hash w st aim staged)
  turn-IsAim (ensured r' mr) r w st for staged aim =
      subst (λ x. IsAim x (turn_ensured update_status started mr w st)) (some_injective for)
        (turn_ensured-IsAim r' mr w st aim)
