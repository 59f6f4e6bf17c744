-- ===== src/Manager/Spec/Refines.antt =====
-- The manager of instances keeps what it promises.
use mathlib.Core.Path.{subst, subst₂}
use espejote.Base.{
  none_ne_some, String, Bool, false, Option, some, List, [], ◌∷◌, ◌≡◌, ◌≢◌, inl, inr, refl, sym, ap,
  ◌∙◌, arith, eq_iff, All, Result, ok, err, Result-cases, Option-cases, Bool-cases,
}
use espejote.Kube.{Cause, ApiError, not_found, other, NamespacedName}
use espejote.Api.{ManagedResource}
use espejote.Manager.Keyed.{lookup}
use espejote.Manager.{
  State, Env, EnsureError, ResourceController, key_of, current_for,
  config_hash_for_managed_resource, ensure_instance_controller_for, stop_and_remove_controller_for,
}
use espejote.Manager.Instances.{
  Ensured, current_for-some, ensure_instance_controller_for-Ensured,
  stop_and_remove_controller_for-lookup,
}
use espejote.Manager.Requests.{World, reconcile_request}
use espejote.Manager.Spec.{
  hash_of, running, Request, Wanted, absent, configured, wanted_by, wanted_hash, Moves, Steps,
  IsNamed, IsNamedOf,
}

-- A reconciliation of `key` that finds `wanted` takes `st` to `st'`.
abbrev Moved : {C : Type 0} → Wanted → NamespacedName → State C → State C → Type 0
Moved wanted key st st' =
    Moves wanted (running st key) (running st' key)
    × ((k : NamespacedName) → key ≢ k → running st' k ≡ running st k)

module _ {C : Type 0} where
  -- A controller for the hash is the current one.
  running-current_for :
      (key : NamespacedName) (hash : String) (st : State C)
      → running st key ≡ some hash
      → (rc : ResourceController C) × (current_for key hash st ≡ some rc)
  unfolding current_for
  running-current_for key hash st h = elim (Option-cases (lookup key st.controllers)) [
    | inl missing ↦ absurd (ground arith)
    | inr (rc, there) ↦ (rc, ground (arith, eq_iff rc.config_hash hash))
  ]

  Ensured-Moves :
      (key : NamespacedName) (hash : String) (st : State C)
      (r : Result EnsureError (ResourceController C) × State C)
      → Ensured key hash st r
      → running st key ≢ some hash
      → Moved (configured hash) key st r.1
  Ensured-Moves key hash st (ok rc, st') (there, same, others) new =
      (inl (ground arith), λ k h. ap hash_of (others k h))
  Ensured-Moves key hash st (err e, st') (gone, others) new =
      (inr (ap hash_of gone, new), λ k h. ap hash_of (others k h))

  ensured-Step :
      (env : Env C) (mr : ManagedResource) (hash : String) (st : State C)
      → config_hash_for_managed_resource env.hasher mr ≡ ok hash
      → Moved (configured hash) (key_of mr) st (ensure_instance_controller_for env mr st).1
  unfolding ensure_instance_controller_for
  ensured-Step env mr hash st hashed = elim (Option-cases (current_for (key_of mr) hash st)) [
    | inr (rc, current) ↦
        let (there, same) = current_for-some (key_of mr) hash st rc current in
        rw (hashed, current, ensure_instance_controller_for) (inl (ground arith), λ k h. refl)
    | inl outdated ↦
        Ensured-Moves (key_of mr) hash st (ensure_instance_controller_for env mr st)
          (ensure_instance_controller_for-Ensured env mr hash st hashed)
          (λ h.
            let (rc, current) = running-current_for (key_of mr) hash st h in
            none_ne_some (sym outdated ∙ current))
  ]

  unhashed :
      (env : Env C) (mr : ManagedResource) (st : State C) (e : Cause)
      → config_hash_for_managed_resource env.hasher mr ≡ err e
      → (ensure_instance_controller_for env mr st).1 ≡ st
  unfolding ensure_instance_controller_for
  unhashed env mr st e failed = rw (failed, ensure_instance_controller_for) refl

  stopped-Step :
      (key : NamespacedName) (st : State C)
      → Moved absent key st (stop_and_remove_controller_for key st)
  stopped-Step key st = (
    ap hash_of (stop_and_remove_controller_for-lookup key key st).0,
    λ k h. ap hash_of ((stop_and_remove_controller_for-lookup key k st).1 h),
  )

module _ {S C : Type 0} (update_status : ManagedResource → S → Option ApiError × S)
    (started : ResourceController C → Bool) where
  -- What a reconciliation makes of the state.
  abbrev after :
      Env C → Result ApiError ManagedResource → NamespacedName → State C → World S → State C
  after env get key st w = (reconcile_request update_status started env get key st w).1

  kept_after :
      (env : Env C) (mr : ManagedResource) (key : NamespacedName) (st : State C) (w : World S)
      → mr.deleting ≡ false
      → after env (ok mr) key st w ≡ (ensure_instance_controller_for env mr st).1
  unfolding reconcile_request
  kept_after env mr key st w kept = ground arith

  moved :
      (env : Env C) (get : Result ApiError ManagedResource) (key : NamespacedName) (st : State C)
      (w : World S)
      → IsNamedOf key get
      → Moved (wanted_by env get) key st (after env get key st w)
  unfolding reconcile_request
  moved env (err not_found) key st w named = stopped-Step key st
  moved env (err (other c)) key st w named = (refl, λ k h. refl)
  moved env (ok mr) key st w named = elim (Bool-cases mr.deleting) [
    | inl deleted ↦ rw (deleted, reconcile_request) (stopped-Step key st)
    | inr kept ↦
        let hash_or_error = config_hash_for_managed_resource env.hasher mr in
        let left = kept_after env mr key st w kept in
        let wanted : wanted_by env (ok mr) ≡ wanted_hash hash_or_error = ground arith in
        elim (Result-cases hash_or_error) [
          | inr (e, failed) ↦
              subst₂ (λ x s. Moved x key st s) (sym (wanted ∙ ap wanted_hash failed))
                (sym (left ∙ unhashed env mr st e failed)) (refl, λ k h. refl)
          | inl (hash, hashed) ↦
              subst₂ (λ x s. Moved x key st s) (sym (wanted ∙ ap wanted_hash hashed)) (sym left)
                (subst
                  (λ j. Moved (configured hash) j st (ensure_instance_controller_for env mr st).1)
                  named (ensured-Step env mr hash st hashed))
        ]
  ]

  -- The requests one after the other.
  unfoldable pub reconcile_requests : List (Request C) → State C → World S → State C × World S
  reconcile_requests [] st w = (st, w)
  reconcile_requests (r ∷ rs) st w =
      let (error, st', w') = reconcile_request update_status started r.env r.get r.key st w in
      reconcile_requests rs st' w'

  -- Reconciliations of the manager one after the other, each of which reads a resource of the name
  -- that it is for, if it reads one, take the hashes of the configurations that the resources run
  -- with only as promised: a resource that is gone or being deleted ends with none, one that cannot
  -- be read or hashed keeps its own, any other ends with its own hash, or with none where it did
  -- not run with that hash before, and all other resources keep theirs.
  pub reconcile_requests-Steps :
      (rs : List (Request C)) (st : State C) (w : World S)
      → All IsNamed rs
      → Steps rs (running st) (running (reconcile_requests rs st w).0)
  unfolding reconcile_requests
  reconcile_requests-Steps [] st w named = λ k. refl
  reconcile_requests-Steps (r ∷ rs) st w (one, named) =
      let next = reconcile_request update_status started r.env r.get r.key st w in
      (
        running next.1,
        moved r.env r.get r.key st w one,
        reconcile_requests-Steps rs next.1 next.2 named,
      )
