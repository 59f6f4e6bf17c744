-- ===== src/Manager/Requests/Laws.antt =====
-- What a reconciliation of the manager leaves.
use mathlib.Core.Path.{subst}
use espejote.Base.{
  String, Bool, true, false, Option, none, some, ◌≡◌, ◌≢◌, inl, inr, refl, arith, Result, ok, err,
  ok_injective, Option-cases,
}
use espejote.Kube.{ApiError, not_found, NamespacedName}
use espejote.Api.{ManagedResource}
use espejote.Manager.Keyed.{lookup}
use espejote.Manager.{
  State, Env, EnsureError, ResourceController, start_err, key_of, ensure_instance_controller_for,
  config_hash_for_managed_resource,
}
use espejote.Manager.Instances.{
  Ensured, ensure_instance_controller_for-Ensured, stop_and_remove_controller_for-lookup,
}
use espejote.Manager.Requests.{World, notify_instance, run_instance, reconcile_request}

-- The resource is gone, or is being deleted.
abbrev pub IsGone : Result ApiError ManagedResource → Type 0
IsGone (ok mr) = mr.deleting ≡ true
IsGone (err e) = e ≡ not_found

Ensured-ok :
    {C : Type 0} (key : NamespacedName) (hash : String) (st : State C)
    (r : Result EnsureError (ResourceController C) × State C) (rc : ResourceController C)
    → r.0 ≡ ok rc
    → Ensured key hash st r
    → (lookup key r.1.controllers ≡ some rc) × (rc.config_hash ≡ hash)
Ensured-ok key hash st (ok rc', st') rc h e =
    subst (λ x. (lookup key st'.controllers ≡ some x) × (x.config_hash ≡ hash)) (ok_injective h)
      (e.0, e.1)
Ensured-ok key hash st (err e', st') rc h e = cc

module _ {S C : Type 0} (update_status : ManagedResource → S → Option ApiError × S)
    (started : ResourceController C → Bool) (env : Env C) where
  -- Where the resource is gone or being deleted, it has no controller afterwards, the others keep
  -- theirs, nothing is written, and there is no error.
  pub reconcile_request-gone :
      (get : Result ApiError ManagedResource) (key k : NamespacedName) (st : State C) (w : World S)
      → IsGone get
      → ((reconcile_request update_status started env get key st w).0 ≡ none)
        × ((reconcile_request update_status started env get key st w).2 ≡ w)
        × (lookup key (reconcile_request update_status started env get key st w).1.controllers
            ≡ none)
        × (key ≢ k
            → lookup k (reconcile_request update_status started env get key st w).1.controllers
              ≡ lookup k st.controllers)
  unfolding reconcile_request
  reconcile_request-gone (ok mr) key k st w h =
      let stopped = stop_and_remove_controller_for-lookup key k st in
      rw (h, reconcile_request) (refl, refl, stopped.0, stopped.1)
  reconcile_request-gone (err e) key k st w h =
      let stopped = stop_and_remove_controller_for-lookup key k st in
      rw (h, reconcile_request) (refl, refl, stopped.0, stopped.1)

  -- An instance that was notified runs, and has a request.
  notify_instance-queued :
      (rc : ResourceController C) (mr : ManagedResource) (w : World S)
      → (notify_instance update_status started rc mr w).0 ≡ none
      → (notify_instance update_status started rc mr w).1.queued ≡ true
  unfolding notify_instance
  notify_instance-queued rc mr w h = ground arith

  pub run_instance-ok :
      (r : Result EnsureError (ResourceController C)) (mr : ManagedResource) (w : World S)
      → (run_instance update_status started r mr w).0 ≡ none
      → (rc : ResourceController C) × (r ≡ ok rc)
        × (start_err rc ≡ none)
        × ((run_instance update_status started r mr w).1.queued ≡ true)
  unfolding run_instance
  run_instance-ok (err e) mr w h = cc
  run_instance-ok (ok rc) mr w h = elim (Option-cases rc.done) [
    | inl running ↦ (rc, refl, running, ground (arith, notify_instance-queued rc mr w))
    | inr (c, stopped) ↦ ground arith
  ]

  -- Where the resource is there and not being deleted, its hash can be computed, and the manager's
  -- reconciliation of it ends without an error, the resource has a controller for its configuration
  -- that runs, and a request waits for it.
  pub reconcile_request-runs :
      (mr : ManagedResource) (hash : String) (st : State C) (w : World S)
      → mr.deleting ≡ false
      → config_hash_for_managed_resource env.hasher mr ≡ ok hash
      → (reconcile_request update_status started env (ok mr) (key_of mr) st w).0 ≡ none
      → (rc : ResourceController C) × (lookup
            (key_of mr)
            (reconcile_request update_status started env (ok mr) (key_of mr) st w).1.controllers
          ≡ some rc)
        × (rc.config_hash ≡ hash)
        × (start_err rc ≡ none)
        × ((reconcile_request update_status started env (ok mr) (key_of mr) st w).2.queued ≡ true)
  unfolding reconcile_request
  reconcile_request-runs mr hash st w kept hashed h =
      let ensured = ensure_instance_controller_for env mr st in
      let run = run_instance-ok ensured.0 mr w (ground arith) in
      let held =
        Ensured-ok (key_of mr) hash st ensured run.0 run.1
          (ensure_instance_controller_for-Ensured env mr hash st hashed) in
      (run.0, ground (arith, held), held.1, run.2, ground (arith, run.3))
