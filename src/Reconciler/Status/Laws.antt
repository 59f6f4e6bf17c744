-- ===== src/Reconciler/Status/Laws.antt =====
-- What a reconciliation leaves in the status, the events and the metrics.
use espejote.Base.{
  String, true, false, Option, none, some, ◌++◌, ◌==◌, if◌then◌else◌, ◌≡◌, arith, Result, ok, err,
  Result-cases, inl, inr,
}
use espejote.Kube.{Unstructured, ApiError}
use espejote.Api.{ManagedResource}
use espejote.Renderer.{TriggerInfo}
use espejote.Reconciler.Errors.{ReconcileError, error_is_transient}
use espejote.Manager.{config_hash_for_managed_resource}
use espejote.Reconciler.{
  State, Env, done, reconcile_inner, check_config, sync_and_render, apply_rendered, after_check,
  ConfigCheck, current, changed, failed,
}
use espejote.Reconciler.Status.{
  World, err_type, record_reconcile_err, reconcile, event_objects, events_for, surface,
}

-- The status that an outcome calls for.
abbrev pub wanted : Option ReconcileError → String
wanted none = "Ready"
wanted (some e) = err_type e

module _ (U : Unstructured) {S : Type 0} (env : Env U S) where
  apply_rendered_not_transient :
      (mr : ManagedResource) (text : String) (s : S) (e : ReconcileError)
      → (apply_rendered U env mr text s).0 ≡ err e
      → error_is_transient e ≡ false
  unfolding apply_rendered
  apply_rendered_not_transient mr text s e h = ground arith

  after_check_not_transient :
      (check : ConfigCheck) (mr : ManagedResource) (ti : TriggerInfo) (st : State) (s : S)
      (e : ReconcileError)
      → (after_check U env check mr ti st s).0 ≡ err e
      → error_is_transient e ≡ false
  unfolding after_check sync_and_render
  after_check_not_transient (failed c) mr ti st s e h = ground arith
  after_check_not_transient changed mr ti st s e h = ground arith
  after_check_not_transient (current st') mr ti st s e h = elim (Result-cases (env.render mr ti)) [
    | inl (text, made) ↦ ground (arith, apply_rendered_not_transient mr text s e)
    | inr (x, bad) ↦ ground arith
  ]

  not_transient :
      (ti : TriggerInfo) (st : State) (s : S) (e : ReconcileError)
      → (reconcile_inner U env ti st s).0 ≡ err e
      → error_is_transient e ≡ false
  unfolding reconcile_inner
  not_transient ti st s e h = elim (Result-cases env.get_managed_resource) [
    | inr (x, unread) ↦ ground arith
    | inl (mr, there) ↦ ground (
      arith,
      after_check_not_transient
          (check_config st mr (config_hash_for_managed_resource env.hasher mr)) mr ti st s e,
    )
  ]

module _ {S : Type 0} (update_status : ManagedResource → S → Option ApiError × S) where
  -- Recording an outcome writes nothing to the cluster where the resource has the status that the
  -- outcome calls for, and else that status.
  pub record_reconcile_err-cluster :
      (ti : TriggerInfo) (e : Option ReconcileError) (w : World S) (mr : ManagedResource)
      → (record_reconcile_err (ok mr) update_status ti e w).1.cluster ≡ (
          if mr.status == wanted e
          then w.cluster
          else (update_status (record mr { status = wanted e }) w.cluster).1)
  unfolding record_reconcile_err
  record_reconcile_err-cluster ti e w mr = ground arith

  -- Where the resource can be read, recording an error adds the events of its type if it is not
  -- transient and no event if it is, recording a success adds neither an event nor a count of
  -- errors, and recording an error keeps the count of reconciliations.
  pub record_reconcile_err-report :
      (get : Result ApiError ManagedResource) (ti : TriggerInfo) (e : ReconcileError) (w : World S)
      (mr : ManagedResource)
      → get ≡ ok mr
      → ((record_reconcile_err get update_status ti (some e) w).1.events ≡ (
          if error_is_transient e
          then w.events
          else w.events ++ events_for (err_type e) (event_objects ti)))
        × ((record_reconcile_err get update_status ti none w).1.events ≡ w.events)
        × ((record_reconcile_err get update_status ti none w).1.reconcile_errors
            ≡ w.reconcile_errors)
        × ((record_reconcile_err get update_status ti (some e) w).1.reconciles ≡ w.reconciles)
  unfolding record_reconcile_err
  record_reconcile_err-report get ti e w mr h = ground arith

  -- No error of a reconciliation is transient: each is returned as it is, with an empty result, and
  -- none is turned into a request to try again at once.
  pub reconcile-returns :
      (U : Unstructured) (env : Env U S) (get : Result ApiError ManagedResource) (ti : TriggerInfo)
      (st : State) (w : World S) (e : ReconcileError)
      → (reconcile_inner U env ti (record st { started = true }) w.cluster).0 ≡ err e
      → ((reconcile U env get update_status ti st w).0.0 ≡ done)
        × ((reconcile U env get update_status ti st w).0.1 ≡ some e)
  unfolding reconcile surface
  reconcile-returns U env get ti st w e h =
      rw (h, surface)
        (ground (arith, not_transient U env ti (record st { started = true }) w.cluster e h))
