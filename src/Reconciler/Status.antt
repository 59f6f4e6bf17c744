-- ===== src/Reconciler/Status.antt =====
-- Reconcile and recordReconcileErr of controllers/managedresource_controller.go: the outcome of a
-- reconciliation as a result, a status, events and metrics.
pub mod Laws
use espejote.Base.{
  String, Option, none, some, List, [], ◌∷◌, ◌++◌, true, ◌==◌, if◌then◌else◌, Result, ok, err,
}
use espejote.Kube.{Unstructured, ApiError, not_found, other}
use espejote.Api.{ManagedResource}
use espejote.Renderer.{TriggerInfo, WatchResource, is_zero}
use espejote.Reconciler.Errors.{
  EspejoteErrorType, ReconcileError, plain, typed, type_string, is_transient, error_is_transient,
}
use espejote.Reconciler.{State, Env, CtrlResult, done, requeue, reconcile_inner}

-- What an event is about, and its reason.
pub data Regarding : Type 0 where
  managed_resource : Regarding
  trigger_object : WatchResource → Regarding

-- The cluster, the events, and the two counters, each increment by its trigger and error kind.
pub record World (S : Type 0) : Type 0 where
  pub cluster : S
  pub events : List (Regarding × String)
  pub reconcile_errors : List (String × String)
  pub reconciles : List String

-- The error type of an event and of the status.
abbrev pub err_type : ReconcileError → String
err_type (typed t d) = type_string t
err_type (plain e) = "ReconcileError"

abbrev pub event_objects : TriggerInfo → List Regarding
event_objects ti =
    if is_zero ti.watch_resource
    then managed_resource ∷ []
    else managed_resource ∷ trigger_object ti.watch_resource ∷ []

abbrev pub events_for : String → List Regarding → List (Regarding × String)
events_for reason [] = []
events_for reason (o ∷ os) = (o, reason) ∷ events_for reason os

-- client.IgnoreNotFound
abbrev pub ignore_not_found : ApiError → Option ApiError
ignore_not_found not_found = none
ignore_not_found (other c) = some (other c)

-- `get` is the read of the resource after the reconciliation; `update_status` writes its status.
module _ {S : Type 0} (get : Result ApiError ManagedResource)
    (update_status : ManagedResource → S → Option ApiError × S) where
  pub set_status : String → ManagedResource → World S → Option ApiError × World S
  set_status status mr w =
      if mr.status == status
      then (none, w)
      else let r = update_status (record mr { status = status }) w.cluster in
        (r.0, record w { cluster = r.1 })

  pub report : TriggerInfo → ReconcileError → World S → World S
  report ti e w = if error_is_transient e then w else record w {
    events = w.events ++ events_for (err_type e) (event_objects ti);
    reconcile_errors = (ti.trigger_name, err_type e) ∷ w.reconcile_errors;
  }

  unfoldable pub record_reconcile_err :
      TriggerInfo → Option ReconcileError → World S → Option ApiError × World S
  unfolding set_status report
  record_reconcile_err ti e w = elim get [
    | err x ↦ (ignore_not_found x, w)
    | ok mr ↦ elim e [
      | none ↦ set_status "Ready" mr w
      | some x ↦ set_status (err_type x) mr (report ti x w)
    ]
  ]

-- The result and error of reconcile, before the error is looked at.
abbrev pub result_of : Result ReconcileError CtrlResult → CtrlResult
result_of (ok r) = r
result_of (err e) = done

abbrev pub error_of : Result ReconcileError CtrlResult → Option ReconcileError
error_of (ok r) = none
error_of (err e) = some e

-- A transient error is turned into a requeue.
pub surface : Result ReconcileError CtrlResult → CtrlResult × Option ReconcileError
surface (ok r) = (r, none)
surface (err e) = if error_is_transient e then (requeue, none) else (done, some e)

-- The result, and the two errors that multierr.Combine joins.
unfoldable pub reconcile :
    {S : Type 0} (U : Unstructured)
    → Env U S
    → Result ApiError ManagedResource
    → (ManagedResource → S → Option ApiError × S)
    → TriggerInfo
    → State
    → World S
    → (CtrlResult × Option ReconcileError × Option ApiError) × State × World S
unfolding surface
reconcile U env get update_status ti st w =
    let started = record st { started = true } in
    let counted = record w { reconciles = ti.trigger_name ∷ w.reconciles } in
    let r = reconcile_inner U env ti started counted.cluster in
    let recorded =
      record_reconcile_err get update_status ti (error_of r.0) (record counted { cluster = r.2 }) in
    let out = surface r.0 in ((out.0, out.1, recorded.0), r.1, recorded.1)
