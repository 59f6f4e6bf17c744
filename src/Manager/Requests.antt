-- ===== src/Manager/Requests.antt =====
-- Reconcile and recordErr of controllers/managedresource_controller_manager.go.
pub mod Laws
use espejote.Base.{
  String, Bool, true, false, not, ◌&&◌, Option, none, some, List, [], ◌∷◌, ◌==◌, if◌then◌else◌,
  Result, ok, err,
}
use espejote.Kube.{ApiError, not_found, other, Cause, NamespacedName}
use espejote.Api.{ManagedResource}
use espejote.Manager.{
  State, Env, EnsureError, token_failed, ResourceController, start_err,
  stop_and_remove_controller_for, ensure_instance_controller_for,
}

-- `queued` tells that a request waits in the channel `in` of the resource's instance.
pub record World (S : Type 0) : Type 0 where
  pub cluster : S
  pub event_reasons : List String
  pub queued : Bool

-- The second error is of the status update that multierr.Combine joins.
pub data ManagerError : Type 0 where
  get_failed status_failed : ApiError → ManagerError
  ensure_failed : EnsureError → Option ApiError → ManagerError
  start_failed : Cause → Option ApiError → ManagerError

-- Only the token request makes an error with a type.
abbrev pub ensure_error_type : EnsureError → String
ensure_error_type (token_failed account c) = "ServiceAccountError"
ensure_error_type _ = "DependencyConfigurationError"

-- `update_status` writes the status; `started` tells whether an instance had its first request.
module _ {S C : Type 0} (update_status : ManagedResource → S → Option ApiError × S)
    (started : ResourceController C → Bool) where
  abbrev pub write_status : String → ManagedResource → World S → Option ApiError × World S
  write_status status mr w =
      let r = update_status (record mr { status = status }) w.cluster in
      (r.0, record w { cluster = r.1 })

  -- recordErr
  unfoldable pub record_err : String → ManagedResource → World S → Option ApiError × World S
  record_err err_type mr w =
      let reported = record w { event_reasons = err_type ∷ w.event_reasons } in
      if mr.status == err_type then (none, reported) else write_status err_type mr reported

  -- An instance that runs.
  unfoldable pub notify_instance :
      ResourceController C → ManagedResource → World S → Option ManagerError × World S
  notify_instance rc mr w =
      let waiting = write_status "WaitingForCacheSync" mr w in
      if not (started rc) && not (mr.status == "WaitingForCacheSync")
      then (elim waiting.0 [
        | some e ↦ (some (status_failed e), waiting.1)
        | none ↦ (none, record waiting.1 { queued = true })
      ])
      else (none, record w { queued = true })

  unfoldable pub run_instance :
      Result EnsureError (ResourceController C)
      → ManagedResource
      → World S
      → Option ManagerError × World S
  run_instance (err e) mr w =
      let recorded = record_err (ensure_error_type e) mr w in
      (some (ensure_failed e recorded.0), recorded.1)
  run_instance (ok rc) mr w = elim (start_err rc) [
    | some c ↦
        let recorded = record_err "ControllerStartError" mr w in
        (some (start_failed c recorded.0), recorded.1)
    | none ↦ notify_instance rc mr w
  ]

  -- Reconcile; `get` is the read of the resource `key`.
  unfoldable pub reconcile_request :
      Env C
      → Result ApiError ManagedResource
      → NamespacedName
      → State C
      → World S
      → Option ManagerError × State C × World S
  reconcile_request env get key st w = elim get [
    | err e ↦ elim e [
      | not_found ↦ (none, stop_and_remove_controller_for key st, w)
      | other c ↦ (some (get_failed (other c)), st, w)
    ]
    | ok mr ↦
        let ensured = ensure_instance_controller_for env mr st in
        let run = run_instance ensured.0 mr w in
        if mr.deleting
        then (none, stop_and_remove_controller_for key st, w)
        else (run.0, ensured.1, run.1)
  ]
