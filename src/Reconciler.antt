-- ===== src/Reconciler.antt =====
-- ManagedResourceReconciler of controllers/managedresource_controller.go: one instance for each
-- ManagedResource. The reads of the controller's client, the template engine, the encoders behind the
-- hash of the configuration and the scope of a kind are fields of `Env`; the cluster that the
-- instance's client writes to is a state `S`.
pub mod Errors
pub mod Config
pub mod Status
use Prim.Native.String
use espejote.Base.{
  ℕ, String, Bool, true, false, not, ◌&&◌, ◌||◌, Option, none, some, List, [], ◌∷◌, ◌==◌, num_eq,
  if◌then◌else◌, Result, ok, err, wrap, ◌>>=◌, suc,
}
use espejote.Kube.{Unstructured, ApiError, not_found, other, Cause}
use espejote.Api.{ManagedResource}
use espejote.Manager.{Hasher, config_hash_for_managed_resource}
use espejote.Renderer.{TriggerInfo, WatchResource, RenderError, is_zero}
use espejote.Applygroup.{ApplyDefaults, Kind, Node, Applier}
use espejote.Applygroup.Walk.{Visitor, walk}
use espejote.Applygroup.Decode.{Json, DecodeError, decode}
use espejote.Applygroup.Apply.{Client, ApplyError, apply}
use espejote.Reconciler.Errors.{
  EspejoteErrorType, dependency_configuration_error, template_error, template_return_error,
  apply_error, ReconcileError, plain, typed, Detail, hashing, syncing, rendering, unmarshaling,
  processing, applying, error_is_transient, type_string, is_transient,
}

pub data CtrlResult : Type 0 where
  done requeue : CtrlResult
  requeue_after : ℕ → CtrlResult

-- The fields of the reconciler that change.
pub record State : Type 0 where
  pub config_hash : String
  pub config_generation : ℕ
  pub started : Bool

-- `render` is the Renderer over the caches of this instance; `json_of` is the token stream of its
-- output; the two generations are those of a JsonnetLibrary in the two caches.
pub record Env (U : Unstructured) (S : Type 0) : Type 0 where
  pub get_managed_resource : Result ApiError ManagedResource
  pub hasher : Hasher
  pub trigger_cache_generation : TriggerInfo → Result Cause ℕ
  pub controller_cache_generation : TriggerInfo → Result ApiError ℕ
  pub render : ManagedResource → TriggerInfo → Result RenderError String
  pub json_of : String → Json
  pub is_namespaced : U.Object → Result Cause Bool
  pub client : Client S U.Object
  pub combine : List (ApplyError U.Object) → Option (ApplyError U.Object)

abbrev pub library_group : String
library_group = "espejote.io"

-- jsonnetLibraryCacheNeedsSync
unfoldable pub jsonnet_library_cache_needs_sync :
    {U : Unstructured} {S : Type 0} → Env U S → TriggerInfo → Result Detail Bool
jsonnet_library_cache_needs_sync env ti =
    if not (ti.watch_resource.group == library_group)
      || not (ti.watch_resource.kind == "JsonnetLibrary")
    then ok false
    else do
      t ← wrap (λ e. syncing (other e)) (env.trigger_cache_generation ti)
      c ← wrap syncing (env.controller_cache_generation ti)
      ok (not (num_eq t c))

-- `10 * time.Millisecond`, in nanoseconds.
abbrev pub ten_milliseconds : ℕ
ten_milliseconds = 10000000

-- Whether this instance is for the resource's configuration; the generation is remembered.
pub data ConfigCheck : Type 0 where
  current : State → ConfigCheck
  changed : ConfigCheck
  failed : Cause → ConfigCheck

unfoldable pub check_config : State → ManagedResource → Result Cause String → ConfigCheck
check_config st mr hash =
    if num_eq st.config_generation mr.generation then current st else elim hash [
      | err c ↦ failed c
      | ok h ↦
          if st.config_hash == h
          then current (record st { config_generation = mr.generation })
          else changed
    ]

module _ (U : Unstructured) {S : Type 0} (env : Env U S) where
  -- The kinds of the nodes walked, the last first; the log counts them.
  abbrev pub Counts : Type 0
  Counts = List Kind

  -- defaultNamespaceIfNamespaced
  unfoldable pub default_namespace_if_namespaced : String → U.Object → Result Cause U.Object
  default_namespace_if_namespaced namespace obj = do
    namespaced ← env.is_namespaced obj
    ok (if namespaced && U.namespace obj == "" then U.set_namespace namespace obj else obj)

  -- The visitor that reconcile walks with; the kinds that it counts for the log are listed.
  unfoldable pub process : String → Visitor Cause Counts U.Object
  unfolding default_namespace_if_namespaced
  process namespace n counts = elim n.resource [
    | none ↦ (none, n, n.kind ∷ counts)
    | some obj ↦ elim (default_namespace_if_namespaced namespace obj) [
      | err c ↦ (some c, n, n.kind ∷ counts)
      | ok obj' ↦ (none, record n { resource = some obj' }, n.kind ∷ counts)
    ]
  ]

  abbrev pub apply_defaults_of : ManagedResource → ApplyDefaults
  apply_defaults_of mr = record {
    field_manager = mr.spec.apply_options.field_manager;
    force = mr.spec.apply_options.force;
    field_manager_fallback = String.◌++◌ "managed-resource:" mr.name;
  }

  -- From the rendered text to the cluster.
  unfoldable pub apply_rendered :
      ManagedResource → String → S → Result ReconcileError CtrlResult × S
  apply_rendered mr rendered s =
      elim (decode U (apply_defaults_of mr) none (env.json_of rendered)) [
        | err e ↦ (err (typed template_return_error (unmarshaling e)), s)
        | ok root ↦
            let walked = walk (process mr.namespace) root [] in
            elim walked.0 [
              | some c ↦ (err (typed apply_error (processing c)), s)
              | none ↦
                  let applied = apply U env.client env.combine walked.1 s in
                  elim applied.0 [
                    | some e ↦ (err (typed apply_error applying), applied.1)
                    | none ↦ (ok done, applied.1)
                  ]
            ]
      ]

  -- Behind the check of the configuration.
  unfoldable pub sync_and_render :
      ManagedResource → TriggerInfo → S → Result ReconcileError CtrlResult × S
  sync_and_render mr ti s = elim (jsonnet_library_cache_needs_sync env ti) [
    | err e ↦ (err (typed dependency_configuration_error e), s)
    | ok waits ↦
        if waits then (ok (requeue_after ten_milliseconds), s) else elim (env.render mr ti) [
          | err e ↦ (err (typed template_error (rendering e)), s)
          | ok rendered ↦ apply_rendered mr rendered s
        ]
  ]

  pub after_check :
      ConfigCheck
      → ManagedResource
      → TriggerInfo
      → State
      → S
      → Result ReconcileError CtrlResult × State × S
  after_check (failed c) mr ti st s =
      (err (typed dependency_configuration_error (hashing c)), st, s)
  after_check changed mr ti st s = (ok done, st, s)
  after_check (current st') mr ti st s = let r = sync_and_render mr ti s in (r.0, st', r.1)

  -- reconcile
  unfoldable pub reconcile_inner :
      TriggerInfo → State → S → Result ReconcileError CtrlResult × State × S
  unfolding after_check
  reconcile_inner ti st s = elim env.get_managed_resource [
    | err e ↦ elim e [ not_found ↦ (ok done, st, s) | other c ↦ (err (plain (other c)), st, s) ]
    | ok mr ↦
        if mr.deleting
        then (ok done, st, s)
        else after_check (check_config st mr (config_hash_for_managed_resource env.hasher mr)) mr ti
            st s
  ]
