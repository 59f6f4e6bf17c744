-- ===== src/Manager.antt =====
-- ManagedResourceControllerManager of controllers/managedresource_controller_manager.go: an instance
-- for each ManagedResource, and what bounds its lifetime. A cancelable context is its number; only
-- the manager's own Reconcile, one at a time, changes the map of controllers.
pub mod Duplicates
pub mod Caches
pub mod Concurrent
pub mod Keyed
pub mod Lifetimes
pub mod Instances
pub mod Ensuring
pub mod Requests
pub mod Tokens
pub mod Spec
use Prim.Native.String
use espejote.Base.{
  ℕ, suc, String, Bool, true, false, Option, none, some, List, [], ◌∷◌, ◌==◌, if◌then◌else◌, Result,
  ok, err, wrap, ◌>>=◌,
}
use espejote.Kube.{Cause, NamespacedName, ApiError, not_found, other}
use espejote.Api.{
  ManagedResource, ManagedResourceTrigger, ManagedResourceContext, ClusterResource, Duration,
}
use espejote.Manager.Caches.{InstanceCache, CacheError, Watch, cache_for}
use espejote.Manager.Keyed.{Table, lookup, insert, delete, cancel}

-- resourceController; `done` is the error in `startErr` once the channel `done` is closed.
pub record ResourceController (C : Type 0) : Type 0 where
  pub config_hash : String
  pub lifetime : ℕ
  pub caches : InstanceCache C
  pub done : Option Cause

abbrev pub resource_controller : {C : Type 0} → String → ℕ → InstanceCache C → ResourceController C
resource_controller hash context ci = record {
  config_hash = hash;
  lifetime = context;
  caches = ci;
  done = none;
}

abbrev pub err_stopped : Cause
err_stopped = "controller stopped"

-- What the goroutine of a controller does when Start returns.
abbrev pub start_returned :
    {C : Type 0} → Option Cause → ResourceController C → ResourceController C
start_returned none rc = record rc { done = some err_stopped }
start_returned (some e) rc = record rc { done = some e }

-- StartErr
abbrev pub start_err : {C : Type 0} → ResourceController C → Option Cause
start_err rc = rc.done

-- `live` are the contexts that are not canceled, and `next` is the next one.
pub record State (C : Type 0) : Type 0 where
  pub controllers : Table (ResourceController C)
  pub live : List ℕ
  pub next : ℕ

-- The encoders write JSON with sorted keys, and `md5_hex` is the hash of what is written.
pub record Hasher : Type 0 where
  pub encode_triggers : List ManagedResourceTrigger → Result Cause String
  pub encode_contexts : List ManagedResourceContext → Result Cause String
  pub md5_hex : String → String

-- configHashForManagedResource
unfoldable pub config_hash_for_managed_resource : Hasher → ManagedResource → Result Cause String
config_hash_for_managed_resource h mr = do
  triggers ← h.encode_triggers mr.spec.triggers
  contexts ← h.encode_contexts mr.spec.context
  ok (h.md5_hex (String.◌++◌ triggers (String.◌++◌ contexts mr.spec.service_account_ref)))

-- The parts of a rest.Config that are set; the round tripper is the service account's.
pub record RestConfig : Type 0 where
  pub host : String
  pub tls_client_config : String
  pub service_account : NamespacedName

pub data EnsureError : Type 0 where
  hash_failed client_failed controller_failed watch_failed : Cause → EnsureError
  token_failed : NamespacedName → Cause → EnsureError
  cache_failed : CacheError → EnsureError

-- The calls of libraries; a call that returns nothing but an error returns a `Unit`.
pub record Env (C : Type 0) : Type 0 where
  pub hasher : Hasher
  pub host : String
  pub tls_client_config : String
  pub trigger_refresh : NamespacedName → Result {0, 0} Cause Unit
  pub new_client : RestConfig → Result {0, 0} Cause Unit
  pub new_controller : String → Duration → Result {0, 0} Cause Unit
  pub new_cache : RestConfig → String → ClusterResource → Result Cause C
  pub watch : Watch C → Result {0, 0} Cause Unit
  pub watch_instance : Result {0, 0} Cause Unit

abbrev pub key_of : ManagedResource → NamespacedName
key_of mr = record { namespace = mr.namespace; name = mr.name }

abbrev pub controller_name : ManagedResource → String
controller_name mr =
    String.◌++◌ "managedresource/" (String.◌++◌ mr.namespace (String.◌++◌ "/" mr.name))

-- The service account of a resource.
abbrev pub service_account_of : ManagedResource → NamespacedName
service_account_of mr = record {
  namespace = mr.namespace;
  name = if mr.spec.service_account_ref == "" then "default" else mr.spec.service_account_ref;
}

module _ {C : Type 0} (env : Env C) where
  -- restConfigForManagedResource
  unfoldable pub rest_config_for_managed_resource : ManagedResource → Result EnsureError RestConfig
  rest_config_for_managed_resource mr = do
    let account = service_account_of mr
    refreshed ← wrap (token_failed account) (env.trigger_refresh account)
    ok (record {
      host = env.host;
      tls_client_config = env.tls_client_config;
      service_account = account;
    })

  -- From the context of the instance on: on an error it is canceled, but for the last one.
  unfoldable pub start_in_context :
      ManagedResource
      → String
      → RestConfig
      → ℕ
      → State C
      → Result EnsureError (ResourceController C) × State C
  start_in_context mr hash rc context st =
      let canceled = record st { live = cancel context st.live } in
      elim (env.new_controller (controller_name mr) mr.spec.cache_sync_timeout) [
        | err c ↦ (err (controller_failed c), canceled)
        | ok created ↦ elim (cache_for (env.new_cache rc mr.namespace) env.watch mr) [
          | err e ↦ (err (cache_failed e), canceled)
          | ok ci ↦ elim env.watch_instance [
            | err c ↦ (err (watch_failed c), st)
            | ok watched ↦
                let instance = resource_controller hash context ci in
                (
                  ok instance,
                  record st { controllers = insert (key_of mr) instance st.controllers },
                )
          ]
        ]
      ]

  -- A new controller where there is none for the resource.
  unfoldable pub start_controller :
      ManagedResource → String → State C → Result EnsureError (ResourceController C) × State C
  start_controller mr hash st = elim (rest_config_for_managed_resource mr) [
    | err e ↦ (err e, st)
    | ok rc ↦ elim (env.new_client rc) [
      | err c ↦ (err (client_failed c), st)
      | ok created ↦
          start_in_context mr hash rc st.next
            (record st { live = st.next ∷ st.live; next = suc st.next })
    ]
  ]

-- stopAndRemoveControllerFor
unfoldable pub stop_and_remove_controller_for : {C : Type 0} → NamespacedName → State C → State C
stop_and_remove_controller_for key st = elim (lookup key st.controllers) [
  | none ↦ st
  | some rc ↦ record st {
    live = cancel rc.lifetime st.live;
    controllers = delete key st.controllers;
  }
]

-- The controller of a resource, if it is one for the hash.
unfoldable pub current_for :
    {C : Type 0} → NamespacedName → String → State C → Option (ResourceController C)
current_for key hash st = elim (lookup key st.controllers) [
  | none ↦ none
  | some rc ↦ if rc.config_hash == hash then some rc else none
]

-- ensureInstanceControllerFor
unfoldable pub ensure_instance_controller_for :
    {C : Type 0}
    → Env C
    → ManagedResource
    → State C
    → Result EnsureError (ResourceController C) × State C
ensure_instance_controller_for env mr st = elim (config_hash_for_managed_resource env.hasher mr) [
  | err c ↦ (err (hash_failed c), st)
  | ok hash ↦ elim (current_for (key_of mr) hash st) [
    | some rc ↦ (ok rc, st)
    | none ↦ start_controller env mr hash (stop_and_remove_controller_for (key_of mr) st)
  ]
]
