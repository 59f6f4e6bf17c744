-- ===== src/Manager/Caches.antt =====
-- instanceCache of controllers/managedresource_controller.go and cacheFor of
-- controllers/managedresource_controller_manager.go: the caches of an instance, by the names of its
-- triggers and contexts.
pub mod Lookup
pub mod Readers
use espejote.Base.{
  String, Bool, true, false, Option, none, some, List, [], ◌∷◌, ◌++◌, ◌==◌, num_eq, not,
  if◌then◌else◌, Result, ok, err, wrap, ◌>>=◌,
}
use espejote.Base.Tables.{Table, lookup}
use espejote.Kube.{Unstructured, Cause}
use espejote.Renderer.{TriggerInfo}
use espejote.Api.{
  ManagedResource, ManagedResourceTrigger, ManagedResourceContext, ClusterResource, Duration,
}
use espejote.Manager.Duplicates.{find_first_duplicate}

-- `C` is `definitionCache`.
pub record InstanceCache (C : Type 0) : Type 0 where
  pub trigger_caches : Table C
  pub context_caches : Table C

pub data CacheError : Type 0 where
  duplicate_trigger duplicate_context : String → CacheError
  context_has_no_resource : String → CacheError
  context_cache trigger_cache : String → Cause → CacheError
  context_not_found : String → String → CacheError
  trigger_has_no_resource : String → CacheError
  interval_trigger : String → Cause → CacheError
  watch_refused : Cause → CacheError
  cache_not_found : String → CacheError

-- clientForTrigger and clientForContext
unfoldable pub client_for_trigger : {C : Type 0} → InstanceCache C → String → Result CacheError C
client_for_trigger ci name = elim (lookup name ci.trigger_caches) [
  | none ↦ err (cache_not_found name)
  | some c ↦ ok c
]

unfoldable pub client_for_context : {C : Type 0} → InstanceCache C → String → Result CacheError C
client_for_context ci name = elim (lookup name ci.context_caches) [
  | none ↦ err (cache_not_found name)
  | some c ↦ ok c
]

-- What an instance's controller watches: a context, which never enqueues a request, a trigger,
-- which enqueues one with its name, and a ticker.
pub data Watch (C : Type 0) : Type 0 where
  context_watch : C → Watch C
  trigger_watch : C → String → Watch C
  interval_watch : Duration → String → Watch C

-- `new_cache` is newCacheForResourceAndRESTClient and `watch` is `controller.Watch`.
module _ {C : Type 0} (new_cache : ClusterResource → Result Cause C)
    (watch : Watch C → Result {0, 0} Cause Unit) where
  -- The loop over the contexts.
  unfoldable pub context_caches_for :
      Table C → List ManagedResourceContext → Result CacheError (Table C)
  context_caches_for caches [] = ok caches
  context_caches_for caches (con ∷ contexts) =
      if con.resource.api_version == "" then err (context_has_no_resource con.name) else do
        dc ← wrap (context_cache con.name) (new_cache con.resource)
        watched ← wrap watch_refused (watch (context_watch dc))
        context_caches_for ((con.name, dc) ∷ caches) contexts

  -- The cache of a trigger that is no interval.
  unfoldable pub trigger_cache_of : Table C → ManagedResourceTrigger → Result CacheError C
  trigger_cache_of contexts trigger =
      if not (trigger.watch_context_resource == "")
      then (elim (lookup trigger.watch_context_resource contexts) [
        | none ↦ err (context_not_found trigger.watch_context_resource trigger.name)
        | some dc ↦ ok dc
      ])
      else (if trigger.watch_resource.api_version == ""
          then err (trigger_has_no_resource trigger.name)
          else wrap (trigger_cache trigger.name) (new_cache trigger.watch_resource))

  -- One round of the loop over the triggers.
  unfoldable pub add_trigger :
      Table C → Table C → ManagedResourceTrigger → Result CacheError (Table C)
  add_trigger contexts caches trigger =
      if not (num_eq trigger.interval 0)
      then (do
        watched ←
            wrap (interval_trigger trigger.name)
              (watch (interval_watch trigger.interval trigger.name))
        ok caches)
      else do
        dc ← trigger_cache_of contexts trigger
        watched ← wrap watch_refused (watch (trigger_watch dc trigger.name))
        ok ((trigger.name, dc) ∷ caches)

  unfoldable pub trigger_caches_for :
      Table C → Table C → List ManagedResourceTrigger → Result CacheError (Table C)
  trigger_caches_for contexts caches [] = ok caches
  trigger_caches_for contexts caches (trigger ∷ triggers) = do
    caches' ← add_trigger contexts caches trigger
    trigger_caches_for contexts caches' triggers

  unfoldable pub cache_for : ManagedResource → Result CacheError (InstanceCache C)
  cache_for mr = elim (find_first_duplicate (λ t. t.name) mr.spec.triggers) [
    | some e ↦ err (duplicate_trigger e)
    | none ↦ elim (find_first_duplicate (λ c. c.name) mr.spec.context) [
      | some e ↦ err (duplicate_context e)
      | none ↦ do
        contexts ← context_caches_for [] mr.spec.context
        triggers ← trigger_caches_for contexts [] mr.spec.triggers
        ok (record { trigger_caches = triggers; context_caches = contexts })
    ]
  ]

-- staticMapFunc, and the map function of a context: the requests that an event on an object enqueues.
abbrev pub static_map_func : (U : Unstructured) → String → U.Object → List TriggerInfo
static_map_func U trigger_name o =
    record {
      trigger_name = trigger_name;
      watch_resource = record {
        api_version = (U.gvk o).version;
        group = (U.gvk o).group;
        kind = (U.gvk o).kind;
        name = U.name o;
        namespace = U.namespace o;
      };
    }
    ∷ []

-- What an event on an object, or a tick, enqueues.
unfoldable pub enqueued : {C : Type 0} (U : Unstructured) → Watch C → U.Object → List TriggerInfo
enqueued U (context_watch c) o = []
enqueued U (trigger_watch c name) o = static_map_func U name o
enqueued U (interval_watch d name) o =
    record {
      trigger_name = name;
      watch_resource = record {
        api_version = "";
        group = "";
        kind = "";
        name = "";
        namespace = "";
      };
    }
    ∷ []
