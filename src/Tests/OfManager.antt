-- ===== src/Tests/OfManager.antt =====
-- The theorems on the manager of instances at concrete inputs.
use Prim.Native.String
use espejote.Base.{
  Distinct, String, true, false, none, some, List, [], ◌∷◌, ◌≡◌, refl, ok, arith, inl, inr,
}
use espejote.Api.{ManagedResource, ManagedResourceTrigger, ManagedResourceContext}
use espejote.Manager.Duplicates.{find_first_duplicate, find_first_duplicate-Distinct}
use espejote.Manager.Caches.{InstanceCache, cache_for, client_for_trigger, trigger_cache_of}
use espejote.Manager.Caches.Lookup.{trigger_names}
use espejote.Manager.Caches.Readers.{IsReader, cache_for-IsReader}
use espejote.Manager.{
  State, Env, Hasher, key_of, ensure_instance_controller_for, stop_and_remove_controller_for,
  start_err, ResourceController, resource_controller, config_hash_for_managed_resource,
  watch_failed,
}
use espejote.Manager.Keyed
use espejote.Manager.Instances.{Ensured, ensure_instance_controller_for-Ensured}
use espejote.Manager.Lifetimes.{IsAccounted}
use espejote.Manager.Lifetimes.Starting.{Accounted, ensure_instance_controller_for-Accounted}
use espejote.Manager.Requests.{World, reconcile_request}
use espejote.Manager.Requests.Laws.{reconcile_request-runs}
use espejote.Tests.OfSelection.{deployments}
use espejote.Tests.OfReconciler.{sample_spec, sample_resource}

abbrev context_trigger : ManagedResourceTrigger
context_trigger = record {
  name = "on_change";
  interval = 0;
  watch_resource = record deployments { api_version = "" };
  watch_context_resource = "apps";
}

abbrev tick : ManagedResourceTrigger
tick = record context_trigger { name = "tick"; interval = 60; watch_context_resource = "" }

abbrev apps : ManagedResourceContext
apps = record { name = "apps"; resource = deployments }

abbrev pub watching : ManagedResource
watching = record sample_resource {
  spec = record sample_spec { triggers = tick ∷ context_trigger ∷ []; context = apps ∷ [] };
}

duplicate_run :
    find_first_duplicate (λ t. t.name) (tick ∷ context_trigger ∷ tick ∷ []) ≡ some "tick"
unfolding find_first_duplicate espejote.Manager.Duplicates.find_from espejote.Selection.contains
duplicate_run = refl

abbrev pub caches : InstanceCache String
caches = record {
  trigger_caches = ("on_change", "Deployment") ∷ [];
  context_caches = ("apps", "Deployment") ∷ [];
}

caches_run : cache_for (λ cr. ok cr.kind) (λ w. ok tt) watching ≡ ok caches
unfolding cache_for find_first_duplicate espejote.Manager.Duplicates.find_from
    espejote.Selection.contains espejote.Manager.Caches.context_caches_for
    espejote.Manager.Caches.trigger_caches_for espejote.Manager.Caches.add_trigger trigger_cache_of
caches_run = refl

cache_for-IsReader_example :
    Distinct (trigger_names (tick ∷ context_trigger ∷ []))
    × IsReader
        (λ cr. ok cr.kind)
        (λ w. ok tt)
        watching
        caches
        context_trigger
        (client_for_trigger caches "on_change")
cache_for-IsReader_example =
    cache_for-IsReader (λ cr. ok cr.kind) (λ w. ok tt) watching caches context_trigger caches_run
      (inr (inl refl))

abbrev hasher : Hasher
hasher = record {
  encode_triggers = λ ts. ok "[triggers]";
  encode_contexts = λ cs. ok "[contexts]";
  md5_hex = λ s. s;
}

abbrev pub env : Env String
env = record {
  hasher = hasher;
  host = "https://kubernetes";
  tls_client_config = "";
  trigger_refresh = λ account. ok tt;
  new_client = λ rc. ok tt;
  new_controller = λ name timeout. ok tt;
  new_cache = λ rc ns cr. ok cr.kind;
  watch = λ w. ok tt;
  watch_instance = ok tt;
}

-- A controller for an old configuration.
abbrev pub running : State String
running = record {
  controllers = (key_of watching, resource_controller "old" 0 caches) ∷ [];
  live = 0 ∷ [];
  next = 1;
}

abbrev pub hash : String
hash = String.◌++◌ "[triggers]" (String.◌++◌ "[contexts]" "")

ensure_instance_controller_for-Ensured_example :
    Ensured (key_of watching) hash running (ensure_instance_controller_for env watching running)
unfolding config_hash_for_managed_resource
ensure_instance_controller_for-Ensured_example =
    ensure_instance_controller_for-Ensured env watching hash running refl

running-IsAccounted : IsAccounted running
unfolding Keyed.lookup
running-IsAccounted = (refl, (omega arith, tt), (refl, tt))

ensure_instance_controller_for-Accounted_example :
    Accounted (ensure_instance_controller_for env watching running)
ensure_instance_controller_for-Accounted_example =
    ensure_instance_controller_for-Accounted env watching running running-IsAccounted

abbrev pub world : World (List String)
world = record { cluster = []; event_reasons = []; queued = false }

ends_well :
    (reconcile_request
      (λ mr s. (none, mr.status ∷ s))
      (λ rc. true)
      env
      (ok watching)
      (key_of watching)
      running
      world).0
    ≡ none
unfolding reconcile_request espejote.Manager.Requests.run_instance ensure_instance_controller_for
    config_hash_for_managed_resource espejote.Manager.current_for Keyed.lookup
    espejote.Manager.start_controller espejote.Manager.rest_config_for_managed_resource
    espejote.Manager.start_in_context cache_for find_first_duplicate
    espejote.Manager.Duplicates.find_from espejote.Selection.contains
    espejote.Manager.Caches.context_caches_for espejote.Manager.Caches.trigger_caches_for
    espejote.Manager.Caches.add_trigger trigger_cache_of espejote.Manager.Requests.notify_instance
    stop_and_remove_controller_for
ends_well = refl

reconcile_request-runs_example :
    (rc : ResourceController String) × (Keyed.lookup
        (key_of watching)
        (reconcile_request
          (λ mr s. (none, mr.status ∷ s))
          (λ rc. true)
          env
          (ok watching)
          (key_of watching)
          running
          world).1.controllers
      ≡ some rc)
    × (rc.config_hash ≡ hash)
    × (start_err rc ≡ none)
    × ((reconcile_request
          (λ mr s. (none, mr.status ∷ s))
          (λ rc. true)
          env
          (ok watching)
          (key_of watching)
          running
          world).2.queued
        ≡ true)
unfolding config_hash_for_managed_resource
reconcile_request-runs_example =
    reconcile_request-runs (λ mr s. (none, mr.status ∷ s)) (λ rc. true) env watching hash running
      world refl refl ends_well
