-- ===== src/Tests/OfSpec.antt =====
-- The theorems on what the manager of instances promises, at concrete inputs.
use espejote.Base.{String, Bool, true, none, some, List, [], ◌∷◌, ◌≡◌, refl, ok, err, All, Option}
use espejote.Kube.{ApiError, NamespacedName, not_found}
use espejote.Api.{ManagedResource}
use espejote.Manager.{State, ResourceController, key_of, config_hash_for_managed_resource}
use espejote.Manager.Keyed.{lookup}
use espejote.Manager.Requests.{World, reconcile_request}
use espejote.Manager.Spec
use espejote.Manager.Spec.{Request, Steps, IsNamed, Moves, wanted_by, configured}
use espejote.Manager.Spec.Refines.{reconcile_requests, reconcile_requests-Steps}
use espejote.Tests.OfManager.{watching, env, world, hash}

abbrev nothing : State String
nothing = record { controllers = []; live = []; next = 0 }

abbrev update : ManagedResource → List String → Option ApiError × List String
update mr s = (none, mr.status ∷ s)

abbrev started : ResourceController String → Bool
started rc = true

abbrev elsewhere : NamespacedName
elsewhere = record { namespace = "other"; name = "sample" }

-- The resource is there, then another one is not.
abbrev requests : List (Request String)
requests =
    record { env = env; key = key_of watching; get = ok watching }
    ∷ record { env = env; key = elsewhere; get = err not_found }
    ∷ []

requests-IsNamed : All IsNamed requests
requests-IsNamed = (refl, (tt, tt))

reconcile_requests-Steps_example :
    Steps requests
      (Spec.running nothing)
      (Spec.running (reconcile_requests update started requests nothing world).0)
reconcile_requests-Steps_example =
    reconcile_requests-Steps update started requests nothing world requests-IsNamed

started_run :
    Spec.running (reconcile_requests update started requests nothing world).0 (key_of watching)
    ≡ some hash
unfolding reconcile_requests lookup reconcile_request
    espejote.Manager.stop_and_remove_controller_for espejote.Manager.ensure_instance_controller_for
    config_hash_for_managed_resource espejote.Manager.current_for espejote.Manager.start_controller
    espejote.Manager.rest_config_for_managed_resource espejote.Manager.start_in_context
    espejote.Manager.Caches.cache_for espejote.Manager.Duplicates.find_first_duplicate
    espejote.Manager.Duplicates.find_from espejote.Selection.contains
    espejote.Manager.Caches.context_caches_for espejote.Manager.Caches.trigger_caches_for
    espejote.Manager.Caches.add_trigger espejote.Manager.Caches.trigger_cache_of
    espejote.Manager.Keyed.delete espejote.Manager.Requests.notify_instance
    espejote.Manager.Requests.run_instance
started_run = refl
