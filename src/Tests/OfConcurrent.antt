-- ===== src/Tests/OfConcurrent.antt =====
-- The theorems on the manager and the goroutines of its instances, in states that are reached.
use espejote.Base.{String, Bool, true, none, some, List, ◌∷◌, ◌≡◌, refl, inl, ok, Option}
use espejote.Kube.{ApiError, NamespacedName}
use espejote.Api.{ManagedResource}
use espejote.Manager.{ResourceController, key_of, resource_controller}
use espejote.Manager.Keyed.{lookup}
use espejote.Manager.Requests.{reconcile_request}
use espejote.Manager.Spec.{Request, IsNamed}
use espejote.Manager.Concurrent.{
  Instance, new_instance, Stage, closed, taken, turn, controller_returned, set_phase,
}
use espejote.Manager.Concurrent.Steps.{
  System, init, after, remove, Steps, here, later, arrive, take, proceed, return_start,
}
use espejote.Manager.Concurrent.Invariant.{IsNoticed}
use espejote.Manager.Concurrent.Safety.{IsCurrent, Steps-IsCurrent, Steps-IsNoticed}
use espejote.Manager.Concurrent.Settled.{IsSettled}
use espejote.Manager.Concurrent.Settled.Reached.{Steps-IsSettled}
use espejote.Manager.Concurrent.Progress.{CanEnd}
use espejote.Manager.Concurrent.Progress.Ends.{Steps-CanEnd, Ends, Steps-Ends}
use espejote.Tests.OfManager.{watching, env, world, hash, caches}

abbrev update : ManagedResource → List String → Option ApiError × List String
update mr s = (none, mr.status ∷ s)

abbrev started : ResourceController String → Bool
started rc = true

abbrev key : NamespacedName
key = key_of watching

abbrev first : Request String
first = record { env = env; key = key; get = ok watching }

-- The same resource, with another service account.
abbrev second : Request String
second = record first {
  get = ok (record watching { spec = record watching.spec { service_account_ref = "deployer" } });
}

abbrev turned : System String → System String
turned s = after s (turn update started s.stage world s.manager)

abbrev asked : Request String → System String → System String
asked r s = record s { stage = taken r; requests = remove r.key (r.key ∷ s.requests) }

-- A controller is started for the first request.
abbrev with_first : System String
with_first = turned (turned (asked first init))

go_on : (s : System String) → Steps update started init s → Steps update started init (turned s)
go_on s steps = later steps (proceed world (turn update started s.stage world s.manager) refl)

ask :
    (r : Request String) (s : System String)
    → IsNamed r
    → s.stage ≡ Stage.idle
    → Steps update started init s
    → Steps update started init (asked r s)
ask r s named free steps = later (later steps (arrive r.key)) (take r named free (inl refl))

to_first : Steps update started init with_first
to_first =
    go_on (turned (asked first init)) (go_on (asked first init) (ask first init refl refl here))

abbrev instance_of_first : Instance
instance_of_first = new_instance key 0

Steps-IsCurrent_example : IsCurrent with_first instance_of_first
unfolding turn espejote.Manager.Concurrent.turn_taken espejote.Manager.Concurrent.turn_read
    espejote.Manager.Concurrent.turn_found espejote.Manager.config_hash_for_managed_resource lookup
    espejote.Manager.Concurrent.turn_starting espejote.Manager.Concurrent.turn_made
    espejote.Manager.start_controller espejote.Manager.rest_config_for_managed_resource
    espejote.Manager.start_in_context espejote.Manager.Caches.cache_for
    espejote.Manager.Duplicates.find_first_duplicate espejote.Manager.Duplicates.find_from
    espejote.Selection.contains espejote.Manager.Caches.context_caches_for
    espejote.Manager.Caches.trigger_caches_for espejote.Manager.Caches.add_trigger
    espejote.Manager.Caches.trigger_cache_of
Steps-IsCurrent_example =
    Steps-IsCurrent update started instance_of_first to_first (inl refl) (inl refl)

-- Reconcile ends, and the caches of the controller do not sync.
abbrev failed_first : System String
failed_first =
    let s = turned with_first in
    record s {
      manager = record s.manager {
        controllers = controller_returned (some "timeout") key 0 s.manager.controllers;
      };
      instances = set_phase closed key 0 s.instances;
    }

to_failed : Steps update started init failed_first
unfolding turn espejote.Manager.Concurrent.turn_taken espejote.Manager.Concurrent.turn_read
    espejote.Manager.Concurrent.turn_found espejote.Manager.config_hash_for_managed_resource lookup
    espejote.Manager.Concurrent.turn_starting espejote.Manager.Concurrent.turn_made
    espejote.Manager.start_controller espejote.Manager.rest_config_for_managed_resource
    espejote.Manager.start_in_context espejote.Manager.Caches.cache_for
    espejote.Manager.Duplicates.find_first_duplicate espejote.Manager.Duplicates.find_from
    espejote.Selection.contains espejote.Manager.Caches.context_caches_for
    espejote.Manager.Caches.trigger_caches_for espejote.Manager.Caches.add_trigger
    espejote.Manager.Caches.trigger_cache_of espejote.Manager.Concurrent.turn_ensured
    espejote.Manager.Requests.notify_instance espejote.Manager.Requests.run_instance
to_failed =
    later (go_on with_first to_first)
      (return_start instance_of_first (some "timeout") (inl refl) refl tt)

Steps-IsNoticed_example : IsNoticed failed_first key
unfolding turn espejote.Manager.Concurrent.turn_taken espejote.Manager.Concurrent.turn_read
    espejote.Manager.Concurrent.turn_found espejote.Manager.config_hash_for_managed_resource lookup
    espejote.Manager.Concurrent.turn_starting espejote.Manager.Concurrent.turn_made
    espejote.Manager.start_controller espejote.Manager.rest_config_for_managed_resource
    espejote.Manager.start_in_context espejote.Manager.Caches.cache_for
    espejote.Manager.Duplicates.find_first_duplicate espejote.Manager.Duplicates.find_from
    espejote.Selection.contains espejote.Manager.Caches.context_caches_for
    espejote.Manager.Caches.trigger_caches_for espejote.Manager.Caches.add_trigger
    espejote.Manager.Caches.trigger_cache_of espejote.Manager.Concurrent.turn_ensured
    espejote.Manager.Requests.notify_instance espejote.Manager.Requests.run_instance
    controller_returned
Steps-IsNoticed_example =
    Steps-IsNoticed update started key
      (record (resource_controller hash 0 caches) { done = some "timeout" }) "timeout" to_failed
      refl refl

-- A second request, for a changed configuration, while the first controller runs.
abbrev with_second : System String
with_second = asked second (turned with_first)

to_second : Steps update started init with_second
unfolding turn espejote.Manager.Concurrent.turn_taken espejote.Manager.Concurrent.turn_read
    espejote.Manager.Concurrent.turn_found espejote.Manager.config_hash_for_managed_resource lookup
    espejote.Manager.Concurrent.turn_starting espejote.Manager.Concurrent.turn_made
    espejote.Manager.start_controller espejote.Manager.rest_config_for_managed_resource
    espejote.Manager.start_in_context espejote.Manager.Caches.cache_for
    espejote.Manager.Duplicates.find_first_duplicate espejote.Manager.Duplicates.find_from
    espejote.Selection.contains espejote.Manager.Caches.context_caches_for
    espejote.Manager.Caches.trigger_caches_for espejote.Manager.Caches.add_trigger
    espejote.Manager.Caches.trigger_cache_of espejote.Manager.Concurrent.turn_ensured
    espejote.Manager.Requests.notify_instance espejote.Manager.Requests.run_instance
to_second = ask second (turned with_first) refl refl (go_on with_first to_first)

Steps-CanEnd_example :
    CanEnd update started with_second world
      (reconcile_request update started second.env second.get second.key with_second.manager world)
Steps-CanEnd_example = Steps-CanEnd update started with_second second world to_second refl

-- It waits for the first controller.
Steps-Ends_example : Ends update started (turned with_second) world
unfolding turn espejote.Manager.Concurrent.turn_taken espejote.Manager.Concurrent.turn_read
    espejote.Manager.Concurrent.turn_found espejote.Manager.config_hash_for_managed_resource lookup
    espejote.Manager.Concurrent.turn_starting espejote.Manager.Concurrent.turn_made
    espejote.Manager.start_controller espejote.Manager.rest_config_for_managed_resource
    espejote.Manager.start_in_context espejote.Manager.Caches.cache_for
    espejote.Manager.Duplicates.find_first_duplicate espejote.Manager.Duplicates.find_from
    espejote.Selection.contains espejote.Manager.Caches.context_caches_for
    espejote.Manager.Caches.trigger_caches_for espejote.Manager.Caches.add_trigger
    espejote.Manager.Caches.trigger_cache_of espejote.Manager.Concurrent.turn_ensured
    espejote.Manager.Requests.notify_instance espejote.Manager.Requests.run_instance
    espejote.Manager.Keyed.cancel
Steps-Ends_example =
    Steps-Ends update started (turned with_second) key world (go_on with_second to_second) refl

Steps-IsSettled_example : IsSettled first with_first.manager
unfolding turn espejote.Manager.Concurrent.turn_taken espejote.Manager.Concurrent.turn_read
    espejote.Manager.Concurrent.turn_found espejote.Manager.config_hash_for_managed_resource lookup
    espejote.Manager.Concurrent.turn_starting espejote.Manager.Concurrent.turn_made
    espejote.Manager.start_controller espejote.Manager.rest_config_for_managed_resource
    espejote.Manager.start_in_context espejote.Manager.Caches.cache_for
    espejote.Manager.Duplicates.find_first_duplicate espejote.Manager.Duplicates.find_from
    espejote.Selection.contains espejote.Manager.Caches.context_caches_for
    espejote.Manager.Caches.trigger_caches_for espejote.Manager.Caches.add_trigger
    espejote.Manager.Caches.trigger_cache_of espejote.Manager.Concurrent.turn_ensured
    espejote.Manager.Requests.notify_instance espejote.Manager.Requests.run_instance
Steps-IsSettled_example =
    Steps-IsSettled update started first world (record world { queued = true }) with_first.manager
      to_first refl refl
