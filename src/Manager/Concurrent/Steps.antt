-- ===== src/Manager/Concurrent/Steps.antt =====
-- The manager and the goroutines of the instances, interleaved in any order.
use espejote.Base.{ℕ, Bool, Option, none, some, List, [], ◌∷◌, Listed, if◌then◌else◌, ◌≡◌}
use espejote.Kube.{Cause, ApiError, NamespacedName}
use espejote.Api.{ManagedResource}
use espejote.Manager.Keyed.{key_eq}
use espejote.Manager.{State, ResourceController}
use espejote.Manager.Requests.{World, ManagerError}
use espejote.Manager.Spec.{Request, IsNamed}
use espejote.Manager.Concurrent.{
  running, closed, notified, Instance, set_phase, Stage, idle, taken, Turn, blocked, proceeds,
  spawns, ends, controller_returned, turn,
}

-- `requests` is the queue of the controller runtime, which holds no key twice.
pub record System (C : Type 0) : Type 0 where
  pub manager : State C
  pub stage : Stage C
  pub instances : List Instance
  pub requests : List NamespacedName

abbrev pub init : {C : Type 0} → System C
init = record {
  manager = record { controllers = []; live = []; next = 0 };
  stage = idle;
  instances = [];
  requests = [];
}

unfoldable pub remove : NamespacedName → List NamespacedName → List NamespacedName
remove key [] = []
remove key (k ∷ ks) = let rest = remove key ks in if key_eq k key then rest else k ∷ rest

-- The runtime queues a request again for which Reconcile returns an error.
abbrev pub requeue :
    Option ManagerError → NamespacedName → List NamespacedName → List NamespacedName
requeue none key requests = requests
requeue (some e) key requests = key ∷ requests

-- The key of the request that Reconcile works on.
abbrev pub busy_with : {C : Type 0} → Stage C → Option NamespacedName
busy_with Stage.idle = none
busy_with (Stage.taken r) = some r.key
busy_with (Stage.stopping r mr hash) = some r.key
busy_with (Stage.starting r mr hash) = some r.key
busy_with (Stage.ensured r mr) = some r.key

abbrev pub requeue_for :
    Option NamespacedName → Option ManagerError → List NamespacedName → List NamespacedName
requeue_for none error requests = requests
requeue_for (some key) error requests = requeue error key requests

abbrev pub after : {S C : Type 0} → System C → Turn S C → System C
after s blocked = s
after s (proceeds stage st) = record s { stage = stage; manager = st }
after s (spawns i stage st) = record s { stage = stage; manager = st; instances = i ∷ s.instances }
after s (ends error st w) = record s {
  stage = idle;
  manager = st;
  requests = requeue_for (busy_with s.stage) error s.requests;
}

-- Start returns without an error only after its context was canceled.
abbrev pub MayReturn : Option Cause → ℕ → List ℕ → Type 0
MayReturn none context live = ¬ Listed context live
MayReturn (some c) context live = Unit

module _ {S C : Type 0} (update_status : ManagedResource → S → Option ApiError × S)
    (started : ResourceController C → Bool) where
  -- `arrive` is a change of a resource, or any other reason for a request of the runtime; `take` is
  -- the start of Reconcile, with what it will read; `proceed` is its next turn, in any state of the
  -- world; `return_start` and `notify` are the goroutines of an instance.
  pub data Step (s : System C) : System C → Type 0 where
    arrive : (key : NamespacedName) → Step s (record s { requests = key ∷ s.requests })
    take :
        (r : Request C)
        → IsNamed r
        → s.stage ≡ idle
        → Listed r.key s.requests
        → Step s (record s { stage = taken r; requests = remove r.key s.requests })
    proceed :
        (w : World S) (t : Turn S C)
        → turn update_status started s.stage w s.manager ≡ t
        → Step s (after s t)
    return_start :
        (i : Instance) (outcome : Option Cause)
        → Listed i s.instances
        → i.phase ≡ running
        → MayReturn outcome i.context s.manager.live
        → Step s (record s {
          manager = record s.manager {
            controllers = controller_returned outcome i.key i.context s.manager.controllers;
          };
          instances = set_phase closed i.key i.context s.instances;
        })
    notify :
        (i : Instance)
        → Listed i s.instances
        → i.phase ≡ closed
        → Step s (record s {
          instances = set_phase notified i.key i.context s.instances;
          requests = i.key ∷ s.requests;
        })

  pub data Steps (s : System C) : System C → Type 0 where
    here : Steps s s
    later : {t u : System C} → Steps s t → Step t u → Steps s u
