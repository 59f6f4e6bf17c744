-- ===== src/Manager/Concurrent/Invariant.antt =====
-- What holds of the manager and the instances in every order of their steps.
pub mod Moved
pub mod Events
pub mod Turned
pub mod Reached
use mathlib.Core.Path.{subst, subst₂}
use espejote.Base.{
  ℕ, suc, ◌<◌, Bool, true, false, Option, none, some, is_some, List, [], ◌∷◌, Listed, ◌≡◌, ◌≢◌, ◌⊎◌,
  inl, inr, refl, sym, ap, arith, ◌∙◌, not, Option-cases, Bool-cases, none_ne_some, some_injective,
}
use espejote.Kube.{Cause, ApiError, NamespacedName}
use espejote.Api.{ManagedResource}
use espejote.Manager.Keyed.{Table, lookup, insert, key_eq, key_eq_iff}
use espejote.Manager.{State, ResourceController}
use espejote.Manager.Requests.{World, ManagerError}
use espejote.Manager.Spec.{Request, IsNamed}
use espejote.Manager.Concurrent.{
  Phase, running, closed, notified, Instance, new_instance, moved, set_phase, Stage, idle, taken,
  stopping, starting, ensured, Turn, blocked, proceeds, spawns, ends, returned_for,
  controller_returned, turn,
}
use espejote.Manager.Concurrent.Changes.{Keeps}
use espejote.Manager.Concurrent.Turns.{Held, IsStaged, IsTurn}
use espejote.Manager.Concurrent.Turns.Kept.{turn-IsTurn}
use espejote.Manager.Concurrent.Goroutines.{
  is_running, Listed-moved, moved_from, returned_from, moved-returned_for, moved-same, moved-phase,
  moved_self, moved-other, returned_in, lookup-controller_returned, returned_for-lifetime,
  returned_for-cases,
}
use espejote.Manager.Concurrent.Steps.{
  System, init, remove, requeue, busy_with, after, MayReturn, Step, arrive, take, proceed,
  return_start, notify, Steps, here, later,
}

-- The controller that the map has for a resource has that context.
abbrev pub IsHeld : {C : Type 0} → NamespacedName → ℕ → Table (ResourceController C) → Type 0
IsHeld {C} k n m = (rc : ResourceController C) × (lookup k m ≡ some rc) × (rc.lifetime ≡ n)

-- The instance of a controller, which tells whether it runs.
abbrev pub HasInstance :
    {C : Type 0} → NamespacedName → ResourceController C → List Instance → Type 0
HasInstance k rc is =
    (i : Instance) × Listed i is
    × (i.key ≡ k)
    × (i.context ≡ rc.lifetime)
    × (is_running i.phase ≡ not (is_some rc.done))

-- The end of an instance will be, or is being, looked at: its notification is still to be sent, or a
-- request for the resource is queued, or Reconcile works on one.
abbrev pub IsNoticed : {C : Type 0} → System C → NamespacedName → Type 0
IsNoticed s k =
    ((i : Instance) × Listed i s.instances × (i.key ≡ k) × (i.phase ≡ closed))
    ⊎ (Listed k s.requests ⊎ (busy_with s.stage ≡ some k))

pub record Inv {C : Type 0} (s : System C) : Type 0 where
  pub below : (i : Instance) → Listed i s.instances → i.context < s.manager.next
  pub alike :
      (i j : Instance) → Listed i s.instances → Listed j s.instances → i.context ≡ j.context → i ≡ j
  pub owned :
      (i : Instance)
      → Listed i s.instances
      → Listed i.context s.manager.live
      → IsHeld i.key i.context s.manager.controllers
  pub attended :
      (k : NamespacedName) (rc : ResourceController C)
      → lookup k s.manager.controllers ≡ some rc
      → HasInstance k rc s.instances
  pub staged : IsStaged s.stage s.manager
  pub seen :
      (k : NamespacedName) (rc : ResourceController C) (c : Cause)
      → lookup k s.manager.controllers ≡ some rc
      → rc.done ≡ some c
      → IsNoticed s k

pub init-Inv : {C : Type 0} → Inv (init {C = C})
unfolding lookup
init-Inv = record {
  below = λ i h. elim h [ ];
  alike = λ i j h. elim h [ ];
  owned = λ i h. elim h [ ];
  attended = λ k rc h. absurd (none_ne_some h);
  staged = tt;
  seen = λ k rc c h. absurd (none_ne_some h);
}

pub Listed-remove :
    (key k : NamespacedName) (ks : List NamespacedName)
    → Listed k ks
    → (k ≡ key) ⊎ Listed k (remove key ks)
unfolding remove
Listed-remove key k [] h = elim h [ ]
Listed-remove key k (j ∷ ks) h = ground (arith, Listed-remove key k ks, key_eq_iff j key)
