-- ===== src/Manager/Concurrent/Invariant/Reached.antt =====
-- The invariant in every state that is reached.
use espejote.Base.{Bool, Option, some, inl, inr, ◌⊎◌, ◌≡◌, refl, sym}
use espejote.Kube.{ApiError, NamespacedName}
use espejote.Api.{ManagedResource}
use espejote.Manager.{ResourceController}
use mathlib.Core.Path.{subst}
use espejote.Manager.Requests.{World}
use espejote.Manager.Concurrent.{blocked, Stage, idle, taken, stopping, starting, ensured, turn}
use espejote.Manager.Concurrent.Turns.Kept.{turn-IsTurn}
use espejote.Manager.Concurrent.Steps.{
  System, busy_with, after, Step, arrive, take, proceed, return_start, notify, Steps, here, later,
}
use espejote.Manager.Concurrent.Invariant.{Inv}
use espejote.Manager.Concurrent.Invariant.Events.{
  arrive-Inv, take-Inv, notify-Inv, return_start-Inv,
}
use espejote.Manager.Concurrent.Invariant.Turned.{after-Inv}

pub busy-cases :
    {C : Type 0} (stage : Stage C)
    → (stage ≡ idle) ⊎ ((key : NamespacedName) × (busy_with stage ≡ some key))
busy-cases idle = inl refl
busy-cases (taken r) = inr (r.key, refl)
busy-cases (stopping r mr hash) = inr (r.key, refl)
busy-cases (starting r mr hash) = inr (r.key, refl)
busy-cases (ensured r mr) = inr (r.key, refl)

module _ {S C : Type 0} (update_status : ManagedResource → S → Option ApiError × S)
    (started : ResourceController C → Bool) where
  pub turn-idle :
      (stage : Stage C) (w : World S) (st : _)
      → stage ≡ idle
      → turn update_status started stage w st ≡ blocked
  unfolding turn
  turn-idle stage w st free = rw free refl

  pub Step-Inv : {s t : System C} → Step update_status started s t → Inv s → Inv t
  Step-Inv {s} (arrive key) inv = arrive-Inv s inv key
  Step-Inv {s} (take r named free queued) inv = take-Inv s inv r named free
  Step-Inv {s} (proceed w t made) inv =
      subst (λ x. Inv (after s x)) made
        (elim (busy-cases s.stage) [
          | inl free ↦ subst (λ x. Inv (after s x)) (sym (turn-idle s.stage w s.manager free)) inv
          | inr (key, busy) ↦
              after-Inv s inv key busy (turn update_status started s.stage w s.manager)
                (turn-IsTurn update_status started s.stage key w s.manager busy inv.staged)
        ])
  Step-Inv {s} (return_start i outcome there runs may) inv = return_start-Inv s inv i outcome there
  Step-Inv {s} (notify i there ended) inv = notify-Inv s inv i there ended

  pub Steps-Inv : {s t : System C} → Inv s → Steps update_status started s t → Inv t
  Steps-Inv inv here = inv
  Steps-Inv inv (later steps step) = Step-Inv step (Steps-Inv inv steps)
