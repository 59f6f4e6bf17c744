-- ===== src/Manager/Concurrent/Safety.antt =====
-- Which instances run, and that none ends unseen, in every order of the steps.
use mathlib.Core.Path.{subst}
use espejote.Base.{Bool, Option, some, Listed, ◌≡◌, sym, ◌∙◌, ap, some_injective}
use espejote.Kube.{Cause, ApiError, NamespacedName}
use espejote.Api.{ManagedResource}
use espejote.Manager.Keyed.{lookup}
use espejote.Manager.{ResourceController}
use espejote.Manager.Concurrent.{Instance}
use espejote.Manager.Concurrent.Steps.{System, init, Steps}
use espejote.Manager.Concurrent.Invariant.{IsHeld, IsNoticed, init-Inv}
use espejote.Manager.Concurrent.Invariant.Reached.{Steps-Inv}

-- The instance is the one of the controller in the map, and the only one of its resource that is
-- not canceled.
abbrev pub IsCurrent : {C : Type 0} → System C → Instance → Type 0
IsCurrent s i =
    IsHeld i.key i.context s.manager.controllers
    × ((j : Instance)
        → Listed j s.instances
        → Listed j.context s.manager.live
        → j.key ≡ i.key
        → j ≡ i)

module _ {S C : Type 0} (update_status : ManagedResource → S → Option ApiError × S)
    (started : ResourceController C → Bool) where
  -- In every state that can be reached by the manager and the goroutines in any order, an instance
  -- whose context is not canceled is the one of the controller that the map has for its resource,
  -- and the only one of its resource whose context is not canceled.
  pub Steps-IsCurrent :
      {s : System C} (i : Instance)
      → Steps update_status started init s
      → Listed i s.instances
      → Listed i.context s.manager.live
      → IsCurrent s i
  Steps-IsCurrent {s} i steps there live =
      let inv = Steps-Inv update_status started init-Inv steps in
      let (rc, at, life) = inv.owned i there live in
      (
        (rc, at, life),
        λ j there' live' same.
            let (rc', at', life') = inv.owned j there' live' in
            let one : rc' ≡ rc =
              some_injective
                (sym at' ∙ subst (λ k. lookup k s.manager.controllers ≡ some rc) (sym same) at) in
            inv.alike j i there' there (sym life' ∙ ap (λ x. x.lifetime) one ∙ life),
      )

  -- In every state that can be reached, where a controller in the map has ended, a notification for
  -- its resource is still to be sent, or a request for the resource is queued, or Reconcile works
  -- on one.
  pub Steps-IsNoticed :
      {s : System C} (k : NamespacedName) (rc : ResourceController C) (c : Cause)
      → Steps update_status started init s
      → lookup k s.manager.controllers ≡ some rc
      → rc.done ≡ some c
      → IsNoticed s k
  Steps-IsNoticed k rc c steps = (Steps-Inv update_status started init-Inv steps).seen k rc c
