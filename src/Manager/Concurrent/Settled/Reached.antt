-- ===== src/Manager/Concurrent/Settled/Reached.antt =====
-- That Reconcile ends settled in every state that is reached.
use mathlib.Core.Path.{subst}
use espejote.Base.{Bool, Option, none, some, ◌≡◌, ◌⊎◌, inl, inr, refl, sym, arith, ◌∙◌, String}
use espejote.Kube.{Cause, ApiError, NamespacedName}
use espejote.Api.{ManagedResource}
use espejote.Manager.{State, ResourceController, key_of}
use espejote.Manager.Requests.{World}
use espejote.Manager.Spec.{Request}
use espejote.Manager.Concurrent.{
  Stage, idle, taken, stopping, starting, ensured, Turn, blocked, proceeds, spawns, ends, turn,
  returned_for, controller_returned,
}
use espejote.Manager.Concurrent.Steps.{
  System, init, after, Step, arrive, take, proceed, return_start, notify, Steps, here, later,
}
use espejote.Manager.Concurrent.Invariant.{Inv, init-Inv}
use espejote.Manager.Concurrent.Invariant.Moved.{lookup-returned}
use espejote.Manager.Concurrent.Invariant.Reached.{Steps-Inv, turn-idle}
use espejote.Manager.Concurrent.Settled.{HasHash, IsAimed, IsAim, IsSettled, request_of, turn-IsAim}

request-cases :
    {C : Type 0} (stage : Stage C)
    → (stage ≡ idle) ⊎ ((r : Request C) × (request_of stage ≡ some r))
request-cases idle = inl refl
request-cases (taken r) = inr (r, refl)
request-cases (stopping r mr hash) = inr (r, refl)
request-cases (starting r mr hash) = inr (r, refl)
request-cases (ensured r mr) = inr (r, refl)

module _ {C : Type 0} (outcome : Option Cause) (key : NamespacedName) (context : _) where
  returned_for-hash :
      (k : NamespacedName) (rc : ResourceController C)
      → (returned_for outcome key context k rc).config_hash ≡ rc.config_hash
  returned_for-hash k rc = ground arith

  HasHash-returned :
      (mr : ManagedResource) (hash : String) (st : State C)
      → HasHash mr hash st
      → HasHash mr hash
          (record st { controllers = controller_returned outcome key context st.controllers })
  HasHash-returned mr hash st (rc, there, hashed) = (
    returned_for outcome key context (key_of mr) rc,
    lookup-returned outcome key context (key_of mr) st.controllers rc there,
    returned_for-hash (key_of mr) rc ∙ hashed,
  )

  IsAimed-returned :
      (stage : Stage C) (st : State C)
      → IsAimed stage st
      → IsAimed stage
          (record st { controllers = controller_returned outcome key context st.controllers })
  IsAimed-returned idle st aim = tt
  IsAimed-returned (taken r) st aim = tt
  IsAimed-returned (stopping r mr hash) st aim = aim
  IsAimed-returned (starting r mr hash) st aim = aim
  IsAimed-returned (ensured r mr) st (hash, for, has) = (hash, for, HasHash-returned mr hash st has)

after-IsAimed :
    {S C : Type 0} (s : System C) (r : Request C) (t : Turn S C)
    → IsAimed s.stage s.manager
    → IsAim r t
    → IsAimed (after s t).stage (after s t).manager
after-IsAimed s r blocked aim h = aim
after-IsAimed s r (proceeds stage st) aim h = h
after-IsAimed s r (spawns i stage st) aim h = h
after-IsAimed s r (ends error st w) aim h = tt

module _ {S C : Type 0} (update_status : ManagedResource → S → Option ApiError × S)
    (started : ResourceController C → Bool) where
  Step-IsAimed :
      {s t : System C}
      → Step update_status started s t
      → Inv s
      → IsAimed s.stage s.manager
      → IsAimed t.stage t.manager
  Step-IsAimed (arrive key) inv aim = aim
  Step-IsAimed (take r named free queued) inv aim = tt
  Step-IsAimed {s} (proceed w t made) inv aim = elim (request-cases s.stage) [
    | inl free ↦
        subst (λ x. IsAimed (after s x).stage (after s x).manager)
          (sym (turn-idle update_status started s.stage w s.manager free) ∙ made) aim
    | inr (r, for) ↦ after-IsAimed s r t aim (
        subst (IsAim r) made
          (turn-IsAim update_status started s.stage r w s.manager for inv.staged aim))
  ]
  Step-IsAimed {s} (return_start i outcome there runs may) inv aim =
      IsAimed-returned outcome i.key i.context s.stage s.manager aim
  Step-IsAimed (notify i there ended) inv aim = aim

  Steps-IsAimed : {s : System C} → Steps update_status started init s → IsAimed s.stage s.manager
  Steps-IsAimed here = tt
  Steps-IsAimed (later steps step) =
      Step-IsAimed step (Steps-Inv update_status started init-Inv steps) (Steps-IsAimed steps)

  -- In every state that can be reached by the manager and the goroutines in any order, where a turn
  -- of Reconcile ends a request without an error, the resource has no controller if it was read as
  -- gone or being deleted, and else one for the hash of the configuration that was read, which has
  -- not ended.
  pub Steps-IsSettled :
      {s : System C} (r : Request C) (w w' : World S) (st : State C)
      → Steps update_status started init s
      → request_of s.stage ≡ some r
      → turn update_status started s.stage w s.manager ≡ ends none st w'
      → IsSettled r st
  Steps-IsSettled {s} r w w' st steps for ended =
      subst (IsAim r) ended
        (turn-IsAim update_status started s.stage r w s.manager for
          (Steps-Inv update_status started init-Inv steps).staged (Steps-IsAimed steps))
        refl
