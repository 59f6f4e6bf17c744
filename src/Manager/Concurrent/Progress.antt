-- ===== src/Manager/Concurrent/Progress.antt =====
-- How Reconcile gets on between the steps of other goroutines.
pub mod Ends
use mathlib.Core.Path.{subst}
use espejote.Base.{
  ℕ, suc, ◌+◌, ◌≤◌, String, Bool, true, false, Option, none, some, is_some, List, [], ◌∷◌, Listed,
  ◌≡◌, ◌≢◌, ◌⊎◌, inl, inr, refl, sym, ap, arith, ◌∙◌, not, ◌==◌, if◌then◌else◌, Result, ok, err,
  Result-cases, Option-cases, Bool-cases, none_ne_some, some_injective,
}
use espejote.Kube.{Cause, ApiError, not_found, other, NamespacedName}
use espejote.Api.{ManagedResource}
use espejote.Manager.Keyed.{Table, lookup, insert, delete, cancel, key_eq_iff}
use espejote.Manager.{
  State, err_stopped, EnsureError, ResourceController, key_of, start_controller,
  stop_and_remove_controller_for, config_hash_for_managed_resource, current_for,
  ensure_instance_controller_for,
}
use espejote.Manager.Requests.{World, ManagerError, run_instance, reconcile_request}
use espejote.Manager.Spec.{Request, IsNamed}
use espejote.Manager.Concurrent.{
  Phase, running, closed, notified, Instance, new_instance, Stage, idle, taken, stopping, starting,
  ensured, Turn, blocked, proceeds, spawns, ends, controller_returned, returned_for, set_phase,
  turn, turn_taken, turn_read, turn_found, turn_stopping, turn_starting, turn_made, turn_ensured,
}
use espejote.Manager.Concurrent.Changes.{Made, start_controller-Made}
use espejote.Manager.Concurrent.Goroutines.{
  lookup-controller_returned, returned_in, delete-controller_returned, running_phase,
}
use espejote.Manager.Concurrent.Turns.{IsStaged}
use espejote.Manager.Concurrent.Steps.{
  System, init, after, Step, arrive, take, proceed, return_start, notify, Steps, here, later,
}
use espejote.Manager.Concurrent.Invariant.{Inv, init-Inv}
use espejote.Manager.Concurrent.Invariant.Reached.{Step-Inv, Steps-Inv}

module _ {S C : Type 0} (update_status : ManagedResource → S → Option ApiError × S)
    (started : ResourceController C → Bool) where
  -- Steps that come after a first one.
  abbrev steps_first :
      {s t u : System C}
      → Step update_status started s t
      → Steps update_status started t u
      → Steps update_status started s u
  steps_first first here = later here first
  steps_first first (later steps last) = later (steps_first first steps) last

  -- A step that is owed: a turn of Reconcile, or the return, without an error, of a Start whose
  -- context was canceled. No other goroutine has to do anything.
  abbrev pub IsOwed : {s t : System C} → Step update_status started s t → Type 0
  IsOwed {s = s} (return_start i none there runs may) = ¬ Listed i.context s.manager.live
  IsOwed (return_start i (some c) there runs may) = ⊥
  IsOwed (proceed w t made) = Unit
  IsOwed (arrive key) = ⊥
  IsOwed (take r named free queued) = ⊥
  IsOwed (notify i there ended) = ⊥

  abbrev pub AreOwed : {s t : System C} → Steps update_status started s t → Type 0
  AreOwed here = Unit
  AreOwed (later steps last) = AreOwed steps × IsOwed last

  steps_first-AreOwed :
      {s t u : System C} (first : Step update_status started s t)
      (steps : Steps update_status started t u)
      → IsOwed first
      → AreOwed steps
      → AreOwed (steps_first first steps)
  steps_first-AreOwed first here owed all = (tt, owed)
  steps_first-AreOwed first (later steps last) owed all =
      (steps_first-AreOwed first steps owed all.0, all.1)

  -- Reconcile can come, by steps that are owed, to a turn that ends it with the error, the state and the world.
  abbrev pub CanEnd : System C → World S → Option ManagerError × State C × World S → Type 0
  CanEnd s w (e, st, w') =
      (t : System C) × (steps : Steps update_status started s t) × AreOwed steps
      × (turn update_status started t.stage w t.manager ≡ ends e st w')

  CanEnd-first :
      {s t : System C} (w : World S) (r : Option ManagerError × State C × World S)
      (first : Step update_status started s t)
      → IsOwed first
      → CanEnd t w r
      → CanEnd s w r
  CanEnd-first w r first owed (t, steps, all, at) =
      (t, steps_first first steps, steps_first-AreOwed first steps owed all, at)

  -- A turn that goes on.
  pub CanEnd-turn :
      (s : System C) (w : World S) (t : Turn S C) (r : Option ManagerError × State C × World S)
      → turn update_status started s.stage w s.manager ≡ t
      → CanEnd (after s t) w r
      → CanEnd s w r
  CanEnd-turn s w t r made = CanEnd-first w r (proceed w t made) tt

  -- What the end of Reconcile is, with what was made.
  abbrev pub ended_with :
      ManagedResource
      → World S
      → Result EnsureError (ResourceController C) × State C
      → Option ManagerError × State C × World S
  ended_with mr w (made, st) =
      let run = run_instance update_status started made mr w in (run.0, st, run.1)

  pub ensured-CanEnd :
      (s : System C) (r : Request C) (mr : ManagedResource) (w : World S)
      (rc : ResourceController C)
      → s.stage ≡ ensured r mr
      → lookup (key_of mr) s.manager.controllers ≡ some rc
      → CanEnd s w (ended_with mr w (ok rc, s.manager))
  unfolding turn turn_ensured
  ensured-CanEnd s r mr w rc at there = (s, here, tt, rw (at, there, turn, turn_ensured) refl)

  Made-CanEnd :
      (s : System C) (r : Request C) (mr : ManagedResource) (w : World S)
      (made : Result EnsureError (ResourceController C) × State C)
      → Made mr s.manager made
      → turn update_status started s.stage w s.manager ≡ turn_made update_status started r mr w made
      → CanEnd s w (ended_with mr w made)
  unfolding turn_made lookup
  Made-CanEnd s r mr w (err e, st) h at = (s, here, tt, at)
  Made-CanEnd s r mr w (ok rc, st) (inserted, fresh, runs, live, next) at =
      let t : Turn S C = spawns (new_instance (key_of mr) rc.lifetime) (ensured r mr) st in
      CanEnd-turn s w t (ended_with mr w (ok rc, st)) at (
        ensured-CanEnd (after s t) r mr w rc refl
          (ground (arith, key_eq_iff (key_of mr) (key_of mr))))

  pub starting-CanEnd :
      (s : System C) (r : Request C) (mr : ManagedResource) (hash : String) (w : World S)
      → s.stage ≡ starting r mr hash
      → CanEnd s w (ended_with mr w (start_controller r.env mr hash s.manager))
  unfolding turn turn_starting
  starting-CanEnd s r mr hash w at =
      Made-CanEnd s r mr w (start_controller r.env mr hash s.manager)
        (start_controller-Made r.env mr hash s.manager) (rw at refl)

  closed-CanEnd :
      (s : System C) (r : Request C) (mr : ManagedResource) (hash : String) (w : World S)
      (rc : ResourceController C) (c : Cause)
      → s.stage ≡ stopping r mr hash
      → lookup (key_of mr) s.manager.controllers ≡ some rc
      → rc.done ≡ some c
      → CanEnd s w (
          ended_with mr w (
            start_controller r.env mr hash
              (record s.manager { controllers = delete (key_of mr) s.manager.controllers })))
  unfolding turn turn_stopping
  closed-CanEnd s r mr hash w rc c at there ended =
      let st = record s.manager { controllers = delete (key_of mr) s.manager.controllers } in
      let t : Turn S C = proceeds (starting r mr hash) st in
      CanEnd-turn s w t (ended_with mr w (start_controller r.env mr hash st))
        (rw (at, there, ended, turn, turn_stopping) refl)
        (starting-CanEnd (after s t) r mr hash w refl)

  -- A controller that is stopped returns, if it has not, and is then removed.
  pub stopping-CanEnd :
      (s : System C) (r : Request C) (mr : ManagedResource) (hash : String) (w : World S)
      → Inv s
      → s.stage ≡ stopping r mr hash
      → CanEnd s w (
          ended_with mr w (
            start_controller r.env mr hash
              (record s.manager { controllers = delete (key_of mr) s.manager.controllers })))
  stopping-CanEnd s r mr hash w inv at =
      let (named, ((rc, there), canceled)) = subst (λ x. IsStaged x s.manager) at inv.staged in
      let there' = subst (λ k. lookup k s.manager.controllers ≡ some rc) (sym named) there in
      elim (Option-cases rc.done) [
        | inr (c, ended) ↦ closed-CanEnd s r mr hash w rc c at there' ended
        | inl runs ↦
            let (i, listed, named', life, runs') = inv.attended r.key rc there in
            let e : i.key ≡ key_of mr = named' ∙ sym named in
            let m = controller_returned none i.key i.context s.manager.controllers in
            let s' : System C = record s {
              manager = record s.manager { controllers = m };
              instances = set_phase closed i.key i.context s.instances;
            } in
            let returned = returned_for none i.key i.context (key_of mr) rc in
            let left : delete (key_of mr) m ≡ delete (key_of mr) s.manager.controllers =
              subst (λ k. delete k m ≡ delete k s.manager.controllers) e
                (delete-controller_returned none i.key i.context s.manager.controllers) in
            CanEnd-first w _
              (return_start i none listed
                (running_phase i.phase (runs' ∙ ap (λ d. not (is_some d)) runs))
                (λ l. canceled (subst (λ n. Listed n s.manager.live) life l)))
              (λ l. canceled (subst (λ n. Listed n s.manager.live) life l))
              (subst
                (λ x. CanEnd s' w (
                  ended_with mr w
                    (start_controller r.env mr hash (record s.manager { controllers = x }))))
                left
                (closed-CanEnd s' r mr hash w returned err_stopped at
                  (lookup-controller_returned none i.key i.context (key_of mr) s.manager.controllers
                    ∙ ap (returned_in none i.key i.context (key_of mr)) there')
                  (ground (arith, key_eq_iff (key_of mr) i.key))))
      ]
