-- ===== src/Manager/Concurrent/Progress/Ends.antt =====
-- That Reconcile can end, and with what.
use mathlib.Core.Path.{subst}
use espejote.Base.{
  Bool, Option, some, ◌≡◌, inl, inr, refl, sym, arith, ◌∙◌, ◌==◌, Result, ok, err, Result-cases,
  Option-cases, Bool-cases, none_ne_some,
}
use espejote.Kube.{ApiError, not_found, other, NamespacedName}
use espejote.Api.{ManagedResource}
use espejote.Manager.Keyed.{lookup, cancel}
use espejote.Manager.{
  State, ResourceController, key_of, config_hash_for_managed_resource,
  ensure_instance_controller_for,
}
use espejote.Manager.Requests.{World, ManagerError, reconcile_request}
use espejote.Manager.Spec.{Request}
use espejote.Manager.Concurrent.{
  Stage, idle, taken, stopping, starting, ensured, Turn, proceeds, turn, turn_taken, turn_read,
  turn_found,
}
use espejote.Manager.Concurrent.Turns.{IsStaged}
use espejote.Manager.Concurrent.Steps.{System, init, busy_with, after, proceed, Steps, here}
use espejote.Manager.Concurrent.Invariant.{Inv, init-Inv}
use espejote.Manager.Concurrent.Invariant.Reached.{Step-Inv, Steps-Inv}
use espejote.Manager.Ensuring.{ensured_current, ensured_absent, ensured_changed}
use espejote.Manager.Concurrent.Progress.{
  CanEnd, CanEnd-turn, ended_with, ensured-CanEnd, starting-CanEnd, stopping-CanEnd,
}

module _ {S C : Type 0} (update_status : ManagedResource → S → Option ApiError × S)
    (started : ResourceController C → Bool) where
  found-CanEnd :
      (s : System C) (r : Request C) (mr : ManagedResource) (w : World S)
      → Inv s
      → turn update_status started s.stage w s.manager
        ≡ turn_found update_status started r mr w s.manager
      → CanEnd update_status started s w (
          ended_with update_status started mr w (ensure_instance_controller_for r.env mr s.manager))
  unfolding turn_found ensure_instance_controller_for
  found-CanEnd s r mr w inv at =
      let st = s.manager in
      elim (Result-cases (config_hash_for_managed_resource r.env.hasher mr)) [
        | inr (c, failed) ↦
            (s, here, tt, at ∙ rw (failed, turn_found, ensure_instance_controller_for) refl)
        | inl (hash, hashed) ↦ elim (Option-cases (lookup (key_of mr) st.controllers)) [
          | inl absent ↦
              let t : Turn S C = proceeds (starting r mr hash) st in
              subst
                (λ x. CanEnd update_status started s w (ended_with update_status started mr w x))
                (sym (ensured_absent r mr hash st hashed absent))
                (CanEnd-turn update_status started s w t _
                  (at ∙ rw (hashed, absent, turn_found) refl)
                  (starting-CanEnd update_status started (after s t) r mr hash w refl))
          | inr (rc, there) ↦ elim (Bool-cases (rc.config_hash == hash)) [
            | inl same ↦
                let t : Turn S C = proceeds (ensured r mr) st in
                subst
                  (λ x. CanEnd update_status started s w (ended_with update_status started mr w x))
                  (sym (ensured_current r mr hash st rc hashed there same))
                  (CanEnd-turn update_status started s w t _
                    (at ∙ rw (hashed, there, same, turn_found) refl)
                    (ensured-CanEnd update_status started (after s t) r mr w rc refl there))
            | inr changed ↦
                let t : Turn S C =
                  proceeds (stopping r mr hash) (record st { live = cancel rc.lifetime st.live }) in
                let made = at ∙ rw (hashed, there, changed, turn_found) refl in
                subst
                  (λ x. CanEnd update_status started s w (ended_with update_status started mr w x))
                  (sym (ensured_changed r mr hash st rc hashed there changed))
                  (CanEnd-turn update_status started s w t _ made (
                    stopping-CanEnd update_status started (after s t) r mr hash w
                      (Step-Inv update_status started (proceed w t made) inv) refl))
          ]
        ]
      ]

  read-CanEnd :
      (s : System C) (r : Request C) (w : World S) (get : Result ApiError ManagedResource)
      → Inv s
      → turn update_status started s.stage w s.manager
        ≡ turn_read update_status started r w s.manager get
      → CanEnd update_status started s w
          (reconcile_request update_status started r.env get r.key s.manager w)
  unfolding turn_read reconcile_request
  read-CanEnd s r w (err not_found) inv at = (s, here, tt, at)
  read-CanEnd s r w (err (other c)) inv at = (s, here, tt, at)
  read-CanEnd s r w (ok mr) inv at = elim (Bool-cases mr.deleting) [
    | inl deleted ↦ (s, here, tt, at ∙ ground arith)
    | inr kept ↦
        let e : reconcile_request update_status started r.env (ok mr) r.key s.manager w
            ≡ ended_with update_status started mr w
                (ensure_instance_controller_for r.env mr s.manager) =
          ground arith in
        subst (λ x. CanEnd update_status started s w x) (sym e)
          (found-CanEnd s r mr w inv (at ∙ ground arith))
  ]

  taken-CanEnd :
      (s : System C) (r : Request C) (w : World S)
      → Inv s
      → s.stage ≡ taken r
      → CanEnd update_status started s w
          (reconcile_request update_status started r.env r.get r.key s.manager w)
  unfolding turn turn_taken
  taken-CanEnd s r w inv at = read-CanEnd s r w r.get inv (rw at refl)

  -- In every state that can be reached, where Reconcile took up a request, turns of Reconcile and
  -- returns of controllers whose context is canceled lead to a turn that ends it with the error,
  -- the state and the world that the reconciliation as one step has.
  pub Steps-CanEnd :
      (s : System C) (r : Request C) (w : World S)
      → Steps update_status started init s
      → s.stage ≡ taken r
      → CanEnd update_status started s w
          (reconcile_request update_status started r.env r.get r.key s.manager w)
  Steps-CanEnd s r w steps = taken-CanEnd s r w (Steps-Inv update_status started init-Inv steps)

  -- Reconcile can end with one result or another.
  abbrev pub Ends : System C → World S → Type 0
  Ends s w =
      (result : Option ManagerError × State C × World S) × CanEnd update_status started s w result

  stage-Ends :
      (s : System C) (key : NamespacedName) (w : World S) (stage : Stage C)
      → Inv s
      → busy_with stage ≡ some key
      → s.stage ≡ stage
      → Ends s w
  stage-Ends s key w idle inv busy at = absurd (none_ne_some busy)
  stage-Ends s key w (taken r) inv busy at = (_, taken-CanEnd s r w inv at)
  stage-Ends s key w (stopping r mr hash) inv busy at =
      (_, stopping-CanEnd update_status started s r mr hash w inv at)
  stage-Ends s key w (starting r mr hash) inv busy at =
      (_, starting-CanEnd update_status started s r mr hash w at)
  stage-Ends s key w (ensured r mr) inv busy at =
      let (named, (rc, there)) = subst (λ x. IsStaged x s.manager) at inv.staged in
      (
        _,
        ensured-CanEnd update_status started s r mr w rc at
            (subst (λ k. lookup k s.manager.controllers ≡ some rc) (sym named) there),
      )

  -- In every state that can be reached where Reconcile works on a request, turns of Reconcile and
  -- returns of controllers whose context is canceled, and no other steps, lead to a turn that ends
  -- it.
  pub Steps-Ends :
      (s : System C) (key : NamespacedName) (w : World S)
      → Steps update_status started init s
      → busy_with s.stage ≡ some key
      → Ends s w
  Steps-Ends s key w steps busy =
      stage-Ends s key w s.stage (Steps-Inv update_status started init-Inv steps) busy refl
