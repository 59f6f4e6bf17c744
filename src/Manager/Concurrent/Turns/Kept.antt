-- ===== src/Manager/Concurrent/Turns/Kept.antt =====
-- What a turn of Reconcile leaves, stage by stage.
use mathlib.Core.Path.{subst}
use espejote.Base.{
  String, Bool, true, false, Option, none, some, ◌≡◌, ◌≢◌, inl, inr, refl, sym, arith, ◌∙◌, ◌==◌,
  if◌then◌else◌, Result, ok, err, Result-cases, Option-cases, Bool-cases, none_ne_some,
  some_injective,
}
use espejote.Kube.{ApiError, not_found, other, NamespacedName}
use espejote.Api.{ManagedResource}
use espejote.Manager.Keyed.{lookup, delete, lookup-delete, key_eq_iff}
use espejote.Manager.{
  State, Env, EnsureError, ResourceController, key_of, start_controller,
  stop_and_remove_controller_for, config_hash_for_managed_resource,
}
use espejote.Manager.Instances.{stop_and_remove_controller_for-lookup}
use espejote.Manager.Requests.{World, run_instance}
use espejote.Manager.Requests.Laws.{run_instance-ok}
use espejote.Manager.Spec.{Request, IsNamed, IsNamedOf}
use espejote.Manager.Concurrent.{
  Stage, idle, taken, stopping, starting, ensured, Turn, ends, turn, turn_taken, turn_read,
  turn_found, turn_stopping, turn_starting, turn_ensured, turn_made,
}
use espejote.Manager.Concurrent.Changes.{
  Keeps-same, Keeps-cancel, Keeps-removed, Keeps-stop_and_remove, Made, start_controller-Made,
  Listed-cancel,
}
use espejote.Manager.Concurrent.Steps.{busy_with}
use espejote.Manager.Concurrent.Turns.{IsStaged, IsTurn}

if-IsTurn :
    {S C : Type 0} (key : NamespacedName) (st : State C) (b : Bool) (t u : Turn S C)
    → IsTurn key st t
    → IsTurn key st u
    → IsTurn key st (if b then t else u)
if-IsTurn key st true t u h k = h
if-IsTurn key st false t u h k = k

module _ {S C : Type 0} (update_status : ManagedResource → S → Option ApiError × S)
    (started : ResourceController C → Bool) where
  pub run_instance-errs :
      (e : EnsureError) (mr : ManagedResource) (w : World S)
      → (run_instance update_status started (err e) mr w).0 ≢ none
  unfolding run_instance
  run_instance-errs e mr w h = cc

  pub run_instance-runs :
      (env : Env C) (rc : ResourceController C) (mr : ManagedResource) (w : World S)
      → (run_instance update_status started (ok rc) mr w).0 ≡ none
      → rc.done ≡ none
  run_instance-runs env rc mr w h =
      ground (arith, run_instance-ok update_status started env (ok rc) mr w h)

  turn_stopping-IsTurn :
      (r : Request C) (mr : ManagedResource) (hash : String) (st : State C)
      → IsStaged (stopping r mr hash) st
      → IsTurn {S = S} r.key st (turn_stopping r mr hash st)
  unfolding turn_stopping
  turn_stopping-IsTurn r mr hash st (named, ((rc, there), canceled)) =
      let at = subst (λ k. lookup k st.controllers ≡ some rc) (sym named) there in
      elim (Option-cases rc.done) [
        | inl running ↦ rw (at, running, turn_stopping, IsTurn) tt
        | inr (c, closed) ↦
            rw (at, closed, turn_stopping, IsTurn)
              (
                Keeps-removed st (key_of mr) rc st.live at canceled (λ n l. l),
                (
                  named,
                  subst (λ k. lookup k (delete (key_of mr) st.controllers) ≡ none) named
                      (lookup-delete (key_of mr) st.controllers),
                ),
                refl,
              )
      ]

  turn_ensured-IsTurn :
      (r : Request C) (mr : ManagedResource) (w : World S) (st : State C)
      → IsStaged (ensured r mr) st
      → IsTurn {S = S} r.key st (turn_ensured update_status started mr w st)
  unfolding turn_ensured
  turn_ensured-IsTurn r mr w st (named, (rc, there)) =
      let at = subst (λ k. lookup k st.controllers ≡ some rc) (sym named) there in
      rw (at, turn_ensured, IsTurn)
        (
          Keeps-same st,
          λ h rc' there'.
              subst (λ x. x.done ≡ none) (some_injective (sym there ∙ there'))
                (run_instance-runs r.env rc mr w h),
        )

  turn_made-IsTurn :
      (r : Request C) (mr : ManagedResource) (w : World S) (st : State C)
      (made : Result EnsureError (ResourceController C) × State C)
      → Made mr st made
      → IsStaged (starting r mr "") st
      → IsTurn {S = S} r.key st (turn_made update_status started r mr w made)
  unfolding turn_made lookup
  turn_made-IsTurn r mr w st (err e, st') kept staged =
      (kept, λ h. absurd (run_instance-errs e mr w h))
  turn_made-IsTurn r mr w st (ok rc, st') (inserted, fresh, alive, live, next) (named, absent) = (
    ground arith,
    absent,
    (named, (rc, ground (arith, key_eq_iff r.key r.key))),
    refl,
    (rc, ground arith, fresh, alive, live, next),
  )

  turn_starting-IsTurn :
      (r : Request C) (mr : ManagedResource) (hash : String) (w : World S) (st : State C)
      → IsStaged (starting r mr hash) st
      → IsTurn {S = S} r.key st (turn_starting update_status started r mr hash w st)
  unfolding turn_starting
  turn_starting-IsTurn r mr hash w st staged =
      turn_made-IsTurn r mr w st (start_controller r.env mr hash st)
        (start_controller-Made r.env mr hash st) staged

  turn_found-IsTurn :
      (r : Request C) (mr : ManagedResource) (w : World S) (st : State C)
      → key_of mr ≡ r.key
      → IsTurn {S = S} r.key st (turn_found update_status started r mr w st)
  unfolding turn_found
  turn_found-IsTurn r mr w st named =
      elim (Result-cases (config_hash_for_managed_resource r.env.hasher mr)) [
        | inr (c, failed) ↦
            rw (failed, turn_found, IsTurn)
              (Keeps-same st, λ h. absurd (run_instance-errs _ mr w h))
        | inl (hash, hashed) ↦ elim (Option-cases (lookup (key_of mr) st.controllers)) [
          | inl absent ↦
              rw (hashed, absent, turn_found, IsTurn)
                (
                  Keeps-same st,
                  (named, subst (λ k. lookup k st.controllers ≡ none) named absent),
                  refl,
                )
          | inr (rc, there) ↦
              let at = subst (λ k. lookup k st.controllers ≡ some rc) named there in
              elim (Bool-cases (rc.config_hash == hash)) [
                | inl same ↦
                    rw (hashed, there, same, turn_found, IsTurn)
                      (Keeps-same st, (named, (rc, at)), refl)
                | inr changed ↦
                    rw (hashed, there, changed, turn_found, IsTurn)
                      (
                        Keeps-cancel st rc.lifetime,
                        (
                          named,
                          ((rc, at), λ l. (Listed-cancel rc.lifetime rc.lifetime st.live l).1 refl),
                        ),
                        refl,
                      )
              ]
        ]
      ]

  stopped-IsTurn :
      (key : NamespacedName) (w : World S) (st : State C)
      → IsTurn key st (ends none (stop_and_remove_controller_for key st) w)
  stopped-IsTurn key w st = (
    Keeps-stop_and_remove key st,
    λ h rc there.
        absurd (none_ne_some (sym (stop_and_remove_controller_for-lookup key key st).0 ∙ there)),
  )

  turn_read-IsTurn :
      (r : Request C) (w : World S) (st : State C) (get : Result ApiError ManagedResource)
      → IsNamedOf r.key get
      → IsTurn {S = S} r.key st (turn_read update_status started r w st get)
  unfolding turn_read
  turn_read-IsTurn r w st (err not_found) named = stopped-IsTurn r.key w st
  turn_read-IsTurn r w st (err (other c)) named = (Keeps-same st, λ h. cc)
  turn_read-IsTurn r w st (ok mr) named =
      if-IsTurn r.key st mr.deleting _ _ (stopped-IsTurn r.key w st)
        (turn_found-IsTurn r mr w st named)

  turn_taken-IsTurn :
      (r : Request C) (w : World S) (st : State C)
      → IsNamed r
      → IsTurn {S = S} r.key st (turn_taken update_status started r w st)
  unfolding turn_taken
  turn_taken-IsTurn r w st named = turn_read-IsTurn r w st r.get named

  -- Every turn keeps what holds at the stages.
  pub turn-IsTurn :
      (stage : Stage C) (key : NamespacedName) (w : World S) (st : State C)
      → busy_with stage ≡ some key
      → IsStaged stage st
      → IsTurn {S = S} key st (turn update_status started stage w st)
  unfolding turn
  turn-IsTurn idle key w st busy staged = absurd (none_ne_some busy)
  turn-IsTurn (taken r) key w st busy staged =
      subst (λ k. IsTurn k st (turn_taken update_status started r w st)) (some_injective busy)
        (turn_taken-IsTurn r w st staged)
  turn-IsTurn (stopping r mr hash) key w st busy staged =
      subst (λ k. IsTurn k st (turn_stopping {S = S} r mr hash st)) (some_injective busy)
        (turn_stopping-IsTurn r mr hash st staged)
  turn-IsTurn (starting r mr hash) key w st busy staged =
      subst (λ k. IsTurn k st (turn_starting update_status started r mr hash w st))
        (some_injective busy) (turn_starting-IsTurn r mr hash w st staged)
  turn-IsTurn (ensured r mr) key w st busy staged =
      subst (λ k. IsTurn k st (turn_ensured update_status started mr w st)) (some_injective busy)
        (turn_ensured-IsTurn r mr w st staged)
