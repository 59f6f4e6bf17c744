-- ===== src/Manager/Lifetimes/Starting.antt =====
-- A new controller gets its own context, which every error but the last cancels.
use mathlib.Core.Path.{◌∙◌, subst}
use espejote.Base.{
  ℕ, suc, String, none, List, ◌∷◌, ◌≡◌, sym, arith, ap, Result, ok, err, Result-cases, Option-cases,
  inl, inr,
}
use espejote.Api.{ManagedResource}
use espejote.Manager.Keyed.{lookup, cancel}
use espejote.Manager.Caches.{cache_for}
use espejote.Manager.{
  State, Env, EnsureError, watch_failed, hash_failed, client_failed, controller_failed,
  token_failed, cache_failed, ResourceController, RestConfig, key_of, controller_name,
  stop_and_remove_controller_for, current_for, start_in_context, start_controller,
  ensure_instance_controller_for, config_hash_for_managed_resource,
  rest_config_for_managed_resource,
}
use espejote.Manager.Lifetimes.{
  lifetimes, Descending, IsAccounted, cancel_above, Descending-weaken,
  stop_and_remove_controller_for-IsAccounted,
}
use espejote.Manager.Instances.{stop_and_remove_controller_for-lookup}

-- The accounts after a controller was asked for: where the controller cannot watch its own channel,
-- one context more is live than there are controllers.
abbrev pub Accounted : {C : Type 0} → Result EnsureError (ResourceController C) × State C → Type 0
Accounted (ok rc, st) = IsAccounted st
Accounted (err e, st) = elim e [
  | watch_failed c ↦ (n : ℕ) × (st.live ≡ n ∷ lifetimes st.controllers)
  | _ ↦ IsAccounted st
]

abbrev opened : {C : Type 0} → State C → State C
opened st = record st { live = st.next ∷ st.live; next = suc st.next }

canceled_same : (n : ℕ) (live : List ℕ) → Descending n live → cancel n (n ∷ live) ≡ live
unfolding cancel
canceled_same n live d = ground (arith, cancel_above n live d)

canceled-IsAccounted :
    {C : Type 0} (st : State C)
    → IsAccounted st
    → IsAccounted (record (opened st) { live = cancel st.next (opened st).live })
canceled-IsAccounted st (same, descending, unique) =
    let canceled = canceled_same st.next st.live descending in
    (
      canceled ∙ same,
      subst (λ l. Descending (suc st.next) l) (sym canceled)
          (Descending-weaken st.next (suc st.next) st.live (omega arith) descending),
      unique,
    )

rest_config-Accounted :
    {C : Type 0} (env : Env C) (mr : ManagedResource) (e : EnsureError) (st : State C)
    → rest_config_for_managed_resource env mr ≡ err e
    → IsAccounted st
    → Accounted (err e, st)
unfolding rest_config_for_managed_resource
rest_config-Accounted env mr (watch_failed c) st h a = ground arith
rest_config-Accounted env mr (hash_failed c) st h a = a
rest_config-Accounted env mr (client_failed c) st h a = a
rest_config-Accounted env mr (controller_failed c) st h a = a
rest_config-Accounted env mr (token_failed k c) st h a = a
rest_config-Accounted env mr (cache_failed c) st h a = a

module _ {C : Type 0} (env : Env C) where
  start_in_context-Accounted :
      (mr : ManagedResource) (hash : String) (rc : RestConfig) (st : State C)
      → IsAccounted st
      → lookup (key_of mr) st.controllers ≡ none
      → Accounted (start_in_context env mr hash rc st.next (opened st))
  unfolding start_in_context
  start_in_context-Accounted mr hash rc st a absent =
      elim (Result-cases (env.new_controller (controller_name mr) mr.spec.cache_sync_timeout)) [
        | inr (c, failed) ↦ rw (failed, start_in_context, Accounted) (canceled-IsAccounted st a)
        | inl (created, made) ↦
            elim (Result-cases (cache_for (env.new_cache rc mr.namespace) env.watch mr)) [
              | inr (e, failed) ↦
                  rw (made, failed, start_in_context, Accounted) (canceled-IsAccounted st a)
              | inl (ci, cached) ↦ elim (Result-cases env.watch_instance) [
                | inr (c, failed) ↦
                    rw (made, cached, failed, start_in_context, Accounted)
                      (st.next, ap (λ l. st.next ∷ l) a.0)
                | inl (watched, accepted) ↦
                    rw (made, cached, accepted, start_in_context, Accounted)
                      (ap (λ l. st.next ∷ l) a.0, (omega arith, a.1), (absent, a.2))
              ]
            ]
      ]

  start_controller-Accounted :
      (mr : ManagedResource) (hash : String) (st : State C)
      → IsAccounted st
      → lookup (key_of mr) st.controllers ≡ none
      → Accounted (start_controller env mr hash st)
  unfolding start_controller
  start_controller-Accounted mr hash st a absent =
      elim (Result-cases (rest_config_for_managed_resource env mr)) [
        | inr (e, failed) ↦
            rw (failed, start_controller) (rest_config-Accounted env mr e st failed a)
        | inl (rc, made) ↦ elim (Result-cases (env.new_client rc)) [
          | inr (c, failed) ↦ rw (made, failed, start_controller, Accounted) a
          | inl (created, made') ↦
              rw (made, made', start_controller) (start_in_context-Accounted mr hash rc st a absent)
        ]
      ]

  -- Where each resource has at most one controller, the contexts that are live are those of the
  -- controllers, one each, and later ones have higher numbers, asking for a controller keeps this,
  -- whether it is there, is started or fails, but for one error: where the new controller cannot
  -- watch its own channel, its context stays live without a controller.
  pub ensure_instance_controller_for-Accounted :
      (mr : ManagedResource) (st : State C)
      → IsAccounted st
      → Accounted (ensure_instance_controller_for env mr st)
  unfolding ensure_instance_controller_for
  ensure_instance_controller_for-Accounted mr st a =
      elim (Result-cases (config_hash_for_managed_resource env.hasher mr)) [
        | inr (c, failed) ↦ rw (failed, ensure_instance_controller_for, Accounted) a
        | inl (hash, hashed) ↦ elim (Option-cases (current_for (key_of mr) hash st)) [
          | inr (rc, current) ↦ rw (hashed, current, ensure_instance_controller_for, Accounted) a
          | inl outdated ↦
              rw (hashed, outdated, ensure_instance_controller_for)
                (start_controller-Accounted mr hash (stop_and_remove_controller_for (key_of mr) st)
                  (stop_and_remove_controller_for-IsAccounted (key_of mr) st a)
                  (stop_and_remove_controller_for-lookup (key_of mr) (key_of mr) st).0)
        ]
      ]
