-- ===== src/Manager/Instances.antt =====
-- The instance that a reconciliation of the manager ends up with.
use mathlib.Core.Path.{◌∙◌}
use espejote.Base.{
  suc, ◌∷◌, String, none, some, ◌≡◌, ◌≢◌, refl, arith, eq_iff, Result, ok, err, Result-cases,
  Option-cases, inl, inr,
}
use espejote.Kube.{NamespacedName}
use espejote.Api.{ManagedResource}
use espejote.Manager.Keyed.{Table, insert, lookup, lookup-delete, lookup-delete_other, key_eq_iff}
use espejote.Manager.Caches.{cache_for}
use espejote.Manager.{
  State, Env, EnsureError, ResourceController, RestConfig, key_of, resource_controller,
  controller_name, stop_and_remove_controller_for, current_for, start_in_context, start_controller,
  ensure_instance_controller_for, config_hash_for_managed_resource,
  rest_config_for_managed_resource,
}

module _ {C : Type 0} where
  -- After its controller is removed, a resource has none, and the others have the ones they had.
  pub stop_and_remove_controller_for-lookup :
      (key k : NamespacedName) (st : State C)
      → (lookup key (stop_and_remove_controller_for key st).controllers ≡ none)
        × (key ≢ k
            → lookup k (stop_and_remove_controller_for key st).controllers
              ≡ lookup k st.controllers)
  unfolding stop_and_remove_controller_for
  stop_and_remove_controller_for-lookup key k st = elim (Option-cases (lookup key st.controllers)) [
    | inl absent ↦ rw (absent, stop_and_remove_controller_for) (absent, λ h. refl)
    | inr (rc, there) ↦
        rw (there, stop_and_remove_controller_for)
          (lookup-delete key st.controllers, λ h. lookup-delete_other key k st.controllers h)
  ]

-- The controllers after one was asked for: the resource's is the one returned, for the hash, and
-- where there is an error it has none; the others' stay.
abbrev pub Ensured :
    {C : Type 0}
    → NamespacedName
    → String
    → State C
    → Result EnsureError (ResourceController C) × State C
    → Type 0
Ensured key hash st (ok rc, st') =
    (lookup key st'.controllers ≡ some rc)
    × (rc.config_hash ≡ hash)
    × ((k : NamespacedName) → key ≢ k → lookup k st'.controllers ≡ lookup k st.controllers)
Ensured key hash st (err e, st') =
    (lookup key st'.controllers ≡ none)
    × ((k : NamespacedName) → key ≢ k → lookup k st'.controllers ≡ lookup k st.controllers)

lookup-insert :
    {V : Type 0} (k : NamespacedName) (v : V) (m : Table V) → lookup k (insert k v m) ≡ some v
unfolding lookup
lookup-insert k v m = ground (arith, key_eq_iff k k)

lookup-insert_other :
    {V : Type 0} (j k : NamespacedName) (v : V) (m : Table V)
    → j ≢ k
    → lookup k (insert j v m) ≡ lookup k m
unfolding lookup
lookup-insert_other j k v m h = ground (arith, key_eq_iff j k)

module _ {C : Type 0} (env : Env C) where
  start_in_context-Ensured :
      (mr : ManagedResource) (hash : String) (rc : RestConfig) (n : _) (st : State C)
      → lookup (key_of mr) st.controllers ≡ none
      → Ensured (key_of mr) hash st (start_in_context env mr hash rc n st)
  unfolding start_in_context
  start_in_context-Ensured mr hash rc n st absent =
      elim (Result-cases (env.new_controller (controller_name mr) mr.spec.cache_sync_timeout)) [
        | inr (c, failed) ↦ rw (failed, start_in_context, Ensured) (absent, λ k h. refl)
        | inl (created, made) ↦
            elim (Result-cases (cache_for (env.new_cache rc mr.namespace) env.watch mr)) [
              | inr (e, failed) ↦ rw (made, failed, start_in_context, Ensured) (absent, λ k h. refl)
              | inl (ci, cached) ↦ elim (Result-cases env.watch_instance) [
                | inr (c, failed) ↦
                    rw (made, cached, failed, start_in_context, Ensured) (absent, λ k h. refl)
                | inl (watched, accepted) ↦
                    rw (made, cached, accepted, start_in_context, Ensured)
                      (
                        lookup-insert (key_of mr) (resource_controller hash n ci) st.controllers,
                        refl,
                        λ k h.
                            lookup-insert_other (key_of mr) k (resource_controller hash n ci)
                              st.controllers h,
                      )
              ]
            ]
      ]

  pub start_controller-Ensured :
      (mr : ManagedResource) (hash : String) (st : State C)
      → lookup (key_of mr) st.controllers ≡ none
      → Ensured (key_of mr) hash st (start_controller env mr hash st)
  unfolding start_controller
  start_controller-Ensured mr hash st absent =
      elim (Result-cases (rest_config_for_managed_resource env mr)) [
        | inr (e, failed) ↦ rw (failed, start_controller, Ensured) (absent, λ k h. refl)
        | inl (rc, made) ↦ elim (Result-cases (env.new_client rc)) [
          | inr (c, failed) ↦ rw (made, failed, start_controller, Ensured) (absent, λ k h. refl)
          | inl (created, made') ↦
              rw (made, made', start_controller)
                (start_in_context-Ensured mr hash rc st.next
                  (record st { live = st.next ∷ st.live; next = suc st.next }) absent)
        ]
      ]

Ensured-from :
    {C : Type 0} (key : NamespacedName) (hash : String) (st st' : State C)
    (r : Result EnsureError (ResourceController C) × State C)
    → ((k : NamespacedName) → key ≢ k → lookup k st'.controllers ≡ lookup k st.controllers)
    → Ensured key hash st' r
    → Ensured key hash st r
Ensured-from key hash st st' (ok rc, final) same (there, hashed, others) =
    (there, hashed, λ k h. others k h ∙ same k h)
Ensured-from key hash st st' (err e, final) same (absent, others) =
    (absent, λ k h. others k h ∙ same k h)

pub current_for-some :
    {C : Type 0} (key : NamespacedName) (hash : String) (st : State C) (rc : ResourceController C)
    → current_for key hash st ≡ some rc
    → (lookup key st.controllers ≡ some rc) × (rc.config_hash ≡ hash)
unfolding current_for
current_for-some key hash st rc h = elim (Option-cases (lookup key st.controllers)) [
  | inl absent ↦ ground arith
  | inr (found, there) ↦ ground (arith, eq_iff found.config_hash hash)
]

module _ {C : Type 0} (env : Env C) where
  -- Where the hash of the configuration can be computed, a controller is returned that is the
  -- resource's and for that hash, or an error and the resource has none; the controllers of all
  -- other resources stay.
  pub ensure_instance_controller_for-Ensured :
      (mr : ManagedResource) (hash : String) (st : State C)
      → config_hash_for_managed_resource env.hasher mr ≡ ok hash
      → Ensured (key_of mr) hash st (ensure_instance_controller_for env mr st)
  unfolding ensure_instance_controller_for
  ensure_instance_controller_for-Ensured mr hash st hashed =
      elim (Option-cases (current_for (key_of mr) hash st)) [
        | inr (rc, current) ↦
            let found = current_for-some (key_of mr) hash st rc current in
            rw (hashed, current, ensure_instance_controller_for, Ensured)
              (found.0, found.1, λ k h. refl)
        | inl outdated ↦
            let stopped = stop_and_remove_controller_for (key_of mr) st in
            rw (hashed, outdated, ensure_instance_controller_for)
              (Ensured-from (key_of mr) hash st stopped (start_controller env mr hash stopped)
                (λ k h. (stop_and_remove_controller_for-lookup (key_of mr) k st).1 h)
                (start_controller-Ensured env mr hash stopped
                  (stop_and_remove_controller_for-lookup (key_of mr) (key_of mr) st).0))
      ]
