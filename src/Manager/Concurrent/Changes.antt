-- ===== src/Manager/Concurrent/Changes.antt =====
-- What Reconcile does with the controllers and the contexts in one turn.
use mathlib.Core.Path.{subst}
use espejote.Base.{
  ℕ, suc, ◌≤◌, String, none, some, List, [], ◌∷◌, Listed, ◌≡◌, ◌≢◌, ◌⊎◌, inl, inr, refl, sym, arith,
  ◌∙◌, Result, ok, err, Result-cases, Option-cases, none_ne_some, some_injective,
}
use espejote.Kube.{NamespacedName}
use espejote.Api.{ManagedResource}
use espejote.Manager.Keyed.{Table, lookup, insert, delete, cancel, key_eq_iff, lookup-delete_other}
use espejote.Manager.Caches.{cache_for}
use espejote.Manager.{
  State, Env, EnsureError, RestConfig, ResourceController, key_of, controller_name,
  stop_and_remove_controller_for, start_in_context, start_controller,
  rest_config_for_managed_resource,
}

-- What a turn does with the controllers but for a new one: contexts are canceled, or the next one is
-- made and leaked; controllers are removed, but none whose context stays.
pub record Keeps {C : Type 0} (st st' : State C) : Type 0 where
  pub later : st.next ≤ st'.next
  pub lives : (n : ℕ) → Listed n st'.live → (Listed n st.live) ⊎ (n ≡ st.next)
  pub had :
      (k : NamespacedName) (rc : ResourceController C)
      → lookup k st'.controllers ≡ some rc
      → lookup k st.controllers ≡ some rc
  pub stays :
      (k : NamespacedName) (rc : ResourceController C)
      → lookup k st.controllers ≡ some rc
      → Listed rc.lifetime st'.live
      → lookup k st'.controllers ≡ some rc

pub Listed-cancel : (c n : ℕ) (ns : List ℕ) → Listed n (cancel c ns) → Listed n ns × (n ≢ c)
unfolding cancel
Listed-cancel c n [] h = elim h [ ]
Listed-cancel c n (d ∷ ds) h = ground (arith, Listed-cancel c n ds)

module _ {C : Type 0} where
  pub Keeps-same : (st : State C) → Keeps st st
  Keeps-same st = record {
    later = omega arith;
    lives = λ n h. inl h;
    had = λ k rc h. h;
    stays = λ k rc h l. h;
  }

  pub Keeps-cancel : (st : State C) (c : ℕ) → Keeps st (record st { live = cancel c st.live })
  Keeps-cancel st c = record {
    later = omega arith;
    lives = λ n h. inl (Listed-cancel c n st.live h).0;
    had = λ k rc h. h;
    stays = λ k rc h l. h;
  }

  lookup-delete_inv :
      (j k : NamespacedName) (m : Table (ResourceController C)) (rc : ResourceController C)
      → lookup k (delete j m) ≡ some rc
      → (lookup k m ≡ some rc) × (j ≢ k)
  unfolding lookup delete
  lookup-delete_inv j k [] rc h = absurd (none_ne_some h)
  lookup-delete_inv j k ((i, v) ∷ m) rc h =
      ground (arith, lookup-delete_inv j k m rc, key_eq_iff i j, key_eq_iff i k)

  -- A controller whose context is canceled is removed.
  pub Keeps-removed :
      (st : State C) (key : NamespacedName) (rc : ResourceController C) (live : List ℕ)
      → lookup key st.controllers ≡ some rc
      → ¬ Listed rc.lifetime live
      → ((n : ℕ) → Listed n live → Listed n st.live)
      → Keeps st (record st { live = live; controllers = delete key st.controllers })
  Keeps-removed st key rc live there canceled fewer = record {
    later = omega arith;
    lives = λ n h. inl (fewer n h);
    had = λ k other h. (lookup-delete_inv key k st.controllers other h).0;
    stays = λ k other h l.
        lookup-delete_other key k st.controllers (λ same. canceled (
          subst (λ x. Listed x.lifetime live)
            (some_injective (sym h ∙ subst (λ x. lookup x st.controllers ≡ some rc) same there)) l))
        ∙ h;
  }

  pub Keeps-stop_and_remove :
      (key : NamespacedName) (st : State C) → Keeps st (stop_and_remove_controller_for key st)
  unfolding stop_and_remove_controller_for
  Keeps-stop_and_remove key st = elim (Option-cases (lookup key st.controllers)) [
    | inl absent ↦ rw (absent, stop_and_remove_controller_for) (Keeps-same st)
    | inr (rc, there) ↦
        rw (there, stop_and_remove_controller_for)
          (Keeps-removed st key rc (cancel rc.lifetime st.live) there
            (λ l. (Listed-cancel rc.lifetime rc.lifetime st.live l).1 refl)
            (λ n l. (Listed-cancel rc.lifetime n st.live l).0))
  ]

  -- What a new controller comes to, or the attempt at one.
  abbrev pub Made :
      ManagedResource → State C → Result EnsureError (ResourceController C) × State C → Type 0
  Made mr st (err e, st') = Keeps st st'
  Made mr st (ok rc, st') =
      (st'.controllers ≡ insert (key_of mr) rc st.controllers)
      × (rc.lifetime ≡ st.next)
      × (rc.done ≡ none)
      × (st'.live ≡ st.next ∷ st.live)
      × (st'.next ≡ suc st.next)

  abbrev opened : State C → State C
  opened st = record st { live = st.next ∷ st.live; next = suc st.next }

  Keeps-opened : (st : State C) → Keeps st (opened st)
  Keeps-opened st = record {
    later = omega arith;
    lives = λ n h. ground arith;
    had = λ k rc h. h;
    stays = λ k rc h l. h;
  }

  Keeps-canceled :
      (st : State C) → Keeps st (record (opened st) { live = cancel st.next (opened st).live })
  Keeps-canceled st = record {
    later = omega arith;
    lives = λ n h. ground (arith, Listed-cancel st.next n (st.next ∷ st.live) h);
    had = λ k rc h. h;
    stays = λ k rc h l. h;
  }

module _ {C : Type 0} (env : Env C) where
  start_in_context-Made :
      (mr : ManagedResource) (hash : String) (rc : RestConfig) (st : State C)
      → Made mr st (start_in_context env mr hash rc st.next (opened st))
  unfolding start_in_context
  start_in_context-Made mr hash rc st =
      elim (Result-cases (env.new_controller (controller_name mr) mr.spec.cache_sync_timeout)) [
        | inr (c, failed) ↦ rw (failed, start_in_context, Made) (Keeps-canceled st)
        | inl (created, made) ↦
            elim (Result-cases (cache_for (env.new_cache rc mr.namespace) env.watch mr)) [
              | inr (e, failed) ↦ rw (made, failed, start_in_context, Made) (Keeps-canceled st)
              | inl (ci, cached) ↦ elim (Result-cases env.watch_instance) [
                | inr (c, failed) ↦
                    rw (made, cached, failed, start_in_context, Made) (Keeps-opened st)
                | inl (watched, accepted) ↦
                    rw (made, cached, accepted, start_in_context, Made)
                      (refl, refl, refl, refl, refl)
              ]
            ]
      ]

  pub start_controller-Made :
      (mr : ManagedResource) (hash : String) (st : State C)
      → Made mr st (start_controller env mr hash st)
  unfolding start_controller
  start_controller-Made mr hash st = elim (Result-cases (rest_config_for_managed_resource env mr)) [
    | inr (e, failed) ↦ rw (failed, start_controller, Made) (Keeps-same st)
    | inl (rc, made) ↦ elim (Result-cases (env.new_client rc)) [
      | inr (c, failed) ↦ rw (made, failed, start_controller, Made) (Keeps-same st)
      | inl (created, made') ↦
          rw (made, made', start_controller) (start_in_context-Made mr hash rc st)
    ]
  ]
