-- ===== src/Manager/Spec/Provenance.antt =====
-- What a run of the promised steps may leave running.
use mathlib.Core.Path.{subst}
use espejote.Base.{
  String, Bool, Option, none, some, none_ne_some, some_injective, List, [], ◌∷◌, ◌≡◌, ◌≢◌, ◌⊎◌, inl,
  inr, refl, sym, ap, ◌∙◌, arith, All, Listed, Bool-cases,
}
use espejote.Kube.{ApiError, NamespacedName}
use espejote.Api.{ManagedResource}
use espejote.Manager.Keyed.{key_eq, key_eq_iff}
use espejote.Manager.{State, ResourceController}
use espejote.Manager.Requests.{World}
use espejote.Manager.Spec.{
  Spec, running, Request, Wanted, unknown, absent, configured, wanted_by, Moves, Step, Steps,
  IsNamed,
}
use espejote.Manager.Spec.Refines.{reconcile_requests, reconcile_requests-Steps}

Moves-some :
    (wanted : Wanted) (before after : Option String) (hash : String)
    → Moves wanted before after
    → after ≡ some hash
    → (before ≡ some hash) ⊎ (wanted ≡ configured hash)
Moves-some unknown before after hash same h = inl (sym same ∙ h)
Moves-some absent before after hash gone h = absurd (none_ne_some (sym gone ∙ h))
Moves-some (configured x) before after hash (inl runs) h =
    inr (ap (λ y. configured y) (some_injective (sym runs ∙ h)))
Moves-some (configured x) before after hash (inr (gone, new)) h =
    absurd (none_ne_some (sym gone ∙ h))

module _ {C : Type 0} where
  -- A request of the list is for the resource and found the configuration.
  abbrev pub IsWanted : List (Request C) → NamespacedName → String → Type 0
  IsWanted rs k hash =
      (r : Request C) × Listed r rs × (r.key ≡ k) × (wanted_by r.env r.get ≡ configured hash)

  Step-some :
      (r : Request C) (s s' : Spec) (k : NamespacedName) (hash : String)
      → Step r s s'
      → s' k ≡ some hash
      → (s k ≡ some hash) ⊎ ((r.key ≡ k) × (wanted_by r.env r.get ≡ configured hash))
  Step-some r s s' k hash (own, others) h = elim (Bool-cases (key_eq r.key k)) [
    | inr other ↦ inl (sym (others k (λ same. ground (arith, key_eq_iff r.key k))) ∙ h)
    | inl same ↦
        let here = (key_eq_iff r.key k).0 same in
        elim (Moves-some (wanted_by r.env r.get) (s r.key) (s' r.key) hash own (ap s' here ∙ h)) [
          | inl before ↦ inl (ap s (sym here) ∙ before)
          | inr wanted ↦ inr (here, wanted)
        ]
  ]

  Steps-IsWanted :
      (rs : List (Request C)) (s s' : Spec) (k : NamespacedName) (hash : String)
      → Steps rs s s'
      → s' k ≡ some hash
      → (s k ≡ some hash) ⊎ IsWanted rs k hash
  Steps-IsWanted [] s s' k hash same h = inl (sym (same k) ∙ h)
  Steps-IsWanted (r ∷ rs) s s' k hash (m, step, steps) h =
      elim (Steps-IsWanted rs m s' k hash steps h) [
        | inr (q, later, here, found) ↦ inr (q, inr later, here, found)
        | inl now ↦ elim (Step-some r s m k hash step now) [
          | inl before ↦ inl before
          | inr (here, wanted) ↦ inr (r, inl refl, here, wanted)
        ]
      ]

  -- What the last request for a resource leaves stays.
  Steps-others :
      (rs : List (Request C)) (s s' : Spec) (k : NamespacedName)
      → Steps rs s s'
      → All (λ r. r.key ≢ k) rs
      → s' k ≡ s k
  Steps-others [] s s' k same apart = same k
  Steps-others (r ∷ rs) s s' k (m, (own, others), steps) (one, apart) =
      Steps-others rs m s' k steps apart ∙ others k one

module _ {S C : Type 0} (update_status : ManagedResource → S → Option ApiError × S)
    (started : ResourceController C → Bool) where
  -- A resource that had no controller runs in the end only with a hash that a reconciliation of it
  -- found, where each reads a resource of the name that it is for.
  pub reconcile_requests-IsWanted :
      (rs : List (Request C)) (st : State C) (w : World S) (k : NamespacedName) (hash : String)
      → All IsNamed rs
      → running st k ≡ none
      → running (reconcile_requests update_status started rs st w).0 k ≡ some hash
      → IsWanted rs k hash
  reconcile_requests-IsWanted rs st w k hash named idle h =
      elim (Steps-IsWanted rs _ _ k hash
        (reconcile_requests-Steps update_status started rs st w named) h) [
          | inl before ↦ absurd (none_ne_some (sym idle ∙ before))
          | inr wanted ↦ wanted
        ]

  -- Where a reconciliation of a resource is followed only by reconciliations of others, and each
  -- reads a resource of the name that it is for, if it reads one, the resource ends with no
  -- controller if it was gone or being deleted, as it was if it could not be read or hashed, and
  -- else with one for its hash, or with none where it had none for that hash before.
  pub reconcile_requests-last :
      (r : Request C) (rs : List (Request C)) (st : State C) (w : World S)
      → IsNamed r
      → All IsNamed rs
      → All (λ q. q.key ≢ r.key) rs
      → Moves
          (wanted_by r.env r.get)
          (running st r.key)
          (running (reconcile_requests update_status started (r ∷ rs) st w).0 r.key)
  reconcile_requests-last r rs st w one named apart =
      let (m, step, steps) =
        reconcile_requests-Steps update_status started (r ∷ rs) st w (one, named) in
      subst (Moves (wanted_by r.env r.get) (running st r.key))
        (sym (Steps-others rs m _ r.key steps apart)) step.0
