-- ===== src/Manager/Caches/Readers.antt =====
-- The caches that an instance has are those that its triggers ask for.
use mathlib.Core.Path.{◌∙◌}
use espejote.Base.{
  Distinct, Listed, ◌⊎◌, ap, ◌==◌, some, none_ne_some, Bool-cases, String, none, List, [], ◌∷◌,
  num_eq, ◌≡◌, ◌≢◌, inl, inr, refl, arith, eq_iff, Result, ok, err, Result-cases, Option-cases,
}
use espejote.Kube.{Cause}
use espejote.Api.{ManagedResource, ManagedResourceTrigger, ManagedResourceContext, ClusterResource}
use espejote.Base.Tables.{Table, lookup, Unused-nil}
use espejote.Manager.Duplicates.{find_first_duplicate, find_first_duplicate-Distinct}
use espejote.Manager.Caches.{
  InstanceCache, CacheError, cache_not_found, Watch, client_for_trigger, client_for_context,
  trigger_cache_of, add_trigger, trigger_caches_for, context_caches_for, cache_for,
}
use espejote.Manager.Caches.Lookup.{
  trigger_names, reader_made, same_reader, trigger_caches_for-reader, cache_for-tables,
}

module _ {C : Type 0} (new_cache : ClusterResource → Result Cause C)
    (watch : Watch C → Result {0, 0} Cause Unit) where
  -- A cache of a context that is declared by the name.
  abbrev IsContextCache : List ManagedResourceContext → String → C → Type 0
  IsContextCache contexts name dc =
      (con : ManagedResourceContext) × Listed con contexts
      × (con.name ≡ name)
      × (new_cache con.resource ≡ ok dc)

  added_context :
      (con : ManagedResourceContext) (contexts : List ManagedResourceContext) (caches : Table C)
      (k : String) (made dc : C)
      → new_cache con.resource ≡ ok made
      → lookup k ((con.name, made) ∷ caches) ≡ some dc
      → IsContextCache (con ∷ contexts) k dc ⊎ (lookup k caches ≡ some dc)
  added_context con contexts caches k made dc new there = elim (Bool-cases (con.name == k)) [
    | inl same ↦
        let dc_is : made ≡ dc = ground arith in
        inl (con, inl refl, (eq_iff con.name k).0 same, new ∙ ap ok dc_is)
    | inr other ↦ inr (ground arith)
  ]

  context_caches_for-IsContextCache :
      (caches caches' : Table C) (contexts : List ManagedResourceContext) (k : String) (dc : C)
      → context_caches_for new_cache watch caches contexts ≡ ok caches'
      → lookup k caches' ≡ some dc
      → IsContextCache contexts k dc ⊎ (lookup k caches ≡ some dc)
  unfolding context_caches_for
  context_caches_for-IsContextCache caches caches' [] k dc h there = ground arith
  context_caches_for-IsContextCache caches caches' (con ∷ contexts) k dc h there =
      elim (Result-cases (new_cache con.resource)) [
        | inr (c, failed) ↦ ground arith
        | inl (made, new) ↦
            let caches'' : Table C = (con.name, made) ∷ caches in
            let rest : context_caches_for new_cache watch caches'' contexts ≡ ok caches' =
              ground arith in
            elim (context_caches_for-IsContextCache caches'' caches' contexts k dc rest there) [
              | inl (c, declared, named, cached) ↦ inl (c, inr declared, named, cached)
              | inr before ↦ added_context con contexts caches k made dc new before
            ]
      ]

  -- The reader of a trigger, by what it asks for: an interval has none; a trigger that names a
  -- context has a cache for that context's resource, which the context is read from as well; any
  -- other has a cache for its own resource.
  abbrev pub IsReader :
      ManagedResource → InstanceCache C → ManagedResourceTrigger → Result CacheError C → Type 0
  IsReader mr ci t reader =
      ((t.interval ≢ 0) × (reader ≡ err (cache_not_found t.name)))
      ⊎ ((t.interval ≡ 0)
          × (t.watch_context_resource ≢ "")
          × ((dc : C) × IsContextCache mr.spec.context t.watch_context_resource dc
              × (client_for_context ci t.watch_context_resource ≡ ok dc)
              × (reader ≡ ok dc)))
      ⊎ ((t.interval ≡ 0)
          × (t.watch_context_resource ≡ "")
          × ((dc : C) × (new_cache t.watch_resource ≡ ok dc) × (reader ≡ ok dc)))

  -- What is made for a trigger that is no interval, where there are caches.
  trigger_caches_for-made :
      (contexts caches caches' : Table C) (ts : List ManagedResourceTrigger)
      (t : ManagedResourceTrigger)
      → trigger_caches_for new_cache watch contexts caches ts ≡ ok caches'
      → Listed t ts
      → t.interval ≡ 0
      → (dc : C) × (trigger_cache_of new_cache watch contexts t ≡ ok dc)
  unfolding trigger_caches_for add_trigger
  trigger_caches_for-made contexts caches caches' [] t h x zero = elim x [ ]
  trigger_caches_for-made contexts caches caches' (u ∷ us) t h (inl same) zero =
      elim (Result-cases (trigger_cache_of new_cache watch contexts t)) [
        | inl (dc, made) ↦ (dc, made)
        | inr (e, failed) ↦ absurd (
            ground (
              arith,
              ap (λ y. y.interval) same,
              ap (trigger_cache_of new_cache watch contexts) same,
            ))
      ]
  trigger_caches_for-made contexts caches caches' (u ∷ us) t h (inr later) zero =
      elim (Result-cases (add_trigger new_cache watch contexts caches u)) [
        | inr (e, failed) ↦ absurd (ground arith)
        | inl (next, added) ↦
            trigger_caches_for-made contexts next caches' us t (ground arith) later zero
      ]

  cache_for-contexts :
      (mr : ManagedResource) (ci : InstanceCache C)
      → find_first_duplicate (λ t. t.name) mr.spec.triggers ≡ none
      → find_first_duplicate (λ c. c.name) mr.spec.context ≡ none
      → cache_for new_cache watch mr ≡ ok ci
      → context_caches_for new_cache watch [] mr.spec.context ≡ ok ci.context_caches
  unfolding cache_for
  cache_for-contexts mr ci unique unique' h =
      elim (Result-cases (context_caches_for new_cache watch [] mr.spec.context)) [
        | inr (e, failed) ↦ ground arith
        | inl (contexts, made) ↦
            elim (Result-cases (trigger_caches_for new_cache watch contexts [] mr.spec.triggers)) [
              | inr (e, failed) ↦ ground arith
              | inl (triggers, made') ↦ ground arith
            ]
      ]

  made-IsReader :
      (mr : ManagedResource) (ci : InstanceCache C) (t : ManagedResourceTrigger) (dc : C)
      → context_caches_for new_cache watch [] mr.spec.context ≡ ok ci.context_caches
      → t.interval ≡ 0
      → trigger_cache_of new_cache watch ci.context_caches t ≡ ok dc
      → client_for_trigger ci t.name ≡ ok dc
      → IsReader mr ci t (client_for_trigger ci t.name)
  unfolding trigger_cache_of client_for_context
  made-IsReader mr ci t dc contexts zero made there =
      let ref = t.watch_context_resource in
      elim (Bool-cases (ref == "")) [
        | inl own ↦
            let own_cache : new_cache t.watch_resource ≡ ok dc = ground arith in
            inr (inr (zero, (eq_iff ref "").0 own, (dc, own_cache, there)))
        | inr named ↦
            let found : lookup ref ci.context_caches ≡ some dc = ground arith in
            let of_context =
              context_caches_for-IsContextCache [] ci.context_caches mr.spec.context ref dc contexts
                found in
            inr (
              inl (
                zero,
                (λ e. ground (arith, eq_iff ref "")),
                (
                  dc,
                  elim of_context [ inl c ↦ c | inr nowhere ↦ absurd (none_ne_some nowhere) ],
                  rw (found, client_for_context) refl,
                  there,
                ),
              ))
      ]

  -- Where an instance has caches, its triggers have distinct names, and an interval trigger has no
  -- reader; the reader of a trigger that names a context is the cache that the instance has under
  -- that name for contexts, which was made for the resource of a context declared by the name; any
  -- other trigger's was made for the trigger's own resource.
  pub cache_for-IsReader :
      (mr : ManagedResource) (ci : InstanceCache C) (t : ManagedResourceTrigger)
      → cache_for new_cache watch mr ≡ ok ci
      → Listed t mr.spec.triggers
      → Distinct (trigger_names mr.spec.triggers) × IsReader mr ci t (client_for_trigger ci t.name)
  unfolding cache_for
  cache_for-IsReader mr ci t h declared =
      elim (Option-cases (find_first_duplicate (λ u. u.name) mr.spec.triggers)) [
        | inr (e, found) ↦ ground arith
        | inl unique ↦ elim (Option-cases (find_first_duplicate (λ c. c.name) mr.spec.context)) [
          | inr (e, found) ↦ ground arith
          | inl unique' ↦
              let distinct =
                (find_first_duplicate-Distinct (λ u. u.name) mr.spec.triggers).0 unique in
              let tables = cache_for-tables new_cache watch mr ci unique unique' h in
              let read : client_for_trigger ci t.name
                  ≡ reader_made new_cache watch ci.context_caches t =
                same_reader new_cache watch ci t.name
                ∙ trigger_caches_for-reader new_cache watch ci.context_caches [] ci.trigger_caches
                    mr.spec.triggers t tables distinct
                    (Unused-nil C (trigger_names mr.spec.triggers)) declared in
              (
                distinct,
                elim (Bool-cases (num_eq t.interval 0)) [
                  | inr ticks ↦ inl ((λ zero. ground arith), read ∙ ground arith)
                  | inl zero ↦
                      let (dc, made) =
                        trigger_caches_for-made ci.context_caches [] ci.trigger_caches
                          mr.spec.triggers t tables declared (ground arith) in
                      made-IsReader mr ci t dc (cache_for-contexts mr ci unique unique' h)
                        (ground arith) made (read ∙ ground arith)
                ],
              )
        ]
      ]
