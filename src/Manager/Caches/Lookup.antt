-- ===== src/Manager/Caches/Lookup.antt =====
-- The tables of an instance's caches, by the names of its triggers.
use mathlib.Core.Path.{subst}
use espejote.Base.{
  Distinct, Listed, String, none, List, [], ◌∷◌, num_eq, if◌then◌else◌, ◌≡◌, ◌≢◌, inl, inr, refl,
  arith, eq_iff, Result, ok, err, Result-cases,
}
use espejote.Kube.{Cause}
use espejote.Api.{ManagedResource, ManagedResourceTrigger, ClusterResource}
use espejote.Base.Tables.{Table, lookup, Unused, values}
use espejote.Manager.Duplicates.{find_first_duplicate}
use espejote.Manager.Caches.{
  InstanceCache, CacheError, cache_not_found, Watch, client_for_trigger, trigger_cache_of,
  add_trigger, trigger_caches_for, context_caches_for, cache_for,
}

abbrev pub trigger_names : List ManagedResourceTrigger → List String
trigger_names ts = values (λ t. t.name) ts

module _ {C : Type 0} (new_cache : ClusterResource → Result Cause C)
    (watch : Watch C → Result {0, 0} Cause Unit) where
  -- The reader that the code makes for a trigger.
  abbrev pub reader_made : Table C → ManagedResourceTrigger → Result CacheError C
  reader_made contexts t =
      if num_eq t.interval 0
      then trigger_cache_of new_cache watch contexts t
      else err (cache_not_found t.name)

  add_trigger-other :
      (contexts caches caches' : Table C) (t : ManagedResourceTrigger) (k : String)
      → add_trigger new_cache watch contexts caches t ≡ ok caches'
      → t.name ≢ k
      → lookup k caches' ≡ lookup k caches
  unfolding add_trigger
  add_trigger-other contexts caches caches' t k h other =
      elim (Result-cases (trigger_cache_of new_cache watch contexts t)) [
        | inl (dc, made) ↦ ground (arith, eq_iff t.name k)
        | inr (e, failed) ↦ ground (arith, eq_iff t.name k)
      ]

  add_trigger-Unused :
      (contexts caches caches' : Table C) (t : ManagedResourceTrigger) (names : List String)
      → add_trigger new_cache watch contexts caches t ≡ ok caches'
      → ¬ Listed t.name names
      → Unused caches names
      → Unused caches' names
  add_trigger-Unused contexts caches caches' t [] h apart unused = tt
  add_trigger-Unused contexts caches caches' t (k ∷ names) h apart unused = ground (
    arith,
    add_trigger-other contexts caches caches' t k h,
    add_trigger-Unused contexts caches caches' t names h,
  )

  -- The reader that a table has for a name.
  abbrev reader_in : Table C → String → Result CacheError C
  reader_in caches k =
      client_for_trigger (record { trigger_caches = caches; context_caches = [] }) k

  add_trigger-reader :
      (contexts caches caches' : Table C) (t : ManagedResourceTrigger)
      → add_trigger new_cache watch contexts caches t ≡ ok caches'
      → lookup t.name caches ≡ none
      → reader_in caches' t.name ≡ reader_made contexts t
  unfolding add_trigger client_for_trigger
  add_trigger-reader contexts caches caches' t h unused =
      elim (Result-cases (trigger_cache_of new_cache watch contexts t)) [
        | inl (dc, made) ↦ ground (arith, eq_iff t.name t.name)
        | inr (e, failed) ↦ ground (arith, eq_iff t.name t.name)
      ]

  trigger_caches_for-other :
      (contexts caches caches' : Table C) (ts : List ManagedResourceTrigger) (k : String)
      → trigger_caches_for new_cache watch contexts caches ts ≡ ok caches'
      → ¬ Listed k (trigger_names ts)
      → lookup k caches' ≡ lookup k caches
  unfolding trigger_caches_for
  trigger_caches_for-other contexts caches caches' [] k h apart = ground arith
  trigger_caches_for-other contexts caches caches' (t ∷ ts) k h apart =
      elim (Result-cases (add_trigger new_cache watch contexts caches t)) [
        | inl (next, added) ↦ ground (
          arith,
          add_trigger-other contexts caches next t k added,
          trigger_caches_for-other contexts next caches' ts k,
        )
        | inr (e, failed) ↦ ground arith
      ]

  reader_in-eq :
      (caches caches' : Table C) (k : String)
      → lookup k caches' ≡ lookup k caches
      → reader_in caches' k ≡ reader_in caches k
  unfolding client_for_trigger
  reader_in-eq caches caches' k h = ground arith

  pub trigger_caches_for-reader :
      (contexts caches caches' : Table C) (ts : List ManagedResourceTrigger)
      (t : ManagedResourceTrigger)
      → trigger_caches_for new_cache watch contexts caches ts ≡ ok caches'
      → Distinct (trigger_names ts)
      → Unused caches (trigger_names ts)
      → Listed t ts
      → reader_in caches' t.name ≡ reader_made contexts t
  unfolding trigger_caches_for
  trigger_caches_for-reader contexts caches caches' [] t h distinct unused x = elim x [ ]
  trigger_caches_for-reader contexts caches caches' (u ∷ us) t h distinct unused (inl same) =
      elim (Result-cases (add_trigger new_cache watch contexts caches u)) [
        | inl (next, added) ↦
            subst (λ v. reader_in caches' v.name ≡ reader_made contexts v) same
              (ground (
                arith,
                add_trigger-reader contexts caches next u added,
                reader_in-eq next caches' u.name,
                trigger_caches_for-other contexts next caches' us u.name,
              ))
        | inr (e, failed) ↦ ground arith
      ]
  trigger_caches_for-reader contexts caches caches' (u ∷ us) t h distinct unused (inr later) =
      elim (Result-cases (add_trigger new_cache watch contexts caches u)) [
        | inl (next, added) ↦ ground (
          arith,
          trigger_caches_for-reader contexts next caches' us t,
          add_trigger-Unused contexts caches next u (trigger_names us) added,
        )
        | inr (e, failed) ↦ ground arith
      ]

  pub cache_for-tables :
      (mr : ManagedResource) (ci : InstanceCache C)
      → find_first_duplicate (λ t. t.name) mr.spec.triggers ≡ none
      → find_first_duplicate (λ c. c.name) mr.spec.context ≡ none
      → cache_for new_cache watch mr ≡ ok ci
      → trigger_caches_for new_cache watch ci.context_caches [] mr.spec.triggers
        ≡ ok ci.trigger_caches
  unfolding cache_for
  cache_for-tables mr ci unique unique' h =
      elim (Result-cases (context_caches_for new_cache watch [] mr.spec.context)) [
        | inr (e, failed) ↦ ground arith
        | inl (contexts, made) ↦
            elim (Result-cases (trigger_caches_for new_cache watch contexts [] mr.spec.triggers)) [
              | inr (e, failed) ↦ ground arith
              | inl (triggers, made') ↦ ground arith
            ]
      ]

  pub same_reader :
      (ci : InstanceCache C) (k : String) → client_for_trigger ci k ≡ reader_in ci.trigger_caches k
  unfolding client_for_trigger
  same_reader ci k = refl
