-- ===== src/Metrics/Unique.antt =====
-- The metrics of a collection are told apart by their descriptions and labels, and are described.
use mathlib.Core.Path.{subst}
use mathlib.Core.List.{map-append}
use espejote.Base.{
  String, List, ◌∷◌, concat, map, map-concat, ◌≡◌, ◌≢◌, refl, sym, ◌∙◌, arith, inl, inr, eq_iff,
  All, All-imp, All-of_Listed, Distinct, Distinct-append, Distinct-concat, Listed, Listed-append,
  concat_from, Result, ok, err,
}
use espejote.Base.Tables.{Table}
use espejote.Kube.{Cause, NamespacedName, ApiError}
use espejote.Api.{ManagedResource}
use espejote.Manager.Caches.{InstanceCache}
use espejote.Manager
use espejote.Metrics.{
  Identity, identity, CacheReads, Size, size, gauges_of, cache_metrics, instance_metrics,
  collect_cache_size, status_metrics, collect_status,
}

-- The instance, the kind and the name that the labels tell.
abbrev instance_of : Identity → NamespacedName
instance_of i = elim i.labels [
  | n ∷ ns ∷ rest ↦ record { namespace = ns; name = n }
  | _ ↦ record { namespace = ""; name = "" }
]

abbrev kind_of : Identity → String
kind_of i = elim i.labels [ n ∷ ns ∷ kind ∷ rest ↦ kind | _ ↦ "" ]

abbrev name_of : Identity → String
name_of i = elim i.labels [ n ∷ ns ∷ kind ∷ name ∷ rest ↦ name | _ ↦ "" ]

context_ne_trigger : let c : String = "context" in c ≢ "trigger"
context_ne_trigger h = ground (arith, eq_iff "context" "trigger")

abbrev FromCache : NamespacedName → String → String → Identity → Type 0
FromCache mr kind name i = (instance_of i ≡ mr) × (kind_of i ≡ kind) × (name_of i ≡ name)

gauges_of-FromCache :
    (mr : NamespacedName) (kind name : String) (r : Result Cause Size) (i : Identity)
    → Listed i (map identity (gauges_of mr kind name r))
    → FromCache mr kind name i
unfolding gauges_of
gauges_of-FromCache mr kind name (err e) i h = elim h [ ]
gauges_of-FromCache mr kind name (ok s) i (inl same) =
    subst (FromCache mr kind name) same (refl, refl, refl)
gauges_of-FromCache mr kind name (ok s) i (inr (inl same)) =
    subst (FromCache mr kind name) same (refl, refl, refl)
gauges_of-FromCache mr kind name (ok s) i (inr (inr h)) = elim h [ ]

gauges_of-Distinct :
    (mr : NamespacedName) (kind name : String) (r : Result Cause Size)
    → Distinct (map identity (gauges_of mr kind name r))
unfolding gauges_of
gauges_of-Distinct mr kind name (err e) = tt
gauges_of-Distinct mr kind name (ok s) =
    (λ h. elim h [ inl same ↦ absurd (ground arith) | inr n ↦ n ], ((λ h. h), tt))

module _ {C I : Type 0} (reads : CacheReads C I) where
  abbrev names : Table C → List String
  names t = map (λ x. x.0) t

  kind_metrics-FromCache :
      (mr : NamespacedName) (kind : String) (caches : Table C) (i : Identity)
      → Listed i (map identity (concat (cache_metrics reads mr kind) caches))
      → (instance_of i ≡ mr) × (kind_of i ≡ kind)
  unfolding cache_metrics
  kind_metrics-FromCache mr kind caches i h =
      concat_from (λ x. map identity (cache_metrics reads mr kind x))
        (λ z. (instance_of z ≡ mr) × (kind_of z ≡ kind)) i caches
        (λ x listed.
          let (a, b, c) = gauges_of-FromCache mr kind x.0 (size reads x.1) i listed in (a, b))
        (subst (λ l. Listed i l) (map-concat identity (cache_metrics reads mr kind) caches) h)

  kind_metrics-Distinct :
      (mr : NamespacedName) (kind : String) (caches : Table C)
      → Distinct (names caches)
      → Distinct (map identity (concat (cache_metrics reads mr kind) caches))
  unfolding cache_metrics
  kind_metrics-Distinct mr kind caches d =
      rw (map-concat identity (cache_metrics reads mr kind) caches) (
        Distinct-concat (λ x. map identity (cache_metrics reads mr kind x)) (λ x. x.0) name_of
          (λ x i h. (gauges_of-FromCache mr kind x.0 (size reads x.1) i h).2) caches
          (All-of_Listed _ caches (λ x listed. gauges_of-Distinct mr kind x.0 (size reads x.1))) d)

  abbrev instance_identities : NamespacedName × InstanceCache C → List Identity
  instance_identities x = map identity (instance_metrics reads x)

  instance_metrics-of :
      (x : NamespacedName × InstanceCache C) (i : Identity)
      → Listed i (instance_identities x)
      → instance_of i ≡ x.0
  unfolding instance_metrics
  instance_metrics-of (mr, c) i h =
      let h' =
        subst (λ l. Listed i l)
          (map-append identity (concat (cache_metrics reads mr "context") c.context_caches)
            (concat (cache_metrics reads mr "trigger") c.trigger_caches))
          h in
      elim ((Listed-append i _ _).0 h') [
        | inl context ↦ (kind_metrics-FromCache mr "context" c.context_caches i context).0
        | inr trigger ↦ (kind_metrics-FromCache mr "trigger" c.trigger_caches i trigger).0
      ]

  -- The names of an instance's caches are those of two Go maps.
  abbrev pub IsMapped : InstanceCache C → Type 0
  IsMapped c = Distinct (names c.context_caches) × Distinct (names c.trigger_caches)

  instance_metrics-Distinct :
      (x : NamespacedName × InstanceCache C) → IsMapped x.1 → Distinct (instance_identities x)
  unfolding instance_metrics
  instance_metrics-Distinct (mr, c) (dc, dt) =
      let contexts = concat (cache_metrics reads mr "context") c.context_caches in
      let triggers = concat (cache_metrics reads mr "trigger") c.trigger_caches in
      subst Distinct (sym (map-append identity contexts triggers)) (
        Distinct-append (map identity contexts) (map identity triggers)
          (kind_metrics-Distinct mr "context" c.context_caches dc)
          (kind_metrics-Distinct mr "trigger" c.trigger_caches dt)
          (λ i one two. context_ne_trigger (
            sym (kind_metrics-FromCache mr "context" c.context_caches i one).1
            ∙ (kind_metrics-FromCache mr "trigger" c.trigger_caches i two).1)))

  -- Where no instance stands twice in the clone of the map, and no name twice among the contexts or
  -- among the triggers of an instance, no two metrics that are emitted for the caches have the same
  -- description and labels.
  pub collect_cache_size-Distinct :
      (clone : List (NamespacedName × InstanceCache C))
      → Distinct (map (λ x. x.0) clone)
      → All (λ x. IsMapped x.1) clone
      → Distinct (map identity (collect_cache_size reads clone))
  unfolding collect_cache_size
  collect_cache_size-Distinct clone d mapped =
      rw (map-concat identity (instance_metrics reads) clone) (
        Distinct-concat instance_identities (λ x. x.0) instance_of instance_metrics-of clone
          (All-imp _ _ clone instance_metrics-Distinct mapped) d)

status_metrics-of :
    (mr : ManagedResource) (i : Identity)
    → Listed i (map identity (status_metrics mr))
    → instance_of i ≡ Manager.key_of mr
unfolding status_metrics
status_metrics-of mr i (inl same) = subst (λ z. instance_of z ≡ Manager.key_of mr) same refl
status_metrics-of mr i (inr (inl same)) = subst (λ z. instance_of z ≡ Manager.key_of mr) same refl
status_metrics-of mr i (inr (inr h)) = elim h [ ]

status_metrics-Distinct : (mr : ManagedResource) → Distinct (map identity (status_metrics mr))
unfolding status_metrics
status_metrics-Distinct mr =
    (λ h. elim h [ inl same ↦ absurd (ground arith) | inr n ↦ n ], ((λ h. h), tt))

-- No two metrics of the resources have the same description and labels, where no two resources have
-- the same name and namespace.
pub collect_status-Distinct :
    (read : Result ApiError (List ManagedResource))
    → ((mrs : List ManagedResource) → read ≡ ok mrs → Distinct (map (λ mr. Manager.key_of mr) mrs))
    → Distinct (map identity (collect_status read))
unfolding collect_status
collect_status-Distinct (err e) d =
    (λ h. elim h [ inl same ↦ absurd (ground arith) | inr n ↦ n ], ((λ h. h), tt))
collect_status-Distinct (ok mrs) d = rw (map-concat identity status_metrics mrs) (
    Distinct-concat (λ mr. map identity (status_metrics mr)) (λ mr. Manager.key_of mr) instance_of
      status_metrics-of mrs (All-of_Listed _ mrs (λ mr listed. status_metrics-Distinct mr))
      (d mrs refl))
