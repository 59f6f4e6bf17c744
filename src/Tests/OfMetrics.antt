-- ===== src/Tests/OfMetrics.antt =====
-- Runs of the collectors, and their theorems at concrete inputs.
use espejote.Base.{
  ℕ, String, none, some, List, [], ◌∷◌, ◌≡◌, ◌≢◌, refl, sym, eq_iff, inl, inr, map, Distinct,
  length, Result, ok, err, arith, ap, num_eq, if◌then◌else◌,
}
use espejote.Kube.{NamespacedName, ApiError}
use espejote.Api.{ManagedResource}
use espejote.Manager.Caches.{InstanceCache}
use espejote.Metrics.{
  identity, CacheReads, size, collect_cache_size, shallow_clone, instance_metrics, cache_metrics,
  gauges_of,
}
use espejote.Metrics.Unique.{collect_cache_size-Distinct}
use espejote.Tests.OfReconciler.{sample_resource}

abbrev at : String → NamespacedName
at n = record { namespace = "team"; name = n }

-- A cache holds as many objects as its number; that of 0 is not synced.
abbrev reads : CacheReads ℕ ℕ
reads = record {
  to_list = λ c. ok (record { group = ""; version = "v1"; kind = "ConfigMap" });
  list = λ c g. if num_eq c 0 then err "context deadline exceeded" else ok (7 ∷ 7 ∷ []);
  size_of = λ is. 64;
}

abbrev caches : InstanceCache ℕ
caches = record {
  trigger_caches = ("maps", 2) ∷ ("late", 0) ∷ [];
  context_caches = ("maps", 2) ∷ [];
}

abbrev clone : List (NamespacedName × InstanceCache ℕ)
clone = shallow_clone ((at "a", some caches) ∷ (at "b", none) ∷ (at "c", some caches) ∷ [])

collect_run : length (collect_cache_size reads clone) ≡ 8
unfolding collect_cache_size instance_metrics cache_metrics gauges_of size shallow_clone
collect_run = refl

a_ne_c : at "a" ≢ at "c"
a_ne_c h = ground (arith, eq_iff "a" "c", ap (λ k. k.name) h)

two_maps-Distinct : Distinct {A = String} ("maps" ∷ "late" ∷ [])
two_maps-Distinct =
    ((λ h. elim h [ inl same ↦ ground (arith, eq_iff "late" "maps") | inr n ↦ n ]), ((λ h. h), tt))

collect_cache_size-Distinct_example : Distinct (map identity (collect_cache_size reads clone))
unfolding shallow_clone
collect_cache_size-Distinct_example =
    collect_cache_size-Distinct reads clone
      (λ h. elim h [ inl same ↦ a_ne_c (sym same) | inr n ↦ n ], ((λ h. h), tt))
      ((((λ h. h), tt), two_maps-Distinct), ((((λ h. h), tt), two_maps-Distinct), tt))

size_run : size reads 2 ≡ ok (record { count = 2; bytes = 64 })
unfolding size
size_run = refl

abbrev one_resource : Result ApiError (List ManagedResource)
one_resource = ok (sample_resource ∷ [])
