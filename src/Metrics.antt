-- ===== src/Metrics.antt =====
-- controllers/metrics.go: what the collectors emit for the caches of the instances and for the
-- resources. Go maps are lists here, in the order of one iteration.
pub mod Unique
pub mod Complete
use espejote.Base.{
  ℕ, String, Option, none, some, List, [], ◌∷◌, ◌++◌, concat, length, ◌==◌, if◌then◌else◌, Result,
  ok, err, ◌>>=◌,
}
use espejote.Base.Tables.{Table}
use espejote.Kube.{Cause, Gvk, NamespacedName, ApiError}
use espejote.Manager.Caches.{InstanceCache}
use espejote.Api.{ManagedResource}

pub data Desc : Type 0 where
  cached_objects cache_size_bytes managedresource_status managedresource_status_ready : Desc

-- What a metric is told apart by: its description and the values of its labels.
pub record Identity : Type 0 where
  pub desc : Desc
  pub labels : List String

pub data Metric : Type 0 where
  gauge : Identity → ℕ → Metric
  invalid : Desc → ApiError → Metric

abbrev pub identity : Metric → Identity
identity (gauge i v) = i
identity (invalid d e) = record { desc = d; labels = [] }

-- The Describe methods of the two collectors.
abbrev pub describe_cache_size : List Desc
describe_cache_size = cached_objects ∷ cache_size_bytes ∷ []

abbrev pub describe_status : List Desc
describe_status = managedresource_status ∷ managedresource_status_ready ∷ []

-- A cache with the errors of a deadline among those of its calls: `to_list` is ToList of its target,
-- `list` reads the items of a list, and `size_of` is `size.Of` of what is read.
pub record CacheReads (C I : Type 0) : Type 0 where
  pub to_list : C → Result Cause Gvk
  pub list : C → Gvk → Result Cause (List I)
  pub size_of : List I → ℕ

pub record Size : Type 0 where
  pub count : ℕ
  pub bytes : ℕ

abbrev pub labels_of : NamespacedName → String → String → List String
labels_of mr kind name = mr.name ∷ mr.namespace ∷ kind ∷ name ∷ []

abbrev pub gauge_of : Desc → List String → ℕ → Metric
gauge_of desc labels v = gauge (record { desc = desc; labels = labels }) v

-- The two metrics of a size, and none where it cannot be read.
unfoldable pub gauges_of : NamespacedName → String → String → Result Cause Size → List Metric
gauges_of mr kind name (err e) = []
gauges_of mr kind name (ok s) =
    gauge_of cached_objects (labels_of mr kind name) s.count
    ∷ gauge_of cache_size_bytes (labels_of mr kind name) s.bytes
    ∷ []

module _ {C I : Type 0} (reads : CacheReads C I) where
  -- Size
  unfoldable pub size : C → Result Cause Size
  size c = do
    gvk ← reads.to_list c
    items ← reads.list c gvk
    ok (record { count = length items; bytes = reads.size_of items })

  -- What is emitted for one cache.
  unfoldable pub cache_metrics : NamespacedName → String → String × C → List Metric
  unfolding gauges_of
  cache_metrics mr kind (name, c) = gauges_of mr kind name (size c)

  unfoldable pub instance_metrics : NamespacedName × InstanceCache C → List Metric
  instance_metrics (mr, c) =
      concat (cache_metrics mr "context") c.context_caches
      ++ concat (cache_metrics mr "trigger") c.trigger_caches

  -- CacheSizeCollector.Collect, behind the clone of the map.
  unfoldable pub collect_cache_size : List (NamespacedName × InstanceCache C) → List Metric
  collect_cache_size clone = concat instance_metrics clone

-- shallowCloneCachesWithLock; a reconciler without caches is left out.
unfoldable pub shallow_clone :
    {C : Type 0}
    → List (NamespacedName × Option (InstanceCache C))
    → List (NamespacedName × InstanceCache C)
shallow_clone [] = []
shallow_clone ((k, none) ∷ rs) = shallow_clone rs
shallow_clone ((k, some c) ∷ rs) = (k, c) ∷ shallow_clone rs

-- ManagedResourceStatusCollector.Collect
abbrev pub ready_value : ManagedResource → ℕ
ready_value mr = if mr.status == "Ready" then 1 else 0

unfoldable pub status_metrics : ManagedResource → List Metric
status_metrics mr =
    gauge_of managedresource_status (mr.name ∷ mr.namespace ∷ mr.status ∷ []) 1
    ∷ gauge_of managedresource_status_ready (mr.name ∷ mr.namespace ∷ []) (ready_value mr)
    ∷ []

unfoldable pub collect_status : Result ApiError (List ManagedResource) → List Metric
unfolding status_metrics
collect_status (err e) =
    invalid managedresource_status e ∷ invalid managedresource_status_ready e ∷ []
collect_status (ok mrs) = concat status_metrics mrs
