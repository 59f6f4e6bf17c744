-- ===== src/Metrics/Complete.antt =====
-- Every cache whose size can be read is reported.
use mathlib.Core.Path.{subst}
use espejote.Base.{
  String, Bool, true, false, List, ◌≡◌, refl, sym, inl, inr, Listed, Listed-append, Listed-concat,
  ok,
}
use espejote.Base.Tables.{Table}
use espejote.Kube.{NamespacedName}
use espejote.Manager.Caches.{InstanceCache}
use espejote.Metrics.{
  Metric, cached_objects, cache_size_bytes, CacheReads, Size, size, gauge_of, labels_of, gauges_of,
  cache_metrics, instance_metrics, collect_cache_size,
}

module _ {C I : Type 0} (reads : CacheReads C I) where
  -- The caches of a kind, by the word that the metrics have for it.
  abbrev pub caches_of : InstanceCache C → Bool → String × Table C
  caches_of c false = ("context", c.context_caches)
  caches_of c true = ("trigger", c.trigger_caches)

  instance_metrics-Listed :
      (mr : NamespacedName) (c : InstanceCache C) (triggers : Bool) (x : String × C) (m : Metric)
      → Listed x (caches_of c triggers).1
      → Listed m (cache_metrics reads mr (caches_of c triggers).0 x)
      → Listed m (instance_metrics reads (mr, c))
  unfolding instance_metrics
  instance_metrics-Listed mr c false x m there made =
      (Listed-append m _ _).1
        (inl (Listed-concat (cache_metrics reads mr "context") m x c.context_caches there made))
  instance_metrics-Listed mr c true x m there made =
      (Listed-append m _ _).1
        (inr (Listed-concat (cache_metrics reads mr "trigger") m x c.trigger_caches there made))

  -- For each cache of the contexts or of the triggers of an instance in the clone, where its size
  -- can be read, the number of its objects and its bytes are emitted, with the name and the
  -- namespace of the resource, the kind of the cache and its name.
  pub collect_cache_size-Listed :
      (clone : List (NamespacedName × InstanceCache C)) (mr : NamespacedName) (c : InstanceCache C)
      (triggers : Bool) (name : String) (dc : C) (s : Size)
      → Listed (mr, c) clone
      → Listed (name, dc) (caches_of c triggers).1
      → size reads dc ≡ ok s
      → Listed
          (gauge_of cached_objects (labels_of mr (caches_of c triggers).0 name) s.count)
          (collect_cache_size reads clone)
        × Listed
            (gauge_of cache_size_bytes (labels_of mr (caches_of c triggers).0 name) s.bytes)
            (collect_cache_size reads clone)
  unfolding collect_cache_size cache_metrics gauges_of
  collect_cache_size-Listed clone mr c triggers name dc s there cached read =
      let kind = (caches_of c triggers).0 in
      let emitted : (m : Metric)
          → Listed m (gauges_of mr kind name (ok s))
          → Listed m (collect_cache_size reads clone) =
        λ m made.
          Listed-concat (instance_metrics reads) m (mr, c) clone there
            (instance_metrics-Listed mr c triggers (name, dc) m cached
              (subst (λ r. Listed m (gauges_of mr kind name r)) (sym read) made)) in
      (emitted _ (inl refl), emitted _ (inr (inl refl)))
