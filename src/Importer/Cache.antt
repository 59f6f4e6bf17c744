-- ===== src/Importer/Cache.antt =====
-- `Import` of controllers/jsonnet.go, with its cache.
use mathlib.Core.Path.{subst₂}
use espejote.Base.{
  some_injective, none_ne_some, Bool, String, true, false, Option, none, some, List, [], ◌∷◌, ◌≡◌,
  refl, if◌then◌else◌, Result, ok, err, Bool-cases, inl, inr,
}
use espejote.Base.Text.{Text, codes, text_eq, text_eq_iff}
use espejote.Kube.{ApiError}
use espejote.Importer.{Library, LoadError, Importer, load_from_cluster, make_absolute_import_path}

-- A load error with the import that met it: its path, the importing file and the absolute path.
pub record ImportError : Type 0 where
  pub cause : LoadError
  pub import_path : Text
  pub imported_from : Text
  pub absolute : Text

-- ImporterCacheEntry; `contents` is `none` for `jsonnet.Contents{}`.
pub record Entry : Type 0 where
  pub contents : Option Text
  pub found_at : Text
  pub error : Option ImportError

abbrev pub Store : Type 0
Store = List (Text × Entry)

unfoldable pub lookup : Text → Store → Option Entry
unfolding text_eq
lookup k [] = none
lookup k ((j, e) ∷ m) = if text_eq j k then some e else lookup k m

-- What a load makes of an import.
abbrev pub entry_of : Text → Text → Text → Result LoadError Text → Entry
entry_of from path abs (ok c) = record { contents = some c; found_at = abs; error = none }
entry_of from path abs (err e) = record {
  contents = none;
  found_at = [];
  error = some (record { cause = e; import_path = path; imported_from = from; absolute = abs });
}

-- A hit returns the entry, a miss loads and writes it.
module _ (get : String → Text → Result ApiError Library) (im : Importer) where
  unfoldable pub import_absolute : Text → Text → Text → Option Entry → Store → Entry × Store
  unfolding load_from_cluster
  import_absolute from path abs (some e) cache = (e, cache)
  import_absolute from path abs none cache =
      let e = entry_of from path abs (load_from_cluster get im abs) in (e, (abs, e) ∷ cache)

  -- What an entry says, but for the import that an error names.
  abbrev pub SaysAs : Entry → Result LoadError Text → Text → Type 0
  SaysAs e (ok c) abs = (e.contents ≡ some c) × (e.found_at ≡ abs) × (e.error ≡ none)
  SaysAs e (err x) abs =
      (e.contents ≡ none)
      × (e.found_at ≡ [])
      × ((r : ImportError) × (e.error ≡ some r) × (r.cause ≡ x))

  -- Every entry is what a load of its path gives.
  pub record IsFresh (cache : Store) : Type 0 where
    pub at_path :
        (abs : Text) (e : Entry)
        → lookup abs cache ≡ some e
        → SaysAs e (load_from_cluster get im abs) abs

  entry_of_says :
      (from path abs : Text) (r : Result LoadError Text) → SaysAs (entry_of from path abs r) r abs
  entry_of_says from path abs (ok c) = (refl, refl, refl)
  entry_of_says from path abs (err e) = (refl, refl, (_, refl, refl))

  hit_says :
      (from path abs k : Text) (e : Entry) (cache : Store)
      → IsFresh cache
      → (b : Bool) → text_eq abs k ≡ b
      → (if b then some (entry_of from path abs (load_from_cluster get im abs)) else lookup k cache)
        ≡ some e
      → SaysAs e (load_from_cluster get im k) k
  hit_says from path abs k e cache h true same found =
      subst₂ (λ x y. SaysAs x (load_from_cluster get im y) y) (some_injective found)
        ((text_eq_iff abs k).0 same) (entry_of_says from path abs (load_from_cluster get im abs))
  hit_says from path abs k e cache h false differs found = h.at_path k e found

  IsFresh-miss :
      (from path abs : Text) (cache : Store)
      → IsFresh cache
      → IsFresh ((abs, entry_of from path abs (load_from_cluster get im abs)) ∷ cache)
  unfolding lookup
  IsFresh-miss from path abs cache h = record {
    at_path = λ k e found. hit_says from path abs k e cache h (text_eq abs k) refl found;
  }

  absolute_says :
      (from path abs : Text) (cache : Store) (found : Option Entry)
      → IsFresh cache
      → lookup abs cache ≡ found
      → SaysAs (import_absolute from path abs found cache).0 (load_from_cluster get im abs) abs
        × IsFresh (import_absolute from path abs found cache).1
  unfolding import_absolute
  absolute_says from path abs cache (some e) h hit = (h.at_path abs e hit, h)
  absolute_says from path abs cache none h miss = (
    entry_of_says from path abs (load_from_cluster get im abs),
    IsFresh-miss from path abs cache h,
  )

  pub IsFresh-nil : IsFresh []
  unfolding lookup
  IsFresh-nil = record { at_path = λ abs e found. absurd (none_ne_some found) }

module _ (get : String → Text → Result ApiError Library) (im : Importer) (embedded : Text) where
  -- `embedded` is the built-in library.
  unfoldable pub import_file : Text → Text → Store → Entry × Store
  unfolding import_absolute lookup make_absolute_import_path text_eq
  import_file from path cache =
      if text_eq path (codes "espejote.libsonnet")
      then (record { contents = some embedded; found_at = path; error = none }, cache)
      else let abs = make_absolute_import_path from path in
        import_absolute get im from path abs (lookup abs cache) cache

  -- Over a cluster that does not change and from a cache that holds what loads give, an import
  -- other than of the built-in library gives what loading its absolute path gives, hit or miss, up
  -- to the import that a kept error names, and the cache stays so.
  pub import_file-says :
      (from path : Text) (cache : Store)
      → IsFresh get im cache
      → text_eq path (codes "espejote.libsonnet") ≡ false
      → SaysAs get im
          (import_file from path cache).0
          (load_from_cluster get im (make_absolute_import_path from path))
          (make_absolute_import_path from path)
        × IsFresh get im (import_file from path cache).1
  unfolding import_file
  import_file-says from path cache h other =
      let abs = make_absolute_import_path from path in
      rw other (absolute_says get im from path abs cache (lookup abs cache) h refl)

module _ (get get' : String → Text → Result ApiError Library) (im : Importer)
    (embedded : Text) where
  pub lookup_after :
      (from path abs : Text) (cache : Store) (found : Option Entry)
      → lookup abs cache ≡ found
      → lookup abs (import_absolute get im from path abs found cache).1
        ≡ some (import_absolute get im from path abs found cache).0
  unfolding import_absolute lookup
  lookup_after from path abs cache (some e) hit = hit
  lookup_after from path abs cache none miss = rw ((text_eq_iff abs abs).1 refl) refl

  again :
      (from path abs : Text) (cache : Store) (found : Option Entry)
      → lookup abs cache ≡ found
      → import_absolute get' im from path abs
          (lookup abs (import_absolute get im from path abs found cache).1)
          (import_absolute get im from path abs found cache).1
        ≡ import_absolute get im from path abs found cache
  unfolding import_absolute
  again from path abs cache found h = rw (lookup_after from path abs cache found h) refl

  -- An import made again gives the same entry and leaves the cache as it is, whatever the cluster
  -- holds by then.
  pub import_file_again :
      (from path : Text) (cache : Store)
      → import_file get' im embedded from path (import_file get im embedded from path cache).1
        ≡ import_file get im embedded from path cache
  unfolding import_file
  import_file_again from path cache =
      elim (Bool-cases (text_eq path (codes "espejote.libsonnet"))) [
        | inl built_in ↦ rw built_in refl
        | inr other ↦
            let abs = make_absolute_import_path from path in
            rw other (again from path abs cache (lookup abs cache) refl)
      ]
