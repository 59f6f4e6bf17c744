-- ===== src/Cli/Libraries/Loaded.antt =====
-- What an importer's cache keeps while all imports are loaded.
use mathlib.Core.Path.{subst}
use espejote.Base.{
  ◌≤◌, String, true, Option, none, some, [], ◌∷◌, ◌≡◌, refl, arith, inl, inr, ◌&&◌, num_eq, Result,
  ok, err, All, Bool-cases, ap,
}
use espejote.Base.Text.{
  Text, codes, slash, text_eq, text_eq_iff, count, count-append, has_prefix, trim_prefix,
}
use espejote.Kube.{ApiError}
use espejote.Importer.{
  Library, LoadError, Importer, load_from_cluster, make_absolute_import_path, split_last_segment,
}
use espejote.Importer.Cache.{Entry, Store, lookup, entry_of, import_absolute, import_file}
use espejote.Cli.{lookup_text}
use espejote.Cli.Libraries.{text_of, libraries_of}

-- An absolute path has a slash, so that it is not the built-in library's.
pub absolute-slash : (from path : Text) → 1 ≤ count (make_absolute_import_path from path) slash
unfolding make_absolute_import_path count
absolute-slash from path =
    let p = trim_prefix path (codes "./") in
    elim (Bool-cases (num_eq (count p slash) 0)) [
      | inl bare ↦ ground (arith, count-append (split_last_segment from).0 (slash ∷ p) slash)
      | inr there ↦ elim (Bool-cases (num_eq (count p slash) 1 && has_prefix from (codes "lib/"))) [
        | inl library ↦ ground (arith, count-append (codes "lib/") p slash)
        | inr whole ↦ ground arith
      ]
    ]

pub built_in_bare : (k : Text) → text_eq (codes "espejote.libsonnet") k ≡ true → count k slash ≡ 0
unfolding count
built_in_bare k h =
    subst (λ t. count t slash ≡ 0) ((text_eq_iff (codes "espejote.libsonnet") k).0 h) refl

-- The entry has the contents of a library, found at its path.
abbrev pub LoadedAt : Text → Entry → Type 0
LoadedAt k e = (e.found_at ≡ k) × ((c : Text) × (e.contents ≡ some c))

-- Every import of the cache was loaded.
abbrev pub IsLoaded : Store → Type 0
IsLoaded cache = All (λ x. LoadedAt x.0 x.1) cache

pub lookup-libraries_of :
    (empty k : Text) (e : Entry) (cache : Store)
    → IsLoaded cache
    → lookup k cache ≡ some e
    → (lookup_text k (libraries_of empty cache) ≡ some (text_of empty e.contents))
      × (e.found_at ≡ k)
unfolding lookup libraries_of
lookup-libraries_of empty k e [] loaded h = ground arith
lookup-libraries_of empty k e ((j, d) ∷ cache) (one, loaded) h = elim (Bool-cases (text_eq j k)) [
  | inl same ↦ ground (arith, text_eq_iff j k, text_eq_iff d.found_at k)
  | inr apart ↦
      ground (arith, text_eq_iff d.found_at k, text_eq_iff j k, lookup-libraries_of empty k e cache)
]

entry_of-LoadedAt :
    (from path abs : Text) (r : Result LoadError Text)
    → (entry_of from path abs r).error ≡ none
    → LoadedAt abs (entry_of from path abs r)
entry_of-LoadedAt from path abs (ok c) fine = (refl, (c, refl))
entry_of-LoadedAt from path abs (err x) fine = ground arith

module _ (get : String → Text → Result ApiError Library) (im : Importer) (embedded : Text) where
  absolute_keeps :
      (from path abs k : Text) (e : Entry) (cache : Store) (found : Option Entry)
      → lookup abs cache ≡ found
      → lookup k cache ≡ some e
      → lookup k (import_absolute get im from path abs found cache).1 ≡ some e
  unfolding import_absolute lookup
  absolute_keeps from path abs k e cache (some d) hit h = h
  absolute_keeps from path abs k e cache none miss h = elim (Bool-cases (text_eq abs k)) [
    | inl same ↦ ground (arith, ap (λ x. lookup x cache) ((text_eq_iff abs k).0 same))
    | inr apart ↦ ground arith
  ]

  -- The cache keeps its entries.
  pub import_file_keeps :
      (from path k : Text) (e : Entry) (cache : Store)
      → lookup k cache ≡ some e
      → lookup k (import_file get im embedded from path cache).1 ≡ some e
  unfolding import_file
  import_file_keeps from path k e cache h =
      elim (Bool-cases (text_eq path (codes "espejote.libsonnet"))) [
        | inl built_in ↦ rw built_in h
        | inr other ↦ rw other (
            absolute_keeps from path (make_absolute_import_path from path) k e cache
              (lookup (make_absolute_import_path from path) cache) refl h)
      ]

  absolute-IsLoaded :
      (from path abs : Text) (cache : Store) (found : Option Entry)
      → IsLoaded cache
      → (import_absolute get im from path abs found cache).0.error ≡ none
      → IsLoaded (import_absolute get im from path abs found cache).1
  unfolding import_absolute
  absolute-IsLoaded from path abs cache (some d) loaded fine = loaded
  absolute-IsLoaded from path abs cache none loaded fine =
      (entry_of-LoadedAt from path abs (load_from_cluster get im abs) fine, loaded)

  pub import_file-IsLoaded :
      (from path : Text) (cache : Store)
      → IsLoaded cache
      → (import_file get im embedded from path cache).0.error ≡ none
      → IsLoaded (import_file get im embedded from path cache).1
  unfolding import_file
  import_file-IsLoaded from path cache loaded fine =
      let abs = make_absolute_import_path from path in
      elim (Bool-cases (text_eq path (codes "espejote.libsonnet"))) [
        | inl built_in ↦ rw built_in loaded
        | inr other ↦
            ground (arith, absolute-IsLoaded from path abs cache (lookup abs cache) loaded)
      ]
