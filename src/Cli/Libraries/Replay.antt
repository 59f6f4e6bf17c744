-- ===== src/Cli/Libraries/Replay.antt =====
-- Imports from the libraries of a collected input give what the imports of the collecting gave.
use mathlib.Core.Path.{subst}
use espejote.Base.{
  String, true, false, some, List, [], ◌∷◌, ◌≡◌, refl, arith, inl, inr, Result, ok, ok_injective,
  All, All-imp, Bool-cases, Option-cases, ◌⊎◌, Result-cases,
}
use espejote.Base.Text.{Text, codes, text_eq, text_eq_iff}
use espejote.Kube.{ApiError}
use espejote.Importer.{Library, Importer, make_absolute_import_path}
use espejote.Importer.Cache.{Entry, ImportError, Store, lookup, lookup_after, import_file}
use espejote.Cli.{memory_contents, import_from_memory}
use espejote.Cli.Libraries.{text_of, libraries_of, Import, import_all}
use espejote.Cli.Libraries.Loaded.{
  absolute-slash, built_in_bare, IsLoaded, lookup-libraries_of, import_file_keeps,
  import_file-IsLoaded,
}

module _ (get : String → Text → Result ApiError Library) (im : Importer) (embedded : Text) where
  -- The cache has the entry, but for the built-in library.
  abbrev pub IsServed : Store → Import → Type 0
  IsServed cache i =
      ((text_eq i.path (codes "espejote.libsonnet") ≡ true)
        × (i.entry.contents ≡ some embedded)
        × (i.entry.found_at ≡ i.path))
      ⊎ ((text_eq i.path (codes "espejote.libsonnet") ≡ false)
          × (lookup (make_absolute_import_path i.from i.path) cache ≡ some i.entry))

  pub import_file-IsServed :
      (from path : Text) (cache : Store)
      → IsServed (import_file get im embedded from path cache).1 (record {
        from = from;
        path = path;
        entry = (import_file get im embedded from path cache).0;
      })
  unfolding import_file
  import_file-IsServed from path cache =
      let abs = make_absolute_import_path from path in
      elim (Bool-cases (text_eq path (codes "espejote.libsonnet"))) [
        | inl built_in ↦ rw built_in (inl (refl, refl, refl))
        | inr other ↦ rw other (
            inr
              (refl, lookup_after get get im embedded from path abs cache (lookup abs cache) refl))
      ]

  import_all_keeps :
      (rs : List (Text × Text)) (cache cache' : Store) (done : List Import) (k : Text) (e : Entry)
      → import_all get im embedded rs cache ≡ ok (done, cache')
      → lookup k cache ≡ some e
      → lookup k cache' ≡ some e
  unfolding import_all
  import_all_keeps [] cache cache' done k e h found = ground arith
  import_all_keeps ((from, path) ∷ rs) cache cache' done k e h found =
      let step = import_file get im embedded from path cache in
      elim (Option-cases step.0.error) [
        | inr (x, failed) ↦ ground arith
        | inl fine ↦ elim (Result-cases (import_all get im embedded rs step.1)) [
          | inr (x, failed) ↦ ground arith
          | inl (rest, made) ↦ ground (
            arith,
            import_all_keeps rs step.1 rest.1 rest.0 k e made
                (import_file_keeps get im embedded from path k e cache found),
          )
        ]
      ]

  IsServed-after :
      (i : Import) (rs : List (Text × Text)) (cache cache' : Store) (done : List Import)
      → import_all get im embedded rs cache ≡ ok (done, cache')
      → IsServed cache i
      → IsServed cache' i
  IsServed-after i rs cache cache' done h (inl built_in) = inl built_in
  IsServed-after i rs cache cache' done h (inr (other, found)) = inr (
    other,
    import_all_keeps rs cache cache' done (make_absolute_import_path i.from i.path) i.entry h found,
  )

  -- After an evaluation the cache has all that it imported, and only what was loaded.
  import_all-IsServed :
      (rs : List (Text × Text)) (cache cache' : Store) (done : List Import)
      → IsLoaded cache
      → import_all get im embedded rs cache ≡ ok (done, cache')
      → IsLoaded cache' × All (IsServed cache') done
  unfolding import_all
  import_all-IsServed [] cache cache' done loaded h =
      subst (λ x. IsLoaded x.1 × All (IsServed x.1) x.0) (ok_injective h) (loaded, tt)
  import_all-IsServed ((from, path) ∷ rs) cache cache' done loaded h =
      let step = import_file get im embedded from path cache in
      let i : Import = record { from = from; path = path; entry = step.0 } in
      elim (Option-cases step.0.error) [
        | inr (x, failed) ↦ absurd (ground arith)
        | inl fine ↦ elim (Result-cases (import_all get im embedded rs step.1)) [
          | inr (x, failed) ↦ absurd (ground arith)
          | inl (rest, made) ↦
              let now = import_file-IsServed from path cache in
              let (all_loaded, served) =
                import_all-IsServed rs step.1 rest.1 rest.0
                  (import_file-IsLoaded get im embedded from path cache loaded fine) made in
              let result : Result ImportError (List Import × Store) = ok (i ∷ rest.0, rest.1) in
              let joined : result ≡ ok (done, cache') = ground arith in
              subst (λ x. IsLoaded x.1 × All (IsServed x.1) x.0) (ok_injective joined)
                (all_loaded, (IsServed-after i rs step.1 rest.1 rest.0 made now, served))
        ]
      ]

  pub replayed :
      (empty : Text) (cache : Store) (i : Import)
      → IsLoaded cache
      → IsServed cache i
      → import_from_memory embedded
          (memory_contents embedded (libraries_of empty cache))
          i.from
          i.path
        ≡ ok (text_of empty i.entry.contents, i.entry.found_at)
  unfolding import_from_memory
  replayed empty cache i loaded (inl (built_in, same, at)) = ground arith
  replayed empty cache i loaded (inr (other, found)) =
      let abs = make_absolute_import_path i.from i.path in
      ground (
        arith,
        lookup-libraries_of empty abs i.entry cache loaded found,
        text_eq_iff (codes "espejote.libsonnet") abs,
        absolute-slash i.from i.path,
        built_in_bare abs,
      )

  -- Where an evaluation that starts with an empty cache makes imports that all succeed, the
  -- importer from memory, with the libraries saved from the cache that is left, gives for each of
  -- these imports the contents that it had and the place where they were found.
  pub import_all_replay :
      (empty : Text) (rs : List (Text × Text)) (cache : Store) (done : List Import)
      → import_all get im embedded rs [] ≡ ok (done, cache)
      → All
          (λ i.
            import_from_memory embedded
              (memory_contents embedded (libraries_of empty cache))
              i.from
              i.path
            ≡ ok (text_of empty i.entry.contents, i.entry.found_at))
          done
  import_all_replay empty rs cache done h =
      let (loaded, served) = import_all-IsServed rs [] cache done tt h in
      All-imp _ _ done (λ i. replayed empty cache i loaded) served
