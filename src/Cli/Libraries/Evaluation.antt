-- ===== src/Cli/Libraries/Evaluation.antt =====
-- Evaluations with the importer of a cluster, and again from the libraries that it leaves. The Jsonnet
-- VM is what it returns or asks its importer for, which hangs on nothing but the answers so far.
use mathlib.Core.Path.{subst}
use espejote.Base.{
  String, none, some, List, [], ◌∷◌, ◌≡◌, sym, ap, arith, inl, inr, Result, ok, err, ok_injective,
  ◌>>=◌, Option-cases, Result-cases,
}
use espejote.Base.Text.{Text}
use espejote.Kube.{ApiError, Cause}
use espejote.Importer.{Library, Importer, make_absolute_import_path}
use espejote.Importer.Cache.{Entry, Store, lookup, import_file}
use espejote.Cli.{memory_contents, import_from_memory}
use espejote.Cli.Libraries.{text_of, libraries_of, Import}
use espejote.Cli.Libraries.Loaded.{IsLoaded, import_file_keeps, import_file-IsLoaded}
use espejote.Cli.Libraries.Replay.{IsServed, import_file-IsServed, replayed}

pub data Evaluation : Type 0 where
  returned : Result Cause String → Evaluation
  import_then : Text → Text → (Text → Text → Evaluation) → Evaluation

abbrev pub Extends : Store → Store → Type 0
Extends c c' = (k : Text) (e : Entry) → lookup k c ≡ some e → lookup k c' ≡ some e

module _ (embedded : Text) where
  unfoldable pub run_from_memory : Evaluation → List (Text × Text) → Result Cause String
  run_from_memory (returned r) libraries = r
  run_from_memory (import_then from path k) libraries =
      elim (import_from_memory embedded (memory_contents embedded libraries) from path) [
        | err x ↦ err "import failed"
        | ok found ↦ run_from_memory (k found.0 found.1) libraries
      ]

  unfoldable pub run_all_from_memory :
      List Evaluation → List (Text × Text) → Result Cause (List String)
  run_all_from_memory [] libraries = ok []
  run_all_from_memory (v ∷ vs) libraries = do
    text ← run_from_memory v libraries
    rest ← run_all_from_memory vs libraries
    ok (text ∷ rest)

module _ (get : String → Text → Result ApiError Library) (im : Importer)
    (embedded empty : Text) where
  unfoldable pub run_live : Evaluation → Store → Result Cause String × Store
  run_live (returned r) cache = (r, cache)
  run_live (import_then from path k) cache =
      let step = import_file get im embedded from path cache in
      elim step.0.error [
        | some x ↦ (err "import failed", step.1)
        | none ↦ run_live (k (text_of empty step.0.contents) step.0.found_at) step.1
      ]

  -- One evaluation after the other, up to the first that fails.
  unfoldable pub run_all_live : List Evaluation → Store → Result Cause (List String × Store)
  run_all_live [] cache = ok ([], cache)
  run_all_live (v ∷ vs) cache =
      let step = run_live v cache in
      do text ← step.0; rest ← run_all_live vs step.1; ok (text ∷ rest.0, rest.1)

  pub live_keeps :
      (v : Evaluation) (c c' : Store) (text : String)
      → IsLoaded c
      → run_live v c ≡ (ok text, c')
      → IsLoaded c' × Extends c c'
  unfolding run_live
  live_keeps (returned r) c c' text loaded h =
      subst (λ x. IsLoaded x × Extends c x) (ap (λ p. p.1) h) (loaded, λ k e there. there)
  live_keeps (import_then from path k) c c' text loaded h =
      let step = import_file get im embedded from path c in
      elim (Option-cases step.0.error) [
        | inr (x, failed) ↦ absurd (ground arith)
        | inl fine ↦
            let next : run_live (k (text_of empty step.0.contents) step.0.found_at) step.1
                ≡ (ok text, c') =
              ground arith in
            let (kept, more) =
              live_keeps (k (text_of empty step.0.contents) step.0.found_at) step.1 c' text
                (import_file-IsLoaded get im embedded from path c loaded fine) next in
            (kept, λ j e there. more j e (import_file_keeps get im embedded from path j e c there))
      ]

  IsServed-Extends :
      (c c' : Store) (i : Import)
      → Extends c c'
      → IsServed get im embedded c i
      → IsServed get im embedded c' i
  IsServed-Extends c c' i more (inl built_in) = inl built_in
  IsServed-Extends c c' i more (inr (other, found)) =
      inr (other, more (make_absolute_import_path i.from i.path) i.entry found)

  pub memory_same :
      (v : Evaluation) (c c' final : Store) (text : String)
      → IsLoaded c
      → IsLoaded final
      → Extends c' final
      → run_live v c ≡ (ok text, c')
      → run_from_memory embedded v (libraries_of empty final) ≡ ok text
  unfolding run_live run_from_memory
  memory_same (returned r) c c' final text loaded all more h = ap (λ p. p.0) h
  memory_same (import_then from path k) c c' final text loaded all more h =
      let step = import_file get im embedded from path c in
      let i : Import = record { from = from; path = path; entry = step.0 } in
      elim (Option-cases step.0.error) [
        | inr (x, failed) ↦ absurd (ground arith)
        | inl fine ↦
            let v' = k (text_of empty step.0.contents) step.0.found_at in
            let next : run_live v' step.1 ≡ (ok text, c') = ground arith in
            let now = import_file-IsLoaded get im embedded from path c loaded fine in
            let (kept, later) = live_keeps v' step.1 c' text now next in
            let served =
              IsServed-Extends step.1 final i (λ j e there. more j e (later j e there))
                (import_file-IsServed get im embedded from path c) in
            rw (replayed get im embedded empty final i all served, run_from_memory)
              (memory_same (k (text_of empty step.0.contents) step.0.found_at) step.1 c' final text
                now all more next)
      ]

  all_keep :
      (vs : List Evaluation) (c final : Store) (texts : List String)
      → IsLoaded c
      → run_all_live vs c ≡ ok (texts, final)
      → IsLoaded final × Extends c final
  unfolding run_all_live
  all_keep [] c final texts loaded h =
      subst (λ p. IsLoaded p.1 × Extends c p.1) (ok_injective h) (loaded, λ k e there. there)
  all_keep (v ∷ vs) c final texts loaded h =
      let step = run_live v c in
      elim (Result-cases step.0) [
        | inr (x, failed) ↦ absurd (ground arith)
        | inl (text, made) ↦ elim (Result-cases (run_all_live vs step.1)) [
          | inr (x, failed) ↦ absurd (ground arith)
          | inl (rest, more) ↦
              let (kept, first) = live_keeps v c step.1 text loaded (ground arith) in
              let last : rest.1 ≡ final = ground arith in
              let (all, later) = all_keep vs step.1 rest.1 rest.0 kept more in
              subst (λ x. IsLoaded x × Extends c x) last
                (all, λ k e there. later k e (first k e there))
        ]
      ]

  memory_all_same :
      (vs : List Evaluation) (c c' final : Store) (texts : List String)
      → IsLoaded c
      → IsLoaded final
      → Extends c' final
      → run_all_live vs c ≡ ok (texts, c')
      → run_all_from_memory embedded vs (libraries_of empty final) ≡ ok texts
  unfolding run_all_live run_all_from_memory
  memory_all_same [] c c' final texts loaded all more h = ground arith
  memory_all_same (v ∷ vs) c c' final texts loaded all more h =
      let step = run_live v c in
      elim (Result-cases step.0) [
        | inr (x, failed) ↦ absurd (ground arith)
        | inl (text, made) ↦ elim (Result-cases (run_all_live vs step.1)) [
          | inr (x, failed) ↦ absurd (ground arith)
          | inl (rest, done) ↦
              let (kept, first) = live_keeps v c step.1 text loaded (ground arith) in
              let last : rest.1 ≡ c' = ground arith in
              let (ready, later) = all_keep vs step.1 rest.1 rest.0 kept done in
              let extends = subst (λ x. Extends x final) (sym last) more in
              let one =
                memory_same v c step.1 final text loaded all
                  (λ k e there. extends k e (later k e there)) (ground arith) in
              let others = memory_all_same vs step.1 rest.1 final rest.0 kept all extends done in
              ground arith
        ]
      ]

  -- Where evaluations, each of which hangs on nothing but what its imports give, succeed one after
  -- the other with the importer of the cluster, starting with an empty cache, they give the same
  -- texts with the importer from memory and the libraries that are saved from the cache in the end.
  pub run_all_from_memory-libraries_of :
      (vs : List Evaluation) (cache : Store) (texts : List String)
      → run_all_live vs [] ≡ ok (texts, cache)
      → run_all_from_memory embedded vs (libraries_of empty cache) ≡ ok texts
  run_all_from_memory-libraries_of vs cache texts h =
      memory_all_same vs [] cache cache texts tt (all_keep vs [] cache texts tt h).0
        (λ k e there. there) h
