-- ===== src/Cli/Live/Replayed.antt =====
-- An input that is rendered with the importer of a cluster is rendered alike from the libraries that
-- the importer leaves.
use mathlib.Core.Path.{subst}
use espejote.Base.{
  String, none, List, [], ◌∷◌, ◌++◌, ◌≡◌, refl, ◌∙◌, sym, ap, arith, inl, inr, Result, ok, wrap,
  Result-cases,
}
use espejote.Base.Text.{Text}
use espejote.Base.Tables.{Table}
use espejote.Kube.{Unstructured, Cause, ApiError}
use espejote.Api.{ManagedResource}
use espejote.Importer.{Library, Importer}
use espejote.Importer.Cache.{Store}
use espejote.Renderer.{TriggerInfo, evaluation}
use espejote.Renderer.Nodes.{Value, Values}
use espejote.Cli.{
  RenderInput, RenderInputTrigger, context_table, render_trigger, render_triggers_of,
  render_from_input, trigger_readers, trigger_info, context_readers,
}
use espejote.Cli.Libraries.{libraries_of}
use espejote.Cli.Libraries.Loaded.{IsLoaded}
use espejote.Cli.Libraries.Evaluation.{Extends, live_keeps, memory_same}
use espejote.Cli.Live.{
  Engine, render_from_memory, render_trigger_live, render_triggers_live, render_from_input_live,
}
use espejote.Cli.Live.Programs.{
  program_for_same, render_from_memory-program_for, trigger_live_parts,
}

module _ (get : String → Text → Result ApiError Library) (im : Importer) (embedded empty : Text)
    (U : Unstructured) (content : U.Object → Value)
    (set_list : List U.Object → Result ApiError Values) (en : Engine)
    (print : TriggerInfo → String → Result Cause (List String)) where
  trigger_live_keeps :
      (mr : ManagedResource) (table : Table (List U.Object)) (t : RenderInputTrigger U.Object)
      (c c' : Store) (text : List String)
      → IsLoaded c
      → render_trigger_live get im embedded empty U content set_list en print mr table t c
        ≡ ok (text, c')
      → IsLoaded c' × Extends c c'
  trigger_live_keeps mr table t c c' text loaded h =
      let (v, rendered, made, ran, printed) =
        trigger_live_parts get im embedded empty U content set_list en print mr table t c c' text
          h in
      live_keeps get im embedded empty v c c' rendered loaded ran

  triggers_live_keep :
      (mr : ManagedResource) (table : Table (List U.Object))
      (ts : List (RenderInputTrigger U.Object)) (out out' : List String) (c c' : Store)
      → IsLoaded c
      → render_triggers_live get im embedded empty U content set_list en print mr table ts out c
        ≡ (none, out', c')
      → IsLoaded c' × Extends c c'
  unfolding render_triggers_live
  triggers_live_keep mr table [] out out' c c' loaded h =
      subst (λ x. IsLoaded x × Extends c x) (ap (λ p. p.2) h) (loaded, λ k e there. there)
  triggers_live_keep mr table (t ∷ ts) out out' c c' loaded h =
      elim (Result-cases
        (render_trigger_live get im embedded empty U content set_list en print mr table t c)) [
          | inr (e, failed) ↦ absurd (ground arith)
          | inl ((text, next), made) ↦
              let (kept, first) = trigger_live_keeps mr table t c next text loaded made in
              let (all, later) =
                triggers_live_keep mr table ts (out ++ text) out' next c' kept (ground arith) in
              (all, λ k e there. later k e (first k e there))
        ]

  -- A trigger that is rendered is rendered alike from what is kept of the cache.
  trigger_replayed :
      (mr mr' : ManagedResource) (table : Table (List U.Object)) (t : RenderInputTrigger U.Object)
      (c c' final : Store) (text : List String)
      → mr.spec ≡ mr'.spec
      → IsLoaded c
      → IsLoaded final
      → Extends c' final
      → render_trigger_live get im embedded empty U content set_list en print mr table t c
        ≡ ok (text, c')
      → render_trigger U content set_list
          (render_from_memory embedded en (libraries_of empty final))
          print
          mr'
          table
          t
        ≡ ok text
  unfolding render_trigger
  trigger_replayed mr mr' table t c c' final text same loaded all more h =
      let ti = trigger_info U content set_list t in
      let triggers = trigger_readers U content set_list t in
      let contexts = context_readers U content set_list table in
      let (v, rendered, made, ran, printed) =
        trigger_live_parts get im embedded empty U content set_list en print mr table t c c' text
          h in
      let program = sym (program_for_same en triggers contexts mr mr' ti same) ∙ made in
      let replayed : render_from_memory embedded en (libraries_of empty final) triggers contexts mr'
            ti
          ≡ ok rendered =
        render_from_memory-program_for embedded en (libraries_of empty final) triggers contexts mr'
          ti v program
        ∙ ap (wrap evaluation)
            (memory_same get im embedded empty v c c' final rendered loaded all more ran) in
      rw (replayed, printed) refl

  -- The output so far makes no difference.
  pub triggers_replayed :
      (mr mr' : ManagedResource) (table : Table (List U.Object))
      (ts : List (RenderInputTrigger U.Object)) (out first out' : List String) (c c' final : Store)
      → mr.spec ≡ mr'.spec
      → IsLoaded c
      → IsLoaded final
      → Extends c' final
      → render_triggers_live get im embedded empty U content set_list en print mr table ts first c
        ≡ (none, out', c')
      → (written : List String) × (render_triggers_live get im embedded empty U content set_list en
            print mr table ts out c
          ≡ (none, written, c'))
        × (render_triggers_of U content set_list
              (render_from_memory embedded en (libraries_of empty final))
              print
              mr'
              table
              ts
              out
            ≡ (none, written))
  unfolding render_triggers_live render_triggers_of
  triggers_replayed mr mr' table [] out first out' c c' final same loaded all more h =
      (out, (λ i. (none, out, (h i).2)), refl)
  triggers_replayed mr mr' table (t ∷ ts) out first out' c c' final same loaded all more h =
      elim (Result-cases
        (render_trigger_live get im embedded empty U content set_list en print mr table t c)) [
          | inr (e, failed) ↦ absurd (ground arith)
          | inl ((text, next), made) ↦
              let (kept, before) = trigger_live_keeps mr table t c next text loaded made in
              let rest : render_triggers_live get im embedded empty U content set_list en print mr
                    table ts (first ++ text) next
                  ≡ (none, out', c') =
                ground arith in
              let (ready, later) =
                triggers_live_keep mr table ts (first ++ text) out' next c' kept rest in
              let one =
                trigger_replayed mr mr' table t c next final text same loaded all
                  (λ k e there. more k e (later k e there)) made in
              let (written, live, memory) =
                triggers_replayed mr mr' table ts (out ++ text) (first ++ text) out' next c' final
                  same kept all more rest in
              (written, rw (made, render_triggers_live) live, rw (one, render_triggers_of) memory)
        ]

  -- An input that is rendered without an error, and then again, with another output so far, and from
  -- the libraries.
  pub input_replayed :
      (mr mr' : ManagedResource) (input : RenderInput U.Object) (out first out' : List String)
      (cache : Store)
      → mr.spec ≡ mr'.spec
      → render_from_input_live get im embedded empty U content set_list en print mr input first
        ≡ (none, out', cache)
      → (written : List String) × (render_from_input_live get im embedded empty U content set_list
            en print mr input out
          ≡ (none, written, cache))
        × (render_from_input U content set_list
              (render_from_memory embedded en (libraries_of empty cache))
              print
              mr'
              (record input { libraries = libraries_of empty cache })
              out
            ≡ (none, written))
  unfolding render_from_input_live render_from_input
  input_replayed mr mr' input out first out' cache same h =
      elim (Result-cases (context_table [] input.context)) [
        | inr (e, failed) ↦ absurd (ground arith)
        | inl (table, made) ↦
            let ran : render_triggers_live get im embedded empty U content set_list en print mr
                  table input.triggers first []
                ≡ (none, out', cache) =
              ground arith in
            let all = (triggers_live_keep mr table input.triggers first out' [] cache tt ran).0 in
            let (written, live, memory) =
              triggers_replayed mr mr' table input.triggers out first out' [] cache cache same tt
                all (λ k e there. there) ran in
            (written, rw (made, render_from_input_live) live, rw (made, render_from_input) memory)
      ]
