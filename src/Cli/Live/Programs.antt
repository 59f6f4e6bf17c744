-- ===== src/Cli/Live/Programs.antt =====
-- What the Renderer evaluates for a trigger.
use mathlib.Core.Path.{subst}
use espejote.Base.{
  String, List, ◌≡◌, refl, ◌∙◌, ap, arith, inl, inr, Result, ok, wrap, ok_injective, Result-cases,
}
use espejote.Base.Text.{Text}
use espejote.Base.Tables.{Table}
use espejote.Kube.{Unstructured, Cause, ApiError}
use espejote.Api.{ManagedResource}
use espejote.Importer.{Library, Importer}
use espejote.Importer.Cache.{Store}
use espejote.Renderer.{TriggerInfo, Readers, evaluation, render_triggers, render_contexts, render}
use espejote.Renderer.Nodes.{Value, Values}
use espejote.Cli.{RenderInputTrigger, InputError, trigger_readers, trigger_info, context_readers}
use espejote.Cli.Libraries.Evaluation.{Evaluation, run_live, run_from_memory}
use espejote.Cli.Live.{Engine, program_for, render_from_memory, render_trigger_live}

pub program_for_same :
    (en : Engine) (triggers contexts : Readers) (mr mr' : ManagedResource) (ti : TriggerInfo)
    → mr.spec ≡ mr'.spec
    → program_for en triggers contexts mr ti ≡ program_for en triggers contexts mr' ti
unfolding program_for render_contexts
program_for_same en triggers contexts mr mr' ti same = rw same refl

-- Rendering from memory evaluates the program.
pub render_from_memory-program_for :
    (embedded : Text) (en : Engine) (libraries : List (Text × Text)) (triggers contexts : Readers)
    (mr : ManagedResource) (ti : TriggerInfo) (v : Evaluation)
    → program_for en triggers contexts mr ti ≡ ok v
    → render_from_memory embedded en libraries triggers contexts mr ti
      ≡ wrap evaluation (run_from_memory embedded v libraries)
unfolding program_for render_from_memory render
render_from_memory-program_for embedded en libraries triggers contexts mr ti v h =
    elim (Result-cases
      (render_triggers en.marshal_number en.group_version en.to_list triggers ti)) [
        | inr (e, failed) ↦ absurd (ground arith)
        | inl (trigger, made) ↦
            elim (Result-cases
              (render_contexts en.marshal_number en.group_version en.to_list contexts mr)) [
                | inr (e, failed) ↦ absurd (ground arith)
                | inl (context, made') ↦
                    let v_is : en.vm trigger context mr.spec.template ≡ v = ground arith in
                    subst
                      (λ x.
                        render_from_memory embedded en libraries triggers contexts mr ti
                        ≡ wrap evaluation (run_from_memory embedded x libraries))
                      v_is (rw (made, made', render_from_memory, render) refl)
              ]
      ]

module _ (get : String → Text → Result ApiError Library) (im : Importer) (embedded empty : Text)
    (U : Unstructured) (content : U.Object → Value)
    (set_list : List U.Object → Result ApiError Values) (en : Engine)
    (print : TriggerInfo → String → Result Cause (List String)) where
  -- A trigger that is rendered is one whose program was run.
  pub trigger_live_parts :
      (mr : ManagedResource) (table : Table (List U.Object)) (t : RenderInputTrigger U.Object)
      (c c' : Store) (text : List String)
      → render_trigger_live get im embedded empty U content set_list en print mr table t c
        ≡ ok (text, c')
      → (v : Evaluation) × (rendered : String) × (program_for en
            (trigger_readers U content set_list t)
            (context_readers U content set_list table)
            mr
            (trigger_info U content set_list t)
          ≡ ok v)
        × (run_live get im embedded empty v c ≡ (ok rendered, c'))
        × (print (trigger_info U content set_list t) rendered ≡ ok text)
  unfolding render_trigger_live
  trigger_live_parts mr table t c c' text h =
      let ti = trigger_info U content set_list t in
      elim (Result-cases (
        program_for en (trigger_readers U content set_list t)
          (context_readers U content set_list table) mr ti)) [
            | inr (e, failed) ↦ absurd (ground arith)
            | inl (v, made) ↦ elim (Result-cases (run_live get im embedded empty v c).0) [
              | inr (e, failed) ↦ absurd (ground arith)
              | inl (rendered, ran) ↦ elim (Result-cases (print ti rendered)) [
                | inr (e, failed) ↦ absurd (ground arith)
                | inl (printed, out) ↦
                    let end : Result InputError (List String × Store) =
                      ok (printed, (run_live get im embedded empty v c).1) in
                    let done : end ≡ ok (text, c') = ground arith in
                    let same = ok_injective done in
                    (v, rendered, made, λ i. (ran i, (same i).1), out ∙ ap (λ p. ok p.0) same)
              ]
            ]
          ]
