-- ===== src/Cli/Live.antt =====
-- renderFromInput of cmd/render.go with the importer that reads the cluster, whose cache goes from
-- one trigger to the next.
pub mod Programs
pub mod Replayed
use espejote.Base.{String, Option, none, some, List, [], ◌∷◌, ◌++◌, Result, ok, err, wrap, ◌>>=◌}
use espejote.Base.Text.{Text}
use espejote.Base.Tables.{Table}
use espejote.Kube.{Unstructured, Gvk, Cause, ApiError}
use espejote.Api.{ManagedResource}
use espejote.Importer.{Library, Importer}
use espejote.Importer.Cache.{Store}
use espejote.Renderer.{
  TriggerInfo, Readers, RenderError, evaluation, render_triggers, render_contexts, render,
}
use espejote.Renderer.Nodes.{Value, Values, Node, MarshalNumber}
use espejote.Cli.{
  RenderInput, RenderInputTrigger, InputError, render_failed, print_failed, context_table,
  trigger_readers, trigger_info, context_readers,
}
use espejote.Cli.Libraries.Evaluation.{Evaluation, run_live, run_from_memory}

-- The Renderer: what it makes nodes with, and the Jsonnet VM, which hangs on its importer alone.
pub record Engine : Type 0 where
  pub marshal_number : MarshalNumber
  pub group_version : String → String → String
  pub to_list : Gvk → Result Cause Gvk
  pub vm : Node → Node → String → Evaluation

-- What the Renderer evaluates.
unfoldable pub program_for :
    Engine → Readers → Readers → ManagedResource → TriggerInfo → Result RenderError Evaluation
program_for en triggers contexts mr ti = do
  trigger ← render_triggers en.marshal_number en.group_version en.to_list triggers ti
  context ← render_contexts en.marshal_number en.group_version en.to_list contexts mr
  ok (en.vm trigger context mr.spec.template)

-- The Renderer with an espejoteMemoryImporter of the libraries.
unfoldable pub render_from_memory :
    Text
    → Engine
    → List (Text × Text)
    → Readers
    → Readers
    → ManagedResource
    → TriggerInfo
    → Result RenderError String
render_from_memory embedded en libraries triggers contexts mr ti =
    render en.marshal_number en.group_version en.to_list
      (λ trigger context template.
        run_from_memory embedded (en.vm trigger context template) libraries)
      triggers contexts mr ti

module _ (get : String → Text → Result ApiError Library) (im : Importer)
    (embedded empty : Text) where
  module _ (U : Unstructured) (content : U.Object → Value)
      (set_list : List U.Object → Result ApiError Values) (en : Engine)
      (print : TriggerInfo → String → Result Cause (List String)) where
    unfoldable pub render_trigger_live :
        ManagedResource
        → Table (List U.Object)
        → RenderInputTrigger U.Object
        → Store
        → Result InputError (List String × Store)
    render_trigger_live mr contexts t cache = do
      v ← wrap render_failed (
          program_for en (trigger_readers U content set_list t)
            (context_readers U content set_list contexts) mr (trigger_info U content set_list t))
      let run = run_live get im embedded empty v cache
      rendered ← wrap (λ c. render_failed (evaluation c)) run.0
      text ← wrap print_failed (print (trigger_info U content set_list t) rendered)
      ok (text, run.1)

    -- The loop over the triggers; where one fails the cache is not used any more.
    unfoldable pub render_triggers_live :
        ManagedResource
        → Table (List U.Object)
        → List (RenderInputTrigger U.Object)
        → List String
        → Store
        → Option InputError × List String × Store
    render_triggers_live mr contexts [] out cache = (none, out, cache)
    render_triggers_live mr contexts (t ∷ ts) out cache =
        elim (render_trigger_live mr contexts t cache) [
          | err e ↦ (some e, out, cache)
          | ok (text, cache') ↦ render_triggers_live mr contexts ts (out ++ text) cache'
        ]

    -- The importer is a new one.
    unfoldable pub render_from_input_live :
        ManagedResource
        → RenderInput U.Object
        → List String
        → Option InputError × List String × Store
    render_from_input_live mr input out = elim (context_table [] input.context) [
      | err e ↦ (some e, out, [])
      | ok contexts ↦ render_triggers_live mr contexts input.triggers out []
    ]
