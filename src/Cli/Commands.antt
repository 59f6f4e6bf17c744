-- ===== src/Cli/Commands.antt =====
-- The two commands, behind their flags: rendering from input files or from a cluster, and collecting
-- an input from a cluster.
pub mod RoundTrip
use espejote.Base.{
  String, Option, none, some, List, [], ◌∷◌, ◌++◌, ◌==◌, not, if◌then◌else◌, Result, ok, err, wrap,
  ◌>>=◌,
}
use espejote.Base.Text.{Text}
use espejote.Kube.{Unstructured, Cause, ApiError}
use espejote.Api.{ManagedResource}
use espejote.Importer.{Library}
use espejote.Importer.Cache.{Store}
use espejote.Renderer.{TriggerInfo, Readers, RenderError}
use espejote.Renderer.Nodes.{Value, Values}
use espejote.Cli.{RenderInput, InputError, render_from_input}
use espejote.Cli.Collect.{CollectError}
use espejote.Cli.Libraries.{libraries_of}
use espejote.Cli.Live.{Engine, render_from_input_live}

-- `json_of` is json.Marshal of a TriggerInfo, `yaml_of` is yaml.JSONToYAML, and `combine` is
-- multierr.Combine.
module _ (json_of : TriggerInfo → Result Cause String) (yaml_of : String → Result Cause String)
    (combine : List Cause → Option Cause) where
  abbrev failure : Result Cause String → List Cause
  failure (ok t) = []
  failure (err e) = e ∷ []

  -- What is written for a trigger; where nothing failed the two texts are there.
  abbrev document : TriggerInfo → Result Cause String → Result Cause String → List String
  document ti (ok json) (ok yaml) =
      "---\n"
      ∷ (if ti.trigger_name == "" then yaml ∷ [] else "# Trigger: " ∷ json ∷ "\n" ∷ yaml ∷ [])
  document ti json yaml = []

  -- printRendered
  unfoldable pub print_rendered : TriggerInfo → String → Result Cause (List String)
  print_rendered ti rendered = elim (combine (failure (json_of ti) ++ failure (yaml_of rendered))) [
    | some e ↦ err e
    | none ↦ ok (document ti (json_of ti) (yaml_of rendered))
  ]

-- The flag --namespace, the namespace of the resource, or "default".
unfoldable pub in_namespace : String → ManagedResource → ManagedResource
in_namespace flag mr =
    let mr' : ManagedResource = if flag == "" then mr else record mr { namespace = flag } in
    if mr'.namespace == "" then record mr' { namespace = "default" } else mr'

pub data CommandError : Type 0 where
  inputs_not_loaded : Cause → CommandError
  no_rest_config no_client : Cause → CommandError
  not_collected : CollectError → CommandError
  not_rendered : InputError → CommandError

-- RenderInput{}
abbrev pub no_input : {O : Type 0} → RenderInput O
no_input = record { triggers = []; context = []; libraries = [] }

abbrev pub zero_inputs : {O A : Type 0} → List A → List (RenderInput O)
zero_inputs [] = []
zero_inputs (f ∷ fs) = no_input ∷ zero_inputs fs

abbrev pub loaded : {O : Type 0} → List (Result Cause (RenderInput O)) → List (RenderInput O)
loaded [] = []
loaded (ok i ∷ fs) = i ∷ loaded fs
loaded (err e ∷ fs) = loaded fs

abbrev pub load_errors : {O : Type 0} → List (Result Cause (RenderInput O)) → List Cause
load_errors [] = []
load_errors (ok i ∷ fs) = load_errors fs
load_errors (err e ∷ fs) = e ∷ load_errors fs

abbrev pub failed_render : Option InputError → Option CommandError
failed_render none = none
failed_render (some e) = some (not_rendered e)

-- `render_mem` renders with an espejoteMemoryImporter of the libraries of an input.
module _ (U : Unstructured) (content : U.Object → Value)
    (set_list : List U.Object → Result ApiError Values)
    (print : TriggerInfo → String → Result Cause (List String))
    (render_mem : List (Text × Text)
      → Readers
      → Readers
      → ManagedResource
      → TriggerInfo
      → Result RenderError String)
    (combine : List Cause → Option Cause) where
  abbrev rendered_input :
      ManagedResource → RenderInput U.Object → List String → Option InputError × List String
  rendered_input mr input out =
      render_from_input U content set_list (render_mem input.libraries) print mr input out

  -- The loop over the inputs.
  unfoldable pub render_inputs :
      ManagedResource
      → List (RenderInput U.Object)
      → List String
      → Option CommandError × List String
  render_inputs mr [] out = (none, out)
  render_inputs mr (input ∷ inputs) out = elim (rendered_input mr input out).0 [
    | some e ↦ (some (not_rendered e), (rendered_input mr input out).1)
    | none ↦ render_inputs mr inputs (rendered_input mr input out).1
  ]

  -- renderFromInputFiles on the files as they are read and decoded. The slice of inputs is made with a
  -- zero value for each file, which the inputs that are loaded follow.
  unfoldable pub render_from_input_files :
      ManagedResource
      → List (Result Cause (RenderInput U.Object))
      → List String
      → Option CommandError × List String
  render_from_input_files mr files out = elim (combine (load_errors files)) [
    | some e ↦ (some (inputs_not_loaded e), out)
    | none ↦ render_inputs mr (zero_inputs files ++ loaded files) out
  ]

module _ (U : Unstructured) (content : U.Object → Value)
    (set_list : List U.Object → Result ApiError Values)
    (print : TriggerInfo → String → Result Cause (List String))
    (rest_config new_client : Result {0, 0} Cause Unit)
    (collect : ManagedResource → Result CollectError (RenderInput U.Object))
    (get : String → Text → Result ApiError Library) (library_namespace : String)
    (embedded empty : Text) (en : Engine) where
  -- What both commands do first.
  unfoldable pub collected_input : ManagedResource → Result CommandError (RenderInput U.Object)
  collected_input mr = do
    config ← wrap no_rest_config rest_config
    c ← wrap no_client new_client
    wrap not_collected (collect mr)

  -- Rendering with `FromClientImporter(c, mr.Namespace, jsonnetLibraryNamespace)`.
  abbrev pub rendered_live :
      ManagedResource → RenderInput U.Object → List String → Option InputError × List String × Store
  rendered_live mr input out =
      render_from_input_live get
        (record { namespace = mr.namespace; library_namespace = library_namespace }) embedded empty
        U content set_list en print mr input out

  -- renderFromCluster
  unfoldable pub render_from_cluster :
      String → ManagedResource → List String → Option CommandError × List String
  render_from_cluster flag mr out =
      let mr' = in_namespace flag mr in
      elim (collected_input mr') [
        | err e ↦ (some e, out)
        | ok input ↦ let r = rendered_live mr' input out in (failed_render r.0, r.1)
      ]

  -- runCollectInput up to its output. The output of the rendering is discarded, and the libraries
  -- are those of the importer's cache; `empty` is the text of `jsonnet.Contents{}`.
  unfoldable pub collect_command :
      String → ManagedResource → Result CommandError (RenderInput U.Object)
  collect_command flag mr =
      let mr' = in_namespace flag mr in
      do
        input ← collected_input mr'
        let r = rendered_live mr' input []
        elim r.0 [
          | some e ↦ err (not_rendered e)
          | none ↦ ok (record input { libraries = libraries_of empty r.2 })
        ]
