-- ===== src/Cli.antt =====
-- The commands of cmd/render.go and cmd/collect_input.go: rendering of a ManagedResource from inputs
-- in place of a cluster, and collecting such inputs.
pub mod Selecting
pub mod Collect
pub mod Libraries
pub mod Live
pub mod Commands
use espejote.Base.{
  String, Bool, true, false, not, Option, none, some, List, [], ◌∷◌, ◌++◌, ◌==◌, length, num_eq,
  if◌then◌else◌, Result, ok, err, wrap, ◌>>=◌,
}
use espejote.Base.Text.{Text, codes, text_eq}
use espejote.Base.Tables.{Table, lookup}
use espejote.Kube.{Unstructured, Gvk, Cause, ApiError, other}
use espejote.Api.{ManagedResource}
use espejote.Importer.{make_absolute_import_path}
use espejote.Renderer.{TriggerInfo, WatchResource, Reader, Readers, RenderError}
use espejote.Renderer.Nodes.{Value, Values, nil, cons}

pub record RenderInputTrigger (O : Type 0) : Type 0 where
  pub name : String
  pub watch_resource : Option O

pub record RenderInputContext (O : Type 0) : Type 0 where
  pub name : String
  pub resources : List O

-- The libraries by the paths that they are found at.
pub record RenderInput (O : Type 0) : Type 0 where
  pub triggers : List (RenderInputTrigger O)
  pub context : List (RenderInputContext O)
  pub libraries : List (Text × Text)

-- A Go map; the last insertion is first, and a lookup takes the first.
abbrev pub lookup_text : Text → List (Text × Text) → Option Text
lookup_text k [] = none
lookup_text k ((j, c) ∷ m) = if text_eq j k then some c else lookup_text k m

-- The map that the importer is made with: the libraries of the input, and the built-in one.
abbrev pub memory_contents : Text → List (Text × Text) → List (Text × Text)
memory_contents embedded libraries = (codes "espejote.libsonnet", embedded) ∷ libraries

-- espejoteMemoryImporter: the contents and where they are found, or the absolute path not found.
unfoldable pub import_from_memory :
    Text → List (Text × Text) → Text → Text → Result Text (Text × Text)
unfolding text_eq
import_from_memory embedded contents imported_from import_path =
    if text_eq import_path (codes "espejote.libsonnet")
    then ok (embedded, import_path)
    else let abs = make_absolute_import_path imported_from import_path in
      elim (lookup_text abs contents) [ some c ↦ ok (c, abs) | none ↦ err abs ]

pub data InputError : Type 0 where
  duplicate_context_name : String → InputError
  render_failed : RenderError → InputError
  print_failed : Cause → InputError

module _ {O : Type 0} where
  -- The loop over the contexts of an input.
  unfoldable pub context_table :
      Table (List O) → List (RenderInputContext O) → Result InputError (Table (List O))
  context_table table [] = ok table
  context_table table (c ∷ cs) =
      let rest = context_table ((c.name, c.resources) ∷ table) cs in
      elim (lookup c.name table) [ some rs ↦ err (duplicate_context_name c.name) | none ↦ rest ]

-- `content` is UnstructuredContent, and `set_list` is meta.SetList on a list of unstructured objects.
module _ (U : Unstructured) (content : U.Object → Value)
    (set_list : List U.Object → Result ApiError Values) where
  -- watchResourceFromObj
  abbrev pub watch_resource_from_obj : U.Object → WatchResource
  watch_resource_from_obj o = record {
    api_version = (U.gvk o).version;
    group = (U.gvk o).group;
    kind = (U.gvk o).kind;
    name = U.name o;
    namespace = U.namespace o;
  }

  abbrev pub get_only : List U.Object → Result ApiError Value
  get_only (o ∷ []) = ok (content o)
  get_only _ = err (other "Get called on staticReader, expected exactly 1 object")

  -- staticUnstructuredReader
  unfoldable pub static_unstructured_reader : List U.Object → Reader
  static_unstructured_reader objs = record {
    get = λ gvk namespace name. get_only objs;
    list = λ gvk. set_list objs;
  }

  -- The reader of an input's trigger, and what it is rendered for.
  unfoldable pub trigger_readers : RenderInputTrigger U.Object → Readers
  unfolding static_unstructured_reader
  trigger_readers t name = elim t.watch_resource [
    | none ↦ err "not implemented"
    | some o ↦ ok (static_unstructured_reader (o ∷ []))
  ]

  abbrev pub no_resource : WatchResource
  no_resource = record { api_version = ""; group = ""; kind = ""; name = ""; namespace = "" }

  unfoldable pub trigger_info : RenderInputTrigger U.Object → TriggerInfo
  trigger_info t = record {
    trigger_name = t.name;
    watch_resource = elim t.watch_resource [
      | none ↦ no_resource
      | some o ↦ watch_resource_from_obj o
    ];
  }

  unfoldable pub context_readers : Table (List U.Object) → Readers
  unfolding static_unstructured_reader
  context_readers contexts name = elim (lookup name contexts) [
    | none ↦ err "context not found"
    | some resources ↦ ok (static_unstructured_reader resources)
  ]

  -- `render` is the Renderer with an importer; `print` is printRendered, whose output is collected.
  module _ (render : Readers → Readers → ManagedResource → TriggerInfo → Result RenderError String)
      (print : TriggerInfo → String → Result Cause (List String)) where
    unfoldable pub render_trigger :
        ManagedResource
        → Table (List U.Object)
        → RenderInputTrigger U.Object
        → Result InputError (List String)
    render_trigger mr contexts t = do
      rendered ←
          wrap render_failed
            (render (trigger_readers t) (context_readers contexts) mr (trigger_info t))
      wrap print_failed (print (trigger_info t) rendered)

    -- The loop over the triggers: the output so far stays where a later one fails.
    unfoldable pub render_triggers_of :
        ManagedResource
        → Table (List U.Object)
        → List (RenderInputTrigger U.Object)
        → List String
        → Option InputError × List String
    render_triggers_of mr contexts [] out = (none, out)
    render_triggers_of mr contexts (t ∷ ts) out = elim (render_trigger mr contexts t) [
      | err e ↦ (some e, out)
      | ok text ↦ render_triggers_of mr contexts ts (out ++ text)
    ]

    unfoldable pub render_from_input :
        ManagedResource → RenderInput U.Object → List String → Option InputError × List String
    render_from_input mr input out = elim (context_table [] input.context) [
      | err e ↦ (some e, out)
      | ok contexts ↦ render_triggers_of mr contexts input.triggers out
    ]
