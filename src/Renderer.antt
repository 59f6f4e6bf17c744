-- ===== src/Renderer.antt =====
-- The Renderer of controllers/managedresource_controller.go: what a template is evaluated with.
pub mod Nodes
pub mod Meaning
use espejote.Base.{
  String, Bool, true, false, ◌&&◌, Option, none, some, List, [], ◌∷◌, ◌++◌, ◌==◌, if◌then◌else◌,
  Result, ok, err, wrap, ◌>>=◌,
}
use espejote.Kube.{Cause, Gvk, ApiError, not_found, other}
use espejote.Api.{ManagedResource, ManagedResourceContext, ClusterResource, get_gvk}
use espejote.Renderer.Nodes.{
  Value, Values, Entries, Node, NodeFields, literal_null, literal_string, desugared_object, field,
  end, map, list, nil, cons, entry, last, NodeError, MarshalNumber, json_value_to_jsonnet_node,
}

pub record WatchResource : Type 0 where
  pub api_version : String
  pub group : String
  pub kind : String
  pub name : String
  pub namespace : String

pub record TriggerInfo : Type 0 where
  pub trigger_name : String
  pub watch_resource : WatchResource

-- `w == (WatchResource{})`
abbrev pub is_zero : WatchResource → Bool
is_zero w =
    w.api_version == "" && (w.group == "" && (w.kind == "" && (w.name == "" && w.namespace == "")))

abbrev pub gvk_of : WatchResource → Gvk
gvk_of w = record { group = w.group; version = w.api_version; kind = w.kind }

-- client.Reader on unstructured objects, by their contents.
pub record Reader : Type 0 where
  pub get : Gvk → String → String → Result ApiError Value
  pub list : Gvk → Result ApiError Values

pub data RenderError : Type 0 where
  reader_for_trigger reader_for_context : Cause → RenderError
  trigger_object context_objects : ApiError → RenderError
  context_list evaluation : Cause → RenderError
  marshal_trigger marshal_contexts : NodeError → RenderError

abbrev pub Readers : Type 0
Readers = String → Result Cause Reader

-- `group_version` is schema.GroupVersion.String and `to_list` is what ToList of an object of the
-- kind returns.
module _ (marshal_number : MarshalNumber) (group_version : String → String → String)
    (to_list : Gvk → Result Cause Gvk) where
  resource_event : WatchResource → Node
  resource_event w = desugared_object (
      field "apiVersion" (literal_string (group_version w.group w.api_version)) (
        field "kind" (literal_string w.kind) (
          field "name" (literal_string w.name)
            (field "namespace" (literal_string w.namespace) end))))

  -- The object of the trigger, null where it was deleted.
  unfoldable pub resource_node : Readers → TriggerInfo → Result RenderError Node
  resource_node get_reader ti = do
    reader ← wrap reader_for_trigger (get_reader ti.trigger_name)
    let w = ti.watch_resource
    elim (reader.get (gvk_of w) w.namespace w.name) [
      | ok content ↦ wrap marshal_trigger (json_value_to_jsonnet_node marshal_number content)
      | err e ↦ elim e [ not_found ↦ ok literal_null | other c ↦ err (trigger_object (other c)) ]
    ]

  abbrev pub name_field : String → NodeFields → NodeFields
  name_field name rest = if name == "" then rest else field "name" (literal_string name) rest

  unfoldable pub render_triggers : Readers → TriggerInfo → Result RenderError Node
  unfolding resource_node resource_event
  render_triggers get_reader ti =
      if is_zero ti.watch_resource
      then ok (desugared_object (name_field ti.trigger_name end))
      else do
        resource ← resource_node get_reader ti
        ok (
            desugared_object (
              name_field ti.trigger_name (
                field "data"
                  (desugared_object (
                    field "resourceEvent" (resource_event ti.watch_resource)
                      (field "resource" resource end)))
                  end)))

  -- `contexts[name] = objects` on a map that keeps its entries in order.
  unfoldable pub set_entry : String → Value → Entries → Entries
  set_entry k v last = entry k v last
  set_entry k v (entry j w m) =
      let rest = set_entry k v m in if j == k then entry k v m else entry j w rest

  unfoldable pub context_objects_of : Readers → ManagedResourceContext → Result RenderError Value
  context_objects_of get_reader con = do
    reader ← wrap reader_for_context (get_reader con.name)
    gvk ← wrap context_list (to_list (get_gvk con.resource))
    items ← wrap context_objects (reader.list gvk)
    ok (list items)

  unfoldable pub collect_contexts :
      Readers → Entries → List ManagedResourceContext → Result RenderError Entries
  unfolding context_objects_of set_entry
  collect_contexts get_reader contexts [] = ok contexts
  collect_contexts get_reader contexts (con ∷ rest) = do
    contexts' ←
        if con.resource.api_version == ""
        then ok contexts
        else do ok (set_entry con.name (← context_objects_of get_reader con) contexts)
    collect_contexts get_reader contexts' rest

  unfoldable pub render_contexts : Readers → ManagedResource → Result RenderError Node
  unfolding collect_contexts
  render_contexts get_reader mr = do
    contexts ← collect_contexts get_reader last mr.spec.context
    wrap marshal_contexts (json_value_to_jsonnet_node marshal_number (map contexts))

  -- `evaluate trigger context template` is the Jsonnet VM with its native functions and importer.
  unfoldable pub render :
      (Node → Node → String → Result Cause String)
      → Readers
      → Readers
      → ManagedResource
      → TriggerInfo
      → Result RenderError String
  unfolding render_triggers render_contexts
  render evaluate trigger_readers context_readers mr ti = do
    trigger ← render_triggers trigger_readers ti
    context ← render_contexts context_readers mr
    wrap evaluation (evaluate trigger context mr.spec.template)
