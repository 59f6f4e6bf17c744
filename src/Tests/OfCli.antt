-- ===== src/Tests/OfCli.antt =====
-- Runs of the commands, and their theorems at concrete inputs.
use espejote.Base.{
  if◌then◌else◌, ap, sym, ok_injective, String, Bool, true, false, Option, none, some, List, [],
  ◌∷◌, ◌≡◌, refl, Result, ok, err, All, ◌>>=◌, arith,
}
use espejote.Base.Text.{text_eq, codes, count, trim_prefix}
use espejote.Base.Tables.{Table}
use espejote.Kube.{Gvk, Cause, ApiError, not_found}
use espejote.Api.{ManagedResource, ClusterResource}
use espejote.Importer.{split_last_segment}
use espejote.Importer.Cache.{Entry, Store, import_file}
use espejote.Renderer.{Readers, render, render_triggers, render_contexts}
use espejote.Renderer.Nodes.{
  Value, Values, nil, cons, string, Node, MarshalNumber, json_value_to_jsonnet_node,
}
use espejote.Cli.{
  RenderInput, RenderInputTrigger, context_table, context_readers, trigger_readers, trigger_info,
  import_from_memory, memory_contents,
}
use espejote.Cli.Collect.{
  Contexts, CollectEnv, PartError, collect_input, context_configs, trigger_configs, resolve_trigger,
  collect_parts, collect_triggers, collect_trigger, items_of, collect_contexts, collect_context,
  no_cluster_resource, no_trigger,
}
use espejote.Cli.Collect.Cluster.{cluster_env, IsKept, items_of-IsKept}
use espejote.Selection.{FieldSelector}
use espejote.Cli.Collect.Rendered.{live_context_readers, collect_input-render}
use espejote.Cli.Libraries.{libraries_of}
use espejote.Cli.Libraries.Evaluation.{
  Evaluation, returned, import_then, run_live, run_all_live, run_all_from_memory,
  run_all_from_memory-libraries_of,
}
use espejote.Cli.Collect.Triggers.{EntriesOf, collect_input-EntriesOf}
use espejote.Tests.Samples.{Obj, sample_objects, config_map}
use espejote.Tests.OfImporter.{cluster, importer}
use espejote.Tests.OfReconciler.{sample_resource, sample_spec}

abbrev config_maps : ClusterResource
config_maps = record no_cluster_resource { api_version = "v1"; kind = "ConfigMap" }

-- A trigger and a context on the same objects.
abbrev pub watching : ManagedResource
watching = record sample_resource {
  spec = record sample_spec {
    triggers = record no_trigger { name = "maps"; watch_resource = config_maps } ∷ [];
    context = record { name = "all"; resource = config_maps } ∷ [];
  };
}

-- Two objects are there, whatever the selector.
abbrev pub two_maps : CollectEnv Obj Bool
two_maps = record {
  select = λ cr. ok (record {
    target = record { group = ""; version = cr.api_version; kind = cr.kind };
    fields_selector = [];
    label_selector = true;
    filter_func = λ n. true;
    transforms = false;
  });
  to_list = λ gvk. ok gvk;
  list = λ sel gvk. ok (config_map "a" ∷ config_map "b" ∷ []);
}

abbrev pub content : Obj → Value
content o = string o.name

abbrev pub set_list : List Obj → Result ApiError Values
set_list [] = ok nil
set_list (o ∷ os) = do ok (cons (content o) (← set_list os))

abbrev pub combine : List PartError → Option PartError
combine [] = none
combine (e ∷ es) = some e

abbrev at_map : String → RenderInputTrigger Obj
at_map name = record { name = "maps"; watch_resource = some (config_map name) }

abbrev pub collected : RenderInput Obj
collected = record {
  triggers = record { name = ""; watch_resource = none } ∷ at_map "a" ∷ at_map "b" ∷ [];
  context = record { name = "all"; resources = config_map "a" ∷ config_map "b" ∷ [] } ∷ [];
  libraries = [];
}

collect_run : collect_input two_maps combine watching ≡ ok collected
unfolding collect_input context_configs trigger_configs resolve_trigger collect_parts
    collect_triggers collect_trigger items_of collect_contexts collect_context
collect_run = refl

abbrev pub marshal : MarshalNumber
marshal = record { of_int64 = λ n. err "no number"; of_float64 = λ n. err "no number" }

abbrev live : Readers
live name = ok (record { get = λ gvk ns name. ok (string name); list = λ gvk. ok nil })

abbrev live_contexts : Readers
live_contexts =
    live_context_readers sample_objects content two_maps set_list (λ e. "no selector")
      (λ e. not_found) (λ sel gvk ns name. err not_found) watching.spec.context

-- The output is the document "[]" whatever is rendered.
abbrev pub evaluate : Node → Node → String → Result Cause String
evaluate trigger context template = ok "[]"

live_run :
    render marshal
      (λ g v. v)
      (λ g. ok g)
      evaluate
      live
      live_contexts
      watching
      (trigger_info sample_objects content set_list (at_map "a"))
    ≡ ok "[]"
unfolding render trigger_info live_context_readers render_triggers render_contexts
    json_value_to_jsonnet_node
live_run = refl

collect_input-render_example :
    (table : Table (List Obj)) × (context_table [] collected.context ≡ ok table)
    × (render marshal
          (λ g v. v)
          (λ g. ok g)
          evaluate
          (trigger_readers sample_objects content set_list (at_map "a"))
          (context_readers sample_objects content set_list table)
          watching
          (trigger_info sample_objects content set_list (at_map "a"))
        ≡ ok "[]")
collect_input-render_example =
    collect_input-render sample_objects content two_maps set_list (λ e. "no selector")
      (λ e. not_found) (λ sel gvk ns name. err not_found) marshal (λ g v. v) combine evaluate
      watching collected (at_map "a") live "[]" collect_run
      (record { get = λ gvk ns name. ok (string name); list = λ gvk. ok nil }, refl, refl) live_run

abbrev net_a : Entry
net_a = record { contents = some (codes "{}"); found_at = codes "lib/net/a"; error = none }

abbrev pub after : Store
after = (codes "lib/net/a", net_a) ∷ []

combine_nil : (es : List PartError) → combine es ≡ none → es ≡ []
combine_nil [] h = refl
combine_nil (e ∷ es) h = ground arith

collect_input-EntriesOf_example :
    (contexts : Contexts) × (es : List (RenderInputTrigger Obj)) × (context_configs []
        watching.spec.context
      ≡ ok contexts)
    × EntriesOf two_maps contexts watching.spec.triggers es
    × (collected.triggers ≡ record { name = ""; watch_resource = none } ∷ es)
collect_input-EntriesOf_example =
    collect_input-EntriesOf two_maps combine combine_nil watching collected collect_run

-- Of the two objects that are there, the one that is to be matched.
abbrev only_a : ClusterResource
only_a = record config_maps { match_names = "a" ∷ "c" ∷ []; ignore_names = "c" ∷ [] }

abbrev lists : Gvk → List FieldSelector → Bool → Result ApiError (List Obj)
lists gvk fields labels = ok (config_map "a" ∷ config_map "b" ∷ config_map "c" ∷ [])

items_run :
    items_of
      (cluster_env sample_objects true
        (λ s. ok true)
        (λ g. ok true)
        (λ l o. true)
        (λ o. ok o)
        (λ g. ok g)
        lists
        "team")
      "all"
      only_a
    ≡ ok (config_map "a" ∷ [])
unfolding cluster_env items_of espejote.Selection.object_selector
    espejote.Cli.Selecting.selecting_list espejote.Api.get_group espejote.Api.get_version
    espejote.Cli.Selecting.transform
items_run = refl

items_of-IsKept_example :
    All
      (IsKept sample_objects true
        (λ s. ok true)
        (λ g. ok true)
        (λ l o. true)
        (λ o. ok o)
        (λ g. ok g)
        lists
        (λ o o' h. ap (λ x. x.name) (sym (ok_injective h)))
        only_a)
      (config_map "a" ∷ [])
items_of-IsKept_example =
    items_of-IsKept sample_objects true (λ s. ok true) (λ g. ok true) (λ l o. true) (λ o. ok o)
      (λ g. ok g) lists (λ o o' h. ap (λ x. x.name) (sym (ok_injective h))) "team" "all" only_a
      (config_map "a" ∷ []) items_run

-- A template that imports a file of a library, which the second evaluation imports from within it.
abbrev evaluations : List Evaluation
evaluations =
    import_then (codes "") (codes "lib/net/a")
      (λ c at. returned (ok (if text_eq c (codes "{}") then "{}" else "[]")))
    ∷ import_then (codes "lib/net/b") (codes "a") (λ c at.
      import_then at (codes "espejote.libsonnet")
        (λ d at'. returned (ok (if text_eq c d then "same" else "other"))))
    ∷ []

evaluations_run :
    run_all_live cluster importer (codes "[]") [] evaluations [] ≡ ok ("{}" ∷ "other" ∷ [], after)
unfolding run_all_live run_live import_file count trim_prefix split_last_segment text_eq
evaluations_run = refl

run_all_from_memory-libraries_of_example :
    run_all_from_memory (codes "[]") evaluations (libraries_of [] after) ≡ ok ("{}" ∷ "other" ∷ [])
run_all_from_memory-libraries_of_example =
    run_all_from_memory-libraries_of cluster importer (codes "[]") [] evaluations after
      ("{}" ∷ "other" ∷ []) evaluations_run
