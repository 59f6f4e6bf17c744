-- ===== src/Tests/OfCommands.antt =====
-- A run of the commands, and their theorem at a concrete input.
use espejote.Base.{String, Option, none, some, List, [], ◌∷◌, ◌≡◌, refl, Result, ok, if◌then◌else◌}
use espejote.Base.Text.{codes, text_eq, count, trim_prefix}
use espejote.Importer.{split_last_segment}
use espejote.Importer.Cache.{import_file}
use espejote.Cli.Libraries.Evaluation.{import_then, returned, run_live}
use espejote.Cli.Live.{
  Engine, program_for, render_from_input_live, render_triggers_live, render_trigger_live,
}
use espejote.Tests.OfImporter.{cluster}
use espejote.Kube.{Cause}
use espejote.Api.{ManagedResource, ClusterResource}
use espejote.Renderer.{TriggerInfo, RenderError, Readers, render, render_triggers, render_contexts}
use espejote.Renderer.Nodes.{json_value_to_jsonnet_node}
use espejote.Cli.{
  RenderInput, RenderInputTrigger, context_table, context_readers, trigger_readers, trigger_info,
  import_from_memory, memory_contents,
}
use espejote.Cli.Collect.{
  collect_input, context_configs, trigger_configs, resolve_trigger, collect_parts, collect_triggers,
  collect_trigger, items_of, collect_contexts, collect_context,
}
use espejote.Cli.Libraries.{libraries_of}
use espejote.Cli.Commands.{print_rendered, in_namespace, collected_input, collect_command}
use espejote.Cli.Commands.RoundTrip.{RendersSame, collect_command-files}
use espejote.Tests.Samples.{Obj, sample_objects}
use espejote.Tests.OfCli.{watching, two_maps, content, set_list, combine, collected, marshal}

-- The template imports a file of a library, and returns it if it is "{}".
abbrev engine : Engine
engine = record {
  marshal_number = marshal;
  group_version = λ g v. v;
  to_list = λ g. ok g;
  vm = λ trigger context template.
      import_then (codes "") (codes "lib/net/a")
        (λ c at. returned (ok (if text_eq c (codes "{}") then "{}" else "[]")));
}

abbrev first_cause : List Cause → Option Cause
first_cause [] = none
first_cause (e ∷ es) = some e

abbrev print : TriggerInfo → String → Result Cause (List String)
print ti text = print_rendered (λ i. ok i.trigger_name) (λ t. ok t) first_cause ti text

abbrev saved : RenderInput Obj
saved = record collected { libraries = (codes "lib/net/a", codes "{}") ∷ [] }

command_run :
    collect_command sample_objects content set_list print
      (ok tt)
      (ok tt)
      (collect_input two_maps combine)
      cluster
      "libs"
      (codes "[]")
      []
      engine
      ""
      watching
    ≡ ok saved
unfolding collect_command collected_input collect_input context_configs in_namespace trigger_configs
    resolve_trigger collect_parts collect_triggers collect_trigger items_of collect_contexts
    collect_context render_from_input_live context_table render_triggers_live render_trigger_live
    program_for run_live import_file count trim_prefix split_last_segment text_eq
    espejote.Api.get_group espejote.Api.get_version libraries_of context_readers
    espejote.Cli.static_unstructured_reader trigger_info trigger_readers json_value_to_jsonnet_node
    espejote.Renderer.collect_contexts espejote.Renderer.context_objects_of render_contexts
    render_triggers espejote.Renderer.resource_node espejote.Renderer.set_entry print_rendered
command_run = refl

collect_command-files_example :
    RendersSame sample_objects content set_list print first_cause
      (ok tt)
      (ok tt)
      (collect_input two_maps combine)
      cluster
      "libs"
      (codes "[]")
      []
      engine
      ""
      watching
      []
      saved
collect_command-files_example =
    collect_command-files sample_objects content set_list print first_cause (ok tt) (ok tt)
      (collect_input two_maps combine) cluster "libs" (codes "[]") [] engine "" watching saved []
      command_run refl
