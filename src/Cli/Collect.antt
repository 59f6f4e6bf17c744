-- ===== src/Cli/Collect.antt =====
-- collectInput of cmd/collect_input.go: the objects that the triggers and the contexts of a
-- ManagedResource select in a cluster, as an input to render from.
pub mod Gathered
pub mod Offline
pub mod Rendered
pub mod Triggers
pub mod Cluster
use espejote.Base.{
  String, Bool, true, false, not, Option, none, some, List, [], ◌∷◌, ◌++◌, ◌==◌, num_eq,
  if◌then◌else◌, Result, ok, err, wrap, ◌>>=◌,
}
use espejote.Base.Tables.{Table, lookup}
use espejote.Kube.{Gvk, Cause}
use espejote.Api.{
  ManagedResource, ManagedResourceTrigger, ManagedResourceContext, ClusterResource, get_gvk,
}
use espejote.Selection.{ObjectSelector, SelectionError}
use espejote.Cli.{RenderInput, RenderInputTrigger, RenderInputContext}
use espejote.Cli.Selecting.{ReadError}

-- An error of one trigger or context.
pub data PartError : Type 0 where
  no_interval_or_api_version : String → PartError
  no_selector : String → SelectionError → PartError
  no_list : String → Cause → PartError
  not_listed : String → ReadError → PartError

pub data CollectError : Type 0 where
  duplicate_context duplicate_trigger : String → CollectError
  unknown_context : String → String → CollectError
  triggers_failed contexts_failed : PartError → CollectError

abbrev pub no_cluster_resource : ClusterResource
no_cluster_resource = record {
  api_version = "";
  kind = "";
  name = "";
  namespace = none;
  label_selector = none;
  match_names = [];
  ignore_names = [];
  strip_managed_fields = none;
}

-- The zero value, which a Go map gives for a missing key.
abbrev pub no_trigger : ManagedResourceTrigger
no_trigger = record {
  name = "";
  interval = 0;
  watch_resource = no_cluster_resource;
  watch_context_resource = "";
}

abbrev pub or_no_trigger : Option ManagedResourceTrigger → ManagedResourceTrigger
or_no_trigger none = no_trigger
or_no_trigger (some t) = t

abbrev pub Contexts : Type 0
Contexts = Table ManagedResourceContext

abbrev pub Triggers : Type 0
Triggers = Table ManagedResourceTrigger

-- The loop that fills contextCfgs.
unfoldable pub context_configs :
    Contexts → List ManagedResourceContext → Result CollectError Contexts
context_configs table [] = ok table
context_configs table (con ∷ contexts) =
    let rest = context_configs ((con.name, con) ∷ table) contexts in
    elim (lookup con.name table) [ some c ↦ err (duplicate_context con.name) | none ↦ rest ]

-- The configuration of a trigger: one that names a context gets the context's resource.
unfoldable pub resolve_trigger :
    Contexts → ManagedResourceTrigger → Result CollectError ManagedResourceTrigger
resolve_trigger contexts t =
    if t.watch_context_resource == ""
    then ok t
    else elim (lookup t.watch_context_resource contexts) [
      | none ↦ err (unknown_context t.name t.watch_context_resource)
      | some con ↦ ok (record no_trigger { name = t.name; watch_resource = con.resource })
    ]

-- The loop that fills triggerCfgs.
unfoldable pub trigger_configs :
    Contexts → Triggers → List ManagedResourceTrigger → Result CollectError Triggers
trigger_configs contexts table [] = ok table
trigger_configs contexts table (t ∷ triggers) = elim (lookup t.name table) [
  | some c ↦ err (duplicate_trigger t.name)
  | none ↦ do
    config ← resolve_trigger contexts t
    trigger_configs contexts ((t.name, config) ∷ table) triggers
]

-- `select` is objectSelectorForClusterResource in the namespace of the resource, `to_list` is ToList
-- of an empty object of a kind, and `list` reads the items with an objectSelectingReader.
pub record CollectEnv (O L : Type 0) : Type 0 where
  pub select : ClusterResource → Result SelectionError (ObjectSelector L)
  pub to_list : Gvk → Result Cause Gvk
  pub list : ObjectSelector L → Gvk → Result ReadError (List O)

module _ {O L : Type 0} (env : CollectEnv O L) where
  -- The items that a resource selects; the selector is made before the list.
  unfoldable pub items_of : String → ClusterResource → Result PartError (List O)
  items_of name cr = do
    sel ← wrap (no_selector name) (env.select cr)
    gvk ← wrap (no_list name) (env.to_list (get_gvk cr))
    wrap (not_listed name) (env.list sel gvk)

  abbrev pub inputs_of : String → List O → List (RenderInputTrigger O)
  inputs_of name [] = []
  inputs_of name (o ∷ os) = record { name = name; watch_resource = some o } ∷ inputs_of name os

  -- What one trigger adds to the input.
  unfoldable pub collect_trigger :
      ManagedResourceTrigger → Result PartError (List (RenderInputTrigger O))
  collect_trigger t =
      if not (num_eq t.interval 0)
      then ok (record { name = t.name; watch_resource = none } ∷ [])
      else if t.watch_resource.api_version == ""
      then err (no_interval_or_api_version t.name)
      else do items ← items_of t.name t.watch_resource; ok (inputs_of t.name items)

  -- The loop over the triggers, with the inputs and the errors so far.
  unfoldable pub collect_triggers :
      Triggers
      → List (RenderInputTrigger O)
      → List PartError
      → List ManagedResourceTrigger
      → List (RenderInputTrigger O) × List PartError
  collect_triggers configs inputs errors [] = (inputs, errors)
  collect_triggers configs inputs errors (t ∷ triggers) =
      elim (collect_trigger (or_no_trigger (lookup t.name configs))) [
        | err e ↦ collect_triggers configs inputs (errors ++ e ∷ []) triggers
        | ok new ↦ collect_triggers configs (inputs ++ new) errors triggers
      ]

  -- The items of a context. Where its list cannot be made the error is added to those of the
  -- triggers, which were looked at before: the context is left out, and no error is seen.
  unfoldable pub collect_context : ManagedResourceContext → Result PartError (Option (List O))
  collect_context con = elim (env.select con.resource) [
    | err e ↦ err (no_selector con.name e)
    | ok sel ↦ elim (env.to_list (get_gvk con.resource)) [
      | err c ↦ ok none
      | ok gvk ↦ elim (env.list sel gvk) [
        | err e ↦ err (not_listed con.name e)
        | ok items ↦ ok (some items)
      ]
    ]
  ]

  -- The loop over the contexts, with the inputs and the errors so far; the names are distinct, so that
  -- contextCfgs has each context under its own.
  unfoldable pub collect_contexts :
      List (RenderInputContext O)
      → List PartError
      → List ManagedResourceContext
      → List (RenderInputContext O) × List PartError
  collect_contexts inputs errors [] = (inputs, errors)
  collect_contexts inputs errors (con ∷ contexts) = elim (collect_context con) [
    | err e ↦ collect_contexts inputs (errors ++ e ∷ []) contexts
    | ok found ↦ elim found [
      | none ↦ collect_contexts inputs errors contexts
      | some items ↦
          collect_contexts (inputs ++ record { name = con.name; resources = items } ∷ []) errors
            contexts
    ]
  ]

  -- `combine` is multierr.Combine on errors that are not nil.
  module _ (combine : List PartError → Option PartError) where
    -- Behind the two tables; the first trigger has no name and no resource.
    unfoldable pub collect_parts : ManagedResource → Triggers → Result CollectError (RenderInput O)
    collect_parts mr configs =
        let empty : List (RenderInputTrigger O) =
          record { name = ""; watch_resource = none } ∷ [] in
        let triggers = collect_triggers configs empty [] mr.spec.triggers in
        let contexts = collect_contexts [] [] mr.spec.context in
        elim (combine triggers.1) [
          | some e ↦ err (triggers_failed e)
          | none ↦ elim (combine contexts.1) [
            | some e ↦ err (contexts_failed e)
            | none ↦ ok (record { triggers = triggers.0; context = contexts.0; libraries = [] })
          ]
        ]

    unfoldable pub collect_input : ManagedResource → Result CollectError (RenderInput O)
    collect_input mr = do
      contexts ← context_configs [] mr.spec.context
      triggers ← trigger_configs contexts [] mr.spec.triggers
      collect_parts mr triggers
