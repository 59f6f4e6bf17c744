-- ===== src/Cli/Collect/Offline.antt =====
-- The table of contexts of a collected input, and when two readers give the same contexts.
use espejote.Base.{
  Distinct, String, Option, none, some, List, [], ◌∷◌, ◌==◌, ◌≡◌, inl, inr, arith, All, Result, ok,
  Result-cases, Option-cases, Bool-cases,
}
use espejote.Base.Tables.{Unused-nil}
use espejote.Kube.{Gvk, Cause}
use espejote.Api.{ManagedResource, ManagedResourceContext, get_gvk}
use espejote.Selection.{ObjectSelector}
use espejote.Renderer.{
  Reader, Readers, RenderError, TriggerInfo, context_objects_of, render_contexts, resource_node,
  render_triggers, render, set_entry,
}
use espejote.Renderer.Nodes.{Value, Entries, MarshalNumber}
use espejote.Cli.{RenderInput, RenderInputTrigger, context_table}
use espejote.Renderer
use espejote.Cli.Collect.{
  collect_contexts, CollectEnv, PartError, Triggers, context_configs, trigger_configs,
  collect_context, collect_triggers, collect_parts, collect_input,
}
use espejote.Cli.Collect.Gathered.{
  names, context_configs-Distinct, gathered, collect_contexts-gathered, table_of,
  context_table-gathered,
}

module _ {O L : Type 0} (env : CollectEnv O L) (combine : List PartError → Option PartError) where
  collect_parts-gathered :
      (mr : ManagedResource) (configs : Triggers) (input : RenderInput O)
      → collect_parts env combine mr configs ≡ ok input
      → input.context ≡ gathered env mr.spec.context
  unfolding collect_parts
  collect_parts-gathered mr configs input h =
      let empty : List (RenderInputTrigger O) = record { name = ""; watch_resource = none } ∷ [] in
      elim (Option-cases (combine (collect_triggers env configs empty [] mr.spec.triggers).1)) [
        | inr (e, failed) ↦ ground arith
        | inl passed ↦
            elim (Option-cases (combine (collect_contexts env [] [] mr.spec.context).1)) [
              | inr (e, failed) ↦ ground arith
              | inl fine ↦ ground (arith, collect_contexts-gathered env [] [] mr.spec.context)
            ]
      ]

  -- The contexts of a collected input make the table that the loop over them makes.
  pub collect_input-table :
      (mr : ManagedResource) (input : RenderInput O)
      → collect_input env combine mr ≡ ok input
      → Distinct (names mr.spec.context)
        × (context_table [] input.context ≡ ok (table_of env [] mr.spec.context))
  unfolding collect_input
  collect_input-table mr input h = elim (Result-cases (context_configs [] mr.spec.context)) [
    | inr (e, failed) ↦ ground arith
    | inl (contexts, made) ↦ elim (Result-cases (trigger_configs contexts [] mr.spec.triggers)) [
      | inr (e, failed) ↦ ground arith
      | inl (triggers, set) ↦ ground (
        arith,
        context_configs-Distinct [] contexts mr.spec.context made,
        collect_parts-gathered mr triggers input,
        context_table-gathered env [] mr.spec.context,
        Unused-nil (List O) (names mr.spec.context),
      )
    ]
  ]

module _ {O L : Type 0} (env : CollectEnv O L) where
  pub collect_context_found :
      (con : ManagedResourceContext) (sel : ObjectSelector L) (gvk : Gvk) (items : List O)
      → env.select con.resource ≡ ok sel
      → env.to_list (get_gvk con.resource) ≡ ok gvk
      → env.list sel gvk ≡ ok items
      → collect_context env con ≡ ok (some items)
  unfolding collect_context
  collect_context_found con sel gvk items s g l = ground arith

module _ (marshal : MarshalNumber) (group_version : String → String → String)
    (to_list : Gvk → Result Cause Gvk) (r r' : Readers) where
  -- `r'` gives for a context what `r` gives.
  abbrev pub SameObjects : ManagedResourceContext → Type 0
  SameObjects con =
      (v : Value)
      → context_objects_of marshal group_version to_list r con ≡ ok v
      → context_objects_of marshal group_version to_list r' con ≡ ok v

  pub same_contexts :
      (acc m : Entries) (contexts : List ManagedResourceContext)
      → All SameObjects contexts
      → Renderer.collect_contexts marshal group_version to_list r acc contexts ≡ ok m
      → Renderer.collect_contexts marshal group_version to_list r' acc contexts ≡ ok m
  unfolding Renderer.collect_contexts
  same_contexts acc m [] same h = h
  same_contexts acc m (con ∷ contexts) (one, same) h =
      elim (Bool-cases (con.resource.api_version == "")) [
        | inl empty ↦ ground (arith, same_contexts acc m contexts same)
        | inr there ↦ elim (Result-cases (context_objects_of marshal group_version to_list r con)) [
          | inr (e, failed) ↦ ground arith
          | inl (v, made) ↦ ground (
            arith,
            one v made,
            same_contexts (set_entry marshal group_version to_list con.name v acc) m contexts same,
          )
        ]
      ]
