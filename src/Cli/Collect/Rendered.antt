-- ===== src/Cli/Collect/Rendered.antt =====
-- Rendering from a collected input gives what rendering with readers of the cluster gives.
use espejote.Base.{
  Distinct, String, Option, none, some, List, [], ◌≡◌, inl, inr, refl, arith, Listed, All-of_Listed,
  Result, ok, err, Result-cases, wrap, ◌>>=◌,
}
use espejote.Base.Tables.{Table, lookup, named, lookup-named}
use espejote.Kube.{Unstructured, Gvk, Cause, ApiError}
use espejote.Api.{ManagedResource, ManagedResourceContext, get_gvk}
use espejote.Selection.{ObjectSelector, SelectionError}
use espejote.Renderer.{
  Reader, Readers, RenderError, TriggerInfo, context_objects_of, render_contexts, resource_node,
  render_triggers, render, set_entry,
}
use espejote.Renderer.Nodes.{Value, Values, Node, MarshalNumber, last}
use espejote.Cli.{
  RenderInput, RenderInputTrigger, context_table, context_readers, trigger_readers, trigger_info,
}
use espejote.Cli.Selecting.{ReadError}
use espejote.Renderer
use espejote.Cli.Collect.{CollectEnv, PartError, collect_input}
use espejote.Cli.Collect.Gathered.{names, table_of, lookup-table_of}
use espejote.Cli.Collect.Offline.{
  collect_input-table, collect_context_found, SameObjects, same_contexts,
}

-- The readers of the contexts that read the cluster, each with its context's selector. `get` is for
-- single objects; a list is put together by `set_list`.
module _ (U : Unstructured) (content : U.Object → Value) {L : Type 0} (env : CollectEnv U.Object L)
    (set_list : List U.Object → Result ApiError Values) (select_failed : SelectionError → Cause)
    (read_failed : ReadError → ApiError)
    (get : ObjectSelector L → Gvk → String → String → Result ApiError Value) where
  unfoldable pub selecting_reader : ObjectSelector L → Reader
  selecting_reader sel = record {
    get = get sel;
    list = λ gvk. do set_list (← wrap read_failed (env.list sel gvk));
  }

  unfoldable pub live_context_readers : List ManagedResourceContext → Readers
  unfolding selecting_reader
  live_context_readers contexts name = elim (lookup name (named (λ c. c.name) contexts)) [
    | none ↦ err "context not found"
    | some con ↦ do ok (selecting_reader (← wrap select_failed (env.select con.resource)))
  ]

  module _ (marshal : MarshalNumber) (group_version : String → String → String) where
    abbrev static_readers : List ManagedResourceContext → Readers
    static_readers contexts = context_readers U content set_list (table_of env [] contexts)

    collected-SameObjects :
        (con : ManagedResourceContext) (contexts : List ManagedResourceContext)
        → Distinct (names contexts)
        → Listed con contexts
        → SameObjects marshal group_version env.to_list
            (live_context_readers contexts)
            (static_readers contexts)
            con
    unfolding live_context_readers context_readers context_objects_of
    collected-SameObjects con contexts d listed v h =
        elim (Result-cases (env.select con.resource)) [
          | inr (e, failed) ↦ ground (arith, lookup-named (λ c. c.name) con contexts)
          | inl (sel, selected) ↦ elim (Result-cases (env.to_list (get_gvk con.resource))) [
            | inr (e, failed) ↦ ground (arith, lookup-named (λ c. c.name) con contexts)
            | inl (gvk, listable) ↦ elim (Result-cases (env.list sel gvk)) [
              | inr (e, failed) ↦ ground (arith, lookup-named (λ c. c.name) con contexts)
              | inl (items, found) ↦ ground (
                arith,
                lookup-named (λ c. c.name) con contexts,
                collect_context_found env con sel gvk items,
                lookup-table_of env con items [] contexts,
              )
            ]
          ]
        ]

    same_render_contexts :
        (mr : ManagedResource) (node : Node)
        → Distinct (names mr.spec.context)
        → render_contexts marshal group_version env.to_list
            (live_context_readers mr.spec.context)
            mr
          ≡ ok node
        → render_contexts marshal group_version env.to_list (static_readers mr.spec.context) mr
          ≡ ok node
    unfolding render_contexts
    same_render_contexts mr node d h =
        let live = live_context_readers mr.spec.context in
        let static = static_readers mr.spec.context in
        elim (Result-cases
          (Renderer.collect_contexts marshal group_version env.to_list live last mr.spec.context)) [
            | inr (e, failed) ↦ ground arith
            | inl (m, made) ↦ ground (
              arith,
              same_contexts marshal group_version env.to_list live static last m mr.spec.context
                  (All-of_Listed (SameObjects marshal group_version env.to_list live static)
                    mr.spec.context
                    (λ con listed. collected-SameObjects con mr.spec.context d listed))
                  made,
            )
          ]

    abbrev GivesAt : Readers → String → Option U.Object → Type 0
    GivesAt live name none = Unit
    GivesAt live name (some o) =
        (r : Reader) × (live name ≡ ok r)
        × (r.get (U.gvk o) (U.namespace o) (U.name o) ≡ ok (content o))

    -- The reader of the entry's trigger gives the entry's object.
    abbrev pub GivesObject : Readers → RenderInputTrigger U.Object → Type 0
    GivesObject live t = GivesAt live t.name t.watch_resource

    abbrev triggers_by : Readers → RenderInputTrigger U.Object → Result RenderError Node
    triggers_by live t =
        render_triggers marshal group_version env.to_list live (trigger_info U content set_list t)

    same_trigger :
        (live : Readers) (name : String) (o : Option U.Object)
        → GivesAt live name o
        → let t : RenderInputTrigger U.Object = record { name = name; watch_resource = o } in
          triggers_by live t ≡ triggers_by (trigger_readers U content set_list t) t
    unfolding render_triggers trigger_info trigger_readers
    same_trigger live name none gives = refl
    same_trigger live name (some o) (r, found, got) = rw (found, got) refl

    -- Where an input is collected, the reader for the trigger of an entry gives the object of the
    -- entry (where it has one), and rendering for the entry with this reader, and for the contexts
    -- with readers that list in the cluster what each context selects, gives a text, the contexts
    -- of the input make a table, and rendering for the entry with the readers of static objects
    -- gives the same text.
    pub collect_input-render :
        (combine : List PartError → Option PartError)
        (evaluate : Node → Node → String → Result Cause String) (mr : ManagedResource)
        (input : RenderInput U.Object) (t : RenderInputTrigger U.Object) (live : Readers)
        (text : String)
        → collect_input env combine mr ≡ ok input
        → GivesObject live t
        → render marshal group_version env.to_list evaluate live
            (live_context_readers mr.spec.context)
            mr
            (trigger_info U content set_list t)
          ≡ ok text
        → (table : Table (List U.Object)) × (context_table [] input.context ≡ ok table)
          × (render marshal group_version env.to_list evaluate
                (trigger_readers U content set_list t)
                (context_readers U content set_list table)
                mr
                (trigger_info U content set_list t)
              ≡ ok text)
    unfolding render
    collect_input-render combine evaluate mr input t live text collected gives h =
        let (d, tabled) = collect_input-table env combine mr input collected in
        (
          table_of env [] mr.spec.context,
          tabled,
          elim (Result-cases (triggers_by live t)) [
            | inr (e, failed) ↦ ground arith
            | inl (trigger, made) ↦
                elim (Result-cases (
                  render_contexts marshal group_version env.to_list
                    (live_context_readers mr.spec.context) mr)) [
                      | inr (e, failed) ↦ ground arith
                      | inl (context, rendered) ↦ ground (
                        arith,
                        same_trigger live t.name t.watch_resource gives,
                        same_render_contexts mr context d rendered,
                      )
                    ]
          ],
        )
