-- ===== src/Cli/Collect/Triggers.antt =====
-- The triggers of a collected input: the entries of every trigger, in order.
use espejote.Base.{
  String, Option, none, some, List, [], ◌∷◌, ◌++◌, append-nil, append_assoc, ◌≡◌, ◌≢◌, inl, inr,
  refl, sym, arith, eq_iff, All, ok, Result-cases, Option-cases,
}
use espejote.Base.Tables.{lookup}
use espejote.Api.{ManagedResource, ManagedResourceTrigger}
use espejote.Cli.{RenderInput, RenderInputTrigger}
use espejote.Cli.Collect.{
  PartError, CollectEnv, Contexts, Triggers, context_configs, resolve_trigger, trigger_configs,
  collect_trigger, collect_triggers, or_no_trigger, collect_parts, collect_input, collect_contexts,
}

-- The configuration that the loop over the triggers leaves for each.
abbrev pub IsResolved : Contexts → Triggers → ManagedResourceTrigger → Type 0
IsResolved contexts configs t =
    (c : ManagedResourceTrigger) × (resolve_trigger contexts t ≡ ok c)
    × (lookup t.name configs ≡ some c)

trigger_configs_other :
    (contexts : Contexts) (table configs : Triggers) (ts : List ManagedResourceTrigger) (k : String)
    (c : ManagedResourceTrigger)
    → trigger_configs contexts table ts ≡ ok configs
    → lookup k table ≡ some c
    → lookup k configs ≡ some c
unfolding trigger_configs
trigger_configs_other contexts table configs [] k c h old = ground arith
trigger_configs_other contexts table configs (t ∷ ts) k c h old =
    elim (Option-cases (lookup t.name table)) [
      | inr (d, used) ↦ ground arith
      | inl new ↦ elim (Result-cases (resolve_trigger contexts t)) [
        | inr (e, failed) ↦ ground arith
        | inl (d, made) ↦ ground (
          arith,
          trigger_configs_other contexts ((t.name, d) ∷ table) configs ts k c,
          eq_iff t.name k,
        )
      ]
    ]

trigger_configs-IsResolved :
    (contexts : Contexts) (table configs : Triggers) (ts : List ManagedResourceTrigger)
    → trigger_configs contexts table ts ≡ ok configs
    → All (IsResolved contexts configs) ts
unfolding trigger_configs
trigger_configs-IsResolved contexts table configs [] h = tt
trigger_configs-IsResolved contexts table configs (t ∷ ts) h =
    elim (Option-cases (lookup t.name table)) [
      | inr (d, used) ↦ absurd (ground arith)
      | inl new ↦ elim (Result-cases (resolve_trigger contexts t)) [
        | inr (e, failed) ↦ absurd (ground arith)
        | inl (d, made) ↦
            let rest : trigger_configs contexts ((t.name, d) ∷ table) ts ≡ ok configs =
              ground arith in
            (
              (
                d,
                made,
                trigger_configs_other contexts ((t.name, d) ∷ table) configs ts t.name d rest
                    (ground (arith, eq_iff t.name t.name)),
              ),
              trigger_configs-IsResolved contexts ((t.name, d) ∷ table) configs ts rest,
            )
      ]
    ]

append_ne_nil : {A : Type 0} (xs : List A) (x : A) → xs ++ x ∷ [] ≢ []
append_ne_nil [] x h = ground arith
append_ne_nil (y ∷ xs) x h = ground arith

module _ {O L : Type 0} (env : CollectEnv O L) where
  -- The entries are those of the triggers, one trigger after the other.
  abbrev pub EntriesOf :
      Contexts → List ManagedResourceTrigger → List (RenderInputTrigger O) → Type 0
  EntriesOf contexts [] es = es ≡ []
  EntriesOf contexts (t ∷ ts) es =
      (c : ManagedResourceTrigger) × (new : List (RenderInputTrigger O)) × (rest : List
        (RenderInputTrigger O))
      × (resolve_trigger contexts t ≡ ok c)
      × (collect_trigger env c ≡ ok new)
      × EntriesOf contexts ts rest
      × (es ≡ new ++ rest)

  errors_nil :
      (configs : Triggers) (inputs : List (RenderInputTrigger O)) (errors : List PartError)
      (ts : List ManagedResourceTrigger)
      → (collect_triggers env configs inputs errors ts).1 ≡ []
      → errors ≡ []
  unfolding collect_triggers
  errors_nil configs inputs errors [] h = h
  errors_nil configs inputs errors (t ∷ ts) h =
      elim (Result-cases (collect_trigger env (or_no_trigger (lookup t.name configs)))) [
        | inl (new, made) ↦ ground (arith, errors_nil configs (inputs ++ new) errors ts)
        | inr (e, failed) ↦ absurd (
            append_ne_nil errors e
              (ground (arith, errors_nil configs inputs (errors ++ e ∷ []) ts)))
      ]

  collect_triggers-EntriesOf :
      (contexts : Contexts) (configs : Triggers) (inputs : List (RenderInputTrigger O))
      (errors : List PartError) (ts : List ManagedResourceTrigger)
      → All (IsResolved contexts configs) ts
      → (collect_triggers env configs inputs errors ts).1 ≡ []
      → (es : List (RenderInputTrigger O)) × EntriesOf contexts ts es
        × ((collect_triggers env configs inputs errors ts).0 ≡ inputs ++ es)
  unfolding collect_triggers
  collect_triggers-EntriesOf contexts configs inputs errors [] resolved h =
      ([], refl, sym (append-nil inputs))
  collect_triggers-EntriesOf contexts configs inputs errors (t ∷ ts) ((c, made, kept), resolved) h =
      elim (Result-cases (collect_trigger env c)) [
        | inr (e, failed) ↦ absurd (
            append_ne_nil errors e (errors_nil configs inputs (errors ++ e ∷ []) ts (ground arith)))
        | inl (new, got) ↦
            let (es, entries, joined) =
              collect_triggers-EntriesOf contexts configs (inputs ++ new) errors ts resolved
                (ground arith) in
            (
              new ++ es,
              (c, new, es, made, got, entries, refl),
              ground (arith, append_assoc inputs new es),
            )
      ]

  module _ (combine : List PartError → Option PartError)
      (combined : (es : List PartError) → combine es ≡ none → es ≡ []) where
    collect_parts-EntriesOf :
        (mr : ManagedResource) (contexts : Contexts) (configs : Triggers) (input : RenderInput O)
        → All (IsResolved contexts configs) mr.spec.triggers
        → collect_parts env combine mr configs ≡ ok input
        → (es : List (RenderInputTrigger O)) × EntriesOf contexts mr.spec.triggers es
          × (input.triggers ≡ record { name = ""; watch_resource = none } ∷ es)
    unfolding collect_parts
    collect_parts-EntriesOf mr contexts configs input resolved h =
        let empty : List (RenderInputTrigger O) =
          record { name = ""; watch_resource = none } ∷ [] in
        let collected = collect_triggers env configs empty [] mr.spec.triggers in
        elim (Option-cases (combine collected.1)) [
          | inr (e, failed) ↦ absurd (ground arith)
          | inl passed ↦
              let (es, entries, joined) =
                collect_triggers-EntriesOf contexts configs empty [] mr.spec.triggers resolved
                  (combined collected.1 passed) in
              elim (Option-cases (combine (collect_contexts env [] [] mr.spec.context).1)) [
                | inr (e, failed) ↦ absurd (ground arith)
                | inl fine ↦ (es, entries, ground (arith, joined))
              ]
        ]

    -- Where multierr.Combine gives no error only for no errors, the triggers of an input that is
    -- collected are one with no name and no object, and then the entries of the triggers of the
    -- resource, one trigger after the other, each of which is resolved among the contexts and
    -- collected without an error.
    pub collect_input-EntriesOf :
        (mr : ManagedResource) (input : RenderInput O)
        → collect_input env combine mr ≡ ok input
        → (contexts : Contexts) × (es : List (RenderInputTrigger O)) × (context_configs []
              mr.spec.context
            ≡ ok contexts)
          × EntriesOf contexts mr.spec.triggers es
          × (input.triggers ≡ record { name = ""; watch_resource = none } ∷ es)
    unfolding collect_input
    collect_input-EntriesOf mr input h = elim (Result-cases (context_configs [] mr.spec.context)) [
      | inr (e, failed) ↦ absurd (ground arith)
      | inl (contexts, made) ↦ elim (Result-cases (trigger_configs contexts [] mr.spec.triggers)) [
        | inr (e, failed) ↦ absurd (ground arith)
        | inl (configs, set) ↦
            let parts : collect_parts env combine mr configs ≡ ok input = ground arith in
            let (es, entries, same) =
              collect_parts-EntriesOf mr contexts configs input
                (trigger_configs-IsResolved contexts [] configs mr.spec.triggers set) parts in
            (contexts, es, made, entries, same)
      ]
    ]
