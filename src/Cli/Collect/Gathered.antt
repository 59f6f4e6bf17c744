-- ===== src/Cli/Collect/Gathered.antt =====
-- The contexts of a collected input, as a table.
use mathlib.Core.Path.{subst}
use espejote.Base.{
  Distinct, String, Option, none, some, List, [], ◌∷◌, ◌++◌, append-nil, append_assoc, ◌≡◌, inl,
  inr, refl, ap, arith, eq_iff, Listed, Result, ok, err, Result-cases, Option-cases,
}
use espejote.Base.Tables.{Table, lookup, Unused, Unused-insert, values}
use espejote.Api.{ManagedResourceContext}
use espejote.Cli.{RenderInputContext, context_table}
use espejote.Cli.Collect.{
  PartError, CollectEnv, Contexts, context_configs, collect_context, collect_contexts,
}

abbrev pub names : List ManagedResourceContext → List String
names contexts = values (λ c. c.name) contexts

Unused-tail :
    {V : Type 0} (k : String) (v : V) (table : Table V) (ns : List String)
    → Unused ((k, v) ∷ table) ns
    → (¬ Listed k ns) × Unused table ns
Unused-tail k v table [] u = ((λ h. h), tt)
Unused-tail k v table (n ∷ ns) u = ground (arith, eq_iff k n, Unused-tail k v table ns)

-- The loop over the contexts finds no name twice.
pub context_configs-Distinct :
    (table t : Contexts) (contexts : List ManagedResourceContext)
    → context_configs table contexts ≡ ok t
    → Distinct (names contexts) × Unused table (names contexts)
unfolding context_configs
context_configs-Distinct table t [] h = (tt, tt)
context_configs-Distinct table t (con ∷ contexts) h = elim (Option-cases (lookup con.name table)) [
  | inl new ↦ ground (
    arith,
    context_configs-Distinct ((con.name, con) ∷ table) t contexts,
    Unused-tail con.name con table (names contexts),
  )
  | inr (c, old) ↦ ground arith
]

module _ {O L : Type 0} (env : CollectEnv O L) where
  abbrev add_found :
      String
      → Result PartError (Option (List O))
      → List (RenderInputContext O)
      → List (RenderInputContext O)
  add_found name (ok (some items)) rest = record { name = name; resources = items } ∷ rest
  add_found name (ok none) rest = rest
  add_found name (err e) rest = rest

  -- What the loop collects.
  abbrev pub gathered : List ManagedResourceContext → List (RenderInputContext O)
  gathered [] = []
  gathered (con ∷ contexts) = add_found con.name (collect_context env con) (gathered contexts)

  pub collect_contexts-gathered :
      (inputs : List (RenderInputContext O)) (errors : List PartError)
      (contexts : List ManagedResourceContext)
      → (collect_contexts env inputs errors contexts).0 ≡ inputs ++ gathered contexts
  unfolding collect_contexts
  collect_contexts-gathered inputs errors [] = rw append-nil refl
  collect_contexts-gathered inputs errors (con ∷ contexts) =
      elim (Result-cases (collect_context env con)) [
        | inr (e, failed) ↦
            ground (arith, collect_contexts-gathered inputs (errors ++ e ∷ []) contexts)
        | inl (found, made) ↦ elim (Option-cases found) [
          | inl skipped ↦ ground (arith, collect_contexts-gathered inputs errors contexts)
          | inr (items, listed) ↦
              let input : List (RenderInputContext O) =
                record { name = con.name; resources = items } ∷ [] in
              ground (
                arith,
                collect_contexts-gathered (inputs ++ input) errors contexts,
                append_assoc inputs input (gathered contexts),
              )
        ]
      ]

  abbrev insert_found :
      String → Result PartError (Option (List O)) → Table (List O) → Table (List O)
  insert_found name (ok (some items)) table = (name, items) ∷ table
  insert_found name (ok none) table = table
  insert_found name (err e) table = table

  -- The table of what is collected.
  abbrev pub table_of : Table (List O) → List ManagedResourceContext → Table (List O)
  table_of table [] = table
  table_of table (con ∷ contexts) =
      table_of (insert_found con.name (collect_context env con) table) contexts

  pub context_table-gathered :
      (table : Table (List O)) (contexts : List ManagedResourceContext)
      → Distinct (names contexts)
      → Unused table (names contexts)
      → context_table table (gathered contexts) ≡ ok (table_of table contexts)
  unfolding context_table
  context_table-gathered table [] d u = refl
  context_table-gathered table (con ∷ contexts) d u =
      elim (Result-cases (collect_context env con)) [
        | inr (e, failed) ↦ ground (arith, context_table-gathered table contexts)
        | inl (found, made) ↦ elim (Option-cases found) [
          | inl skipped ↦ ground (arith, context_table-gathered table contexts)
          | inr (items, listed) ↦ ground (
            arith,
            context_table-gathered ((con.name, items) ∷ table) contexts,
            Unused-insert con.name items table (names contexts),
          )
        ]
      ]

  lookup-table_of_other :
      (k : String) (table : Table (List O)) (contexts : List ManagedResourceContext)
      → ¬ Listed k (names contexts)
      → lookup k (table_of table contexts) ≡ lookup k table
  lookup-table_of_other k table [] h = refl
  lookup-table_of_other k table (con ∷ contexts) h = elim (Result-cases (collect_context env con)) [
    | inr (e, failed) ↦ ground (arith, lookup-table_of_other k table contexts)
    | inl (found, made) ↦ elim (Option-cases found) [
      | inl skipped ↦ ground (arith, lookup-table_of_other k table contexts)
      | inr (items, listed) ↦
          ground
            (arith, eq_iff con.name k, lookup-table_of_other k ((con.name, items) ∷ table) contexts)
    ]
  ]

  pub lookup-table_of :
      (con : ManagedResourceContext) (items : List O) (table : Table (List O))
      (contexts : List ManagedResourceContext)
      → Distinct (names contexts)
      → Listed con contexts
      → collect_context env con ≡ ok (some items)
      → lookup con.name (table_of table contexts) ≡ some items
  lookup-table_of con items table [] d h made = elim h [ ]
  lookup-table_of con items table (c ∷ contexts) (apart, d) (inl same) made =
      subst (λ x. lookup x.name (table_of table (c ∷ contexts)) ≡ some items) same
        (ground (
          arith,
          eq_iff c.name c.name,
          ap (λ x. collect_context env x) same,
          lookup-table_of_other c.name ((c.name, items) ∷ table) contexts,
        ))
  lookup-table_of con items table (c ∷ contexts) (apart, d) (inr later) made =
      lookup-table_of con items (insert_found c.name (collect_context env c) table) contexts d later
        made
