-- ===== src/Renderer/Meaning.antt =====
-- The values that nodes of the syntax tree evaluate to, and those that Go values stand for.
use espejote.Base.{
  String, Bool, ◌≡◌, refl, sym, ap, ok, ok_injective, arith, Result-cases, inl, inr,
}
use espejote.Kube.{Int64}
use espejote.Renderer.Nodes.{
  Value, null, bool, int64, float64, string, list, map, ast_node, unsupported, Values, nil, cons,
  Entries, last, entry, Node, literal_null, literal_boolean, literal_number, literal_string, array,
  desugared_object, Nodes, none_left, element, NodeFields, end, field, MarshalNumber,
  json_value_to_jsonnet_node, element_nodes, field_nodes,
}

-- JSON data over the numbers `D`.
mutual
  pub data Data (D : Type 0) : Type 0 where
    nothing : Data D
    truth : Bool → Data D
    number : D → Data D
    text : String → Data D
    sequence : Sequence D → Data D
    object : Members D → Data D
    foreign : Data D

  pub data Sequence (D : Type 0) : Type 0 where
    empty : Sequence D
    more : Data D → Sequence D → Sequence D

  pub data Members (D : Type 0) : Type 0 where
    closed : Members D
    member : String → Data D → Members D → Members D

-- `numeral` reads a number literal, and the other two are the numbers that Go's stand for.
module _ {D : Type 0} (numeral : String → D) (of_int of_float : Int64 → D) where
  unfoldable mutual
    pub node_data : Node → Data D
    node_data literal_null = nothing
    node_data (literal_boolean b) = truth b
    node_data (literal_number s) = number (numeral s)
    node_data (literal_string s) = text s
    node_data (array ns) = sequence (nodes_data ns)
    node_data (desugared_object fs) = object (fields_data fs)

    pub nodes_data : Nodes → Sequence D
    nodes_data none_left = empty
    nodes_data (element n ns) = more (node_data n) (nodes_data ns)

    pub fields_data : NodeFields → Members D
    fields_data end = closed
    fields_data (field k n fs) = member k (node_data n) (fields_data fs)

  unfoldable mutual
    pub value_data : Value → Data D
    value_data null = nothing
    value_data (bool b) = truth b
    value_data (int64 n) = number (of_int n)
    value_data (float64 n) = number (of_float n)
    value_data (string s) = text s
    value_data (list vs) = sequence (values_data vs)
    value_data (map es) = object (entries_data es)
    value_data (ast_node n) = node_data n
    value_data (unsupported type) = foreign

    pub values_data : Values → Sequence D
    values_data nil = empty
    values_data (cons v vs) = more (value_data v) (values_data vs)

    pub entries_data : Entries → Members D
    entries_data last = closed
    entries_data (entry k v es) = member k (value_data v) (entries_data es)

  -- A marshaled number is read back as the number.
  module _ (marshal : MarshalNumber)
      (int_read : (n : Int64) (s : String) → marshal.of_int64 n ≡ ok s → numeral s ≡ of_int n)
      (float_read : (n : Int64) (s : String)
        → marshal.of_float64 n ≡ ok s
        → numeral s ≡ of_float n) where
    mutual
      unfolding json_value_to_jsonnet_node node_data value_data

      same_data :
          (v : Value) (n : Node)
          → json_value_to_jsonnet_node marshal v ≡ ok n
          → node_data n ≡ value_data v
      same_data null n h = rw (← ok_injective h) refl
      same_data (bool b) n h = rw (← ok_injective h) refl
      same_data (int64 k) n h = elim (Result-cases (marshal.of_int64 k)) [
        | inl (s, made) ↦ ground (arith, int_read k s made)
        | inr (e, failed) ↦ cc
      ]
      same_data (float64 k) n h = elim (Result-cases (marshal.of_float64 k)) [
        | inl (s, made) ↦ ground (arith, float_read k s made)
        | inr (e, failed) ↦ cc
      ]
      same_data (string s) n h = rw (← ok_injective h) refl
      same_data (list vs) n h = elim (Result-cases (element_nodes marshal vs)) [
        | inl (ns, made) ↦ ground (arith, same_sequence vs ns made)
        | inr (e, failed) ↦ cc
      ]
      same_data (map es) n h = elim (Result-cases (field_nodes marshal es)) [
        | inl (fs, made) ↦ ground (arith, same_members es fs made)
        | inr (e, failed) ↦ cc
      ]
      same_data (ast_node m) n h = ap node_data (sym (ok_injective h))
      same_data (unsupported type) n h = cc

      same_sequence :
          (vs : Values) (ns : Nodes)
          → element_nodes marshal vs ≡ ok ns
          → nodes_data ns ≡ values_data vs
      same_sequence nil ns h = rw (← ok_injective h) refl
      same_sequence (cons v vs) ns h = elim (Result-cases (json_value_to_jsonnet_node marshal v)) [
        | inl (n, made) ↦ elim (Result-cases (element_nodes marshal vs)) [
          | inl (ms, rest) ↦ ground (arith, same_data v n made, same_sequence vs ms rest)
          | inr (e, failed) ↦ cc
        ]
        | inr (e, failed) ↦ cc
      ]

      same_members :
          (es : Entries) (fs : NodeFields)
          → field_nodes marshal es ≡ ok fs
          → fields_data fs ≡ entries_data es
      same_members last fs h = rw (← ok_injective h) refl
      same_members (entry k v es) fs h =
          elim (Result-cases (json_value_to_jsonnet_node marshal v)) [
            | inl (n, made) ↦ elim (Result-cases (field_nodes marshal es)) [
              | inl (ms, rest) ↦ ground (arith, same_data v n made, same_members es ms rest)
              | inr (e, failed) ↦ cc
            ]
            | inr (e, failed) ↦ cc
          ]

    -- A node that is made of a Go value evaluates to the JSON data that the value stands for, where
    -- numbers are marshaled to literals of themselves.
    pub json_value_to_jsonnet_node-data :
        (v : Value) (n : Node)
        → json_value_to_jsonnet_node marshal v ≡ ok n
        → node_data n ≡ value_data v
    json_value_to_jsonnet_node-data v n h = same_data v n h
