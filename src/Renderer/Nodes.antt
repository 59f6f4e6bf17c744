-- ===== src/Renderer/Nodes.antt =====
-- jsonValueToJsonnetNode of controllers/managedresource_controller.go: Go values of JSON as nodes of
-- the Jsonnet syntax tree.
use espejote.Base.{String, Bool, Result, ok, err, wrap, ◌>>=◌}
use espejote.Kube.{Cause, Int64}

-- ast.Node, as far as it is built here; the name of a field is a string literal, and no field is
-- hidden.
mutual
  pub data Node : Type 0 where
    literal_null : Node
    literal_boolean : Bool → Node
    literal_number : String → Node
    literal_string : String → Node
    array : Nodes → Node
    desugared_object : NodeFields → Node

  pub data Nodes : Type 0 where
    none_left : Nodes
    element : Node → Nodes → Nodes

  pub data NodeFields : Type 0 where
    end : NodeFields
    field : String → Node → NodeFields → NodeFields

-- `any` as the JSON decoders make it, a node that is made already, and values of other types. A map is read in one order.
mutual
  pub data Value : Type 0 where
    null : Value
    bool : Bool → Value
    int64 float64 : Int64 → Value
    string : String → Value
    list : Values → Value
    map : Entries → Value
    ast_node : Node → Value
    unsupported : String → Value

  pub data Values : Type 0 where
    nil : Values
    cons : Value → Values → Values

  pub data Entries : Type 0 where
    last : Entries
    entry : String → Value → Entries → Entries

pub data NodeError : Type 0 where
  number_not_marshaled : Cause → NodeError
  unsupported_type : String → NodeError

-- json.Marshal of a number; a float may have no JSON form.
pub record MarshalNumber : Type 0 where
  pub of_int64 : Int64 → Result Cause String
  pub of_float64 : Int64 → Result Cause String

module _ (marshal : MarshalNumber) where
  unfoldable mutual
    pub json_value_to_jsonnet_node : Value → Result NodeError Node
    json_value_to_jsonnet_node null = ok literal_null
    json_value_to_jsonnet_node (bool b) = ok (literal_boolean b)
    json_value_to_jsonnet_node (int64 n) = do
      text ← wrap number_not_marshaled (marshal.of_int64 n)
      ok (literal_number text)
    json_value_to_jsonnet_node (float64 n) = do
      text ← wrap number_not_marshaled (marshal.of_float64 n)
      ok (literal_number text)
    json_value_to_jsonnet_node (string s) = ok (literal_string s)
    json_value_to_jsonnet_node (list vs) = do ok (array (← element_nodes vs))
    json_value_to_jsonnet_node (map es) = do ok (desugared_object (← field_nodes es))
    json_value_to_jsonnet_node (ast_node n) = ok n
    json_value_to_jsonnet_node (unsupported type) = err (unsupported_type type)

    pub element_nodes : Values → Result NodeError Nodes
    element_nodes nil = ok none_left
    element_nodes (cons v vs) = do
      n ← json_value_to_jsonnet_node v
      ns ← element_nodes vs
      ok (element n ns)

    pub field_nodes : Entries → Result NodeError NodeFields
    field_nodes last = ok end
    field_nodes (entry k v es) = do
      n ← json_value_to_jsonnet_node v
      fs ← field_nodes es
      ok (field k n fs)
