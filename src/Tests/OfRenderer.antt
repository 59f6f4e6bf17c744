-- ===== src/Tests/OfRenderer.antt =====
-- Runs of the Renderer, and its theorem at a concrete input.
use espejote.Base.{String, ◌≡◌, sym, refl, ok, err, ok_injective}
use espejote.Kube.{Int64, not_found}
use espejote.Renderer.{Reader, TriggerInfo, render_triggers}
use espejote.Renderer.Nodes.{
  Value, Node, map, list, cons, nil, entry, last, int64, string, MarshalNumber, desugared_object,
  field, end, array, element, none_left, literal_number, literal_string, literal_null,
  json_value_to_jsonnet_node,
}
use espejote.Renderer.Meaning.{node_data, value_data, json_value_to_jsonnet_node-data}

abbrev marshal : MarshalNumber
marshal = record { of_int64 = λ n. ok "7"; of_float64 = λ n. err "unsupported value" }

abbrev value : Value
value = map (entry "replicas" (int64 7) (entry "names" (list (cons (string "a") nil)) last))

abbrev node : Node
node = desugared_object (
    field "replicas" (literal_number "7")
      (field "names" (array (element (literal_string "a") none_left)) end))

float_read : (n : Int64) (s : String) → marshal.of_float64 n ≡ ok s → s ≡ ""
float_read n s h = cc

json_value_to_jsonnet_node-data_example :
    node_data (λ s. s) (λ n. "7") (λ n. "") node ≡ value_data (λ s. s) (λ n. "7") (λ n. "") value
unfolding json_value_to_jsonnet_node
json_value_to_jsonnet_node-data_example =
    json_value_to_jsonnet_node-data (λ s. s) (λ n. "7") (λ n. "") marshal
      (λ n s h. sym (ok_injective h)) float_read value node refl

-- The object of the trigger is gone.
abbrev deletion_seen : TriggerInfo
deletion_seen = record {
  trigger_name = "pods";
  watch_resource = record {
    api_version = "v1";
    group = "";
    kind = "Pod";
    name = "web";
    namespace = "team";
  };
}

abbrev gone : Reader
gone = record { get = λ g n m. err not_found; list = λ g. ok nil }

deletion_run :
    render_triggers marshal (λ g v. v) (λ g. ok g) (λ t. ok gone) deletion_seen
    ≡ ok (
        desugared_object (
          field "name" (literal_string "pods") (
            field "data"
              (desugared_object (
                field "resourceEvent"
                  (desugared_object (
                    field "apiVersion" (literal_string "v1") (
                      field "kind" (literal_string "Pod") (
                        field "name"
                          (literal_string "web")
                          (field "namespace" (literal_string "team") end)))))
                  (field "resource" literal_null end)))
              end)))
unfolding render_triggers
deletion_run = refl
