-- ===== src/Tests/OfApplygroup.antt =====
-- Runs of applygroup, and its theorems at concrete inputs.
use espejote.Base.{
  String, none, some, List, [], ◌∷◌, ◌≡◌, refl, inl, inr, ok, err, is_some, not_empty,
}
use espejote.Kube.{other}
use espejote.Applygroup.{
  Applier, Appliers, Node, Kind, applier, nil, cons, noop_kind, apply_kind, delete_kind, group_kind,
  field_owner,
}
use espejote.Applygroup.Walk.{Visitor, walk}
use espejote.Applygroup.Walk.Order.{nodes, visit, walk-eq-visit}
use espejote.Applygroup.Apply.{apply, apply_node, applying}
use espejote.Applygroup.Apply.Calls.{leaves, run_until, run_all}
use espejote.Applygroup.Apply.Policies.{apply-run_all, apply-run_until}
use espejote.Applygroup.Options.{
  strip_unstructured_for_delete, patch_options_from_object, delete_options_from_rendered_object,
}
use espejote.Applygroup.Decode.Targets.{SameTarget, decode_object-SameTarget}
use espejote.Applygroup.Decode.{
  Json, Items, decode, element_policy, decode_object, array, item, object, null, closed,
  config_not_first, blank,
}
use espejote.Applygroup.Decode.Valid.{IsValid, decode-IsValid}
use espejote.Applygroup.Decode.Inherit.{Holds, group_node, decode-nested_policy}
use espejote.Tests.Samples.{
  Obj, sample_objects, sample_laws, sample_client, first_error, defaults, config_map, deletion,
}

abbrev leaf : String → Applier Obj
leaf name = applier (record (blank defaults apply_kind) { resource = some (config_map name) }) nil

abbrev members : Appliers Obj
members = cons (leaf "a") (cons (leaf "bad") (cons (leaf "b") nil))

abbrev group_of : String → Applier Obj
group_of policy = applier (record (blank defaults group_kind) { error_policy = policy }) members

-- With "Abort" the object behind the refused one is not written, with "Continue" it is.
abort_run :
    apply sample_objects sample_client first_error (group_of "Abort") []
    ≡ (some (applying (config_map "bad") (other "refused")), "a" ∷ [])
unfolding apply apply_node
abort_run = refl

continue_run :
    apply sample_objects sample_client first_error (group_of "Continue") []
    ≡ (some (applying (config_map "bad") (other "refused")), "b" ∷ "a" ∷ [])
unfolding apply apply_node
continue_run = refl

combine_law : (es : List _) → is_some (first_error es) ≡ not_empty es
combine_law [] = refl
combine_law (e ∷ es) = refl

apply-run_all_example :
    ((apply sample_objects sample_client first_error (group_of "Continue") []).1
      ≡ (run_all (apply_node sample_objects sample_client) (leaves (group_of "Continue")) []).1)
    × (is_some (apply sample_objects sample_client first_error (group_of "Continue") []).0
        ≡ not_empty
            (run_all (apply_node sample_objects sample_client) (leaves (group_of "Continue")) []).0)
apply-run_all_example =
    apply-run_all sample_objects sample_client first_error combine_law (group_of "Continue") []
      (inr refl, (tt, (tt, (tt, tt))))

abbrev mixed : Applier Obj
mixed =
    applier (blank defaults group_kind) (cons (group_of "Abort") (cons (group_of "Continue") nil))

apply-run_until_example :
    (is_some (apply sample_objects sample_client first_error mixed []).0
      ≡ is_some (run_until (apply_node sample_objects sample_client) (leaves mixed) []).0)
    × ((run_until (apply_node sample_objects sample_client) (leaves mixed) []).0 ≡ none
        → (apply sample_objects sample_client first_error mixed []).1
          ≡ (run_until (apply_node sample_objects sample_client) (leaves mixed) []).1)
apply-run_until_example =
    apply-run_until sample_objects sample_client first_error combine_law mixed [] (
      inl (inl refl),
      ((inr refl, (tt, (tt, (tt, tt)))), ((inl (inr refl), (tt, (tt, (tt, tt)))), tt)),
    )

-- Visits that count, and stop at the second node.
abbrev counting : Visitor String (List Kind) Obj
counting n seen = (none, record n { sub_resource = "seen" }, n.kind ∷ seen)

walk-eq-visit_example :
    ((walk counting mixed []).0 ≡ (visit counting (nodes mixed) []).0)
    × (nodes (walk counting mixed []).1 ≡ (visit counting (nodes mixed) []).1)
    × ((walk counting mixed []).2 ≡ (visit counting (nodes mixed) []).2)
walk-eq-visit_example = walk-eq-visit counting mixed []

abbrev template : Json
template =
    array (item (object "Abort") (item null (item (object "gone") (item (object "b") closed))))

abbrev decoded : Applier Obj
decoded =
    applier (record (blank defaults group_kind) { error_policy = "Abort" })
      (cons (applier (blank defaults noop_kind) nil) (
        cons
          (applier (record (blank defaults delete_kind) { resource = some (config_map "gone") })
            nil)
          (cons
            (applier
              (record (blank defaults apply_kind) {
                resource_apply_options = field_owner "managed-resource:sample" ∷ [];
                resource = some (config_map "b");
              })
              nil)
            nil)))

template_run : decode sample_objects defaults none template ≡ ok decoded
unfolding decode decode_object element_policy patch_options_from_object
    delete_options_from_rendered_object strip_unstructured_for_delete
template_run = refl

decode-IsValid_example : IsValid decoded
decode-IsValid_example = decode-IsValid sample_objects defaults template decoded template_run

-- The second element of the middle group is a group of one null.
abbrev inner_items : Items
inner_items = item null closed

abbrev middle_items : Items
middle_items = item null (item (array inner_items) closed)

abbrev inner_group : Appliers Obj
inner_group = cons (applier (blank defaults noop_kind) nil) nil

abbrev middle_group : Appliers Obj
middle_group =
    cons (applier (blank defaults noop_kind) nil)
      (cons (group_node sample_objects defaults "" inner_group) nil)

decode-nested_policy_example :
    (decode sample_objects defaults (some "Abort") (array middle_items)
      ≡ ok (group_node sample_objects defaults "Abort" middle_group))
    × Holds (group_node sample_objects defaults "" inner_group) middle_group
unfolding decode element_policy
decode-nested_policy_example =
    decode-nested_policy sample_objects defaults "Abort" inner_items middle_items inner_group
      middle_group refl (inr (inl refl)) refl

-- The same deletion, with a name of its own for the field manager.
abbrev other_deletion : Obj
other_deletion = record (deletion "gone") {
  strings = ("__internal_use_espejote_lib_apply_options", "fieldManager", "someone") ∷ [];
}

decode_object-SameTarget_example :
    (n : Node Obj) × (o : Obj) × (decode_object sample_objects defaults (some "") (deletion "gone")
      ≡ ok n)
    × (decode_object sample_objects defaults (some "") other_deletion ≡ ok n)
    × (n.kind ≡ delete_kind)
    × (n.resource ≡ some o)
    × SameTarget sample_objects o (deletion "gone")
unfolding delete_options_from_rendered_object
decode_object-SameTarget_example =
    decode_object-SameTarget sample_objects sample_laws defaults (some "") (deletion "gone")
      other_deletion [] (refl, refl, refl) refl refl refl

-- A configuration behind another element is refused.
late_config :
    decode sample_objects defaults none (array (item null (item (object "Abort") closed)))
    ≡ err config_not_first
unfolding decode decode_object element_policy
late_config = refl
