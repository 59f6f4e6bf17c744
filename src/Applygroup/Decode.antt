-- ===== src/Applygroup/Decode.antt =====
-- Decoding of a rendered template: UnmarshalJSONFrom of applygroup.go.
pub mod Valid
pub mod Inherit
pub mod Targets
use espejote.Base.{
  String, Bool, true, false, ◌&&◌, ◌||◌, Option, none, some, [], ◌==◌, if◌then◌else◌, Result, ok,
  err, wrap, ◌>>=◌,
}
use espejote.Kube.{Unstructured, Gvk, Cause}
use espejote.Applygroup.Data.{
  Kind, noop_kind, apply_kind, apply_group_config_kind, delete_kind, group_kind, ApplyDefaults,
  Node, Applier, Appliers, applier, nil, cons,
}
use espejote.Applygroup.Options.{
  OptionError, patch_options_from_object, strip_unstructured_for_delete,
  delete_options_from_rendered_object,
}

-- What the decoder meets next. An object is its text, `scalar` is any other kind of token, or none;
-- `bad_null` begins like null; `broken` is an array whose input ends, or is malformed, before its
-- closing bracket.
mutual
  pub data Json : Type 0 where
    null bad_null : Json
    object : String → Json
    array : Items → Json
    scalar : String → Json

  pub data Items : Type 0 where
    closed broken : Items
    item : Json → Items → Items

pub data DecodeError : Type 0 where
  skip_value array_end root_config config_not_first : DecodeError
  decoding_resource reading_error_policy : Cause → DecodeError
  deletion_options patch_options : OptionError → DecodeError
  group_element : DecodeError → DecodeError
  bad_error_policy unexpected_kind : String → DecodeError

abbrev pub gvk_eq : Gvk → Gvk → Bool
gvk_eq a b = a.group == b.group && (a.version == b.version && a.kind == b.kind)

abbrev pub apply_group_config_gvk : Gvk
apply_group_config_gvk = record {
  group = "internal.espejote.io";
  version = "v1";
  kind = "ApplyGroupConfig";
}

-- A node with nothing set but what the caller sets before decoding, and its kind.
abbrev pub blank : {O : Type 0} → ApplyDefaults → Kind → Node O
blank d k = record {
  kind = k;
  apply_defaults = d;
  error_policy = "";
  resource_apply_options = [];
  resource_delete_options = [];
  resource = none;
  sub_resource = "";
}

-- `slices.Contains([]string{"Continue", "Abort"}, errorPolicy)`.
abbrev pub is_error_policy : String → Bool
is_error_policy p = p == "Continue" || p == "Abort"

-- A group with no policy of its own takes its parent's.
abbrev pub inherit_policy : Option String → String → String
inherit_policy none policy = policy
inherit_policy (some parent) policy = if policy == "" then parent else policy

-- `ApplyGroupConfig` elements are read and dropped.
abbrev pub keep_element : {O : Type 0} → Applier O → Appliers O → Appliers O
keep_element (applier n g) group = elim n.kind [
  | apply_group_config_kind ↦ group
  | _ ↦ cons (applier n g) group
]

module _ (U : Unstructured) where
  -- An object: a group's configuration, a deletion, or a resource to apply. `parent` is the
  -- error policy of the parent at this time, `none` at the root.
  unfoldable pub decode_object :
      ApplyDefaults → Option String → U.Object → Result DecodeError (Node U.Object)
  decode_object d parent u =
      if gvk_eq (U.gvk u) apply_group_config_gvk
      then elim parent [
        | none ↦ err root_config
        | some p ↦ ok (record (blank d apply_group_config_kind) { resource = some u })
      ]
      else do
        deletion ← wrap deletion_options (delete_options_from_rendered_object U u)
        elim deletion [
          | some opts ↦ ok (record (blank d delete_kind) {
            resource_delete_options = opts;
            resource = some (strip_unstructured_for_delete U u);
          })
          | none ↦ do
            (po, subresource, u') ← wrap patch_options (patch_options_from_object U d u)
            ok (record (blank d apply_kind) {
              resource_apply_options = po;
              resource = some u';
              sub_resource = subresource;
            })
        ]

  -- The policy that a configuration sets, if it sets one.
  pub configured_policy : String → U.Object → Result DecodeError String
  configured_policy policy config = do
    found ← wrap reading_error_policy (U.nested_string config "spec" "errorPolicy")
    elim found [
      | none ↦ ok policy
      | some p ↦ if is_error_policy p then ok p else err (bad_error_policy p)
    ]

  -- The group's policy after an element; `first` is `i == 0`.
  unfoldable pub element_policy : Bool → String → Applier U.Object → Result DecodeError String
  unfolding configured_policy
  element_policy first policy (applier n g) = elim n.kind [
    | apply_group_config_kind ↦
        if first
        then elim n.resource [ none ↦ ok policy | some config ↦ configured_policy policy config ]
        else err config_not_first
    | _ ↦ ok policy
  ]

  unfoldable mutual
    pub decode : ApplyDefaults → Option String → Json → Result DecodeError (Applier U.Object)
    decode d parent null = ok (applier (blank d noop_kind) nil)
    decode d parent bad_null = err skip_value
    decode d parent (object text) = do
      u ← wrap decoding_resource (U.unmarshal text)
      n ← decode_object d parent u
      ok (applier n nil)
    decode d parent (array items) = do
      (policy, group) ← decode_items d true "" items
      ok (
          applier (record (blank d group_kind) { error_policy = inherit_policy parent policy })
            group)
    decode d parent (scalar kind) = err (unexpected_kind kind)

    -- The loop over an array, with the group's policy so far.
    pub decode_items :
        ApplyDefaults → Bool → String → Items → Result DecodeError (String × Appliers U.Object)
    decode_items d first policy closed = ok (policy, nil)
    decode_items d first policy broken = err array_end
    decode_items d first policy (item j rest) = do
      elem ← wrap group_element (decode d (some policy) j)
      policy' ← element_policy first policy elem
      (final, group) ← decode_items d false policy' rest
      ok (final, keep_element elem group)
