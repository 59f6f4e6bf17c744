-- ===== src/Applygroup/Options.antt =====
-- The options that a rendered object carries: patchOptionsFromObject,
-- deleteOptionsFromRenderedObject and stripUnstructuredForDelete of applygroup.go.
use Prim.Native.String
use espejote.Base.{
  String, Bool, true, false, ◌||◌, Option, none, some, List, [], ◌∷◌, ◌++◌, ◌==◌, if◌then◌else◌,
  is_some, Result, ok, wrap, ◌>>=◌,
}
use espejote.Kube.{Unstructured, Cause}
use espejote.Applygroup.Data.{
  ApplyDefaults, ApplyOption, field_owner, force_ownership, DeleteOption, grace_period_seconds,
  propagation_policy, preconditions,
}

-- The option whose accessor failed.
pub data OptionError : Type 0 where
  bad_field_manager bad_field_manager_suffix bad_force bad_subresource : Cause → OptionError
  bad_deletion_flag bad_grace_period bad_propagation_policy : Cause → OptionError
  bad_precondition_uid bad_precondition_resource_version : Cause → OptionError

abbrev pub options_key : String
options_key = "__internal_use_espejote_lib_apply_options"

abbrev pub deletion_key : String
deletion_key = "__internal_use_espejote_lib_deletion"

-- The value of an accessor where its `found` is not looked at.
abbrev pub or_empty : Option String → String
or_empty none = ""
or_empty (some s) = s

-- The base of the field manager: the object's, else the default's, else the fallback.
pub base_manager : ApplyDefaults → Option String → String
base_manager d none = if d.field_manager == "" then d.field_manager_fallback else d.field_manager
base_manager d (some m) = if m == "" then d.field_manager_fallback else m

pub force_options : ApplyDefaults → Option Bool → List ApplyOption
force_options d (some true) = force_ownership ∷ []
force_options d (some false) = []
force_options d none = if d.force then force_ownership ∷ [] else []

-- One `opts = append(opts, ...)` under `if ok`.
abbrev pub append_some {ℓ} : {A : Type ℓ} → (A → DeleteOption) → Option A → List DeleteOption
append_some f none = []
append_some f (some a) = f a ∷ []

abbrev pub append_preconditions : Option String → Option String → List DeleteOption
append_preconditions uid version =
    if is_some uid || is_some version then preconditions uid version ∷ [] else []

module _ (U : Unstructured) where
  -- The options, the subresource, and the object without its options.
  unfoldable pub patch_options_from_object :
      ApplyDefaults → U.Object → Result OptionError (List ApplyOption × String × U.Object)
  unfolding base_manager force_options
  patch_options_from_object defaults obj = do
    manager ← wrap bad_field_manager (U.nested_string obj options_key "fieldManager")
    suffix ← wrap bad_field_manager_suffix (U.nested_string obj options_key "fieldManagerSuffix")
    force ← wrap bad_force (U.nested_bool obj options_key "force")
    subresource ← wrap bad_subresource (U.nested_string obj options_key "subResource")
    ok (
      field_owner (String.◌++◌ (base_manager defaults manager) (or_empty suffix))
          ∷ force_options defaults force,
      or_empty subresource,
      U.remove_nested_field obj options_key,
    )

  unfoldable pub strip_unstructured_for_delete : U.Object → U.Object
  strip_unstructured_for_delete u =
      U.set_name (U.name u) (U.set_namespace (U.namespace u) (U.set_gvk (U.gvk u) U.new))

  -- The optional settings, read only where the object is to be deleted.
  pub read_delete_options : U.Object → Result OptionError (List DeleteOption)
  read_delete_options obj = do
    grace ← wrap bad_grace_period (U.nested_int64 obj deletion_key "gracePeriodSeconds")
    policy ← wrap bad_propagation_policy (U.nested_string obj deletion_key "propagationPolicy")
    uid ← wrap bad_precondition_uid (U.nested_string obj deletion_key "preconditionUID")
    version ←
        wrap bad_precondition_resource_version
          (U.nested_string obj deletion_key "preconditionResourceVersion")
    ok (
        append_some grace_period_seconds grace
        ++ append_some propagation_policy policy
        ++ append_preconditions uid version)

  -- `none` where the object is not to be deleted.
  unfoldable pub delete_options_from_rendered_object :
      U.Object → Result OptionError (Option (List DeleteOption))
  unfolding read_delete_options
  delete_options_from_rendered_object obj = do
    flag ← wrap bad_deletion_flag (U.nested_bool obj deletion_key "delete")
    elim flag [
      | none ↦ ok none
      | some b ↦ elim b [ false ↦ ok none | true ↦ do ok (some (← read_delete_options obj)) ]
    ]
