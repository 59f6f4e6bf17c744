-- ===== src/Applygroup/Apply.antt =====
-- `Apply` of applygroup.go, over the state of the cluster that the client writes to.
pub mod Calls
pub mod Policies
use espejote.Base.{ℕ, String, Option, none, some, List, [], ◌∷◌, ◌++◌, ◌==◌, ◌||◌, if◌then◌else◌}
use espejote.Kube.{Unstructured, ApiError, not_found, other}
use espejote.Applygroup.Data.{
  Kind, noop_kind, apply_kind, apply_group_config_kind, delete_kind, group_kind, unknown,
  ApplyOption, DeleteOption, Node, Applier, Appliers, applier, nil, cons,
}
use espejote.Applygroup.Options.{strip_unstructured_for_delete}

-- The writes of a client: each returns an error, or nil, and the cluster that it leaves.
pub record Client (S O : Type 0) : Type 0 where
  pub apply_object : O → List ApplyOption → S → Option ApiError × S
  pub apply_sub_resource : String → O → List ApplyOption → S → Option ApiError × S
  pub delete_object : O → List DeleteOption → S → Option ApiError × S

pub data ApplyError (O : Type 0) : Type 0 where
  requires_resource : Kind → ApplyError O
  applying deleting : O → ApiError → ApplyError O
  applying_sub_resource : String → O → ApiError → ApplyError O
  config_not_applicable : ApplyError O
  unknown_kind : ℕ → ApplyError O

-- `return fmt.Errorf(...)` where the call failed.
abbrev pub fail_with : {S E : Type 0} → (ApiError → E) → Option ApiError × S → Option E × S
fail_with f (none, s) = (none, s)
fail_with f (some e, s) = (some (f e), s)

-- The same behind `client.IgnoreNotFound`.
abbrev pub fail_unless_not_found :
    {S E : Type 0} → (ApiError → E) → Option ApiError × S → Option E × S
fail_unless_not_found f (none, s) = (none, s)
fail_unless_not_found f (some not_found, s) = (none, s)
fail_unless_not_found f (some (other c), s) = (some (f (other c)), s)

-- `errors` after a child's error, where the policy is not "Abort". The switch has no default: with
-- any policy but these two the error is dropped.
abbrev pub record_error : {E : Type 0} → String → E → List E → List E
record_error policy x errors =
    if policy == "" || policy == "Continue" then errors ++ x ∷ [] else errors

module _ (U : Unstructured) {S : Type 0} (cli : Client S U.Object) where
  -- The kinds but a group, which `apply` does not pass on.
  unfoldable pub apply_node : Node U.Object → S → Option (ApplyError U.Object) × S
  apply_node n s = elim n.kind [
    | noop_kind ↦ (none, s)
    | apply_kind ↦ elim n.resource [
      | none ↦ (some (requires_resource apply_kind), s)
      | some o ↦
          if n.sub_resource == ""
          then fail_with (applying o) (cli.apply_object o n.resource_apply_options s)
          else fail_with (applying_sub_resource n.sub_resource o)
              (cli.apply_sub_resource n.sub_resource o n.resource_apply_options s)
    ]
    | delete_kind ↦ elim n.resource [
      | none ↦ (some (requires_resource delete_kind), s)
      | some o ↦
          fail_unless_not_found (deleting o)
            (cli.delete_object (strip_unstructured_for_delete U o) n.resource_delete_options s)
    ]
    | group_kind ↦ (none, s)
    | apply_group_config_kind ↦ (some config_not_applicable, s)
    | unknown k ↦ (some (unknown_kind k), s)
  ]

-- `combine` is multierr.Combine on errors that are not nil.
module _ (U : Unstructured) {S : Type 0} (cli : Client S U.Object)
    (combine : List (ApplyError U.Object) → Option (ApplyError U.Object)) where
  unfoldable mutual
    pub apply : Applier U.Object → S → Option (ApplyError U.Object) × S
    apply (applier n group) s =
        let members : Option (ApplyError U.Object) × S = apply_group n.error_policy group [] s in
        elim n.kind [ group_kind ↦ members | _ ↦ apply_node U cli n s ]

    -- The loop over a group, with the errors so far.
    pub apply_group :
        String
        → Appliers U.Object
        → List (ApplyError U.Object)
        → S
        → Option (ApplyError U.Object) × S
    apply_group policy nil errors s = (combine errors, s)
    apply_group policy (cons child group) errors s =
        let (e, s') = apply child s in
        elim e [
          | none ↦ apply_group policy group errors s'
          | some x ↦
              let rest : Option (ApplyError U.Object) × S =
                apply_group policy group (record_error policy x errors) s' in
              if policy == "Abort" then (some x, s') else rest
        ]
