-- ===== src/Applygroup/Data.antt =====
-- controllers/applygroup/applygroup.go: the data of an applier tree.
use espejote.Base.{ℕ, String, Option, List, Bool}
use espejote.Kube.{Int64}

-- `type Kind int`; an integer outside of the constants is `unknown`.
pub data Kind : Type 0 where
  noop_kind apply_kind apply_group_config_kind delete_kind group_kind : Kind
  unknown : ℕ → Kind

-- `espejotev1alpha1.ApplyOptions`, embedded, and the fallback.
pub record ApplyDefaults : Type 0 where
  pub field_manager : String
  pub force : Bool
  pub field_manager_fallback : String

pub data ApplyOption : Type 0 where
  field_owner : String → ApplyOption
  force_ownership : ApplyOption

-- `preconditions uid resource_version`, where a nil pointer is `none`.
pub data DeleteOption : Type 0 where
  grace_period_seconds : Int64 → DeleteOption
  propagation_policy : String → DeleteOption
  preconditions : Option String → Option String → DeleteOption

-- `Applier` without its `Group`. `Parent` is read while decoding only, where it is an argument.
pub record Node (O : Type 0) : Type 0 where
  pub kind : Kind
  pub apply_defaults : ApplyDefaults
  pub error_policy : String
  pub resource_apply_options : List ApplyOption
  pub resource_delete_options : List DeleteOption
  pub resource : Option O
  pub sub_resource : String

mutual
  pub data Applier (O : Type 0) : Type 0 where
    applier : Node O → Appliers O → Applier O

  pub data Appliers (O : Type 0) : Type 0 where
    nil : Appliers O
    cons : Applier O → Appliers O → Appliers O
