-- ===== src/Api.antt =====
-- api/v1alpha1/managed_resource_types.go: the resources and their accessors. `TriggerWatchResource`
-- and `ContextResource` have the same fields and methods and are one record here, the
-- `ClusterResource` that both implement.
pub mod Version
use Prim.Native.Char.{code}
use Prim.Native.String
use espejote.Base.{String, ℕ, Bool, true, Option, none, some, List, num_eq, if◌then◌else◌}
use espejote.Kube.{Gvk}

-- A label selector, by its text.
abbrev pub LabelSelector : Type 0
LabelSelector = String

-- A `time.Duration` that is not negative, in nanoseconds.
abbrev pub Duration : Type 0
Duration = ℕ

pub record ClusterResource : Type 0 where
  pub api_version : String
  pub kind : String
  pub name : String
  pub namespace : Option String
  pub label_selector : Option LabelSelector
  pub match_names : List String
  pub ignore_names : List String
  pub strip_managed_fields : Option Bool

-- The resource that a trigger watches, and the one of a context.
abbrev pub TriggerWatchResource : Type 0
TriggerWatchResource = ClusterResource

abbrev pub ContextResource : Type 0
ContextResource = ClusterResource

pub record ManagedResourceContext : Type 0 where
  pub name : String
  pub resource : ContextResource

-- `watch_context_resource` is the name of the context.
pub record ManagedResourceTrigger : Type 0 where
  pub name : String
  pub interval : Duration
  pub watch_resource : TriggerWatchResource
  pub watch_context_resource : String

pub record ApplyOptions : Type 0 where
  pub field_manager : String
  pub force : Bool

pub record ManagedResourceSpec : Type 0 where
  pub triggers : List ManagedResourceTrigger
  pub context : List ManagedResourceContext
  pub service_account_ref : String
  pub template : String
  pub cache_sync_timeout : Duration
  pub apply_options : ApplyOptions

-- The metadata that the code reads; `deleting` is a deletion timestamp that is not zero.
pub record ManagedResource : Type 0 where
  pub name : String
  pub namespace : String
  pub generation : ℕ
  pub deleting : Bool
  pub spec : ManagedResourceSpec
  pub status : String

-- strings.SplitN(s, "/", 2): `none` is a single part.
unfoldable pub split_slash : String → Option (String × String)
split_slash String.[] = none
split_slash (String.◌∷◌ c s) =
    let rest = split_slash s in
    if num_eq (code c) b'/'
    then some ("", s)
    else elim rest [ none ↦ none | some (group, version) ↦ some (String.◌∷◌ c group, version) ]

unfoldable pub get_version : ClusterResource → String
unfolding split_slash
get_version t = elim (split_slash t.api_version) [
  | some (group, version) ↦ version
  | none ↦ t.api_version
]

unfoldable pub get_group : ClusterResource → String
unfolding split_slash
get_group t = elim (split_slash t.api_version) [ some (group, version) ↦ group | none ↦ "" ]

-- `ptr.Deref(t.StripManagedFields, true)`
abbrev pub get_strip_managed_fields : ClusterResource → Bool
get_strip_managed_fields t = elim t.strip_managed_fields [ some b ↦ b | none ↦ true ]

abbrev pub get_gvk : ClusterResource → Gvk
get_gvk t = record { group = get_group t; version = get_version t; kind = t.kind }
