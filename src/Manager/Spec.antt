-- ===== src/Manager/Spec.antt =====
-- What the manager of instances promises, without its controllers, contexts and errors: which
-- configuration each resource runs with, and what a reconciliation may make of that.
pub mod Refines
pub mod Provenance
use espejote.Base.{
  String, Bool, true, false, Option, none, some, List, [], ◌∷◌, ◌≡◌, ◌≢◌, ◌⊎◌, if◌then◌else◌,
  Result, ok, err,
}
use espejote.Kube.{ApiError, not_found, other, NamespacedName, Cause}
use espejote.Api.{ManagedResource}
use espejote.Manager.Keyed.{lookup}
use espejote.Manager.{State, Env, ResourceController, key_of, config_hash_for_managed_resource}

-- The hash of the configuration that a resource's controller is for.
abbrev pub Spec : Type 0
Spec = NamespacedName → Option String

abbrev pub hash_of : {C : Type 0} → Option (ResourceController C) → Option String
hash_of none = none
hash_of (some rc) = some rc.config_hash

abbrev pub running : {C : Type 0} → State C → Spec
running st k = hash_of (lookup k st.controllers)

-- A reconciliation of the resource `key`, with what it reads and what the libraries answer.
pub record Request (C : Type 0) : Type 0 where
  pub env : Env C
  pub key : NamespacedName
  pub get : Result ApiError ManagedResource

-- What a reconciliation finds out: nothing, that there is no resource, or its configuration.
pub data Wanted : Type 0 where
  unknown absent : Wanted
  configured : String → Wanted

abbrev pub wanted_hash : Result Cause String → Wanted
wanted_hash (ok hash) = configured hash
wanted_hash (err e) = unknown

abbrev pub wanted_by : {C : Type 0} → Env C → Result ApiError ManagedResource → Wanted
wanted_by env (err not_found) = absent
wanted_by env (err (other c)) = unknown
wanted_by env (ok mr) =
    if mr.deleting then absent else wanted_hash (config_hash_for_managed_resource env.hasher mr)

-- A resource that is not there has no controller; one that is there has a controller for its
-- configuration, or none where it had none for it and a new one cannot be started.
abbrev pub Moves : Wanted → Option String → Option String → Type 0
Moves unknown before after = after ≡ before
Moves absent before after = after ≡ none
Moves (configured hash) before after = (after ≡ some hash) ⊎ ((after ≡ none) × (before ≢ some hash))

-- A reconciliation moves its own resource, and no other.
abbrev pub Step : {C : Type 0} → Request C → Spec → Spec → Type 0
Step r s s' =
    Moves (wanted_by r.env r.get) (s r.key) (s' r.key)
    × ((k : NamespacedName) → r.key ≢ k → s' k ≡ s k)

abbrev pub Steps : {C : Type 0} → List (Request C) → Spec → Spec → Type 0
Steps [] s s' = (k : NamespacedName) → s' k ≡ s k
Steps (r ∷ rs) s s' = (m : Spec) × Step r s m × Steps rs m s'

abbrev pub IsNamedOf : NamespacedName → Result ApiError ManagedResource → Type 0
IsNamedOf key (ok mr) = key_of mr ≡ key
IsNamedOf key (err e) = Unit

-- The API server gives the resource that it was asked for.
abbrev pub IsNamed : {C : Type 0} → Request C → Type 0
IsNamed r = IsNamedOf r.key r.get
