-- ===== src/Kube.antt =====
-- What the controllers take from the Kubernetes libraries, as parameters: unstructured objects
-- with their accessors, and the errors of an API call.
use espejote.Base.{String, ℕ, ◌≡◌, Bool, Option, Result}

-- schema.GroupVersionKind
pub record Gvk : Type 0 where
  pub group : String
  pub version : String
  pub kind : String

-- types.NamespacedName
pub record NamespacedName : Type 0 where
  pub namespace : String
  pub name : String

-- The text of an error that a library returns and the code only wraps.
abbrev pub Cause : Type 0
Cause = String

-- An error of an API call: `apierrors.IsNotFound` tells the two apart.
pub data ApiError : Type 0 where
  not_found : ApiError
  other : Cause → ApiError

-- An int64, by its bit pattern.
abbrev pub Int64 : Type 0
Int64 = ℕ

-- unstructured.Unstructured: `nested_string o key field` is
-- `unstructured.NestedString(o.UnstructuredContent(), key, field)`. An accessor fails where the
-- value has another type, and `ok none` is a value that is not there.
pub record Unstructured : Type 1 where
  pub Object : Type 0
  pub unmarshal : String → Result Cause Object
  pub new : Object
  pub gvk : Object → Gvk
  pub namespace : Object → String
  pub name : Object → String
  pub set_gvk : Gvk → Object → Object
  pub set_namespace : String → Object → Object
  pub set_name : String → Object → Object
  pub nested_string : Object → String → String → Result Cause (Option String)
  pub nested_bool : Object → String → String → Result Cause (Option Bool)
  pub nested_int64 : Object → String → String → Result Cause (Option Int64)
  pub remove_nested_field : Object → String → Object

-- The documented behaviour of the setters: a getter reads what was set, and the other two
-- properties stay.
pub record SetterLaws (U : Unstructured) : Type 0 where
  pub gvk-set_gvk : (g : Gvk) (o : U.Object) → U.gvk (U.set_gvk g o) ≡ g
  pub gvk-set_namespace : (n : String) (o : U.Object) → U.gvk (U.set_namespace n o) ≡ U.gvk o
  pub gvk-set_name : (n : String) (o : U.Object) → U.gvk (U.set_name n o) ≡ U.gvk o
  pub namespace-set_namespace : (n : String) (o : U.Object) → U.namespace (U.set_namespace n o) ≡ n
  pub namespace-set_name :
      (n : String) (o : U.Object) → U.namespace (U.set_name n o) ≡ U.namespace o
  pub name-set_name : (n : String) (o : U.Object) → U.name (U.set_name n o) ≡ n
  pub name-set_namespace : (n : String) (o : U.Object) → U.name (U.set_namespace n o) ≡ U.name o
