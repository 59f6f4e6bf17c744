-- ===== src/Tests/Samples.antt =====
-- A small object library that keeps the settings of an object in two tables, and a client that logs
-- its calls.
use espejote.Base.{
  String, Bool, true, false, Option, none, some, List, [], ◌∷◌, refl, Result, ok, err, ◌==◌, ◌&&◌,
  if◌then◌else◌,
}
use espejote.Kube.{Gvk, Unstructured, SetterLaws, ApiError, not_found, other, Cause}
use espejote.Applygroup.{ApplyDefaults}
use espejote.Applygroup.Apply.{Client, ApplyError}

pub record Obj : Type 0 where
  pub gvk : Gvk
  pub namespace : String
  pub name : String
  pub strings : List (String × String × String)
  pub bools : List (String × String × Bool)

abbrev pub find : {V : Type 0} → String → String → List (String × String × V) → Option V
find key field [] = none
find key field ((k, f, v) ∷ m) = if k == key && f == field then some v else find key field m

abbrev pub no_gvk : Gvk
no_gvk = record { group = ""; version = ""; kind = "" }

abbrev pub bare : Obj
bare = record { gvk = no_gvk; namespace = ""; name = ""; strings = []; bools = [] }

abbrev pub config_map : String → Obj
config_map name = record bare {
  gvk = record { group = ""; version = "v1"; kind = "ConfigMap" };
  name = name;
}

abbrev pub group_config : String → Obj
group_config policy = record bare {
  gvk = record { group = "internal.espejote.io"; version = "v1"; kind = "ApplyGroupConfig" };
  strings = ("spec", "errorPolicy", policy) ∷ [];
}

abbrev pub deletion : String → Obj
deletion name = record (config_map name) {
  bools = ("__internal_use_espejote_lib_deletion", "delete", true) ∷ [];
}

-- A text stands for the object of that name.
abbrev pub parse : String → Result Cause Obj
parse text =
    if text == "Abort"
    then ok (group_config "Abort")
    else if text == "gone"
    then ok (deletion "gone")
    else if text == ""
    then err "unexpected end of input"
    else ok (config_map text)

abbrev pub sample_objects : Unstructured
sample_objects = record {
  Object = Obj;
  unmarshal = parse;
  new = bare;
  gvk = λ o. o.gvk;
  namespace = λ o. o.namespace;
  name = λ o. o.name;
  set_gvk = λ g o. record o { gvk = g };
  set_namespace = λ n o. record o { namespace = n };
  set_name = λ n o. record o { name = n };
  nested_string = λ o key field. ok (find key field o.strings);
  nested_bool = λ o key field. ok (find key field o.bools);
  nested_int64 = λ o key field. ok none;
  remove_nested_field = λ o key. record o { strings = [] };
}

abbrev pub sample_laws : SetterLaws sample_objects
sample_laws = record {
  gvk-set_gvk = λ g o. refl;
  gvk-set_namespace = λ n o. refl;
  gvk-set_name = λ n o. refl;
  namespace-set_namespace = λ n o. refl;
  namespace-set_name = λ n o. refl;
  name-set_name = λ n o. refl;
  name-set_namespace = λ n o. refl;
}

abbrev pub defaults : ApplyDefaults
defaults = record {
  field_manager = "";
  force = false;
  field_manager_fallback = "managed-resource:sample";
}

-- The names of the objects written, the last first; an object named "bad" is refused.
abbrev pub logged : Obj → List String → Option ApiError × List String
logged o s = if o.name == "bad" then (some (other "refused"), s) else (none, o.name ∷ s)

abbrev pub sample_client : Client (List String) Obj
sample_client = record {
  apply_object = λ o opts s. logged o s;
  apply_sub_resource = λ sub o opts s. logged o s;
  delete_object = λ o opts s. if o.name == "gone" then (some not_found, s) else logged o s;
}

-- The first of several errors stands for all.
abbrev pub first_error : List (ApplyError Obj) → Option (ApplyError Obj)
first_error [] = none
first_error (e ∷ es) = some e
