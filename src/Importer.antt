-- ===== src/Importer.antt =====
-- controllers/jsonnet.go: imports of a template, from the embedded library and from
-- JsonnetLibrary manifests. `client.Client.Get` is the parameter `get`.
pub mod Paths
pub mod Cache
use espejote.Base.{
  suc, String, ◌&&◌, Option, none, some, List, [], ◌∷◌, ◌++◌, ◌==◌, num_eq, if◌then◌else◌, Result,
  ok, err,
}
use espejote.Base.Text.{
  Text, codes, slash, text_eq, has_prefix, trim_prefix, count, last_index, split, take, drop,
}
use espejote.Kube.{ApiError}

-- The directory and the last segment of a path.
unfoldable pub split_last_segment : Text → Text × Text
unfolding last_index
split_last_segment path = elim (last_index path slash) [
  | none ↦ ([], path)
  | some li ↦ (take li path, drop (suc li) path)
]

unfoldable pub make_absolute_import_path : Text → Text → Text
make_absolute_import_path imported_from import_path =
    let path = trim_prefix import_path (codes "./") in
    if num_eq (count path slash) 0
    then (split_last_segment imported_from).0 ++ slash ∷ path
    else if num_eq (count path slash) 1 && has_prefix imported_from (codes "lib/")
    then codes "lib/" ++ path
    else path

-- `Spec.Data` of a JsonnetLibrary.
abbrev pub Library : Type 0
Library = Text → Option Text

pub data LoadError : Type 0 where
  invalid_path no_local_namespace : LoadError
  not_available : ApiError → LoadError
  key_not_found : Text → Text → LoadError

-- ManifestImporter without its cache.
pub record Importer : Type 0 where
  pub namespace : String
  pub library_namespace : String

-- The namespace, the manifest and the key that a path names; `none` is an invalid path.
pub data Target : Type 0 where
  local library : Text → Text → Target
  invalid : Target

unfoldable pub target : List Text → Target
unfolding text_eq
target (manifest ∷ key ∷ []) = local manifest key
target (a ∷ manifest ∷ key ∷ []) = if text_eq a (codes "lib") then library manifest key else invalid
target _ = invalid

module _ (get : String → Text → Result ApiError Library) (im : Importer) where
  pub fetch : String → Text → Text → Result LoadError Text
  fetch namespace manifest key = elim (get namespace manifest) [
    | err e ↦ err (not_available e)
    | ok lib ↦ elim (lib key) [
      | some content ↦ ok content
      | none ↦ err (key_not_found key manifest)
    ]
  ]

  -- The contents; on success the path itself is where they are found.
  unfoldable pub load_from_cluster : Text → Result LoadError Text
  unfolding target split fetch
  load_from_cluster path = elim (target (split path slash)) [
    | invalid ↦ err invalid_path
    | local manifest key ↦
        if im.namespace == "" then err no_local_namespace else fetch im.namespace manifest key
    | library manifest key ↦ fetch im.library_namespace manifest key
  ]
