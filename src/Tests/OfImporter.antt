-- ===== src/Tests/OfImporter.antt =====
-- Runs of the importer, and its theorems at concrete inputs.
use espejote.Base.{String, none, some, [], ◌≡◌, refl, Result, ok, err, ◌==◌, if◌then◌else◌}
use espejote.Base.Text.{Text, codes, slash, text_eq, count, split, trim_prefix}
use espejote.Kube.{ApiError, not_found}
use espejote.Importer.{
  Library, Importer, load_from_cluster, make_absolute_import_path, split_last_segment, target,
  local, library,
}
use espejote.Importer.Cache.{IsFresh, IsFresh-nil, SaysAs, import_file, import_file-says}
use espejote.Importer.Paths.{reaches, local_path, reaches_from_local_lib}

relative_run : make_absolute_import_path (codes "lib/net/a") (codes "./b") ≡ codes "lib/net/b"
unfolding make_absolute_import_path split_last_segment count trim_prefix
relative_run = refl

abbrev pub data_of : Library
data_of key = if text_eq key (codes "a") then some (codes "{}") else none

-- One manifest, "net", in the namespace "libs".
abbrev pub cluster : String → Text → Result ApiError Library
cluster namespace name =
    if namespace == "libs"
    then (if text_eq name (codes "net") then ok data_of else err not_found)
    else err not_found

abbrev pub importer : Importer
importer = record { namespace = "team"; library_namespace = "libs" }

load_run : load_from_cluster cluster importer (codes "lib/net/a") ≡ ok (codes "{}")
unfolding load_from_cluster text_eq
load_run = refl

import_file-says_example :
    SaysAs cluster importer
      (import_file cluster importer (codes "") [] (codes "lib/net/a") []).0
      (load_from_cluster cluster importer (make_absolute_import_path [] (codes "lib/net/a")))
      (make_absolute_import_path [] (codes "lib/net/a"))
    × IsFresh cluster importer (import_file cluster importer (codes "") [] (codes "lib/net/a") []).1
unfolding text_eq
import_file-says_example =
    import_file-says cluster importer (codes "") [] (codes "lib/net/a") []
      (IsFresh-nil cluster importer) refl

reaches_from_local_lib_example :
    (target (split (local_path (codes "lib") (codes "a")) slash) ≡ local (codes "lib") (codes "a"))
    × (reaches (local_path (codes "lib") (codes "a")) (local_path (codes "rbac") (codes "b"))
        ≡ library (codes "rbac") (codes "b"))
unfolding count text_eq
reaches_from_local_lib_example =
    reaches_from_local_lib (codes "a") (codes "rbac") (codes "b") refl refl refl refl
