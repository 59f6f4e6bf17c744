-- ===== src/Cli/Libraries.antt =====
-- The libraries of a collected input: what the importer has loaded, for espejoteMemoryImporter.
pub mod Loaded
pub mod Replay
pub mod Evaluation
use espejote.Base.{String, Option, none, some, List, [], ◌∷◌, Result, ok, err, ◌>>=◌}
use espejote.Base.Text.{Text}
use espejote.Kube.{ApiError}
use espejote.Importer.{Library, Importer}
use espejote.Importer.Cache.{Entry, ImportError, Store, import_file}

-- `empty` is the text of `jsonnet.Contents{}`.
abbrev pub text_of : Text → Option Text → Text
text_of empty none = empty
text_of empty (some c) = c

-- The loop over the cache of the importer.
unfoldable pub libraries_of : Text → Store → List (Text × Text)
libraries_of empty [] = []
libraries_of empty ((k, e) ∷ cache) =
    (e.found_at, text_of empty e.contents) ∷ libraries_of empty cache

-- An import and what it got.
pub record Import : Type 0 where
  pub from : Text
  pub path : Text
  pub entry : Entry

module _ (get : String → Text → Result ApiError Library) (im : Importer) (embedded : Text) where
  -- The imports of an evaluation, up to the first that fails.
  unfoldable pub import_all : List (Text × Text) → Store → Result ImportError (List Import × Store)
  import_all [] cache = ok ([], cache)
  import_all ((from, path) ∷ rs) cache =
      let (e, cache') = import_file get im embedded from path cache in
      elim e.error [
        | some x ↦ err x
        | none ↦ do
          done ← import_all rs cache'
          ok (record { from = from; path = path; entry = e } ∷ done.0, done.1)
      ]
