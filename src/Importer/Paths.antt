-- ===== src/Importer/Paths.antt =====
-- The topology of imports: which manifest of which namespace a path names, by the importing file.
use mathlib.Core.Path.{ap₂}
use espejote.Base.{
  if◌then◌else◌, ℕ, suc, true, false, some, none, [], ◌∷◌, ◌++◌, ◌≡◌, refl, ap, arith, Bool-cases,
  inl, inr,
}
use espejote.Base.Text.{
  Text, codes, slash, text_eq, has_prefix, trim_prefix, count, count-append, last_index, take, drop,
  len, split, split_from_of_none, split_from-append,
}
use espejote.Importer.{
  split_last_segment, make_absolute_import_path, target, Target, local, library,
}

-- A name with no slash in it.
abbrev pub IsSegment : Text → Type 0
IsSegment s = count s slash ≡ 0

-- The file `key` of a manifest in the namespace of the ManagedResource, and in the library's.
abbrev pub local_path : Text → Text → Text
local_path manifest key = manifest ++ slash ∷ key

abbrev pub library_path : Text → Text → Text
library_path manifest key = codes "lib/" ++ local_path manifest key

last_index_of_none : (s : Text) → IsSegment s → last_index s slash ≡ none
unfolding last_index count
last_index_of_none [] h = refl
last_index_of_none (a ∷ s) h = ground (arith, last_index_of_none s)

last_index-append :
    (dir last : Text) → IsSegment last → last_index (dir ++ slash ∷ last) slash ≡ some (len dir)
unfolding last_index
last_index-append [] last h = rw (last_index_of_none last h) refl
last_index-append (a ∷ dir) last h = rw (last_index-append dir last h) refl

take-append : (dir s : Text) → take (len dir) (dir ++ s) ≡ dir
take-append [] s = refl
take-append (a ∷ dir) s = ap (λ t. a ∷ t) (take-append dir s)

drop-append : (dir : Text) (a : ℕ) (s : Text) → drop (suc (len dir)) (dir ++ a ∷ s) ≡ s
drop-append [] a s = refl
drop-append (b ∷ dir) a s = drop-append dir a s

-- A path is cut at its last slash.
pub split_last_segment-append :
    (dir last : Text) → IsSegment last → split_last_segment (dir ++ slash ∷ last) ≡ (dir, last)
unfolding split_last_segment
split_last_segment-append dir last h =
    rw (last_index-append dir last h, split_last_segment)
      (ap₂ (λ s t. (s, t)) (take-append dir _) (drop-append dir slash last))

-- A text that starts with "./" has a slash.
segment_trimmed : (s : Text) → IsSegment s → trim_prefix s (codes "./") ≡ s
unfolding trim_prefix has_prefix count
segment_trimmed [] h = refl
segment_trimmed (a ∷ []) h = ground arith
segment_trimmed (a ∷ b ∷ s) h = ground arith

path_trimmed :
    (n x : Text)
    → IsSegment n
    → text_eq n (codes ".") ≡ false
    → trim_prefix (local_path n x) (codes "./") ≡ local_path n x
unfolding trim_prefix has_prefix count text_eq
path_trimmed [] x h e = refl
path_trimmed (a ∷ []) x h e = ground arith
path_trimmed (a ∷ b ∷ n) x h e = ground arith

target_local :
    (m k : Text) → IsSegment m → IsSegment k → target (split (local_path m k) slash) ≡ local m k
unfolding split target
target_local m k hm hk =
    rw (split_from-append [] m k slash hm, split_from_of_none [] k slash hk) refl

target_library :
    (m k : Text) → IsSegment m → IsSegment k → target (split (library_path m k) slash) ≡ library m k
unfolding split target text_eq count
target_library m k hm hk =
    rw
      (
        split_from-append [] (codes "lib") (local_path m k) slash refl,
        split_from-append [] m k slash hm,
        split_from_of_none [] k slash hk,
      )
      refl

count_path : (m k : Text) → IsSegment m → IsSegment k → count (local_path m k) slash ≡ 1
unfolding count
count_path m k hm hk = rw count-append (ground (arith))

absolute_of_segment :
    (dir last x : Text)
    → IsSegment last
    → IsSegment x
    → make_absolute_import_path (dir ++ slash ∷ last) x ≡ dir ++ slash ∷ x
unfolding make_absolute_import_path
absolute_of_segment dir last x hl hx =
    rw (segment_trimmed x hx, hx, split_last_segment-append dir last hl) refl

absolute_of_path :
    (from n x : Text)
    → IsSegment n
    → IsSegment x
    → text_eq n (codes ".") ≡ false
    → make_absolute_import_path from (local_path n x)
      ≡ (if has_prefix from (codes "lib/") then library_path n x else local_path n x)
unfolding make_absolute_import_path
absolute_of_path from n x hn hx e = elim (Bool-cases (has_prefix from (codes "lib/"))) [
  | inl lib ↦ rw (path_trimmed n x hn e, count_path n x hn hx, lib) refl
  | inr other ↦ rw (path_trimmed n x hn e, count_path n x hn hx, other) refl
]

-- The manifest that an import reaches: the namespace, the manifest's name and the key.
abbrev pub reaches : Text → Text → Target
reaches from path = target (split (make_absolute_import_path from path) slash)

library_prefix : (s : Text) → has_prefix (codes "lib/" ++ s) (codes "lib/") ≡ true
unfolding has_prefix
library_prefix s = refl

-- Bare and name/key imports by a file of the library namespace reach that namespace, where no part
-- has a slash and the name is not a dot.
pub reaches_from_library :
    (m k n x : Text)
    → IsSegment m
    → IsSegment k
    → IsSegment n
    → IsSegment x
    → text_eq n (codes ".") ≡ false
    → (reaches (library_path m k) x ≡ library m x)
      × (reaches (library_path m k) (local_path n x) ≡ library n x)
reaches_from_library m k n x hm hk hn hx e = (
  rw (absolute_of_segment (codes "lib/" ++ m) k x hk hx) (target_library m x hm hx),
  rw (absolute_of_path (library_path m k) n x hn hx e, library_prefix (local_path m k))
      (target_library n x hn hx),
)

-- A local name other than "lib" gives no path below "lib/".
local_prefix :
    (m k : Text)
    → IsSegment m
    → text_eq m (codes "lib") ≡ false
    → has_prefix (local_path m k) (codes "lib/") ≡ false
unfolding has_prefix text_eq count
local_prefix [] k h e = refl
local_prefix (a ∷ []) k h e = ground arith
local_prefix (a ∷ b ∷ []) k h e = ground arith
local_prefix (a ∷ b ∷ c ∷ []) k h e = ground arith
local_prefix (a ∷ b ∷ c ∷ d ∷ m) k h e = ground arith

-- Bare and name/key imports by a file of a local manifest that is not named lib reach the local
-- namespace, where no part has a slash and the imported name is not a dot.
pub reaches_from_local :
    (m k n x : Text)
    → IsSegment m
    → IsSegment k
    → IsSegment n
    → IsSegment x
    → text_eq m (codes "lib") ≡ false
    → text_eq n (codes ".") ≡ false
    → (reaches (local_path m k) x ≡ local m x)
      × (reaches (local_path m k) (local_path n x) ≡ local n x)
reaches_from_local m k n x hm hk hn hx not_lib e = (
  rw (absolute_of_segment m k x hk hx) (target_local m x hm hx),
  rw (absolute_of_path (local_path m k) n x hn hx e, local_prefix m k hm not_lib)
      (target_local n x hn hx),
)

-- A file of a local manifest named lib is loaded from the local namespace, and a name/key import by
-- it reaches the library namespace, where no part has a slash and the name is not a dot.
pub reaches_from_local_lib :
    (k n x : Text)
    → IsSegment k
    → IsSegment n
    → IsSegment x
    → text_eq n (codes ".") ≡ false
    → (target (split (local_path (codes "lib") k) slash) ≡ local (codes "lib") k)
      × (reaches (local_path (codes "lib") k) (local_path n x) ≡ library n x)
unfolding count
reaches_from_local_lib k n x hk hn hx e = (
  target_local (codes "lib") k refl hk,
  rw (absolute_of_path (local_path (codes "lib") k) n x hn hx e, library_prefix k)
      (target_library n x hn hx),
)
