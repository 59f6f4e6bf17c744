-- ===== src/Api/Version.antt =====
-- The group and the version of a resource make up its API version.
use Prim.Native.Char.{code}
use Prim.Native.String
use mathlib.Core.Path.{subst}
use Prim.Native.Char.{Char}
use text.Mathlib.TextEquality.{Char-path}
use text.Mathlib.TextLemmas.{nil-append, cons-append}
use espejote.Base.{
  String, none, some, num_eq, ◌≡◌, ◌≢◌, ◌⊎◌, refl, ap, arith, Bool-cases, Option-cases,
  some_injective, inl, inr,
}
use espejote.Api.{ClusterResource, split_slash, get_version, get_group}

abbrev pub NoSlash : String → Type 0
NoSlash String.[] = Unit
NoSlash (String.◌∷◌ c s) = (code c ≢ b'/') × NoSlash s

abbrev Cut : String → String × String → Type 0
Cut s (group, version) = (s ≡ String.◌++◌ group (String.◌++◌ "/" version)) × NoSlash group

slash_first : (c : Char) (s : String) → code c ≡ b'/' → Cut (String.◌∷◌ c s) ("", s)
slash_first c s h =
    (rw (nil-append, cons-append, nil-append) (ap (λ d. String.◌∷◌ d s) (Char-path c "/" h)), tt)

later_slash :
    (c : Char) (s : String) (r : String × String)
    → code c ≢ b'/'
    → Cut s r
    → Cut (String.◌∷◌ c s) (String.◌∷◌ c r.0, r.1)
later_slash c s (group, version) h (same, free) =
    (rw cons-append (ap (λ t. String.◌∷◌ c t) same), (h, free))

split_slash-some : (s : String) (r : String × String) → split_slash s ≡ some r → Cut s r
unfolding split_slash
split_slash-some String.[] r h = cc
split_slash-some (String.◌∷◌ c s) r h = elim (Bool-cases (num_eq (code c) b'/')) [
  | inl here ↦
      subst (Cut (String.◌∷◌ c s)) (some_injective (rw here at h)) (slash_first c s (ground arith))
  | inr later ↦ elim (Option-cases (split_slash s)) [
    | inl none_left ↦ cc (none_left, later, h)
    | inr (r', found) ↦
        subst (Cut (String.◌∷◌ c s)) (ground arith)
          (later_slash c s r' (ground arith) (split_slash-some s r' found))
  ]
]

split_slash-none : (s : String) → split_slash s ≡ none → NoSlash s
unfolding split_slash
split_slash-none String.[] h = tt
split_slash-none (String.◌∷◌ c s) h = (ground arith, split_slash-none s (ground arith))

-- An API version with a slash is its group, a slash and its version, cut at the first slash; one
-- with no slash is a version of the empty group.
pub api_version-cut :
    (t : ClusterResource)
    → ((t.api_version ≡ String.◌++◌ (get_group t) (String.◌++◌ "/" (get_version t)))
        × NoSlash (get_group t))
      ⊎ (NoSlash t.api_version × (get_group t ≡ "") × (get_version t ≡ t.api_version))
unfolding get_group get_version
api_version-cut t = elim (Option-cases (split_slash t.api_version)) [
  | inl uncut ↦ inr (
    split_slash-none t.api_version uncut,
    rw (uncut, get_group) refl,
    rw (uncut, get_version) refl,
  )
  | inr (r, found) ↦
      inl (rw (found, get_group, get_version) (split_slash-some t.api_version r found))
]
