-- ===== src/Base/Text.antt =====
-- Texts as lists of bytes, and the functions of Go's package strings that the code calls on them.
use Prim.Native.Char.{code}
use Prim.Native.Nat.{ℕ, zero, suc, ◌+◌}
use Prim.Native.String.{String}
use mathlib.Core.Path.{◌≡◌}
use mathlib.Core.Logic.{◌↔◌}
use mathlib.Core.Bool.{Bool, true, false, ◌&&◌}
use mathlib.Core.List.{List, [], ◌∷◌, ◌++◌, append_assoc, append-nil}
use mathlib.Core.Option.{Option, none, some}
use native.Mathlib.Omega.{arith}
use espejote.Base.Tests.{num_eq, if◌then◌else◌}

abbrev pub Text : Type 0
Text = List ℕ

abbrev pub codes : String → Text
codes String.[] = []
codes (String.◌∷◌ c s) = code c ∷ codes s

abbrev pub slash : ℕ
slash = b'/'

unfoldable pub text_eq : Text → Text → Bool
text_eq [] [] = true
text_eq [] (b ∷ t) = false
text_eq (a ∷ s) [] = false
text_eq (a ∷ s) (b ∷ t) = num_eq a b && text_eq s t

pub text_eq_iff : (s t : Text) → (text_eq s t ≡ true) ↔ (s ≡ t)
unfolding text_eq
text_eq_iff [] [] = ground arith
text_eq_iff [] (b ∷ t) = ground arith
text_eq_iff (a ∷ s) [] = ground arith
text_eq_iff (a ∷ s) (b ∷ t) = ground (arith, text_eq_iff s t)

-- strings.HasPrefix(s, p)
unfoldable pub has_prefix : Text → Text → Bool
has_prefix s [] = true
has_prefix [] (b ∷ p) = false
has_prefix (a ∷ s) (b ∷ p) = num_eq a b && has_prefix s p

abbrev pub take : ℕ → Text → Text
take zero s = []
take (suc n) [] = []
take (suc n) (a ∷ s) = a ∷ take n s

abbrev pub drop : ℕ → Text → Text
drop zero s = s
drop (suc n) [] = []
drop (suc n) (a ∷ s) = drop n s

abbrev pub len : Text → ℕ
len [] = 0
len (a ∷ s) = suc (len s)

-- strings.TrimPrefix(s, p)
unfoldable pub trim_prefix : Text → Text → Text
unfolding has_prefix
trim_prefix s p = if has_prefix s p then drop (len p) s else s

-- strings.Count(s, "c") for a single byte
unfoldable pub count : Text → ℕ → ℕ
count [] c = 0
count (a ∷ s) c = let n = count s c in if num_eq a c then suc n else n

-- strings.LastIndex(s, "c") for a single byte; `none` is -1
unfoldable pub last_index : Text → ℕ → Option ℕ
last_index [] c = none
last_index (a ∷ s) c = elim (last_index s c) [
  | some i ↦ some (suc i)
  | none ↦ if num_eq a c then some 0 else none
]

-- strings.Split(s, "c") for a single byte: `cur` is the part that is being read
unfoldable pub split_from : Text → Text → ℕ → List Text
split_from cur [] c = cur ∷ []
split_from cur (a ∷ s) c =
    let next = split_from (if num_eq a c then [] else cur ++ a ∷ []) s c in
    if num_eq a c then cur ∷ next else next

unfoldable pub split : Text → ℕ → List Text
unfolding split_from
split s c = split_from [] s c

pub count-append : (s t : Text) (c : ℕ) → count (s ++ t) c ≡ count s c + count t c
unfolding count
count-append [] t c = omega arith
count-append (a ∷ s) t c = ground (arith, count-append s t c)

-- A text without `c` is one part, and a part without `c` ends at the first `c`.
pub split_from_of_none :
    (cur s : Text) (c : ℕ) → count s c ≡ 0 → split_from cur s c ≡ (cur ++ s) ∷ []
unfolding split_from count
split_from_of_none cur [] c h = ground (arith, append-nil cur)
split_from_of_none cur (a ∷ s) c h =
    ground (arith, append_assoc cur (a ∷ []) s, split_from_of_none (cur ++ a ∷ []) s c)

pub split_from-append :
    (cur s t : Text) (c : ℕ)
    → count s c ≡ 0
    → split_from cur (s ++ c ∷ t) c ≡ (cur ++ s) ∷ split_from [] t c
unfolding split_from count
split_from-append cur [] t c h = ground (arith, append-nil cur)
split_from-append cur (a ∷ s) t c h =
    ground (arith, append_assoc cur (a ∷ []) s, split_from-append (cur ++ a ∷ []) s t c)
