-- ===== src/Base/Tables.antt =====
-- Go maps with string keys: the last insertion is first, and a lookup takes the first.
use Prim.Native.String.{String}
use mathlib.Core.Path.{◌≡◌, refl, subst}
use mathlib.Core.Logic.{inl, inr}
use mathlib.Core.Option.{Option, none, some}
use mathlib.Core.List.{List, [], ◌∷◌}
use text.Mathlib.Text.{◌==◌}
use text.Mathlib.TextEquality.{eq_iff}
use native.Mathlib.Omega.{arith}
use espejote.Base.Tests.{if◌then◌else◌}
use espejote.Base.Lists.{All, Listed, Distinct}

abbrev pub Table : Type 0 → Type 0
Table V = List (String × V)

abbrev pub lookup : {V : Type 0} → String → Table V → Option V
lookup k [] = none
lookup k ((j, v) ∷ m) = if j == k then some v else lookup k m

-- None of the names has an entry yet.
abbrev pub Unused : {V : Type 0} → Table V → List String → Type 0
Unused table names = All (λ k. lookup k table ≡ none) names

pub Unused-insert :
    {V : Type 0} (k : String) (v : V) (table : Table V) (names : List String)
    → ¬ Listed k names
    → Unused table names
    → Unused ((k, v) ∷ table) names
Unused-insert k v table [] apart unused = tt
Unused-insert k v table (n ∷ names) apart unused =
    ground (arith, eq_iff k n, Unused-insert k v table names)

pub Unused-nil : (V : Type 0) (names : List String) → Unused {V = V} [] names
Unused-nil V [] = tt
Unused-nil V (k ∷ names) = (refl, Unused-nil V names)

module _ {T : Type 0} (f : T → String) where
  abbrev pub values : List T → List String
  values [] = []
  values (el ∷ s) = f el ∷ values s

  -- The elements by their names.
  abbrev pub named : List T → Table T
  named [] = []
  named (el ∷ s) = (f el, el) ∷ named s

  pub Listed-values : (x : T) (xs : List T) → Listed x xs → Listed (f x) (values xs)
  Listed-values x [] h = elim h [ ]
  Listed-values x (y ∷ ys) (inl same) = inl (subst (λ z. f y ≡ f z) same refl)
  Listed-values x (y ∷ ys) (inr later) = inr (Listed-values x ys later)

  pub lookup-named :
      (x : T) (xs : List T) → Distinct (values xs) → Listed x xs → lookup (f x) (named xs) ≡ some x
  lookup-named x [] d h = elim h [ ]
  lookup-named x (y ∷ ys) d (inl same) =
      subst (λ z. lookup (f z) ((f y, y) ∷ named ys) ≡ some z) same
        (ground (arith, eq_iff (f y) (f y)))
  lookup-named x (y ∷ ys) (apart, d) (inr later) =
      ground (arith, eq_iff (f y) (f x), Listed-values x ys later, lookup-named x ys d later)
