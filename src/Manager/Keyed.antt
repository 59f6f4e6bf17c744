-- ===== src/Manager/Keyed.antt =====
-- Go maps by a NamespacedName, and the contexts that are not canceled.
use espejote.Base.{
  ℕ, Bool, true, ◌&&◌, Option, none, some, List, [], ◌∷◌, ◌==◌, num_eq, if◌then◌else◌, ◌≡◌, ◌≢◌,
  ◌↔◌, refl, arith, eq_iff,
}
use espejote.Kube.{NamespacedName}

-- A key may stand in a table several times; the first counts.
abbrev pub Table : Type 0 → Type 0
Table V = List (NamespacedName × V)

abbrev pub key_eq : NamespacedName → NamespacedName → Bool
key_eq a b = a.namespace == b.namespace && a.name == b.name

pub key_eq_iff : (a b : NamespacedName) → (key_eq a b ≡ true) ↔ (a ≡ b)
key_eq_iff a b = ground (arith, eq_iff a.namespace b.namespace, eq_iff a.name b.name)

module _ {V : Type 0} where
  unfoldable pub lookup : NamespacedName → Table V → Option V
  lookup k [] = none
  lookup k ((j, v) ∷ m) = let rest = lookup k m in if key_eq j k then some v else rest

  unfoldable pub delete : NamespacedName → Table V → Table V
  delete k [] = []
  delete k ((j, v) ∷ m) = let rest = delete k m in if key_eq j k then rest else (j, v) ∷ rest

  abbrev pub insert : NamespacedName → V → Table V → Table V
  insert k v m = (k, v) ∷ m

  pub lookup-delete : (k : NamespacedName) (m : Table V) → lookup k (delete k m) ≡ none
  unfolding lookup delete
  lookup-delete k [] = refl
  lookup-delete k ((j, v) ∷ m) = ground (arith, lookup-delete k m)

  pub lookup-delete_other :
      (j k : NamespacedName) (m : Table V) → j ≢ k → lookup k (delete j m) ≡ lookup k m
  unfolding lookup delete
  lookup-delete_other j k [] h = refl
  lookup-delete_other j k ((i, v) ∷ m) h =
      ground (arith, lookup-delete_other j k m, key_eq_iff i j, key_eq_iff i k)

  pub delete_absent : (k : NamespacedName) (m : Table V) → lookup k m ≡ none → delete k m ≡ m
  unfolding lookup delete
  delete_absent k [] h = refl
  delete_absent k ((j, v) ∷ m) h = ground (arith, delete_absent k m)

-- A context canceled.
unfoldable pub cancel : ℕ → List ℕ → List ℕ
cancel c [] = []
cancel c (d ∷ ds) = let rest = cancel c ds in if num_eq d c then rest else d ∷ rest
