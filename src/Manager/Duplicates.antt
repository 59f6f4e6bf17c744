-- ===== src/Manager/Duplicates.antt =====
-- findFirstDuplicate of controllers/managedresource_controller_manager.go.
use espejote.Base.{
  Distinct, Listed, String, Option, none, some, List, [], ◌∷◌, if◌then◌else◌, ◌≡◌, ◌↔◌, arith,
}
use espejote.Base.Tables.{values}
use espejote.Selection.{contains}
use espejote.Selection.Names.{contains_iff}

module _ {T : Type 0} (f : T → String) where
  -- The loop, with the set of values seen.
  unfoldable pub find_from : List String → List T → Option String
  find_from seen [] = none
  find_from seen (el ∷ s) =
      let rest = find_from (f el ∷ seen) s in if contains seen (f el) then some (f el) else rest

  unfoldable pub find_first_duplicate : List T → Option String
  find_first_duplicate s = find_from [] s

abbrev Apart : List String → List String → Type 0
Apart seen [] = Unit
Apart seen (x ∷ xs) = (¬ Listed x seen) × Apart seen xs

Apart-cons :
    (y : String) (seen xs : List String) → Apart (y ∷ seen) xs ↔ (Apart seen xs × ¬ Listed y xs)
Apart-cons y seen [] = ground arith
Apart-cons y seen (x ∷ xs) = ground (arith, Apart-cons y seen xs)

Apart-nil : (xs : List String) → Apart [] xs
Apart-nil [] = tt
Apart-nil (x ∷ xs) = ((λ h. h), Apart-nil xs)

module _ {T : Type 0} (f : T → String) where
  find_from-none :
      (seen : List String) (s : List T)
      → (find_from f seen s ≡ none) ↔ (Apart seen (values f s) × Distinct (values f s))
  unfolding find_from
  find_from-none seen [] = ground arith
  find_from-none seen (el ∷ s) = ground (
    arith,
    contains_iff seen (f el),
    find_from-none (f el ∷ seen) s,
    Apart-cons (f el) seen (values f s),
  )

  -- No duplicate is found exactly if no two elements have the same value.
  pub find_first_duplicate-Distinct :
      (s : List T) → (find_first_duplicate f s ≡ none) ↔ Distinct (values f s)
  unfolding find_first_duplicate
  find_first_duplicate-Distinct s = ground (arith, find_from-none [] s, Apart-nil (values f s))
