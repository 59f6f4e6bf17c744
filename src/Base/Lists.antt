-- ===== src/Base/Lists.antt =====
-- Lists measured by native numbers, and predicates on lists by recursion.
use Prim.Native.Nat.{ℕ, suc, ◌+◌}
use mathlib.Core.Path.{◌≡◌, refl, sym, subst}
use mathlib.Core.Logic.{◌⊎◌, ◌↔◌, inl, inr}
use mathlib.Core.Bool.{Bool, true, false, ◌||◌}
use mathlib.Core.List.{List, [], ◌∷◌, ◌++◌, map, map-append}
use native.Mathlib.Omega.{arith}

module _ {ℓ} {A : Type ℓ} where
  abbrev pub length : List A → ℕ
  length [] = 0
  length (x ∷ xs) = suc (length xs)

  pub length-append : (xs ys : List A) → length (xs ++ ys) ≡ length xs + length ys
  length-append [] ys = omega arith
  length-append (x ∷ xs) ys = omega (arith, length-append xs ys)

module _ {ℓ κ} {A : Type ℓ} (P : A → Type κ) where
  abbrev pub All : List A → Type κ
  All [] = Unit
  All (x ∷ xs) = P x × All xs

  pub All-append : (xs ys : List A) → All xs → All ys → All (xs ++ ys)
  All-append [] ys hx hy = hy
  All-append (x ∷ xs) ys (h, hx) hy = (h, All-append xs ys hx hy)

module _ {ℓ κ κ'} {A : Type ℓ} (P : A → Type κ) (Q : A → Type κ') where
  pub All-imp : (xs : List A) → ((x : A) → P x → Q x) → All P xs → All Q xs
  All-imp [] f h = tt
  All-imp (x ∷ xs) f (h, hs) = (f x h, All-imp xs f hs)

module _ {ℓ} {A : Type ℓ} where
  abbrev pub not_empty : List A → Bool
  not_empty [] = false
  not_empty (x ∷ xs) = true

  pub not_empty-append : (xs ys : List A) → not_empty (xs ++ ys) ≡ (not_empty xs || not_empty ys)
  not_empty-append [] ys = refl
  not_empty-append (x ∷ xs) ys = refl

-- `x` is one of the list.
abbrev pub Listed : {A : Type 0} → A → List A → Type 0
Listed x [] = ⊥
Listed x (y ∷ ys) = (y ≡ x) ⊎ Listed x ys

pub All-of_Listed :
    {A : Type 0} (P : A → Type 0) (xs : List A) → ((x : A) → Listed x xs → P x) → All P xs
All-of_Listed P [] h = tt
All-of_Listed P (x ∷ xs) h = (h x (inl refl), All-of_Listed P xs (λ y m. h y (inr m)))

-- No two of a list are the same.
abbrev pub Distinct : {A : Type 0} → List A → Type 0
Distinct [] = Unit
Distinct (x ∷ xs) = (¬ Listed x xs) × Distinct xs

pub Listed-append :
    {A : Type 0} (x : A) (xs ys : List A) → Listed x (xs ++ ys) ↔ (Listed x xs ⊎ Listed x ys)
Listed-append x [] ys = ground arith
Listed-append x (y ∷ xs) ys = ground (arith, Listed-append x xs ys)

pub Distinct-append :
    {A : Type 0} (xs ys : List A)
    → Distinct xs
    → Distinct ys
    → ((x : A) → Listed x xs → ¬ Listed x ys)
    → Distinct (xs ++ ys)
Distinct-append [] ys dx dy apart = dy
Distinct-append (x ∷ xs) ys (new, dx) dy apart = (
  λ later. elim ((Listed-append x xs ys).0 later) [ inl h ↦ new h | inr h ↦ apart x (inl refl) h ],
  Distinct-append xs ys dx dy (λ z h. apart z (inr h)),
)

-- The lists of the elements, in order; each element of a list tells by `origin` which one it is from.
module _ {A B : Type 0} (f : A → List B) where
  abbrev pub concat : List A → List B
  concat [] = []
  concat (x ∷ xs) = f x ++ concat xs

  pub Listed-concat :
      (y : B) (x : A) (xs : List A) → Listed x xs → Listed y (f x) → Listed y (concat xs)
  Listed-concat y x [] h made = elim h [ ]
  Listed-concat y x (z ∷ xs) (inl same) made =
      (Listed-append y (f z) (concat xs)).1 (inl (subst (λ w. Listed y (f w)) (sym same) made))
  Listed-concat y x (z ∷ xs) (inr later) made =
      (Listed-append y (f z) (concat xs)).1 (inr (Listed-concat y x xs later made))

  pub concat_from :
      (P : B → Type 0) (y : B) (xs : List A)
      → ((x : A) → Listed y (f x) → P y)
      → Listed y (concat xs)
      → P y
  concat_from P y [] each h = elim h [ ]
  concat_from P y (x ∷ xs) each h = elim ((Listed-append y (f x) (concat xs)).0 h) [
    | inl here ↦ each x here
    | inr later ↦ concat_from P y xs each later
  ]

  module _ {K : Type 0} (key : A → K) (origin : B → K)
      (known : (x : A) (y : B) → Listed y (f x) → origin y ≡ key x) where
    concat-origin : (y : B) (xs : List A) → Listed y (concat xs) → Listed (origin y) (map key xs)
    concat-origin y [] h = elim h [ ]
    concat-origin y (x ∷ xs) h = elim ((Listed-append y (f x) (concat xs)).0 h) [
      | inl here ↦ inl (sym (known x y here))
      | inr later ↦ inr (concat-origin y xs later)
    ]

    pub Distinct-concat :
        (xs : List A) → All (λ x. Distinct (f x)) xs → Distinct (map key xs) → Distinct (concat xs)
    Distinct-concat [] each d = tt
    Distinct-concat (x ∷ xs) (one, each) (new, d) =
        Distinct-append (f x) (concat xs) one (Distinct-concat xs each d) (λ y here later.
          new (subst (λ k. Listed k (map key xs)) (known x y here) (concat-origin y xs later)))

module _ {A B C : Type 0} (g : B → C) where
  pub map-concat :
      (f : A → List B) (xs : List A) → map g (concat f xs) ≡ concat (λ x. map g (f x)) xs
  map-concat f [] = refl
  map-concat f (x ∷ xs) = rw (map-append, map-concat f xs) refl
