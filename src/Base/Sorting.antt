-- ===== src/Base/Sorting.antt =====
-- A list whose elements have distinct keys has one ascending arrangement.
use Prim.Native.Nat.{Ordering}
use mathlib.Core.Path.{◌≡◌, refl, sym, ap, ap₂, subst}
use mathlib.Core.Logic.{◌≢◌, ◌⊎◌, ◌↔◌, inl, inr}
use mathlib.Core.List.{List, [], ◌∷◌, map}
use espejote.Base.Lists.{All, Listed, Distinct}
use espejote.Base.Int.{ℤ, sign}

pub All-Listed : {A : Type 0} (P : A → Type 0) (x : A) (xs : List A) → All P xs → Listed x xs → P x
All-Listed P x [] h listed = elim listed [ ]
All-Listed P x (y ∷ ys) (h, hs) (inl same) = subst P same h
All-Listed P x (y ∷ ys) (h, hs) (inr later) = All-Listed P x ys hs later

pub Listed-map :
    {A B : Type 0} (f : A → B) (x : A) (xs : List A) → Listed x xs → Listed (f x) (map f xs)
Listed-map f x [] h = elim h [ ]
Listed-map f x (y ∷ ys) (inl same) = inl (ap f same)
Listed-map f x (y ∷ ys) (inr later) = inr (Listed-map f x ys later)

module _ {A : Type 0} (cmp : A → A → ℤ) where
  -- No element comes after a later one.
  abbrev pub IsAscending : List A → Type 0
  IsAscending [] = Unit
  IsAscending (x ∷ xs) = All (λ y. sign (cmp x y) ≢ Ordering.gt) xs × IsAscending xs

  -- The documented behaviour of slices.SortFunc with the comparison `cmp`: `ys` has the elements of
  -- `xs`, each as often, in ascending order.
  pub record IsArranged (xs ys : List A) : Type 1 where
    pub ascending : IsAscending ys
    pub listed : (x : A) → Listed x ys ↔ Listed x xs
    pub distinct : {K : Type 0} (f : A → K) → Distinct (map f xs) → Distinct (map f ys)

module _ {A K : Type 0} (cmp : A → A → ℤ) (key : A → K)
    (antisymm : (a b : A)
      → sign (cmp a b) ≢ Ordering.gt
      → sign (cmp b a) ≢ Ordering.gt
      → key a ≡ key b) where
  heads_same :
      (a b : A) (l r : List A)
      → All (λ y. sign (cmp a y) ≢ Ordering.gt) l
      → All (λ y. sign (cmp b y) ≢ Ordering.gt) r
      → Distinct (map key (b ∷ r))
      → (a ≡ b) ⊎ Listed a r
      → (b ≡ a) ⊎ Listed b l
      → a ≡ b
  heads_same a b l r la rb d (inl same) back = same
  heads_same a b l r la rb d (inr later) (inl same) = sym same
  heads_same a b l r la rb (new, d) (inr later) (inr back) = absurd (
      new (
        subst (λ k. Listed k (map key r))
          (antisymm a b (All-Listed _ b l la back) (All-Listed _ a r rb later))
          (Listed-map key a r later)))

  Listed-tail :
      (x a : A) (l r : List A)
      → ¬ Listed (key a) (map key l)
      → Listed x l
      → (Listed x (a ∷ l) → Listed x (a ∷ r))
      → Listed x r
  Listed-tail x a l r new listed to = elim (to (inr listed)) [
    | inr later ↦ later
    | inl same ↦
        absurd
          (new (subst (λ k. Listed k (map key l)) (ap key (sym same)) (Listed-map key x l listed)))
  ]

  pub ascending_unique :
      (l r : List A)
      → IsAscending cmp l
      → IsAscending cmp r
      → Distinct (map key l)
      → Distinct (map key r)
      → ((x : A) → Listed x l ↔ Listed x r)
      → l ≡ r
  ascending_unique [] [] al ar dl dr same = refl
  ascending_unique [] (b ∷ r) al ar dl dr same = absurd ((same b).1 (inl refl))
  ascending_unique (a ∷ l) [] al ar dl dr same = absurd ((same a).0 (inl refl))
  ascending_unique (a ∷ l) (b ∷ r) (la, al) (rb, ar) (na, dl) (nb, dr) same =
      let turn : (x y : A) → ((y ≡ x) ⊎ Listed x r) → ((x ≡ y) ⊎ Listed x r) =
        λ x y h. elim h [ inl e ↦ inl (sym e) | inr m ↦ inr m ] in
      let turn' : (x y : A) → ((y ≡ x) ⊎ Listed x l) → ((x ≡ y) ⊎ Listed x l) =
        λ x y h. elim h [ inl e ↦ inl (sym e) | inr m ↦ inr m ] in
      let heads =
        heads_same a b l r la rb (nb, dr) (turn a b ((same a).0 (inl refl)))
          (turn' b a ((same b).1 (inl refl))) in
      let nb' = subst (λ z. ¬ Listed (key z) (map key r)) (sym heads) nb in
      let same' = subst (λ z. (x : A) → Listed x (a ∷ l) ↔ Listed x (z ∷ r)) (sym heads) same in
      ap₂ ◌∷◌ heads (
        ascending_unique l r al ar dl dr (λ x.
          (λ m. Listed-tail x a l r na m (same' x).0, λ m. Listed-tail x a r l nb' m (same' x).1)))

  -- Two lists with the same elements, whose keys are distinct, have one arrangement.
  pub arranged_same :
      (xs ys l r : List A)
      → IsArranged cmp xs l
      → IsArranged cmp ys r
      → Distinct (map key xs)
      → Distinct (map key ys)
      → ((x : A) → Listed x xs ↔ Listed x ys)
      → l ≡ r
  arranged_same xs ys l r al ar dx dy same =
      ascending_unique l r al.ascending ar.ascending (al.distinct key dx) (ar.distinct key dy) (λ x.
        (
          λ m. (ar.listed x).1 ((same x).0 ((al.listed x).0 m)),
          λ m. (al.listed x).1 ((same x).1 ((ar.listed x).0 m)),
        ))
