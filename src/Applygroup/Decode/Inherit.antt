-- ===== src/Applygroup/Decode/Inherit.antt =====
-- How the error policy of a group comes about.
use mathlib.Core.Path.{subst}
use espejote.Base.{
  String, Bool, true, false, some, ◌≡◌, ◌⊎◌, inl, inr, refl, sym, ◌∙◌, arith, ok, ok_injective,
  Result-cases,
}
use espejote.Kube.{Unstructured}
use espejote.Applygroup.Data.{ApplyDefaults, Applier, Appliers, applier, nil, cons, group_kind}
use espejote.Applygroup.Decode.{
  Json, Items, array, item, closed, broken, decode, decode_items, blank, element_policy,
  keep_element,
}

-- `j` is one of the elements of the array.
abbrev pub Among : Json → Items → Type 0
Among j closed = ⊥
Among j broken = ⊥
Among j (item k items) = (k ≡ j) ⊎ Among j items

-- `a` is one of the elements of the group.
abbrev pub Holds : {O : Type 0} → Applier O → Appliers O → Type 0
Holds a nil = ⊥
Holds a (cons b bs) = (b ≡ a) ⊎ Holds a bs

module _ (U : Unstructured) (d : ApplyDefaults) where
  abbrev pub group_node : String → Appliers U.Object → Applier U.Object
  group_node policy group = applier (record (blank d group_kind) { error_policy = policy }) group

  -- Only the first element of an array sets the policy.
  element_policy_later :
      (policy policy' : String) (elem : Applier U.Object)
      → element_policy U false policy elem ≡ ok policy'
      → policy' ≡ policy
  unfolding element_policy
  element_policy_later policy policy' (applier n g) h = ground arith

  decode_items_later :
      (policy final : String) (items : Items) (group : Appliers U.Object)
      → decode_items U d false policy items ≡ ok (final, group)
      → final ≡ policy
  unfolding decode_items
  decode_items_later policy final closed group h = ground arith
  decode_items_later policy final broken group h = ground arith
  decode_items_later policy final (item j rest) group h =
      elim (Result-cases (decode U d (some policy) j)) [
        | inr (e, failed) ↦ ground arith
        | inl (elem, made) ↦ elim (Result-cases (element_policy U false policy elem)) [
          | inr (e, failed) ↦ ground arith
          | inl (policy', kept) ↦ elim (Result-cases (decode_items U d false policy' rest)) [
            | inr (e, failed) ↦ ground arith
            | inl ((final', group'), decoded) ↦ ground (
              arith,
              element_policy_later policy policy' elem kept,
              decode_items_later policy' final' rest group' decoded,
            )
          ]
        ]
      ]

  keep_element-Holds :
      (a b : Applier U.Object) (group : Appliers U.Object)
      → Holds a group
      → Holds a (keep_element b group)
  keep_element-Holds a (applier n g) group h = ground arith

  decode_inner :
      (inner : Items) (g : Appliers U.Object)
      → decode_items U d true "" inner ≡ ok ("", g)
      → decode U d (some "") (array inner) ≡ ok (group_node "" g)
  unfolding decode
  decode_inner inner g h = rw h refl

  inner_group-Holds :
      (first : Bool) (inner middle : Items) (g group : Appliers U.Object)
      → decode_items U d true "" inner ≡ ok ("", g)
      → Among (array inner) middle
      → decode_items U d first "" middle ≡ ok ("", group)
      → Holds (group_node "" g) group
  unfolding decode_items decode
  inner_group-Holds first inner closed g group h x made = elim x [ ]
  inner_group-Holds first inner broken g group h x made = elim x [ ]
  inner_group-Holds first inner (item j rest) g group h x made =
      elim (Result-cases (decode U d (some "") j)) [
        | inr (e, failed) ↦ absurd (ground arith)
        | inl (elem, made_elem) ↦ elim (Result-cases (element_policy U first "" elem)) [
          | inr (e, failed) ↦ absurd (ground arith)
          | inl (policy', kept) ↦ elim (Result-cases (decode_items U d false policy' rest)) [
            | inr (e, failed) ↦ absurd (ground arith)
            | inl ((final, group'), decoded) ↦
                let ended : final ≡ "" = ground arith in
                let unset : policy' ≡ "" =
                  sym (decode_items_later policy' final rest group' decoded) ∙ ended in
                let group_is : keep_element elem group' ≡ group = ground arith in
                subst (λ x. Holds (group_node "" g) x) group_is
                  (elim x [
                    | inl same ↦
                        let elem_is : group_node "" g ≡ elem = ok_injective (
                          sym (decode_inner inner g h)
                          ∙ subst (λ k. decode U d (some "") k ≡ ok elem) same made_elem) in
                        subst (λ e. Holds (group_node "" g) (keep_element e group')) elem_is
                          (inl refl)
                    | inr later ↦ keep_element-Holds (group_node "" g) elem group' (
                        inner_group-Holds false inner rest g group' h later (
                          subst (λ p. decode_items U d false p rest ≡ ok ("", group')) unset
                            (subst (λ f. decode_items U d false policy' rest ≡ ok (f, group')) ended
                              decoded)))
                  ])
          ]
        ]
      ]

  -- Where an array decodes to a group with no policy of its own, as the element of a group with a
  -- policy this group takes that policy, and each array among its elements that decodes to a group
  -- with no policy of its own is an element of it with no policy.
  pub decode-nested_policy :
      (parent : String) (inner middle : Items) (g group : Appliers U.Object)
      → decode_items U d true "" inner ≡ ok ("", g)
      → Among (array inner) middle
      → decode_items U d true "" middle ≡ ok ("", group)
      → (decode U d (some parent) (array middle) ≡ ok (group_node parent group))
        × Holds (group_node "" g) group
  unfolding decode
  decode-nested_policy parent inner middle g group h x made =
      (rw made refl, inner_group-Holds true inner middle g group h x made)
