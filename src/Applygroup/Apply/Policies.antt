-- ===== src/Applygroup/Apply/Policies.antt =====
-- What `Apply` does to the cluster, by the error policies of the groups.
use espejote.Base.{
  Option, none, List, [], ◌∷◌, ◌++◌, String, Option-cases, inl, inr, is_some, not_empty,
  not_empty-append, ◌||◌, ◌==◌, false, ◌≡◌, ◌⊎◌, refl, arith, eq_iff,
}
use espejote.Kube.{Unstructured}
use espejote.Applygroup.Data.{Applier, Appliers, applier, nil, cons, group_kind, Kind}
use espejote.Applygroup.Apply.{Client, ApplyError, apply, apply_group, apply_node, record_error}
use espejote.Applygroup.Apply.Calls.{
  leaves, leaves_group, run_until, run_all, run_until-append, run_all-append,
}

abbrev pub OfGroup : Kind → Type 0 → Type 0
OfGroup group_kind P = P
OfGroup _ P = Unit

-- `P` holds of the error policy of every group.
abbrev mutual
  pub EveryGroup : {O : Type 0} → (String → Type 0) → Applier O → Type 0
  EveryGroup P (applier n group) = OfGroup n.kind (P n.error_policy × EveryMember P group)

  pub EveryMember : {O : Type 0} → (String → Type 0) → Appliers O → Type 0
  EveryMember P nil = Unit
  EveryMember P (cons child group) = EveryGroup P child × EveryMember P group

abbrev pub IsAbort : String → Type 0
IsAbort policy = policy ≡ "Abort"

abbrev pub IsContinue : String → Type 0
IsContinue policy = (policy ≡ "") ⊎ (policy ≡ "Continue")

abbrev pub IsPolicy : String → Type 0
IsPolicy policy = IsContinue policy ⊎ IsAbort policy

IsContinue-ne_abort : (policy : String) → IsContinue policy → (policy == "Abort") ≡ false
IsContinue-ne_abort policy (inl p) = rw p refl
IsContinue-ne_abort policy (inr p) = rw p refl

record_error_lem :
    {E : Type 0} (policy : String) (x : E) (errors : List E)
    → IsContinue policy
    → record_error policy x errors ≡ errors ++ x ∷ []
record_error_lem policy x errors (inl p) = rw p refl
record_error_lem policy x errors (inr p) = rw p refl

module _ (U : Unstructured) {S : Type 0} (cli : Client S U.Object)
    (combine : List (ApplyError U.Object) → Option (ApplyError U.Object))
    (combine_law : (es : List (ApplyError U.Object)) → is_some (combine es) ≡ not_empty es) where
  mutual
    unfolding apply leaves run_until

    apply_abort :
        (a : Applier U.Object) (s : S)
        → EveryGroup IsAbort a
        → apply U cli combine a s ≡ run_until (apply_node U cli) (leaves a) s
    apply_abort (applier n group) s h = ground (arith, apply_group_abort n.error_policy group s)

    apply_group_abort :
        (policy : String) (group : Appliers U.Object) (s : S)
        → policy ≡ "Abort"
        → EveryMember IsAbort group
        → apply_group U cli combine policy group [] s
          ≡ run_until (apply_node U cli) (leaves_group group) s
    apply_group_abort policy nil s p h = ground (arith, combine_law [])
    apply_group_abort policy (cons child group) s p (h, hs) = rw run_until-append (
        ground (
          arith,
          eq_iff policy "Abort",
          apply_abort child s h,
          apply_group_abort policy group (apply U cli combine child s).1 p hs,
        ))

  mutual
    unfolding apply leaves run_all

    apply_continue :
        (a : Applier U.Object) (s : S)
        → EveryGroup IsContinue a
        → ((apply U cli combine a s).1 ≡ (run_all (apply_node U cli) (leaves a) s).1)
          × (is_some (apply U cli combine a s).0
              ≡ not_empty (run_all (apply_node U cli) (leaves a) s).0)
    apply_continue (applier n group) s h =
        ground (arith, apply_group_continue n.error_policy group [] s)

    apply_group_continue :
        (policy : String) (group : Appliers U.Object) (errors : List (ApplyError U.Object)) (s : S)
        → IsContinue policy
        → EveryMember IsContinue group
        → ((apply_group U cli combine policy group errors s).1
            ≡ (run_all (apply_node U cli) (leaves_group group) s).1)
          × (is_some (apply_group U cli combine policy group errors s).0 ≡ (
              not_empty errors || not_empty (run_all (apply_node U cli) (leaves_group group) s).0))
    apply_group_continue policy nil errors s p h = ground (arith, combine_law errors)
    apply_group_continue policy (cons child group) errors s p (h, hs) =
        rw run_all-append (elim (Option-cases (apply U cli combine child s).0) [
          | inl fine ↦ ground (
            arith,
            apply_continue child s h,
            apply_group_continue policy group errors (apply U cli combine child s).1 p hs,
            not_empty-append (run_all (apply_node U cli) (leaves child) s).0
                (run_all (apply_node U cli) (leaves_group group) (apply U cli combine child s).1).0,
          )
          | inr (x, failed) ↦ ground (
            arith,
            IsContinue-ne_abort policy p,
            record_error_lem policy x errors p,
            apply_continue child s h,
            apply_group_continue policy group (errors ++ x ∷ []) (apply U cli combine child s).1 p
                hs,
            not_empty-append errors (x ∷ []),
            not_empty-append (run_all (apply_node U cli) (leaves child) s).0
                (run_all (apply_node U cli) (leaves_group group) (apply U cli combine child s).1).0,
          )
        ])

  mutual
    unfolding apply leaves run_until

    apply_any :
        (a : Applier U.Object) (s : S)
        → EveryGroup IsPolicy a
        → (is_some (apply U cli combine a s).0
            ≡ is_some (run_until (apply_node U cli) (leaves a) s).0)
          × ((run_until (apply_node U cli) (leaves a) s).0 ≡ none
              → (apply U cli combine a s).1 ≡ (run_until (apply_node U cli) (leaves a) s).1)
    apply_any (applier n group) s h = ground (arith, apply_group_any n.error_policy group [] s)

    apply_group_any :
        (policy : String) (group : Appliers U.Object) (errors : List (ApplyError U.Object)) (s : S)
        → IsPolicy policy
        → EveryMember IsPolicy group
        → (is_some (apply_group U cli combine policy group errors s).0
            ≡ (not_empty errors || is_some (run_until (apply_node U cli) (leaves_group group) s).0))
          × ((run_until (apply_node U cli) (leaves_group group) s).0 ≡ none
              → (apply_group U cli combine policy group errors s).1
                ≡ (run_until (apply_node U cli) (leaves_group group) s).1)
    apply_group_any policy nil errors s p h = ground (arith, combine_law errors)
    apply_group_any policy (cons child group) errors s p (h, hs) =
        rw run_until-append (elim (Option-cases (apply U cli combine child s).0) [
          | inl fine ↦ ground (
            arith,
            apply_any child s h,
            apply_group_any policy group errors (apply U cli combine child s).1 p hs,
          )
          | inr (x, failed) ↦ elim p [
            | inr stop ↦ ground (arith, eq_iff policy "Abort", apply_any child s h)
            | inl go_on ↦ ground (
              arith,
              IsContinue-ne_abort policy go_on,
              record_error_lem policy x errors go_on,
              apply_any child s h,
              apply_group_any policy group (errors ++ x ∷ []) (apply U cli combine child s).1
                  (inl go_on) hs,
              not_empty-append errors (x ∷ []),
            )
          ]
        ])

  -- For a tree whose groups' policies are all Abort, applying it makes its calls in order and stops
  -- at the first that fails, with that error and the cluster at that point.
  pub apply-run_until_abort :
      (a : Applier U.Object) (s : S)
      → EveryGroup IsAbort a
      → apply U cli combine a s ≡ run_until (apply_node U cli) (leaves a) s
  apply-run_until_abort a s h = apply_abort a s h

  -- For a tree whose groups' policies are each Continue or left out, applying it makes every call
  -- in order, whatever fails, and returns an error exactly if one of the calls failed.
  pub apply-run_all :
      (a : Applier U.Object) (s : S)
      → EveryGroup IsContinue a
      → ((apply U cli combine a s).1 ≡ (run_all (apply_node U cli) (leaves a) s).1)
        × (is_some (apply U cli combine a s).0
            ≡ not_empty (run_all (apply_node U cli) (leaves a) s).0)
  apply-run_all a s h = apply_continue a s h

  -- For a tree whose groups' policies are each Continue, Abort or left out, applying it returns no
  -- error exactly if its calls succeed one after the other, and then the cluster is the one that
  -- they leave.
  pub apply-run_until :
      (a : Applier U.Object) (s : S)
      → EveryGroup IsPolicy a
      → (is_some (apply U cli combine a s).0
          ≡ is_some (run_until (apply_node U cli) (leaves a) s).0)
        × ((run_until (apply_node U cli) (leaves a) s).0 ≡ none
            → (apply U cli combine a s).1 ≡ (run_until (apply_node U cli) (leaves a) s).1)
  apply-run_until a s h = apply_any a s h
