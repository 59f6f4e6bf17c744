-- ===== src/Applygroup/Apply/Calls.antt =====
-- The calls that a tree stands for, in order, and two ways to make a list of calls.
use espejote.Base.{Option, none, some, List, [], ◌∷◌, ◌++◌, ◌≡◌, refl, arith}
use espejote.Applygroup.Data.{Node, Applier, Appliers, applier, nil, cons, group_kind}

-- The nodes that `Apply` passes to the client, in depth-first order: all but the groups.
unfoldable mutual
  pub leaves : {O : Type 0} → Applier O → List (Node O)
  leaves (applier n group) =
      let members = leaves_group group in elim n.kind [ group_kind ↦ members | _ ↦ n ∷ [] ]

  pub leaves_group : {O : Type 0} → Appliers O → List (Node O)
  leaves_group nil = []
  leaves_group (cons child group) = leaves child ++ leaves_group group

module _ {E S A : Type 0} (call : A → S → Option E × S) where
  -- Stop at the first error.
  unfoldable pub run_until : List A → S → Option E × S
  run_until [] s = (none, s)
  run_until (a ∷ as') s =
      let (e, s') = call a s in
      let rest : Option E × S = run_until as' s' in elim e [ some x ↦ (some x, s') | none ↦ rest ]

  -- Make all calls, and collect the errors.
  unfoldable pub run_all : List A → S → List E × S
  run_all [] s = ([], s)
  run_all (a ∷ as') s =
      let (e, s') = call a s in
      let rest : List E × S = run_all as' s' in
      elim e [ some x ↦ (x ∷ rest.0, rest.1) | none ↦ rest ]

  abbrev pub then_until : Option E × S → List A → Option E × S
  then_until (some x, s) ys = (some x, s)
  then_until (none, s) ys = run_until ys s

  pub run_until-append :
      (xs ys : List A) (s : S) → run_until (xs ++ ys) s ≡ then_until (run_until xs s) ys
  unfolding run_until
  run_until-append [] ys s = refl
  run_until-append (x ∷ xs) ys s = ground (arith, run_until-append xs ys (call x s).1)

  pub run_all-append :
      (xs ys : List A) (s : S)
      → run_all (xs ++ ys) s
        ≡ ((run_all xs s).0 ++ (run_all ys (run_all xs s).1).0, (run_all ys (run_all xs s).1).1)
  unfolding run_all
  run_all-append [] ys s = refl
  run_all-append (x ∷ xs) ys s = ground (arith, run_all-append xs ys (call x s).1)
