-- ===== src/Applygroup/Walk/Order.antt =====
-- `Walk` visits the nodes in depth-first order and stops at the first error.
use espejote.Base.{Option, none, some, List, [], ◌∷◌, ◌++◌, ◌≡◌, refl, ap, arith}
use espejote.Applygroup.Data.{Node, Applier, Appliers, applier, nil, cons}
use espejote.Applygroup.Walk.{Visitor, walk, walk_group}

-- The nodes of a tree, each before its children.
unfoldable mutual
  pub nodes : {O : Type 0} → Applier O → List (Node O)
  nodes (applier n group) = n ∷ nodes_group group

  pub nodes_group : {O : Type 0} → Appliers O → List (Node O)
  nodes_group nil = []
  nodes_group (cons child group) = nodes child ++ nodes_group group

module _ {E S O : Type 0} (f : Visitor E S O) where
  -- `for _, n := range nodes { if err := f(n); err != nil { return err } }`
  unfoldable pub visit : List (Node O) → S → Option E × List (Node O) × S
  visit [] s = (none, [], s)
  visit (n ∷ ns) s =
      let (e, n', s') = f n s in
      let rest : Option E × List (Node O) × S = visit ns s' in
      elim e [ some x ↦ (some x, n' ∷ ns, s') | none ↦ (rest.0, n' ∷ rest.1, rest.2) ]

  -- A loop over `ys` behind one that ended with `r`.
  abbrev then_visit : Option E × List (Node O) × S → List (Node O) → Option E × List (Node O) × S
  then_visit (some x, xs, s) ys = (some x, xs ++ ys, s)
  then_visit (none, xs, s) ys = let r = visit ys s in (r.0, xs ++ r.1, r.2)

  visit-append : (xs ys : List (Node O)) (s : S) → visit (xs ++ ys) s ≡ then_visit (visit xs s) ys
  unfolding visit
  visit-append [] ys s = refl
  visit-append (n ∷ xs) ys s = ground (arith, visit-append xs ys (f n s).2)

  abbrev view : Option E × Applier O × S → Option E × List (Node O) × S
  view r = (r.0, nodes r.1, r.2)

  abbrev view_group : Option E × Appliers O × S → Option E × List (Node O) × S
  view_group r = (r.0, nodes_group r.1, r.2)

  mutual
    unfolding walk visit nodes

    view-walk : (a : Applier O) (s : S) → view (walk f a s) ≡ visit (nodes a) s
    view-walk (applier n group) s = ground (arith, view_group-walk_group group (f n s).2)

    view_group-walk_group :
        (group : Appliers O) (s : S)
        → view_group (walk_group f group s) ≡ visit (nodes_group group) s
    view_group-walk_group nil s = refl
    view_group-walk_group (cons child group) s =
        rw visit-append
          (ground (arith, view-walk child s, view_group-walk_group group (walk f child s).2))

  -- Walking a tree is a loop over its nodes in depth-first order, each before its children, that
  -- returns at the first error: the error, the nodes as the visits leave them and the state are the
  -- loop's.
  pub walk-eq-visit :
      (a : Applier O) (s : S)
      → ((walk f a s).0 ≡ (visit (nodes a) s).0)
        × (nodes (walk f a s).1 ≡ (visit (nodes a) s).1)
        × ((walk f a s).2 ≡ (visit (nodes a) s).2)
  walk-eq-visit a s =
      let same = view-walk a s in (ap (λ r. r.0) same, ap (λ r. r.1) same, ap (λ r. r.2) same)
