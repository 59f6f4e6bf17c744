-- ===== src/Applygroup/Walk.antt =====
-- `Walk` of applygroup.go. `f` may change the node that it is handed, and a state that it closes
-- over; a change that was made before an error stays made.
pub mod Order
use espejote.Base.{Option, none, some}
use espejote.Applygroup.Data.{Node, Applier, Appliers, applier, nil, cons}

-- A visit: the error, the node and the state that are left.
abbrev pub Visitor : Type 0 → Type 0 → Type 0 → Type 0
Visitor E S O = Node O → S → Option E × Node O × S

module _ {E S O : Type 0} (f : Visitor E S O) where
  unfoldable mutual
    pub walk : Applier O → S → Option E × Applier O × S
    walk (applier n group) s =
        let (e, n', s') = f n s in
        let rest : Option E × Appliers O × S = walk_group group s' in
        elim e [
          | some x ↦ (some x, applier n' group, s')
          | none ↦ (rest.0, applier n' rest.1, rest.2)
        ]

    pub walk_group : Appliers O → S → Option E × Appliers O × S
    walk_group nil s = (none, nil, s)
    walk_group (cons child group) s =
        let (e, child', s') = walk child s in
        let rest : Option E × Appliers O × S = walk_group group s' in
        elim e [
          | some x ↦ (some x, cons child' group, s')
          | none ↦ (rest.0, cons child' rest.1, rest.2)
        ]
