-- ===== src/Applygroup/Decode/Valid.antt =====
-- What a decoded tree may hold: `Apply` meets no node that it cannot pass to the client.
use mathlib.Core.Path.{subst}
use espejote.Base.{
  Bool, true, false, Option, none, some, String, ◌≡◌, ◌≢◌, ◌⊎◌, inl, inr, refl, Result, ok, wrap,
  ◌>>=◌, bind_inv, wrap_inv, ok_injective, All, All-append, ◌==◌, eq_iff, Bool-cases, arith,
}
use espejote.Kube.{Unstructured}
use espejote.Applygroup.Data.{
  noop_kind, apply_kind, apply_group_config_kind, delete_kind, group_kind, unknown, ApplyDefaults,
  Node, Applier, Appliers, applier, nil, cons,
}
use espejote.Applygroup.Decode.{
  Json, Items, null, bad_null, object, array, scalar, closed, broken, item, DecodeError, decode,
  decode_items, decode_object, decoding_resource, group_element, blank, element_policy,
  keep_element, inherit_policy,
}
use espejote.Applygroup.Apply.Calls.{leaves, leaves_group}
use espejote.Applygroup.Apply.Policies.{IsPolicy, EveryGroup, EveryMember}

-- A node that `Apply` can pass to the client, or need not.
abbrev pub IsReady : {O : Type 0} → Node O → Type 0
IsReady n = elim n.kind [
  | noop_kind ↦ Unit
  | group_kind ↦ ⊥
  | apply_kind ↦ n.resource ≢ none
  | delete_kind ↦ n.resource ≢ none
  | apply_group_config_kind ↦ ⊥
  | unknown k ↦ ⊥
]

abbrev pub is_config : {O : Type 0} → Applier O → Bool
is_config (applier n group) = elim n.kind [ apply_group_config_kind ↦ true | _ ↦ false ]

pub record IsValid {O : Type 0} (a : Applier O) : Type 0 where
  pub policies : EveryGroup IsPolicy a
  pub ready : All IsReady (leaves a)

-- Below a parent, a decoded element may also be a configuration.
abbrev Decoded : {O : Type 0} → Option String → Applier O → Type 0
Decoded none a = IsValid a
Decoded (some p) a = (is_config a ≡ true) ⊎ IsValid a

module _ (U : Unstructured) where
  -- An object is ready to be passed on, or a configuration below a parent.
  object_ready :
      (d : ApplyDefaults) (parent : Option String) (u : U.Object) (n : Node U.Object)
      → decode_object U d parent u ≡ ok n
      → ((n.kind ≡ apply_group_config_kind) × (parent ≢ none))
        ⊎ (((n.kind ≡ apply_kind) ⊎ (n.kind ≡ delete_kind)) × (n.resource ≢ none))
  unfolding decode_object
  object_ready d parent u n h = ground arith

  object_valid :
      (d : ApplyDefaults) (parent : Option String) (u : U.Object) (n : Node U.Object)
      → decode_object U d parent u ≡ ok n
      → Decoded parent (applier n nil)
  unfolding leaves
  object_valid d none u n h = elim (object_ready d none u n h) [
    | inl config ↦ absurd (config.1 refl)
    | inr (kind, found) ↦ record { policies = ground arith; ready = ground arith }
  ]
  object_valid d (some p) u n h = elim (object_ready d (some p) u n h) [
    | inl config ↦ inl (rw config.0 refl)
    | inr (kind, found) ↦ inr (record { policies = ground arith; ready = ground arith })
  ]

  IsPolicy-element_policy :
      (first : Bool) (policy : String) (elem : Applier U.Object) (policy' : String)
      → IsPolicy policy
      → element_policy U first policy elem ≡ ok policy'
      → IsPolicy policy'
  unfolding element_policy
  IsPolicy-element_policy first policy (applier n group) policy' p h =
      ground (arith, eq_iff policy' "Continue", eq_iff policy' "Abort")

  config_dropped :
      (elem : Applier U.Object) (group : Appliers U.Object)
      → is_config elem ≡ true
      → keep_element elem group ≡ group
  config_dropped (applier n g) group h = ground arith

  element_kept :
      (elem : Applier U.Object) (group : Appliers U.Object)
      → is_config elem ≡ false
      → keep_element elem group ≡ cons elem group
  element_kept (applier n g) group h = ground arith

  abbrev ParentValid : Option String → Type 0
  ParentValid none = Unit
  ParentValid (some p) = IsPolicy p

  inherit_valid :
      (parent : Option String) (policy : String)
      → ParentValid parent
      → IsPolicy policy
      → IsPolicy (inherit_policy parent policy)
  inherit_valid none policy h p = p
  inherit_valid (some parent) policy h p = elim (Bool-cases (policy == "")) [
    | inl e ↦ rw e h
    | inr e ↦ rw e p
  ]

  Decoded-of_valid : (parent : Option String) (a : Applier U.Object) → IsValid a → Decoded parent a
  Decoded-of_valid none a v = v
  Decoded-of_valid (some p) a v = inr v

  abbrev MembersValid : Appliers U.Object → Type 0
  MembersValid group = EveryMember IsPolicy group × All IsReady (leaves_group group)

  keep_valid :
      (elem : Applier U.Object) (group : Appliers U.Object)
      → (is_config elem ≡ true) ⊎ IsValid elem
      → MembersValid group
      → MembersValid (keep_element elem group)
  unfolding leaves
  keep_valid elem group v h = elim (Bool-cases (is_config elem)) [
    | inl config ↦ rw (config_dropped elem group config) h
    | inr other ↦ elim v [
      | inl config ↦ absurd (cc)
      | inr valid ↦ rw (element_kept elem group other) (
        (valid.policies, h.0),
        All-append IsReady (leaves elem) (leaves_group group) valid.ready h.1,
      )
    ]
  ]

  -- What `decode` does with the results of its calls.
  abbrev object_rest :
      ApplyDefaults → Option String → U.Object → Result DecodeError (Applier U.Object)
  object_rest d parent u = decode_object U d parent u >>= λ n. ok (applier n nil)

  abbrev array_rest :
      ApplyDefaults
      → Option String
      → String × Appliers U.Object
      → Result DecodeError (Applier U.Object)
  array_rest d parent r =
      ok (applier (record (blank d group_kind) { error_policy = inherit_policy parent r.0 }) r.1)

  abbrev item_end :
      Applier U.Object
      → String × Appliers U.Object
      → Result DecodeError (String × Appliers U.Object)
  item_end elem r = ok (r.0, keep_element elem r.1)

  mutual
    unfolding decode leaves

    decode_valid :
        (d : ApplyDefaults) (parent : Option String) (j : Json) (a : Applier U.Object)
        → ParentValid parent
        → decode U d parent j ≡ ok a
        → Decoded parent a
    decode_valid d parent null a v h =
        subst (Decoded parent) (ok_injective h)
          (Decoded-of_valid parent _ (record { policies = tt; ready = (tt, tt) }))
    decode_valid d parent bad_null a v h = cc
    decode_valid d parent (object text) a v h =
        let (u, parsed, more) =
          bind_inv (wrap decoding_resource (U.unmarshal text)) (object_rest d parent) a h in
        let (n, found, done) =
          bind_inv (decode_object U d parent u) (λ n. ok (applier n nil)) a more in
        subst (Decoded parent) (ok_injective done) (object_valid d parent u n found)
    decode_valid d parent (array items) a v h =
        let (r, found, done) =
          bind_inv (decode_items U d true "" items) (array_rest d parent) a h in
        let (policy, members) = decode_items_valid d true "" items r (inl (inl refl)) found in
        subst (Decoded parent) (ok_injective done) (
          Decoded-of_valid parent _ (record {
            policies = (inherit_valid parent r.0 v policy, members.0);
            ready = members.1;
          }))
    decode_valid d parent (scalar kind) a v h = cc

    decode_items_valid :
        (d : ApplyDefaults) (first : Bool) (policy : String) (items : Items)
        (r : String × Appliers U.Object)
        → IsPolicy policy
        → decode_items U d first policy items ≡ ok r
        → IsPolicy r.0 × MembersValid r.1
    decode_items_valid d first policy closed r p h =
        subst (λ x. IsPolicy x.0 × MembersValid x.1) (ok_injective h) (p, (tt, tt))
    decode_items_valid d first policy broken r p h = cc
    decode_items_valid d first policy (item j rest) r p h =
        let (elem, wrapped, more) =
          bind_inv (wrap group_element (decode U d (some policy) j))
            (λ e.
              element_policy U first policy e >>= λ q. decode_items U d false q rest >>= item_end e)
            r h in
        let found = wrap_inv group_element (decode U d (some policy) j) elem wrapped in
        let (policy', next, last) =
          bind_inv (element_policy U first policy elem)
            (λ q. decode_items U d false q rest >>= item_end elem) r more in
        let (tail, others, done) =
          bind_inv (decode_items U d false policy' rest) (item_end elem) r last in
        let p' = IsPolicy-element_policy first policy elem policy' p next in
        let (final, members) = decode_items_valid d false policy' rest tail p' others in
        subst (λ x. IsPolicy x.0 × MembersValid x.1) (ok_injective done)
          (final, keep_valid elem tail.1 (decode_valid d (some policy) j elem p found) members)

  -- A root that decodes gives a tree in which every group's policy is Continue, Abort or left out,
  -- and every node for the client has its resource and is no group configuration and of no unknown
  -- kind.
  pub decode-IsValid :
      (d : ApplyDefaults) (j : Json) (a : Applier U.Object) → decode U d none j ≡ ok a → IsValid a
  decode-IsValid d j a h = decode_valid d none j a tt h
