-- ===== src/Manager/Concurrent/Invariant/Turned.antt =====
-- The invariant through a turn of Reconcile.
use mathlib.Core.Path.{subst, subst₂}
use espejote.Base.{
  suc, ◌<◌, Option, none, some, List, ◌∷◌, Listed, ◌≡◌, ◌⊎◌, inl, inr, refl, sym, ap, arith, ◌∙◌,
  Option-cases, Bool-cases, none_ne_some, some_injective,
}
use espejote.Kube.{NamespacedName}
use espejote.Manager.Keyed.{lookup, insert, key_eq, key_eq_iff}
use espejote.Manager.{State, ResourceController}
use espejote.Manager.Requests.{ManagerError}
use espejote.Manager.Concurrent.{
  Instance, new_instance, Stage, idle, Turn, blocked, proceeds, spawns, ends,
}
use espejote.Manager.Concurrent.Changes.{Keeps}
use espejote.Manager.Concurrent.Turns.{IsStaged, IsTurn}
use espejote.Manager.Concurrent.Steps.{System, requeue_for, busy_with, after}
use espejote.Manager.Concurrent.Invariant.{IsHeld, IsNoticed, Inv}

requeue_for-Listed :
    (b : Option NamespacedName) (e : Option ManagerError) (k : NamespacedName)
    (ks : List NamespacedName)
    → Listed k ks
    → Listed k (requeue_for b e ks)
requeue_for-Listed none e k ks h = h
requeue_for-Listed (some key) none k ks h = h
requeue_for-Listed (some key) (some e) k ks h = inr h

module _ {C : Type 0} (s : System C) (inv : Inv s) (key : NamespacedName)
    (busy : busy_with s.stage ≡ some key) where
  -- The end of an instance, at a turn that goes on.
  IsNoticed-on :
      (k : NamespacedName) (stage : Stage C) (st : State C) (is : List Instance)
      → busy_with stage ≡ some key
      → ((i : Instance) → Listed i s.instances → Listed i is)
      → IsNoticed s k
      → IsNoticed (record s { stage = stage; manager = st; instances = is }) k
  IsNoticed-on k stage st is busy' more (inl (i, listed, named, waits)) =
      inl (i, more i listed, named, waits)
  IsNoticed-on k stage st is busy' more (inr (inl queued)) = inr (inl queued)
  IsNoticed-on k stage st is busy' more (inr (inr b)) = inr (inr (busy' ∙ sym busy ∙ b))

  module _ {st' : State C} (kept : Keeps s.manager st') where
    below_kept : (i : Instance) → Listed i s.instances → i.context < st'.next
    below_kept i h = omega (arith, inv.below i h, kept.later)

    owned_kept :
        (i : Instance)
        → Listed i s.instances
        → Listed i.context st'.live
        → IsHeld i.key i.context st'.controllers
    owned_kept i h live = elim (kept.lives i.context live) [
      | inl before ↦
          let (rc, at, life) = inv.owned i h before in
          (rc, kept.stays i.key rc at (subst (λ n. Listed n st'.live) (sym life) live), life)
      | inr new ↦ absurd (omega (arith, inv.below i h, new))
    ]

    proceeds-Inv :
        (stage : Stage C)
        → IsStaged stage st'
        → busy_with stage ≡ some key
        → Inv (record s { stage = stage; manager = st' })
    proceeds-Inv stage staged busy' = record {
      below = below_kept;
      alike = inv.alike;
      owned = owned_kept;
      attended = λ k rc h. inv.attended k rc (kept.had k rc h);
      staged = staged;
      seen = λ k rc c h d.
          IsNoticed-on k stage st' s.instances busy' (λ i l. l)
            (inv.seen k rc c (kept.had k rc h) d);
    }

    ends-Inv :
        (error : Option ManagerError)
        → (error ≡ none
            → (rc : ResourceController C) → lookup key st'.controllers ≡ some rc
            → rc.done ≡ none)
        → Inv (record s {
          stage = idle;
          manager = st';
          requests = requeue_for (busy_with s.stage) error s.requests;
        })
    ends-Inv error quiet = record {
      below = below_kept;
      alike = inv.alike;
      owned = owned_kept;
      attended = λ k rc h. inv.attended k rc (kept.had k rc h);
      staged = tt;
      seen = λ k rc c h d. elim (inv.seen k rc c (kept.had k rc h) d) [
        | inl pending ↦ inl pending
        | inr (inl queued) ↦
            inr (inl (requeue_for-Listed (busy_with s.stage) error k s.requests queued))
        | inr (inr b) ↦
            let same : key ≡ k = some_injective (sym busy ∙ b) in
            elim (Option-cases error) [
              | inl fine ↦ absurd (
                  none_ne_some (
                    sym
                      (quiet fine rc (subst (λ x. lookup x st'.controllers ≡ some rc) (sym same) h))
                    ∙ d))
              | inr (e, failed) ↦ inr (
                  inl (
                    subst₂ (λ x y. Listed k (requeue_for x y s.requests)) (sym busy) (sym failed)
                      (inl same)))
            ]
      ];
    }

  module _ {st' : State C} {rc' : ResourceController C}
      (absent : lookup key s.manager.controllers ≡ none)
      (inserted : st'.controllers ≡ insert key rc' s.manager.controllers)
      (fresh : rc'.lifetime ≡ s.manager.next) (runs : rc'.done ≡ none)
      (live : st'.live ≡ s.manager.next ∷ s.manager.live)
      (next : st'.next ≡ suc s.manager.next) where
    -- A controller after one was inserted.
    lookup-inserted :
        (k : NamespacedName) (rc : ResourceController C)
        → lookup k st'.controllers ≡ some rc
        → ((k ≡ key) × (rc ≡ rc')) ⊎ (lookup k s.manager.controllers ≡ some rc)
    unfolding lookup
    lookup-inserted k rc h = elim (Bool-cases (key_eq key k)) [
      | inl same ↦ inl (sym ((key_eq_iff key k).0 same), some_injective (ground arith))
      | inr other ↦ ground arith
    ]

    lookup-before :
        (k : NamespacedName) (rc : ResourceController C)
        → lookup k s.manager.controllers ≡ some rc
        → lookup k st'.controllers ≡ some rc
    unfolding lookup
    lookup-before k rc h = ground (arith, key_eq_iff key k)

    new_held : lookup key st'.controllers ≡ some rc'
    unfolding lookup
    new_held = ground (arith, key_eq_iff key key)

    alike_new :
        (i j : Instance)
        → Listed i (new_instance key s.manager.next ∷ s.instances)
        → Listed j (new_instance key s.manager.next ∷ s.instances)
        → i.context ≡ j.context
        → i ≡ j
    alike_new i j (inl a) (inl b) same = sym a ∙ b
    alike_new i j (inl a) (inr b) same =
        absurd (omega (arith, inv.below j b, same, ap (λ x. x.context) a))
    alike_new i j (inr a) (inl b) same =
        absurd (omega (arith, inv.below i a, same, ap (λ x. x.context) b))
    alike_new i j (inr a) (inr b) same = inv.alike i j a b same

    owned_new :
        (i : Instance)
        → Listed i (new_instance key s.manager.next ∷ s.instances)
        → Listed i.context st'.live
        → IsHeld i.key i.context st'.controllers
    owned_new i (inl new) l =
        subst (λ x. IsHeld x.key x.context st'.controllers) new (rc', new_held, fresh)
    owned_new i (inr old) l = elim (subst (λ ns. Listed i.context ns) live l) [
      | inl same ↦ absurd (omega (arith, inv.below i old, same))
      | inr before ↦
          let (rc, at, life) = inv.owned i old before in (rc, lookup-before i.key rc at, life)
    ]

    spawns-Inv :
        (stage : Stage C)
        → IsStaged stage st'
        → busy_with stage ≡ some key
        → Inv (record s {
          stage = stage;
          manager = st';
          instances = new_instance key s.manager.next ∷ s.instances;
        })
    spawns-Inv stage staged busy' = record {
      below = λ i h. elim h [
        | inl new ↦ omega (arith, next, ap (λ x. x.context) new)
        | inr old ↦ omega (arith, next, inv.below i old)
      ];
      alike = alike_new;
      owned = owned_new;
      attended = λ k rc h. elim (lookup-inserted k rc h) [
        | inl (named, new) ↦ (
          new_instance key s.manager.next,
          inl refl,
          sym named,
          sym (ap (λ x. x.lifetime) new ∙ fresh),
          ground arith,
        )
        | inr before ↦
            let (i, listed, named, at, fits) = inv.attended k rc before in
            (i, inr listed, named, at, fits)
      ];
      staged = staged;
      seen = λ k rc c h d. elim (lookup-inserted k rc h) [
        | inl (named, new) ↦ absurd (none_ne_some (sym runs ∙ ap (λ x. x.done) (sym new) ∙ d))
        | inr before ↦
            IsNoticed-on k stage st' (new_instance key s.manager.next ∷ s.instances) busy'
              (λ i l. inr l) (inv.seen k rc c before d)
      ];
    }

  -- A turn keeps the invariant.
  pub after-Inv : {S : Type 0} (t : Turn S C) → IsTurn key s.manager t → Inv (after s t)
  after-Inv blocked h = inv
  after-Inv (proceeds stage st) (kept, staged, busy') = proceeds-Inv kept stage staged busy'
  after-Inv (spawns i stage st)
        (new, absent, staged, busy', (rc, inserted, fresh, runs, live, next)) =
      subst (λ x. Inv (record s { stage = stage; manager = st; instances = x ∷ s.instances }))
        (sym new) (spawns-Inv absent inserted fresh runs live next stage staged busy')
  after-Inv (ends error st w) (kept, quiet) = ends-Inv kept error quiet
