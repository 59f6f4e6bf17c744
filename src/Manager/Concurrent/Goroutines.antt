-- ===== src/Manager/Concurrent/Goroutines.antt =====
-- What the goroutines of an instance leave of the instances and of the controllers.
use espejote.Base.{
  ℕ, Bool, true, false, Option, none, some, is_some, List, [], ◌∷◌, Listed, ◌≡◌, ◌⊎◌, inl, inr,
  refl, sym, ap, ◌∙◌, arith, not, Bool-cases, Option-cases, some_injective,
}
use espejote.Kube.{Cause, NamespacedName}
use espejote.Manager.Keyed.{Table, lookup, delete, key_eq, key_eq_iff}
use espejote.Manager.{ResourceController}
use espejote.Manager.Concurrent.{
  Phase, running, closed, notified, Instance, moved, set_phase, returned_for, controller_returned,
}

abbrev pub is_running : Phase → Bool
is_running running = true
is_running closed = false
is_running notified = false

module _ (phase : Phase) (key : NamespacedName) (context : ℕ) where
  pub Listed-moved :
      (i : Instance) (is : List Instance)
      → Listed i is
      → Listed (moved phase key context i) (set_phase phase key context is)
  unfolding set_phase
  Listed-moved i [] h = elim h [ ]
  Listed-moved i (j ∷ is) (inl same) = inl (ap (moved phase key context) same)
  Listed-moved i (j ∷ is) (inr later) = inr (Listed-moved i is later)

  pub moved_from :
      (i : Instance) (is : List Instance)
      → Listed i (set_phase phase key context is)
      → (j : Instance) × Listed j is × (moved phase key context j ≡ i)
  unfolding set_phase
  moved_from i [] h = elim h [ ]
  moved_from i (j ∷ is) (inl same) = (j, inl refl, same)
  moved_from i (j ∷ is) (inr later) =
      let (k, there, same) = moved_from i is later in (k, inr there, same)

  pub moved-same :
      (i : Instance)
      → ((moved phase key context i).key ≡ i.key)
        × ((moved phase key context i).context ≡ i.context)
  moved-same i = ground arith

  pub moved-phase :
      (i : Instance)
      → ((moved phase key context i).phase ≡ i.phase) ⊎ ((moved phase key context i).phase ≡ phase)
  moved-phase i = ground arith

  -- The instance itself.
  pub moved_self :
      (i : Instance) → i.key ≡ key → i.context ≡ context → (moved phase key context i).phase ≡ phase
  moved_self i k c = ground (arith, key_eq_iff i.key key)

  -- An instance that did not move.
  pub moved-other :
      (i : Instance) → (moved phase key context i ≡ i) ⊎ ((i.key ≡ key) × (i.context ≡ context))
  moved-other i = ground (arith, key_eq_iff i.key key)

module _ {C : Type 0} (outcome : Option Cause) (key : NamespacedName) (context : ℕ) where
  abbrev pub returned_in :
      NamespacedName → Option (ResourceController C) → Option (ResourceController C)
  returned_in k none = none
  returned_in k (some rc) = some (returned_for outcome key context k rc)

  pub lookup-controller_returned :
      (k : NamespacedName) (m : Table (ResourceController C))
      → lookup k (controller_returned outcome key context m) ≡ returned_in k (lookup k m)
  unfolding controller_returned lookup
  lookup-controller_returned k [] = refl
  lookup-controller_returned k ((j, rc) ∷ m) = elim (Bool-cases (key_eq j k)) [
    | inl here ↦ ground (arith, key_eq_iff j k)
    | inr other ↦ ground (arith, lookup-controller_returned k m)
  ]

  pub returned_for-lifetime :
      (k : NamespacedName) (rc : ResourceController C)
      → (returned_for outcome key context k rc).lifetime ≡ rc.lifetime
  returned_for-lifetime k rc = ground arith

  -- A controller that has not changed, or it is the one whose Start returned.
  pub returned_for-cases :
      (k : NamespacedName) (rc : ResourceController C)
      → (returned_for outcome key context k rc ≡ rc)
        ⊎ ((k ≡ key)
            × (rc.lifetime ≡ context)
            × (is_some (returned_for outcome key context k rc).done ≡ true))
  returned_for-cases k rc = ground (arith, key_eq_iff k key)

  pub returned_from :
      (k : NamespacedName) (m : Table (ResourceController C)) (rc' : ResourceController C)
      → lookup k (controller_returned outcome key context m) ≡ some rc'
      → (rc : ResourceController C) × (lookup k m ≡ some rc)
        × (returned_for outcome key context k rc ≡ rc')
  returned_from k m rc' h = elim (Option-cases (lookup k m)) [
    | inl absent ↦ ground (arith, lookup-controller_returned k m)
    | inr (rc, there) ↦ (
      rc,
      there,
      some_injective (ap (returned_in k) (sym there) ∙ sym (lookup-controller_returned k m) ∙ h),
    )
  ]

  -- A controller in the map has returned where its instance has.
  pub moved-returned_for :
      (k : NamespacedName) (rc : ResourceController C) (i : Instance)
      → i.key ≡ k
      → i.context ≡ rc.lifetime
      → is_running i.phase ≡ not (is_some rc.done)
      → is_running (moved closed key context i).phase
        ≡ not (is_some (returned_for outcome key context k rc).done)
  moved-returned_for k rc i named at runs = ground arith

  pub delete-controller_returned :
      (m : Table (ResourceController C))
      → delete key (controller_returned outcome key context m) ≡ delete key m
  unfolding controller_returned delete
  delete-controller_returned [] = refl
  delete-controller_returned ((k, rc) ∷ m) = ground (arith, delete-controller_returned m)

pub running_phase : (p : Phase) → is_running p ≡ true → p ≡ running
running_phase running h = refl
running_phase closed h = cc
running_phase notified h = cc
