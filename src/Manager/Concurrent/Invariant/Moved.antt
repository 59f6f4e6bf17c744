-- ===== src/Manager/Concurrent/Invariant/Moved.antt =====
-- What holds of the instances and the controllers, after an instance went on to a phase.
use mathlib.Core.Path.{subst, subst₂}
use espejote.Base.{ℕ, Option, some, List, Listed, ◌≡◌, sym, ap, ◌∙◌}
use espejote.Kube.{Cause, NamespacedName}
use espejote.Manager.Keyed.{Table, lookup}
use espejote.Manager.{State, ResourceController}
use espejote.Manager.Concurrent.{
  Phase, closed, Instance, moved, set_phase, Stage, idle, taken, stopping, starting, ensured,
  returned_for, controller_returned,
}
use espejote.Manager.Concurrent.Turns.{Held, IsStaged}
use espejote.Manager.Concurrent.Goroutines.{
  Listed-moved, moved_from, moved-returned_for, moved-same, returned_in, lookup-controller_returned,
  returned_for-lifetime,
}
use espejote.Manager.Concurrent.Invariant.{IsHeld, HasInstance}

module _ (phase : Phase) (key : NamespacedName) (context : ℕ) (is : List Instance) where
  pub moved_keeps :
      (P : NamespacedName → ℕ → Type 0)
      → ((j : Instance) → Listed j is → P j.key j.context)
      → (i : Instance) → Listed i (set_phase phase key context is)
      → P i.key i.context
  moved_keeps P each i h =
      let (j, there, same) = moved_from phase key context i is h in
      let kept = moved-same phase key context j in
      subst (λ x. P x.key x.context) same (subst₂ P (sym kept.0) (sym kept.1) (each j there))

  pub moved_alike :
      ((i j : Instance) → Listed i is → Listed j is → i.context ≡ j.context → i ≡ j)
      → (i j : Instance) → Listed i (set_phase phase key context is)
      → Listed j (set_phase phase key context is)
      → i.context ≡ j.context
      → i ≡ j
  moved_alike alike i j hi hj same =
      let (i', there, of_i) = moved_from phase key context i is hi in
      let (j', there', of_j) = moved_from phase key context j is hj in
      let same' : i'.context ≡ j'.context =
        sym (moved-same phase key context i').1
        ∙ ap (λ x. x.context) of_i
        ∙ same
        ∙ ap (λ x. x.context) (sym of_j)
        ∙ (moved-same phase key context j').1 in
      sym of_i ∙ ap (moved phase key context) (alike i' j' there there' same') ∙ of_j

module _ {C : Type 0} (outcome : Option Cause) (key : NamespacedName) (context : ℕ) where
  pub lookup-returned :
      (k : NamespacedName) (m : Table (ResourceController C)) (rc : ResourceController C)
      → lookup k m ≡ some rc
      → lookup k (controller_returned outcome key context m)
        ≡ some (returned_for outcome key context k rc)
  lookup-returned k m rc at =
      lookup-controller_returned outcome key context k m ∙ ap (returned_in outcome key context k) at

  pub IsHeld-returned :
      (k : NamespacedName) (n : ℕ) (m : Table (ResourceController C))
      → IsHeld k n m
      → IsHeld k n (controller_returned outcome key context m)
  IsHeld-returned k n m (rc, at, life) = (
    returned_for outcome key context k rc,
    lookup-returned k m rc at,
    returned_for-lifetime outcome key context k rc ∙ life,
  )

  pub HasInstance-returned :
      (k : NamespacedName) (rc : ResourceController C) (is : List Instance)
      → HasInstance k rc is
      → HasInstance k (returned_for outcome key context k rc) (set_phase closed key context is)
  HasInstance-returned k rc is (j, listed, named, at, runs) =
      let kept = moved-same closed key context j in
      (
        moved closed key context j,
        Listed-moved closed key context j is listed,
        kept.0 ∙ named,
        kept.1 ∙ at ∙ sym (returned_for-lifetime outcome key context k rc),
        moved-returned_for outcome key context k rc j named at runs,
      )

  Held-returned :
      (k : NamespacedName) (st : State C) (h : Held k st)
      → (h' : Held k
          (record st { controllers = controller_returned outcome key context st.controllers }))
        × (h'.0.lifetime ≡ h.0.lifetime)
  Held-returned k st (rc, at) = (
    (returned_for outcome key context k rc, lookup-returned k st.controllers rc at),
    returned_for-lifetime outcome key context k rc,
  )

  pub IsStaged-returned :
      (stage : Stage C) (st : State C)
      → IsStaged stage st
      → IsStaged stage
          (record st { controllers = controller_returned outcome key context st.controllers })
  IsStaged-returned idle st h = tt
  IsStaged-returned (taken r) st h = h
  IsStaged-returned (stopping r mr hash) st (named, (held, canceled)) =
      let held' = Held-returned r.key st held in
      (named, (held'.0, subst (λ n. ¬ Listed n st.live) (sym held'.1) canceled))
  IsStaged-returned (starting r mr hash) st (named, absent) = (
    named,
    lookup-controller_returned outcome key context r.key st.controllers
        ∙ ap (returned_in outcome key context r.key) absent,
  )
  IsStaged-returned (ensured r mr) st (named, held) = (named, (Held-returned r.key st held).0)
