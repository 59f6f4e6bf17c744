-- ===== src/Manager/Concurrent/Invariant/Events.antt =====
-- The invariant through the steps that are not turns of Reconcile.
use mathlib.Core.Path.{subst}
use espejote.Base.{◌<◌, Option, some, ◌∷◌, Listed, ◌≡◌, inl, inr, refl, sym, ap, ◌∙◌, none_ne_some}
use espejote.Kube.{Cause, NamespacedName}
use espejote.Manager.Spec.{Request, IsNamed}
use espejote.Manager.Concurrent.{
  closed, notified, Instance, moved, set_phase, idle, taken, controller_returned,
}
use espejote.Manager.Concurrent.Goroutines.{
  is_running, Listed-moved, returned_from, moved-same, moved-phase, moved_self, moved-other,
  returned_for-cases,
}
use espejote.Manager.Concurrent.Steps.{System, remove, busy_with}
use espejote.Manager.Concurrent.Invariant.{IsHeld, HasInstance, Inv, Listed-remove}
use espejote.Manager.Concurrent.Invariant.Moved.{
  moved_keeps, moved_alike, IsHeld-returned, HasInstance-returned, IsStaged-returned,
}

module _ {C : Type 0} (s : System C) (inv : Inv s) where
  pub arrive-Inv : (key : NamespacedName) → Inv (record s { requests = key ∷ s.requests })
  arrive-Inv key = record {
    below = inv.below;
    alike = inv.alike;
    owned = inv.owned;
    attended = inv.attended;
    staged = inv.staged;
    seen = λ k rc c h d. elim (inv.seen k rc c h d) [
      | inl pending ↦ inl pending
      | inr (inl queued) ↦ inr (inl (inr queued))
      | inr (inr busy) ↦ inr (inr busy)
    ];
  }

  pub take-Inv :
      (r : Request C)
      → IsNamed r
      → s.stage ≡ idle
      → Inv (record s { stage = taken r; requests = remove r.key s.requests })
  take-Inv r named free = record {
    below = inv.below;
    alike = inv.alike;
    owned = inv.owned;
    attended = inv.attended;
    staged = named;
    seen = λ k rc c h d. elim (inv.seen k rc c h d) [
      | inl pending ↦ inl pending
      | inr (inl queued) ↦ elim (Listed-remove r.key k s.requests queued) [
        | inl same ↦ inr (inr (ap some (sym same)))
        | inr left ↦ inr (inl left)
      ]
      | inr (inr busy) ↦ absurd (none_ne_some (ap busy_with (sym free) ∙ busy))
    ];
  }

  notified_runs :
      (i j : Instance)
      → Listed i s.instances
      → Listed j s.instances
      → i.phase ≡ closed
      → is_running (moved notified i.key i.context j).phase ≡ is_running j.phase
  notified_runs i j there listed ended = elim (moved-other notified i.key i.context j) [
    | inl same ↦ ap (λ x. is_running x.phase) same
    | inr (named, at) ↦
        ap is_running (moved_self notified i.key i.context j named at)
        ∙ ap is_running (sym ended)
        ∙ ap (λ x. is_running x.phase) (inv.alike i j there listed (sym at))
  ]

  pub notify-Inv :
      (i : Instance)
      → Listed i s.instances
      → i.phase ≡ closed
      → Inv (record s {
        instances = set_phase notified i.key i.context s.instances;
        requests = i.key ∷ s.requests;
      })
  notify-Inv i there ended = record {
    below = moved_keeps notified i.key i.context s.instances (λ k n. n < s.manager.next) inv.below;
    alike = moved_alike notified i.key i.context s.instances inv.alike;
    owned =
        moved_keeps notified i.key i.context s.instances
          (λ k n. Listed n s.manager.live → IsHeld k n s.manager.controllers) inv.owned;
    attended = λ k rc h.
        let (j, listed, named, at, runs) = inv.attended k rc h in
        let kept = moved-same notified i.key i.context j in
        (
          moved notified i.key i.context j,
          Listed-moved notified i.key i.context j s.instances listed,
          kept.0 ∙ named,
          kept.1 ∙ at,
          notified_runs i j there listed ended ∙ runs,
        );
    staged = inv.staged;
    seen = λ k rc c h d. elim (inv.seen k rc c h d) [
      | inl (j, listed, named, waits) ↦ elim (moved-other notified i.key i.context j) [
        | inl same ↦ inl (
          moved notified i.key i.context j,
          Listed-moved notified i.key i.context j s.instances listed,
          ap (λ x. x.key) same ∙ named,
          ap (λ x. x.phase) same ∙ waits,
        )
        | inr (named', at) ↦ inr (inl (inl (sym named' ∙ named)))
      ]
      | inr (inl queued) ↦ inr (inl (inr queued))
      | inr (inr busy) ↦ inr (inr busy)
    ];
  }

  pub return_start-Inv :
      (i : Instance) (outcome : Option Cause)
      → Listed i s.instances
      → Inv (record s {
        manager = record s.manager {
          controllers = controller_returned outcome i.key i.context s.manager.controllers;
        };
        instances = set_phase closed i.key i.context s.instances;
      })
  return_start-Inv i outcome there =
      let m = s.manager.controllers in
      record {
        below =
            moved_keeps closed i.key i.context s.instances (λ k n. n < s.manager.next) inv.below;
        alike = moved_alike closed i.key i.context s.instances inv.alike;
        owned =
            moved_keeps closed i.key i.context s.instances
              (λ k n.
                Listed n s.manager.live
                → IsHeld k n (controller_returned outcome i.key i.context m))
              (λ j listed live.
                IsHeld-returned outcome i.key i.context j.key j.context m
                  (inv.owned j listed live));
        attended = λ k rc' h.
            let (rc, at, made) = returned_from outcome i.key i.context k m rc' h in
            subst (λ x. HasInstance k x (set_phase closed i.key i.context s.instances)) made
              (HasInstance-returned outcome i.key i.context k rc s.instances
                (inv.attended k rc at));
        staged = IsStaged-returned outcome i.key i.context s.stage s.manager inv.staged;
        seen = λ k rc' c h d.
            let (rc, at, made) = returned_from outcome i.key i.context k m rc' h in
            elim (returned_for-cases outcome i.key i.context k rc) [
              | inr (named, life, ended) ↦ inl (
                moved closed i.key i.context i,
                Listed-moved closed i.key i.context i s.instances there,
                (moved-same closed i.key i.context i).0 ∙ sym named,
                moved_self closed i.key i.context i refl refl,
              )
              | inl same ↦ elim (inv.seen k rc c at (ap (λ x. x.done) (sym same ∙ made) ∙ d)) [
                | inl (j, listed, named, waits) ↦ inl (
                  moved closed i.key i.context j,
                  Listed-moved closed i.key i.context j s.instances listed,
                  (moved-same closed i.key i.context j).0 ∙ named,
                  elim (moved-phase closed i.key i.context j) [
                    | inl same' ↦ same' ∙ waits
                    | inr ended ↦ ended
                  ],
                )
                | inr kept ↦ inr kept
              ]
            ];
      }
