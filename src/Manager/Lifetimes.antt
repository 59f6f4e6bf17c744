-- ===== src/Manager/Lifetimes.antt =====
-- The contexts that are not canceled are those of the controllers.
pub mod Starting
use mathlib.Core.Path.{subst, ◌∙◌}
use espejote.Base.{
  ℕ, suc, ◌<◌, String, Bool, true, false, Option, none, some, List, [], ◌∷◌, num_eq, Bool-cases,
  if◌then◌else◌, ◌≡◌, ◌≢◌, refl, arith, ap, Result, ok, err, Result-cases, Option-cases, inl, inr,
  some_injective,
}
use espejote.Kube.{NamespacedName, Cause}
use espejote.Api.{ManagedResource}
use espejote.Manager.Keyed.{
  Table, lookup, insert, delete, cancel, key_eq, key_eq_iff, lookup-delete, lookup-delete_other,
  delete_absent,
}
use espejote.Manager.Caches.{cache_for}
use espejote.Manager.{
  State, Env, EnsureError, watch_failed, ResourceController, RestConfig, key_of,
  resource_controller, controller_name, stop_and_remove_controller_for, current_for,
  start_in_context, start_controller, ensure_instance_controller_for,
  config_hash_for_managed_resource, rest_config_for_managed_resource,
}

abbrev pub lifetimes : {C : Type 0} → Table (ResourceController C) → List ℕ
lifetimes [] = []
lifetimes ((k, rc) ∷ m) = rc.lifetime ∷ lifetimes m

-- Each number is below the one before it, and the first below `bound`.
abbrev pub Descending : ℕ → List ℕ → Type 0
Descending bound [] = Unit
Descending bound (c ∷ cs) = (c < bound) × Descending c cs

abbrev pub Unique : {V : Type 0} → Table V → Type 0
Unique [] = Unit
Unique ((k, v) ∷ m) = (lookup k m ≡ none) × Unique m

-- Each resource has at most one controller, each controller its own context, and no other context
-- is live.
abbrev pub IsAccounted : {C : Type 0} → State C → Type 0
IsAccounted st =
    (st.live ≡ lifetimes st.controllers) × Descending st.next st.live × Unique st.controllers

pub Descending-weaken : (b c : ℕ) (cs : List ℕ) → b < c → Descending b cs → Descending c cs
Descending-weaken b c [] h d = tt
Descending-weaken b c (x ∷ xs) h (lt, rest) = (omega (arith, h, lt), rest)

pub cancel_above : (b : ℕ) (cs : List ℕ) → Descending b cs → cancel b cs ≡ cs
unfolding cancel
cancel_above b [] d = refl
cancel_above b (c ∷ cs) (lt, rest) = ground (arith, cancel_above b cs, Descending-weaken c b cs)

Descending-cancel : (b n : ℕ) (cs : List ℕ) → Descending b cs → Descending b (cancel n cs)
unfolding cancel
Descending-cancel b n [] d = tt
Descending-cancel b n (c ∷ cs) (lt, rest) =
    ground (arith, Descending-cancel c n cs, Descending-weaken c b (cancel n cs))

module _ {C : Type 0} where
  lifetime_below :
      (b : ℕ) (k : NamespacedName) (rc : ResourceController C) (m : Table (ResourceController C))
      → Descending b (lifetimes m)
      → lookup k m ≡ some rc
      → rc.lifetime < b
  unfolding lookup
  lifetime_below b k rc [] d h = ground arith
  lifetime_below b k rc ((j, v) ∷ m) (lt, rest) h = elim (Bool-cases (key_eq j k)) [
    | inl here ↦ subst (λ x. x.lifetime < b) (some_injective (rw here at h)) lt
    | inr other ↦ omega (arith, lt, lifetime_below v.lifetime k rc m rest (rw other at h))
  ]

  cancel-lifetimes :
      (b : ℕ) (k : NamespacedName) (rc : ResourceController C) (m : Table (ResourceController C))
      → Descending b (lifetimes m)
      → Unique m
      → lookup k m ≡ some rc
      → cancel rc.lifetime (lifetimes m) ≡ lifetimes (delete k m)
  unfolding lookup delete cancel
  cancel-lifetimes b k rc [] d u h = ground arith
  cancel-lifetimes b k rc ((j, v) ∷ m) (lt, rest) (fresh, u) h = elim (Bool-cases (key_eq j k)) [
    | inl here ↦ ground (
      arith,
      some_injective (rw here at h),
      cancel_above v.lifetime (lifetimes m) rest,
      delete_absent k m,
      key_eq_iff j k,
    )
    | inr other ↦
        ground
          (arith, lifetime_below v.lifetime k rc m rest, cancel-lifetimes v.lifetime k rc m rest u)
  ]

  Unique-delete :
      (k : NamespacedName) (m : Table (ResourceController C)) → Unique m → Unique (delete k m)
  unfolding delete
  Unique-delete k [] u = tt
  Unique-delete k ((j, v) ∷ m) (fresh, u) =
      ground (arith, Unique-delete k m u, lookup-delete_other k j m, key_eq_iff j k)

  -- Where each resource has at most one controller, the contexts that are live are those of the
  -- controllers, one each, and later ones have higher numbers, removing a resource's controller
  -- keeps this.
  pub stop_and_remove_controller_for-IsAccounted :
      (key : NamespacedName) (st : State C)
      → IsAccounted st
      → IsAccounted (stop_and_remove_controller_for key st)
  unfolding stop_and_remove_controller_for
  stop_and_remove_controller_for-IsAccounted key st (same, descending, unique) =
      elim (Option-cases (lookup key st.controllers)) [
        | inl absent ↦ rw (absent, stop_and_remove_controller_for) (same, descending, unique)
        | inr (rc, there) ↦
            rw (there, stop_and_remove_controller_for)
              (
                ap (λ l. cancel rc.lifetime l) same
                    ∙ cancel-lifetimes st.next key rc st.controllers
                        (subst (λ l. Descending st.next l) same descending) unique there,
                Descending-cancel st.next rc.lifetime st.live descending,
                Unique-delete key st.controllers unique,
              )
      ]
