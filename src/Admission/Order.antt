-- ===== src/Admission/Order.antt =====
-- The order that the admissions are sorted in, and that the order of a listing does not matter.
use Prim.Native.Nat.{Ordering}
use Prim.Native.String.{compare}
use mathlib.Core.Path.{ap₂}
use text.Mathlib.TextEquality.{path_by_compare}
use espejote.Base.{String, Option, List, map, ◌≡◌, ◌≢◌, ◌↔◌, refl, ◌∙◌, Listed, Distinct, ok}
use espejote.Base.Int.{ℤ, pos, ◌+ℤ◌, ◌*ℤ◌, sign, int_of, compare_strings, flip, flip-compare}
use espejote.Base.Sorting.{IsArranged, arranged_same}
use espejote.Kube.{NamespacedName, ApiError}
use espejote.Admission.{
  Admission, ClusterAdmission, AdmissionReconciler, WebhookConfigurationObject,
  write_configurations, reconcile_admissions,
}

-- The two functions that slices.SortFunc is called with.
unfoldable pub compare_admissions :
    {R Settings : Type 0} → Admission R Settings → Admission R Settings → ℤ
compare_admissions a b =
    pos 10 *ℤ compare_strings a.namespace b.namespace +ℤ compare_strings a.name b.name

unfoldable pub compare_cluster_admissions :
    {R Settings : Type 0} → ClusterAdmission R Settings → ClusterAdmission R Settings → ℤ
compare_cluster_admissions a b = compare_strings a.name b.name

-- By the first, and where it is equal by the second.
abbrev pub lexicographic : Ordering → Ordering → Ordering
lexicographic Ordering.lt o = Ordering.lt
lexicographic Ordering.eq o = o
lexicographic Ordering.gt o = Ordering.gt

weighted : (m n : Ordering) → sign (pos 10 *ℤ int_of m +ℤ int_of n) ≡ lexicographic m n
unfolding ◌+ℤ◌ ◌*ℤ◌
weighted Ordering.lt Ordering.lt = refl
weighted Ordering.lt Ordering.eq = refl
weighted Ordering.lt Ordering.gt = refl
weighted Ordering.eq Ordering.lt = refl
weighted Ordering.eq Ordering.eq = refl
weighted Ordering.eq Ordering.gt = refl
weighted Ordering.gt Ordering.lt = refl
weighted Ordering.gt Ordering.eq = refl
weighted Ordering.gt Ordering.gt = refl

-- The order on admissions is by namespace, and in a namespace by name.
pub compare_admissions-lexicographic :
    {R Settings : Type 0} (a b : Admission R Settings)
    → sign (compare_admissions a b)
      ≡ lexicographic (compare a.namespace b.namespace) (compare a.name b.name)
unfolding compare_admissions
compare_admissions-lexicographic a b =
    weighted (compare a.namespace b.namespace) (compare a.name b.name)

lexicographic_antisymm :
    (m n : Ordering)
    → lexicographic m n ≢ Ordering.gt
    → lexicographic (flip m) (flip n) ≢ Ordering.gt
    → (m ≡ Ordering.eq) × (n ≡ Ordering.eq)
lexicographic_antisymm Ordering.lt n h k = absurd (k refl)
lexicographic_antisymm Ordering.gt n h k = absurd (h refl)
lexicographic_antisymm Ordering.eq Ordering.lt h k = absurd (k refl)
lexicographic_antisymm Ordering.eq Ordering.eq h k = (refl, refl)
lexicographic_antisymm Ordering.eq Ordering.gt h k = absurd (h refl)

sign-int_of : (o : Ordering) → sign (int_of o) ≡ o
sign-int_of Ordering.lt = refl
sign-int_of Ordering.eq = refl
sign-int_of Ordering.gt = refl

not_gt_both : (o : Ordering) → o ≢ Ordering.gt → flip o ≢ Ordering.gt → o ≡ Ordering.eq
not_gt_both Ordering.lt h k = absurd (k refl)
not_gt_both Ordering.eq h k = refl
not_gt_both Ordering.gt h k = absurd (h refl)

module _ {R Settings : Type 0} where
  abbrev pub key_of : Admission R Settings → NamespacedName
  key_of a = record { namespace = a.namespace; name = a.name }

  abbrev pub cluster_key : ClusterAdmission R Settings → String
  cluster_key a = a.name

  compare_admissions_antisymm :
      (a b : Admission R Settings)
      → sign (compare_admissions a b) ≢ Ordering.gt
      → sign (compare_admissions b a) ≢ Ordering.gt
      → key_of a ≡ key_of b
  compare_admissions_antisymm a b h k =
      let m = compare a.namespace b.namespace in
      let n = compare a.name b.name in
      let back : sign (compare_admissions b a) ≡ lexicographic (flip m) (flip n) =
        compare_admissions-lexicographic b a
        ∙ ap₂ lexicographic (flip-compare a.namespace b.namespace) (flip-compare a.name b.name) in
      let (same_ns, same_name) =
        lexicographic_antisymm m n (λ e. h (compare_admissions-lexicographic a b ∙ e))
          (λ e. k (back ∙ e)) in
      ap₂ (λ x y. record { namespace = x; name = y })
        (path_by_compare a.namespace b.namespace same_ns) (path_by_compare a.name b.name same_name)

  compare_cluster_admissions_antisymm :
      (a b : ClusterAdmission R Settings)
      → sign (compare_cluster_admissions a b) ≢ Ordering.gt
      → sign (compare_cluster_admissions b a) ≢ Ordering.gt
      → cluster_key a ≡ cluster_key b
  unfolding compare_cluster_admissions
  compare_cluster_admissions_antisymm a b h k = path_by_compare a.name b.name (
      not_gt_both (compare a.name b.name) (λ e. h (sign-int_of (compare a.name b.name) ∙ e))
        (λ e. k (sign-int_of (compare b.name a.name) ∙ flip-compare a.name b.name ∙ e)))

  -- Where the Admissions of two listings are the same, and so are the ClusterAdmissions, no two
  -- have the same namespace and name or the same name, and each list is sorted to an ascending
  -- arrangement of it, a reconciliation does the same for both listings, whatever their order.
  pub reconcile_admissions_relisted :
      {S : Type 0} (join : List String → String)
      (sort : List (Admission R Settings) → List (Admission R Settings))
      (sort_cluster : List (ClusterAdmission R Settings) → List (ClusterAdmission R Settings))
      (patch : WebhookConfigurationObject R Settings → S → Option ApiError × S)
      (r : AdmissionReconciler) (as' bs : List (Admission R Settings))
      (cs ds : List (ClusterAdmission R Settings)) (s : S)
      → IsArranged compare_admissions as' (sort as') × IsArranged compare_admissions bs (sort bs)
      → IsArranged compare_cluster_admissions cs (sort_cluster cs)
        × IsArranged compare_cluster_admissions ds (sort_cluster ds)
      → Distinct (map key_of as')
        × Distinct (map key_of bs)
        × ((a : Admission R Settings) → Listed a as' ↔ Listed a bs)
      → Distinct (map cluster_key cs)
        × Distinct (map cluster_key ds)
        × ((c : ClusterAdmission R Settings) → Listed c cs ↔ Listed c ds)
      → reconcile_admissions join sort sort_cluster patch r (ok as') (ok cs) s
        ≡ reconcile_admissions join sort sort_cluster patch r (ok bs) (ok ds) s
  unfolding reconcile_admissions
  reconcile_admissions_relisted join sort sort_cluster patch r as' bs cs ds s (la, lb) (lc, ld)
        (da, db, same) (dc, dd, same') =
      ap₂ (λ x y. write_configurations join patch r x y s)
        (arranged_same compare_admissions key_of compare_admissions_antisymm as' bs (sort as')
          (sort bs) la lb da db same)
        (arranged_same compare_cluster_admissions cluster_key compare_cluster_admissions_antisymm cs
          ds (sort_cluster cs) (sort_cluster ds) lc ld dc dd same')
