-- ===== src/Selection/Names.antt =====
-- The name filter, and that the controller and the command line select alike.
use espejote.Base.{
  Listed, String, Bool, true, false, Option, none, some, List, [], ◌∷◌, ◌≡◌, ◌↔◌, ◌⊎◌, refl, eq_iff,
  arith, Result, ok, inl, inr, err, Result-cases, if◌then◌else◌,
}
use espejote.Kube.{Gvk, Cause}
use espejote.Api.{ClusterResource, LabelSelector, get_gvk}
use espejote.Selection.{
  contains, keeps_name, label_selector_of, has_name_filter, CacheOptions, ObjectSelector,
  cache_options, object_selector, SelectionError,
}

pub contains_iff : (xs : List String) (a : String) → (contains xs a ≡ true) ↔ Listed a xs
unfolding contains
contains_iff [] a = ground arith
contains_iff (x ∷ xs) a = ground (arith, eq_iff x a, contains_iff xs a)

-- An object passes the name filter exactly if it is among the names to match, where there are any,
-- and not among the names to ignore.
pub keeps_name_iff :
    (cr : ClusterResource) (name : String)
    → (keeps_name cr name ≡ true)
      ↔ (((cr.match_names ≡ []) ⊎ Listed name cr.match_names) × ¬ Listed name cr.ignore_names)
unfolding keeps_name
keeps_name_iff cr name =
    ground (arith, contains_iff cr.match_names name, contains_iff cr.ignore_names name)

-- The informer's filter, with nothing filtered where none is set.
abbrev pub passes : Option (String → Bool) → String → Bool
passes none name = true
passes (some f) name = f name

abbrev pub SameSelection : {L : Type 0} → CacheOptions L → ObjectSelector L → Type 0
SameSelection c o =
    (c.target ≡ o.target)
    × (c.default_field_selector ≡ o.fields_selector)
    × (c.default_label_selector ≡ o.label_selector)
    × (c.strips ≡ o.transforms)
    × ((name : String) → passes c.new_informer name ≡ o.filter_func name)

abbrev pub SameOutcome :
    {L : Type 0}
    → Result SelectionError (CacheOptions L)
    → Result SelectionError (ObjectSelector L)
    → Type 0
SameOutcome (ok c) (ok o) = SameSelection c o
SameOutcome (err e) (err e') = e ≡ e'
SameOutcome _ _ = ⊥

passes-if :
    (b : Bool) (f : String → Bool) (name : String)
    → passes (if b then some f else none) name ≡ (if b then f else λ n. true) name
passes-if true f name = refl
passes-if false f name = refl

module _ {L : Type 0} (everything : L) (parse_labels : LabelSelector → Result Cause L)
    (is_namespaced : Gvk → Result Cause Bool) where
  -- A resource selects the same for the controller's cache and for the command line: both fail with
  -- the same error, or both have the same kind, field and label selectors, strip managed fields or
  -- not alike, and let the same names pass.
  pub cache_options-object_selector :
      (cr : ClusterResource) (ns : String)
      → SameOutcome
          (cache_options everything parse_labels is_namespaced cr ns)
          (object_selector everything parse_labels is_namespaced cr ns)
  unfolding cache_options object_selector
  cache_options-object_selector cr ns = elim (Result-cases (is_namespaced (get_gvk cr))) [
    | inr (e, failed) ↦ rw (failed, SameOutcome) refl
    | inl (namespaced, found) ↦
        elim (Result-cases (label_selector_of everything parse_labels cr.label_selector)) [
          | inr (e, failed) ↦ rw (found, failed, SameOutcome) refl
          | inl (labels, parsed) ↦
              rw (found, parsed, SameOutcome)
                (
                  refl,
                  refl,
                  refl,
                  refl,
                  λ name. passes-if (has_name_filter cr) (keeps_name cr) name,
                )
        ]
  ]
