-- ===== src/Cli/Collect/Cluster.antt =====
-- Collecting from a cluster: the selector of a resource, and the reader that selects by it.
use mathlib.Core.Path.{subst}
use espejote.Base.{
  String, Bool, true, false, Option, none, some, List, [], ◌∷◌, map, ◌≡◌, ◌⊎◌, inl, inr, refl, ap,
  ◌∙◌, arith, All, All-imp, Listed, if◌then◌else◌, Result, ok, ok_injective, Bool-cases,
  Result-cases, not_empty,
}
use espejote.Kube.{Unstructured, Gvk, Cause, ApiError}
use espejote.Api.{ClusterResource, LabelSelector, get_gvk}
use espejote.Selection.{
  ObjectSelector, FieldSelector, contains, label_selector_of, object_selector, keeps_name,
  has_name_filter,
}
use espejote.Selection.Names.{keeps_name_iff}
use espejote.Cli.Selecting.{ReadError, gvk_eq, transform, select_elements, selecting_list}
use espejote.Cli.Collect.{CollectEnv, items_of}

contains_nothing : (xs : List String) (a : String) → not_empty xs ≡ false → contains xs a ≡ false
unfolding contains
contains_nothing [] a h = refl
contains_nothing (x ∷ xs) a h = ground arith

module _ (U : Unstructured) {L : Type 0} (everything : L)
    (parse_labels : LabelSelector → Result Cause L) (is_namespaced : Gvk → Result Cause Bool)
    (matches_labels : L → U.Object → Bool) (strip : U.Object → Result Cause U.Object)
    (to_list : Gvk → Result Cause Gvk)
    (client_list : Gvk → List FieldSelector → L → Result ApiError (List U.Object)) where
  -- An UnstructuredList is its items, all of which are objects.
  abbrev extract_items : List U.Object → Result Cause (List (Option U.Object))
  extract_items os = ok (map (λ o. some o) os)

  abbrev set_items : List U.Object → List U.Object → Result Cause (List U.Object)
  set_items old os = ok os

  -- What collectInput reads with, in the namespace of the resource.
  unfoldable pub cluster_env : String → CollectEnv U.Object L
  cluster_env namespace = record {
    select = λ cr. object_selector everything parse_labels is_namespaced cr namespace;
    to_list = to_list;
    list = λ sel gvk.
        selecting_list U matches_labels strip client_list extract_items set_items false sel gvk;
  }

  module _ (names_kept : (o o' : U.Object) → strip o ≡ ok o' → U.name o' ≡ U.name o) where
    transform_name :
        (sel : ObjectSelector L) (o o' : U.Object)
        → transform U matches_labels strip sel o ≡ ok o'
        → U.name o' ≡ U.name o
    unfolding transform
    transform_name sel o o' h = elim (Bool-cases sel.transforms) [
      | inl strips ↦ elim (Result-cases (strip o)) [
        | inl (s, made) ↦ ground (arith, names_kept o s made)
        | inr (e, failed) ↦ ground arith
      ]
      | inr plain ↦ ground arith
    ]

    abbrev Passes : ObjectSelector L → U.Object → Type 0
    Passes sel o = sel.filter_func (U.name o) ≡ true

    select_elements_passed :
        (sel : ObjectSelector L) (els : List (Option U.Object)) (os : List U.Object)
        → select_elements U matches_labels strip sel els ≡ ok os
        → All (Passes sel) os
    unfolding select_elements
    select_elements_passed sel [] os h = subst (All (Passes sel)) (ok_injective h) tt
    select_elements_passed sel (none ∷ els) os h = absurd (ground arith)
    select_elements_passed sel (some o ∷ els) os h =
        elim (Bool-cases (sel.filter_func (U.name o))) [
          | inr dropped ↦ select_elements_passed sel els os (ground arith)
          | inl kept ↦ elim (Result-cases (transform U matches_labels strip sel o)) [
            | inr (e, failed) ↦ absurd (ground arith)
            | inl (o', made) ↦
                elim (Result-cases (select_elements U matches_labels strip sel els)) [
                  | inr (e, failed) ↦ absurd (ground arith)
                  | inl (rest, more) ↦
                      let result : Result ReadError (List U.Object) = ok (o' ∷ rest) in
                      let joined : result ≡ ok os = ground arith in
                      subst (All (Passes sel)) (ok_injective joined) (
                        ap sel.filter_func (transform_name sel o o' made) ∙ kept,
                        select_elements_passed sel els rest more,
                      )
                ]
          ]
        ]

    selected :
        (sel : ObjectSelector L) (gvk : Gvk) (els os : List U.Object)
        → gvk_eq sel.target gvk ≡ true
        → client_list gvk sel.fields_selector sel.label_selector ≡ ok els
        → selecting_list U matches_labels strip client_list extract_items set_items false sel gvk
          ≡ ok os
        → select_elements U matches_labels strip sel (map (λ o. some o) els) ≡ ok os
    unfolding selecting_list
    selected sel gvk els os same found h =
        elim (Result-cases (select_elements U matches_labels strip sel (map (λ o. some o) els))) [
          | inr (e, failed) ↦ ground arith
          | inl (r, made) ↦ ground arith
        ]

    listed_passed :
        (sel : ObjectSelector L) (gvk : Gvk) (os : List U.Object)
        → selecting_list U matches_labels strip client_list extract_items set_items false sel gvk
          ≡ ok os
        → All (Passes sel) os
    unfolding selecting_list
    listed_passed sel gvk os h = elim (Bool-cases (gvk_eq sel.target gvk)) [
      | inr other ↦ absurd (ground arith)
      | inl same ↦ elim (Result-cases (client_list gvk sel.fields_selector sel.label_selector)) [
        | inr (e, failed) ↦ absurd (ground arith)
        | inl (els, found) ↦
            select_elements_passed sel (map (λ o. some o) els) os
              (selected sel gvk els os same found h)
      ]
    ]

    -- The name is among those to match, where there are any, and not among those to ignore.
    abbrev pub IsKept : ClusterResource → U.Object → Type 0
    IsKept cr o =
        ((cr.match_names ≡ []) ⊎ Listed (U.name o) cr.match_names)
        × ¬ Listed (U.name o) cr.ignore_names

    selector_filter :
        (cr : ClusterResource) (namespace : String) (sel : ObjectSelector L)
        → object_selector everything parse_labels is_namespaced cr namespace ≡ ok sel
        → sel.filter_func ≡ (if has_name_filter cr then keeps_name cr else λ name. true)
    unfolding object_selector
    selector_filter cr namespace sel h = elim (Result-cases (is_namespaced (get_gvk cr))) [
      | inr (e, failed) ↦ absurd (ground arith)
      | inl (b, known) ↦
          elim (Result-cases (label_selector_of everything parse_labels cr.label_selector)) [
            | inr (e, failed) ↦ absurd (ground arith)
            | inl (labels, parsed) ↦ ground arith
          ]
    ]

    selector_keeps :
        (cr : ClusterResource) (namespace : String) (sel : ObjectSelector L) (o : U.Object)
        → object_selector everything parse_labels is_namespaced cr namespace ≡ ok sel
        → Passes sel o
        → keeps_name cr (U.name o) ≡ true
    unfolding keeps_name
    selector_keeps cr namespace sel o h passed = elim (Bool-cases (not_empty cr.match_names)) [
      | inl matching ↦ ground (arith, ap (λ f. f (U.name o)) (selector_filter cr namespace sel h))
      | inr any ↦ elim (Bool-cases (not_empty cr.ignore_names)) [
        | inl ignoring ↦ ground (arith, ap (λ f. f (U.name o)) (selector_filter cr namespace sel h))
        | inr all ↦ ground (arith, contains_nothing cr.ignore_names (U.name o))
      ]
    ]

    -- Where stripping the managed fields keeps the name of an object, and the objects that a
    -- resource selects in the cluster are collected, each has one of the names to match, if the
    -- resource has any, and none of the names to ignore.
    pub items_of-IsKept :
        (namespace name : String) (cr : ClusterResource) (items : List U.Object)
        → items_of (cluster_env namespace) name cr ≡ ok items
        → All (IsKept cr) items
    unfolding items_of cluster_env
    items_of-IsKept namespace name cr items h =
        elim (Result-cases (object_selector everything parse_labels is_namespaced cr namespace)) [
          | inr (e, failed) ↦ absurd (ground arith)
          | inl (sel, made) ↦ elim (Result-cases (to_list (get_gvk cr))) [
            | inr (e, failed) ↦ absurd (ground arith)
            | inl (gvk, ready) ↦
                elim (Result-cases (
                  selecting_list U matches_labels strip client_list extract_items set_items false
                    sel gvk)) [
                      | inr (e, failed) ↦ absurd (ground arith)
                      | inl (os, found) ↦
                          let same : os ≡ items = ground arith in
                          subst (All (IsKept cr)) same (
                            All-imp _ _ os
                              (λ o passed.
                                (keeps_name_iff cr (U.name o)).0
                                  (selector_keeps cr namespace sel o made passed))
                              (listed_passed sel gvk os found))
                    ]
          ]
        ]
