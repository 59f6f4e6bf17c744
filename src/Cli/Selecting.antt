-- ===== src/Cli/Selecting.antt =====
-- objectSelectingReader of cmd/render.go: reads that pass a selector only.
use espejote.Base.{
  String, Bool, true, not, ◌&&◌, Option, none, some, List, [], ◌∷◌, ◌==◌, if◌then◌else◌, Result, ok,
  err, wrap, ◌>>=◌,
}
use espejote.Kube.{Unstructured, Gvk, Cause, ApiError, not_found}
use espejote.Selection.{ObjectSelector, FieldSelector, metadata_name, metadata_namespace}

pub data ReadError : Type 0 where
  wrong_kind selectors_not_supported not_an_object : ReadError
  client_error : ApiError → ReadError
  not_transformed not_a_list not_set : Cause → ReadError

abbrev pub gvk_eq : Gvk → Gvk → Bool
gvk_eq a b = a.group == b.group && (a.version == b.version && a.kind == b.kind)

-- fields.Selector.Matches on the name and the namespace of a key.
abbrev pub matches_term : String → String → FieldSelector → Bool
matches_term namespace name (metadata_name n) = n == name
matches_term namespace name (metadata_namespace n) = n == namespace

unfoldable pub matches_fields : List FieldSelector → String → String → Bool
matches_fields [] namespace name = true
matches_fields (s ∷ ss) namespace name =
    matches_term namespace name s && matches_fields ss namespace name

-- `matches_labels` is `labelSelector.Matches` on the labels of an object, and `strip` is
-- cache.TransformStripManagedFields. An element of a list that is no client.Object is `none`.
module _ (U : Unstructured) {L : Type 0} (matches_labels : L → U.Object → Bool)
    (strip : U.Object → Result Cause U.Object) where
  unfoldable pub transform : ObjectSelector L → U.Object → Result ReadError U.Object
  transform sel o = if sel.transforms then wrap not_transformed (strip o) else ok o

  -- Get, of an object of the kind `gvk`.
  unfoldable pub selecting_get :
      (Gvk → String → String → Result ApiError U.Object)
      → ObjectSelector L
      → Gvk
      → String
      → String
      → Result ReadError U.Object
  selecting_get get sel gvk namespace name =
      if not (gvk_eq sel.target gvk)
      then err wrong_kind
      else if not (matches_fields sel.fields_selector namespace name)
      then err (client_error not_found)
      else do
        o ← wrap client_error (get gvk namespace name)
        if not (matches_labels sel.label_selector o)
            then err (client_error not_found)
            else if not (sel.filter_func (U.name o))
            then err (client_error not_found)
            else transform sel o

  -- The loop over the elements of a list.
  unfoldable pub select_elements :
      ObjectSelector L → List (Option U.Object) → Result ReadError (List U.Object)
  select_elements sel [] = ok []
  select_elements sel (none ∷ os) = err not_an_object
  select_elements sel (some o ∷ os) =
      let rest = select_elements sel os in
      if not (sel.filter_func (U.name o))
      then rest
      else do o' ← transform sel o; os' ← rest; ok (o' ∷ os')

  -- List; `list` is the client's with the two selectors, `extract` is meta.ExtractList, and
  -- `has_selectors` tells whether the caller's options have selectors. meta.SetList puts the elements
  -- that are left back.
  unfoldable pub selecting_list :
      {List' : Type 0}
      → (Gvk → List FieldSelector → L → Result ApiError List')
      → (List' → Result Cause (List (Option U.Object)))
      → (List' → List U.Object → Result Cause List')
      → Bool
      → ObjectSelector L
      → Gvk
      → Result ReadError List'
  unfolding select_elements
  selecting_list list extract set_list has_selectors sel gvk =
      if not (gvk_eq sel.target gvk)
      then err wrong_kind
      else if has_selectors
      then err selectors_not_supported
      else do
        l ← wrap client_error (list gvk sel.fields_selector sel.label_selector)
        elements ← wrap not_a_list (extract l)
        filtered ← select_elements sel elements
        wrap not_set (set_list l filtered)
