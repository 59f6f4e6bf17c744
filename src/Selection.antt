-- ===== src/Selection.antt =====
-- Which objects a trigger or a context selects: newCacheForResourceAndRESTClient of
-- controllers/managedresource_controller_manager.go, and objectSelectorForClusterResource of
-- cmd/render.go, which the command line uses in its place.
pub mod Names
pub mod Informer
use espejote.Base.{
  String, Bool, true, false, ◌&&◌, ◌||◌, not, Option, none, some, List, [], ◌∷◌, ◌++◌, not_empty,
  ◌==◌, if◌then◌else◌, Result, ok, wrap, ◌>>=◌,
}
use espejote.Kube.{Gvk, Cause}
use espejote.Api.{ClusterResource, LabelSelector, get_gvk, get_strip_managed_fields}

-- slices.Contains
unfoldable pub contains : List String → String → Bool
contains [] a = false
contains (x ∷ xs) a = x == a || contains xs a

-- One term of `fields.AndSelectors`.
pub data FieldSelector : Type 0 where
  metadata_name metadata_namespace : String → FieldSelector

pub data SelectionError : Type 0 where
  not_namespaced_or_cluster bad_label_selector : Cause → SelectionError

-- The optional name of a resource, as a selector.
abbrev pub name_selectors : ClusterResource → List FieldSelector
name_selectors cr = if cr.name == "" then [] else metadata_name cr.name ∷ []

-- `ptr.Deref(cr.GetNamespace(), defaultNamespace)`
abbrev pub or_default : Option String → String → String
or_default none d = d
or_default (some n) d = n

abbrev pub namespace_selectors : Bool → String → List FieldSelector
namespace_selectors is_namespaced ns =
    if is_namespaced && not (ns == "") then metadata_namespace ns ∷ [] else []

-- The filter on the names of objects.
unfoldable pub keeps_name : ClusterResource → String → Bool
unfolding contains
keeps_name cr name =
    (not (not_empty cr.match_names) || contains cr.match_names name)
    && not (contains cr.ignore_names name)

abbrev pub has_name_filter : ClusterResource → Bool
has_name_filter cr = not_empty cr.match_names || not_empty cr.ignore_names

-- The options of a new cache; `new_informer` is the filter that wraps the informer, if one does.
pub record CacheOptions (L : Type 0) : Type 0 where
  pub target : Gvk
  pub default_field_selector : List FieldSelector
  pub default_label_selector : L
  pub new_informer : Option (String → Bool)
  pub strips : Bool

pub record ObjectSelector (L : Type 0) : Type 0 where
  pub target : Gvk
  pub fields_selector : List FieldSelector
  pub label_selector : L
  pub filter_func : String → Bool
  pub transforms : Bool

-- `L` is `labels.Selector`, `everything` is `labels.Everything()` and `parse_labels` is
-- `metav1.LabelSelectorAsSelector`; `is_namespaced` is `apiutil.IsObjectNamespaced`.
module _ {L : Type 0} (everything : L) (parse_labels : LabelSelector → Result Cause L) where
  pub label_selector_of : Option LabelSelector → Result SelectionError L
  label_selector_of none = ok everything
  label_selector_of (some s) = wrap bad_label_selector (parse_labels s)

module _ {L : Type 0} (everything : L) (parse_labels : LabelSelector → Result Cause L)
    (is_namespaced : Gvk → Result Cause Bool) where
  unfoldable pub cache_options : ClusterResource → String → Result SelectionError (CacheOptions L)
  unfolding label_selector_of keeps_name
  cache_options cr default_namespace = do
    namespaced ← wrap not_namespaced_or_cluster (is_namespaced (get_gvk cr))
    labels ← label_selector_of everything parse_labels cr.label_selector
    ok (record {
      target = get_gvk cr;
      default_field_selector =
          name_selectors cr
          ++ namespace_selectors namespaced (or_default cr.namespace default_namespace);
      default_label_selector = labels;
      new_informer = if has_name_filter cr then some (keeps_name cr) else none;
      strips = get_strip_managed_fields cr;
    })

  unfoldable pub object_selector :
      ClusterResource → String → Result SelectionError (ObjectSelector L)
  unfolding label_selector_of keeps_name
  object_selector cr default_namespace = do
    namespaced ← wrap not_namespaced_or_cluster (is_namespaced (get_gvk cr))
    labels ← label_selector_of everything parse_labels cr.label_selector
    ok (record {
      target = get_gvk cr;
      fields_selector =
          name_selectors cr
          ++ namespace_selectors namespaced (or_default cr.namespace default_namespace);
      label_selector = labels;
      filter_func = if has_name_filter cr then keeps_name cr else λ name. true;
      transforms = get_strip_managed_fields cr;
    })
