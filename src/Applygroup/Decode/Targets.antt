-- ===== src/Applygroup/Decode/Targets.antt =====
-- Which object a rendered deletion is for.
use espejote.Base.{String, Option, some, List, false, ◌≡◌, ◌∙◌, refl, sym, ok}
use espejote.Kube.{Unstructured, SetterLaws}
use espejote.Applygroup.Data.{ApplyDefaults, DeleteOption, Node, delete_kind}
use espejote.Applygroup.Options.{strip_unstructured_for_delete, delete_options_from_rendered_object}
use espejote.Applygroup.Decode.{decode_object, gvk_eq, apply_group_config_gvk, blank}

module _ (U : Unstructured) where
  -- The same kind, namespace and name.
  abbrev pub SameTarget : U.Object → U.Object → Type 0
  SameTarget u v = (U.gvk u ≡ U.gvk v) × (U.namespace u ≡ U.namespace v) × (U.name u ≡ U.name v)

  strip_same :
      (u v : U.Object)
      → SameTarget u v
      → strip_unstructured_for_delete U v ≡ strip_unstructured_for_delete U u
  unfolding strip_unstructured_for_delete
  strip_same u v (gvk_same, namespace_same, name_same) =
      rw (gvk_same, namespace_same, name_same, strip_unstructured_for_delete) refl

module _ (U : Unstructured) (laws : SetterLaws U) where
  strip-SameTarget : (u : U.Object) → SameTarget U (strip_unstructured_for_delete U u) u
  unfolding strip_unstructured_for_delete
  strip-SameTarget u =
      let typed = U.set_gvk (U.gvk u) U.new in
      let spaced = U.set_namespace (U.namespace u) typed in
      (
        laws.gvk-set_name (U.name u) spaced
            ∙ laws.gvk-set_namespace (U.namespace u) typed
            ∙ laws.gvk-set_gvk (U.gvk u) U.new,
        laws.namespace-set_name (U.name u) spaced
            ∙ laws.namespace-set_namespace (U.namespace u) typed,
        laws.name-set_name (U.name u) spaced,
      )

  -- Two deletions with the same kind, namespace, name and deletion options, of a kind that is not
  -- that of group configurations, decode to the same node, whatever else they hold, and its object
  -- has this kind, namespace and name, if the setters do what they document.
  pub decode_object-SameTarget :
      (d : ApplyDefaults) (parent : Option String) (u v : U.Object) (opts : List DeleteOption)
      → SameTarget U u v
      → gvk_eq (U.gvk u) apply_group_config_gvk ≡ false
      → delete_options_from_rendered_object U u ≡ ok (some opts)
      → delete_options_from_rendered_object U v ≡ ok (some opts)
      → (n : Node U.Object) × (o : U.Object) × (decode_object U d parent u ≡ ok n)
        × (decode_object U d parent v ≡ ok n)
        × (n.kind ≡ delete_kind)
        × (n.resource ≡ some o)
        × SameTarget U o u
  unfolding decode_object
  decode_object-SameTarget d parent u v opts same kind deletes deletes' =
      let o = strip_unstructured_for_delete U u in
      (
        record (blank d delete_kind) { resource_delete_options = opts; resource = some o },
        o,
        rw (kind, deletes) refl,
        rw (sym same.0, kind, deletes', strip_same U u v same) refl,
        refl,
        refl,
        strip-SameTarget u,
      )
