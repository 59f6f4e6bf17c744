-- ===== src/Tests/OfSelection.antt =====
-- The theorems on selectors at concrete inputs.
use espejote.Base.{true, none, some, [], ◌∷◌, ok}
use espejote.Api.{ClusterResource}
use espejote.Selection.{cache_options, object_selector}
use espejote.Selection.Names.{SameOutcome, cache_options-object_selector}

abbrev pub deployments : ClusterResource
deployments = record {
  api_version = "apps/v1";
  kind = "Deployment";
  name = "";
  namespace = some "team";
  label_selector = none;
  match_names = "a" ∷ "b" ∷ [];
  ignore_names = "b" ∷ [];
  strip_managed_fields = none;
}

cache_options-object_selector_example :
    SameOutcome
      (cache_options "all" (λ s. ok s) (λ g. ok true) deployments "default")
      (object_selector "all" (λ s. ok s) (λ g. ok true) deployments "default")
cache_options-object_selector_example =
    cache_options-object_selector "all" (λ s. ok s) (λ g. ok true) deployments "default"
