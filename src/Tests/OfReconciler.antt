-- ===== src/Tests/OfReconciler.antt =====
-- The theorems on the reconciler of an instance at concrete inputs.
use espejote.Base.{
  String, true, false, Option, none, some, List, [], ◌∷◌, ◌≡◌, ◌≢◌, ◌⊎◌, refl, ok, err,
  ok_injective, sym, ap, ◌∙◌, arith, Listed, inl, inr,
}
use espejote.Kube.{ApiError}
use espejote.Api.{ManagedResource, ManagedResourceSpec}
use espejote.Manager.{Hasher, config_hash_for_managed_resource}
use espejote.Renderer.{TriggerInfo, evaluation}
use espejote.Applygroup.Decode.{null}
use espejote.Reconciler.{
  State, Env, done, reconcile_inner, check_config, sync_and_render,
  jsonnet_library_cache_needs_sync,
}
use espejote.Reconciler.Errors.{typed, template_error, rendering, ReconcileError}
use espejote.Reconciler.Config.{
  IsAccepted, MayHaveApplied, reconcile_inner-changed, reconcile_inner-IsAccepted,
  reconcile_inner-untouched,
}
use espejote.Reconciler.Status.{World, reconcile}
use espejote.Reconciler.Status.Laws.{reconcile-returns}
use espejote.Tests.Samples.{sample_objects, sample_client, first_error}

abbrev pub sample_spec : ManagedResourceSpec
sample_spec = record {
  triggers = [];
  context = [];
  service_account_ref = "";
  template = "null";
  cache_sync_timeout = 0;
  apply_options = record { field_manager = ""; force = false };
}

abbrev pub sample_resource : ManagedResource
sample_resource = record {
  name = "sample";
  namespace = "team";
  generation = 2;
  deleting = false;
  spec = sample_spec;
  status = "Ready";
}

-- The hash of a configuration is its service account here.
abbrev hasher : Hasher
hasher = record { encode_triggers = λ ts. ok ""; encode_contexts = λ cs. ok ""; md5_hex = λ s. s }

-- The second version has another configuration; the template fails.
abbrev first_version : ManagedResource
first_version = record sample_resource {
  generation = 1;
  spec = record sample_spec { service_account_ref = "first" };
}

abbrev second_version : ManagedResource
second_version = record sample_resource {
  spec = record sample_spec { service_account_ref = "second" };
}

abbrev versions : List ManagedResource
versions = first_version ∷ second_version ∷ []

abbrev reading : ManagedResource → Env sample_objects (List String)
reading mr = record {
  get_managed_resource = ok mr;
  hasher = hasher;
  trigger_cache_generation = λ ti. ok 1;
  controller_cache_generation = λ ti. ok 1;
  render = λ mr ti. err (evaluation "field does not exist");
  json_of = λ text. null;
  is_namespaced = λ o. ok true;
  client = sample_client;
  combine = first_error;
}

abbrev no_trigger : TriggerInfo
no_trigger = record {
  trigger_name = "";
  watch_resource = record { api_version = ""; group = ""; kind = ""; name = ""; namespace = "" };
}

abbrev first : State
first = record { config_hash = "first"; config_generation = 1; started = false }

other_hash : "second" ≢ first.config_hash
other_hash h = cc

first-IsAccepted : IsAccepted hasher versions first
unfolding config_hash_for_managed_resource
first-IsAccepted = (inr refl, (inl (λ e. omega (arith, e)), tt))

apart : first_version.generation ≢ second_version.generation
apart e = omega (arith, e)

numbered :
    (v w : ManagedResource)
    → Listed v versions
    → Listed w versions
    → v.generation ≡ w.generation
    → v.spec ≡ w.spec
numbered v w (inl a) (inl b) e = ap (λ x. x.spec) (sym a ∙ b)
numbered v w (inl a) (inr (inl b)) e =
    absurd (apart (ap (λ x. x.generation) a ∙ e ∙ sym (ap (λ x. x.generation) b)))
numbered v w (inr (inl a)) (inl b) e =
    absurd (apart (ap (λ x. x.generation) b ∙ sym e ∙ sym (ap (λ x. x.generation) a)))
numbered v w (inr (inl a)) (inr (inl b)) e = ap (λ x. x.spec) (sym a ∙ b)
numbered v w (inl a) (inr (inr x)) e = elim x [ ]
numbered v w (inr (inl a)) (inr (inr x)) e = elim x [ ]
numbered v w (inr (inr x)) y e = elim x [ ]

reconcile_inner-changed_example :
    reconcile_inner sample_objects (reading second_version) no_trigger first []
    ≡ (ok done, first, [])
unfolding config_hash_for_managed_resource
reconcile_inner-changed_example =
    reconcile_inner-changed sample_objects (reading second_version) versions no_trigger first []
      second_version "second" first-IsAccepted (inr (inl refl)) refl refl refl other_hash

first_read :
    (mr : ManagedResource)
    → (reading first_version).get_managed_resource ≡ ok mr
    → Listed mr versions
first_read mr h = inl (ok_injective h)

reconcile_inner-IsAccepted_example :
    IsAccepted hasher versions
      (reconcile_inner sample_objects (reading first_version) no_trigger first []).1
    × ((reconcile_inner sample_objects (reading first_version) no_trigger first []).1.config_hash
        ≡ "first")
reconcile_inner-IsAccepted_example =
    reconcile_inner-IsAccepted sample_objects (reading first_version) versions numbered no_trigger
      first [] first_read first-IsAccepted

abbrev bad_template : ReconcileError
bad_template = typed template_error (rendering (evaluation "field does not exist"))

failing_run :
    (reconcile_inner sample_objects (reading first_version) no_trigger first []).0
    ≡ err bad_template
unfolding reconcile_inner check_config sync_and_render jsonnet_library_cache_needs_sync
failing_run = refl

failing_started :
    (reconcile_inner sample_objects
      (reading first_version)
      no_trigger
      (record first { started = true })
      []).0
    ≡ err bad_template
unfolding reconcile_inner check_config sync_and_render jsonnet_library_cache_needs_sync
failing_started = refl

reconcile_inner-untouched_example :
    MayHaveApplied bad_template
    ⊎ ((reconcile_inner sample_objects (reading first_version) no_trigger first []).2 ≡ [])
reconcile_inner-untouched_example =
    reconcile_inner-untouched sample_objects (reading first_version) no_trigger first []
      bad_template failing_run

abbrev world : World (List String)
world = record { cluster = []; events = []; reconcile_errors = []; reconciles = [] }

abbrev store : ManagedResource → List String → Option ApiError × List String
store mr s = (none, mr.status ∷ s)

reconcile-returns_example :
    ((reconcile sample_objects
        (reading first_version)
        (ok sample_resource)
        store
        no_trigger
        first
        world).0.0
      ≡ done)
    × ((reconcile sample_objects
          (reading first_version)
          (ok sample_resource)
          store
          no_trigger
          first
          world).0.1
        ≡ some bad_template)
reconcile-returns_example =
    reconcile-returns store sample_objects (reading first_version) (ok sample_resource) no_trigger
      first world bad_template failing_started
