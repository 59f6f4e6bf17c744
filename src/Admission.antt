-- ===== src/Admission.antt =====
-- AdmissionReconciler of controllers/admission_controller.go and the types of
-- api/v1alpha1/admission_types.go: the webhook configurations that make the API server ask about
-- requests.
pub mod Webhooks
pub mod Confined
pub mod Handler
pub mod Order
use Prim.Native.String
use espejote.Base.{
  ℕ, String, Bool, true, false, Option, none, some, List, [], ◌∷◌, ◌++◌, ◌==◌, if◌then◌else◌,
  Result, ok, err,
}
use espejote.Kube.{ApiError}

-- A rule is the library's, but for the scope.
pub record RuleWithOperations (R : Type 0) : Type 0 where
  pub rule : R
  pub scope : Option String

-- `Settings` are the fields of a webhook that are only passed on: the policies, the object selector
-- and the match conditions; `reinvocation_policy` is for mutating webhooks only.
pub record WebhookConfiguration (R Settings : Type 0) : Type 0 where
  pub rules : List (RuleWithOperations R)
  pub settings : Settings
  pub reinvocation_policy : Option String

pub record Admission (R Settings : Type 0) : Type 0 where
  pub name : String
  pub namespace : String
  pub mutating : Bool
  pub webhook_configuration : WebhookConfiguration R Settings

-- A label selector, as labels to match or as the one that was given.
pub data NamespaceSelector : Type 0 where
  match_label : String → String → NamespaceSelector
  given : Option String → NamespaceSelector

pub record ClusterAdmission (R Settings : Type 0) : Type 0 where
  pub name : String
  pub mutating : Bool
  pub namespace_selector : Option String
  pub webhook_configuration : WebhookConfiguration R Settings

pub record ServiceReference : Type 0 where
  pub name : String
  pub namespace : String
  pub path : String
  pub port : ℕ

pub record Webhook (R Settings : Type 0) : Type 0 where
  pub name : String
  pub service : ServiceReference
  pub namespace_selector : NamespaceSelector
  pub rules : List (RuleWithOperations R)
  pub settings : Settings
  pub side_effects : String
  pub admission_review_versions : List String
  pub reinvocation_policy : Option String

pub data WebhookKind : Type 0 where
  mutating_webhook_configuration validating_webhook_configuration : WebhookKind

pub record WebhookConfigurationObject (R Settings : Type 0) : Type 0 where
  pub kind : WebhookKind
  pub name : String
  pub webhooks : List (Webhook R Settings)

-- What the reconciler is set up with.
pub record AdmissionReconciler : Type 0 where
  pub mutating_webhook_name : String
  pub validating_webhook_name : String
  pub webhook_service_name : String
  pub webhook_port : ℕ
  pub controller_namespace : String

pub data AdmissionError : Type 0 where
  list_failed patch_failed : ApiError → AdmissionError

unfoldable pub rules_with_scope_enforced :
    {R : Type 0} → List (RuleWithOperations R) → String → List (RuleWithOperations R)
rules_with_scope_enforced [] scope = []
rules_with_scope_enforced (rule ∷ rules) scope =
    record rule { scope = some scope } ∷ rules_with_scope_enforced rules scope

module _ {R Settings : Type 0} where
  -- The loop that parts the Admissions: those that validate, and those that mutate.
  unfoldable pub part_admissions :
      List (Admission R Settings) → List (Admission R Settings) × List (Admission R Settings)
  part_admissions [] = ([], [])
  part_admissions (a ∷ as') =
      let rest = part_admissions as' in
      if a.mutating then (rest.0, a ∷ rest.1) else (a ∷ rest.0, rest.1)

  unfoldable pub part_cluster_admissions :
      List (ClusterAdmission R Settings)
      → List (ClusterAdmission R Settings) × List (ClusterAdmission R Settings)
  part_cluster_admissions [] = ([], [])
  part_cluster_admissions (a ∷ as') =
      let rest = part_cluster_admissions as' in
      if a.mutating then (rest.0, a ∷ rest.1) else (a ∷ rest.0, rest.1)

-- The service that answers, at the path of the given elements; `join` is path.Join.
unfoldable pub service_at :
    (List String → String) → AdmissionReconciler → List String → ServiceReference
service_at join r elements = record {
  name = r.webhook_service_name;
  namespace = r.controller_namespace;
  path = join elements;
  port = r.webhook_port;
}

module _ {R Settings : Type 0} (join : List String → String) where
  -- The webhook of an Admission; a validating one has no reinvocation policy.
  unfoldable pub namespaced_webhook :
      AdmissionReconciler → Admission R Settings → Webhook R Settings
  unfolding rules_with_scope_enforced service_at
  namespaced_webhook r a = record {
    name = String.◌++◌ a.name (String.◌++◌ "." (String.◌++◌ a.namespace ".namespaced.espejote.io"));
    service = service_at join r ("/dynamic" ∷ a.namespace ∷ a.name ∷ []);
    namespace_selector = match_label "kubernetes.io/metadata.name" a.namespace;
    rules = rules_with_scope_enforced a.webhook_configuration.rules "Namespaced";
    settings = a.webhook_configuration.settings;
    side_effects = "None";
    admission_review_versions = "v1" ∷ [];
    reinvocation_policy = if a.mutating then a.webhook_configuration.reinvocation_policy else none;
  }

  unfoldable pub cluster_webhook :
      AdmissionReconciler → ClusterAdmission R Settings → Webhook R Settings
  unfolding service_at
  cluster_webhook r a = record {
    name = String.◌++◌ a.name ".cluster.espejote.io";
    service = service_at join r ("/dynamic-cluster" ∷ a.name ∷ []);
    namespace_selector = given a.namespace_selector;
    rules = a.webhook_configuration.rules;
    settings = a.webhook_configuration.settings;
    side_effects = "None";
    admission_review_versions = "v1" ∷ [];
    reinvocation_policy = if a.mutating then a.webhook_configuration.reinvocation_policy else none;
  }

  abbrev pub namespaced_webhooks :
      AdmissionReconciler → List (Admission R Settings) → List (Webhook R Settings)
  namespaced_webhooks r [] = []
  namespaced_webhooks r (a ∷ as') = namespaced_webhook r a ∷ namespaced_webhooks r as'

  abbrev pub cluster_webhooks :
      AdmissionReconciler → List (ClusterAdmission R Settings) → List (Webhook R Settings)
  cluster_webhooks r [] = []
  cluster_webhooks r (a ∷ as') = cluster_webhook r a ∷ cluster_webhooks r as'

  -- The two configurations; both have the name of the mutating one.
  unfoldable pub configurations :
      AdmissionReconciler
      → List (Admission R Settings)
      → List (ClusterAdmission R Settings)
      → WebhookConfigurationObject R Settings × WebhookConfigurationObject R Settings
  configurations r admissions cluster =
      let namespaced = part_admissions admissions in
      let clusterwide = part_cluster_admissions cluster in
      (
        record {
          kind = mutating_webhook_configuration;
          name = r.mutating_webhook_name;
          webhooks = namespaced_webhooks r namespaced.1 ++ cluster_webhooks r clusterwide.1;
        },
        record {
          kind = validating_webhook_configuration;
          name = r.mutating_webhook_name;
          webhooks = namespaced_webhooks r namespaced.0 ++ cluster_webhooks r clusterwide.0;
        },
      )

-- From the sorted lists on; `patch` applies a configuration.
unfoldable pub write_configurations :
    {R Settings S : Type 0}
    → (List String → String)
    → (WebhookConfigurationObject R Settings → S → Option ApiError × S)
    → AdmissionReconciler
    → List (Admission R Settings)
    → List (ClusterAdmission R Settings)
    → S
    → Option AdmissionError × S
write_configurations join patch r as' cs s =
    let both = configurations join r as' cs in
    let mutating = patch both.0 s in
    let validating = patch both.1 mutating.1 in
    elim mutating.0 [
      | some e ↦ (some (patch_failed e), mutating.1)
      | none ↦ elim validating.0 [
        | some e ↦ (some (patch_failed e), validating.1)
        | none ↦ (none, validating.1)
      ]
    ]

-- Reconcile: the two lists are read, and sorted with slices.SortFunc by the functions of Order.
unfoldable pub reconcile_admissions :
    {R Settings S : Type 0}
    → (List String → String)
    → (List (Admission R Settings) → List (Admission R Settings))
    → (List (ClusterAdmission R Settings) → List (ClusterAdmission R Settings))
    → (WebhookConfigurationObject R Settings → S → Option ApiError × S)
    → AdmissionReconciler
    → Result ApiError (List (Admission R Settings))
    → Result ApiError (List (ClusterAdmission R Settings))
    → S
    → Option AdmissionError × S
reconcile_admissions join sort_admissions sort_cluster patch r admissions cluster s =
    elim admissions [
      | err e ↦ (some (list_failed e), s)
      | ok as' ↦ elim cluster [
        | err e ↦ (some (list_failed e), s)
        | ok cs ↦ write_configurations join patch r (sort_admissions as') (sort_cluster cs) s
      ]
    ]

-- filterRequestByName: whether an event on a configuration asks for a reconciliation.
unfoldable pub requests_reconcile : AdmissionReconciler → WebhookKind → String → Bool
requests_reconcile r mutating_webhook_configuration name = name == r.mutating_webhook_name
requests_reconcile r validating_webhook_configuration name = name == r.validating_webhook_name
