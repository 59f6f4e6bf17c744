-- ===== src/Admission/Confined.antt =====
-- Each admission has its webhook, in the configuration of its kind and confined to its namespace.
use Prim.Native.String
use espejote.Base.{Listed, map, ◌⊎◌, String, Bool, some, List, [], ◌∷◌, ◌≡◌, All}
use espejote.Admission.{
  Admission, ClusterAdmission, AdmissionReconciler, Webhook, match_label, given, configurations,
}
use espejote.Admission.Webhooks.{configuration_for}

module _ {R Settings : Type 0} (join : List String → String) where
  -- The webhook of an Admission: it asks the service of this Admission, about objects of its
  -- namespace and about what its rules say, but for their scope.
  abbrev pub IsConfined : AdmissionReconciler → Admission R Settings → Webhook R Settings → Type 0
  IsConfined r a w =
      (w.namespace_selector ≡ match_label "kubernetes.io/metadata.name" a.namespace)
      × All (λ x. x.scope ≡ some "Namespaced") w.rules
      × (map (λ x. x.rule) w.rules ≡ map (λ x. x.rule) a.webhook_configuration.rules)
      × (w.service.path ≡ join ("/dynamic" ∷ a.namespace ∷ a.name ∷ []))
      × (w.service.name ≡ r.webhook_service_name)
      × (w.name
          ≡ String.◌++◌ a.name
              (String.◌++◌ "." (String.◌++◌ a.namespace ".namespaced.espejote.io")))
      × (w.settings ≡ a.webhook_configuration.settings)

  -- The webhook of a ClusterAdmission.
  abbrev pub IsClusterwide :
      AdmissionReconciler → ClusterAdmission R Settings → Webhook R Settings → Type 0
  IsClusterwide r c w =
      (w.namespace_selector ≡ given c.namespace_selector)
      × (w.rules ≡ c.webhook_configuration.rules)
      × (w.service.path ≡ join ("/dynamic-cluster" ∷ c.name ∷ []))
      × (w.service.name ≡ r.webhook_service_name)
      × (w.name ≡ String.◌++◌ c.name ".cluster.espejote.io")
      × (w.settings ≡ c.webhook_configuration.settings)

  -- The webhook is of an Admission or a ClusterAdmission of this kind.
  abbrev pub IsOwned :
      AdmissionReconciler
      → List (Admission R Settings)
      → List (ClusterAdmission R Settings)
      → Bool
      → Webhook R Settings
      → Type 0
  IsOwned r as' cs mutating w =
      ((a : Admission R Settings) × Listed a as' × (a.mutating ≡ mutating) × IsConfined r a w)
      ⊎ ((c : ClusterAdmission R Settings) × Listed c cs
          × (c.mutating ≡ mutating)
          × IsClusterwide r c w)

  -- The Admission has a webhook of its own in the configuration of its kind.
  abbrev pub HasWebhook :
      AdmissionReconciler
      → List (Admission R Settings)
      → List (ClusterAdmission R Settings)
      → Admission R Settings
      → Type 0
  HasWebhook r as' cs a =
      (w : Webhook R Settings) × Listed w
        (configuration_for join a.mutating (configurations join r as' cs)).webhooks
      × IsConfined r a w
