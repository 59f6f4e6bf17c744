-- ===== src/Admission/Webhooks.antt =====
-- Which admissions are in which configuration, and which configurations are watched.
use espejote.Base.{
  Listed, Listed-append, map, String, Bool, true, false, some, List, [], ◌∷◌, if◌then◌else◌, ◌≡◌,
  ◌↔◌, inl, inr, refl, ap, eq_iff, arith, All,
}
use espejote.Admission.{
  RuleWithOperations, Admission, ClusterAdmission, AdmissionReconciler, WebhookConfigurationObject,
  rules_with_scope_enforced, namespaced_webhook, part_admissions, part_cluster_admissions,
  namespaced_webhooks, cluster_webhooks, configurations, requests_reconcile,
}

pub scope_enforced :
    {R : Type 0} (rules : List (RuleWithOperations R)) (scope : String)
    → All (λ r. r.scope ≡ some scope) (rules_with_scope_enforced rules scope)
unfolding rules_with_scope_enforced
scope_enforced [] scope = tt
scope_enforced (rule ∷ rules) scope = (refl, scope_enforced rules scope)

pub rules_kept :
    {R : Type 0} (rules : List (RuleWithOperations R)) (scope : String)
    → map (λ r. r.rule) (rules_with_scope_enforced rules scope) ≡ map (λ r. r.rule) rules
unfolding rules_with_scope_enforced
rules_kept [] scope = refl
rules_kept (rule ∷ rules) scope = ap (λ rs. rule.rule ∷ rs) (rules_kept rules scope)

module _ {R Settings : Type 0} where
  -- The admissions of one kind.
  abbrev pub of_kind :
      Bool → List (Admission R Settings) × List (Admission R Settings) → List (Admission R Settings)
  of_kind mutating both = if mutating then both.1 else both.0

  abbrev pub of_cluster_kind :
      Bool
      → List (ClusterAdmission R Settings) × List (ClusterAdmission R Settings)
      → List (ClusterAdmission R Settings)
  of_cluster_kind mutating both = if mutating then both.1 else both.0

  pub part_admissions_from :
      (a : Admission R Settings) (b : Bool) (as' : List (Admission R Settings))
      → Listed a (of_kind b (part_admissions as'))
      → Listed a as' × (a.mutating ≡ b)
  unfolding part_admissions
  part_admissions_from a true [] x = elim x [ ]
  part_admissions_from a false [] x = elim x [ ]
  part_admissions_from a b (c ∷ as') x = ground (arith, part_admissions_from a b as')

  pub part_cluster_admissions_from :
      (a : ClusterAdmission R Settings) (b : Bool) (as' : List (ClusterAdmission R Settings))
      → Listed a (of_cluster_kind b (part_cluster_admissions as'))
      → Listed a as' × (a.mutating ≡ b)
  unfolding part_cluster_admissions
  part_cluster_admissions_from a true [] x = elim x [ ]
  part_cluster_admissions_from a false [] x = elim x [ ]
  part_cluster_admissions_from a b (c ∷ as') x =
      ground (arith, part_cluster_admissions_from a b as')

  pub part_admissions-Listed :
      (a : Admission R Settings) (as' : List (Admission R Settings))
      → Listed a as'
      → Listed a (of_kind a.mutating (part_admissions as'))
  unfolding part_admissions
  part_admissions-Listed a [] x = elim x [ ]
  part_admissions-Listed a (b ∷ as') (inl same) = ground arith
  part_admissions-Listed a (b ∷ as') (inr later) =
      ground (arith, part_admissions-Listed a as' later)

module _ {R Settings : Type 0} (join : List String → String) where
  namespaced_webhooks-Listed :
      (r : AdmissionReconciler) (a : Admission R Settings) (as' : List (Admission R Settings))
      → Listed a as'
      → Listed (namespaced_webhook join r a) (namespaced_webhooks join r as')
  namespaced_webhooks-Listed r a [] x = elim x [ ]
  namespaced_webhooks-Listed r a (b ∷ as') (inl same) =
      inl (ap (λ c. namespaced_webhook join r c) same)
  namespaced_webhooks-Listed r a (b ∷ as') (inr later) =
      inr (namespaced_webhooks-Listed r a as' later)

  -- The configuration that an admission belongs in.
  abbrev pub configuration_for :
      Bool
      → WebhookConfigurationObject R Settings × WebhookConfigurationObject R Settings
      → WebhookConfigurationObject R Settings
  configuration_for mutating both = if mutating then both.0 else both.1

  pub webhook-Listed :
      (r : AdmissionReconciler) (as' : List (Admission R Settings))
      (cs : List (ClusterAdmission R Settings)) (a : Admission R Settings) (b : Bool)
      → Listed a (of_kind b (part_admissions as'))
      → Listed
          (namespaced_webhook join r a)
          (configuration_for b (configurations join r as' cs)).webhooks
  unfolding configurations
  webhook-Listed r as' cs a true x =
      (Listed-append (namespaced_webhook join r a)
          (namespaced_webhooks join r (part_admissions as').1)
          (cluster_webhooks join r (part_cluster_admissions cs).1)).1
        (inl (namespaced_webhooks-Listed r a (part_admissions as').1 x))
  webhook-Listed r as' cs a false x =
      (Listed-append (namespaced_webhook join r a)
          (namespaced_webhooks join r (part_admissions as').0)
          (cluster_webhooks join r (part_cluster_admissions cs).0)).1
        (inl (namespaced_webhooks-Listed r a (part_admissions as').0 x))

  -- A change of the mutating configuration that the reconciler writes asks for a reconciliation,
  -- and a change of the validating one exactly if the two names that the reconciler is set up with
  -- are the same.
  pub configurations-requests_reconcile :
      (r : AdmissionReconciler) (as' : List (Admission R Settings))
      (cs : List (ClusterAdmission R Settings))
      → (requests_reconcile r
            (configurations join r as' cs).0.kind
            (configurations join r as' cs).0.name
          ≡ true)
        × ((requests_reconcile r
                (configurations join r as' cs).1.kind
                (configurations join r as' cs).1.name
              ≡ true)
            ↔ (r.mutating_webhook_name ≡ r.validating_webhook_name))
  unfolding configurations requests_reconcile
  configurations-requests_reconcile r as' cs = (
    (eq_iff r.mutating_webhook_name r.mutating_webhook_name).1 refl,
    eq_iff r.mutating_webhook_name r.validating_webhook_name,
  )
