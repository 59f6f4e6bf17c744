-- ===== src/Tests/OfAdmission.antt =====
-- The theorems on webhook configurations at concrete inputs.
use Prim.Native.Nat.{Ordering}
use Prim.Native.String
use espejote.Base.{
  String, Bool, true, false, none, some, List, [], ◌∷◌, ◌++◌, ◌≡◌, ◌↔◌, ◌⊎◌, ℕ, if◌then◌else◌,
  num_eq, arith, eq_iff, Option, ◌≢◌, refl, sym, ap, inl, inr, ok, err,
}
use espejote.Kube.{NamespacedName, ApiError, not_found}
use espejote.Admission.Handler.{
  Responses, ResponseLaws, HandlerEnv, CounterLabels, handle_and_count, AdmissionRequest, handle,
  answer_with, answer, evaluate_admission, namespace_variable, to_admission_response,
}
use espejote.Admission.Handler.Counting.{IsCoded, handle_and_count-IsCoded}
use espejote.Admission.Handler.Safety.{read_for, Permits, handle-allowed}
use espejote.Base.Int.{ℤ, sign, ◌+ℤ◌, ◌*ℤ◌}
use espejote.Base.Sorting.{IsArranged}
use espejote.Admission.Order.{
  compare_admissions, compare_cluster_admissions, reconcile_admissions_relisted,
}
use espejote.Admission.{
  WebhookConfigurationObject, reconcile_admissions, Admission, ClusterAdmission,
  AdmissionReconciler, configurations, requests_reconcile,
}
use espejote.Admission.Webhooks.{configurations-requests_reconcile}

abbrev join : List String → String
join [] = ""
join (s ∷ ss) = String.◌++◌ s (String.◌++◌ "/" (join ss))

abbrev names : AdmissionReconciler
names = record {
  mutating_webhook_name = "espejote";
  validating_webhook_name = "espejote";
  webhook_service_name = "webhooks";
  webhook_port = 9443;
  controller_namespace = "espejote";
}

abbrev set_labels : Admission String String
set_labels = record {
  name = "labels";
  namespace = "team";
  mutating = true;
  webhook_configuration = record {
    rules = record { rule = "CREATE pods"; scope = some "*" } ∷ [];
    settings = "Fail";
    reinvocation_policy = none;
  };
}

abbrev no_namespaces : ClusterAdmission String String
no_namespaces = record {
  name = "namespaces";
  mutating = false;
  namespace_selector = none;
  webhook_configuration = set_labels.webhook_configuration;
}

configurations-requests_reconcile_example :
    (requests_reconcile names
        (configurations join names (set_labels ∷ []) []).0.kind
        (configurations join names (set_labels ∷ []) []).0.name
      ≡ true)
    × ((requests_reconcile names
            (configurations join names (set_labels ∷ []) []).1.kind
            (configurations join names (set_labels ∷ []) []).1.name
          ≡ true)
        ↔ (names.mutating_webhook_name ≡ names.validating_webhook_name))
configurations-requests_reconcile_example =
    configurations-requests_reconcile join names (set_labels ∷ []) []

-- A response is whether it allows, with the patches and the code.
abbrev responses : Responses String
responses = record {
  Response = Bool × List String × ℕ;
  errored = λ code e. (false, [], code);
  allowed_response = λ m. (true, [], 200);
  validation_response = λ b m. (b, [], if b then 200 else 403);
  append_patches = λ ps r. (r.0, r.1 ++ ps, r.2);
  allowed = λ r. r.0;
  patches = λ r. r.1;
  result_code = λ r. some r.2;
}

abbrev response_laws : ResponseLaws responses
response_laws = record {
  allowed-errored = λ code e. refl;
  allowed-allowed_response = λ m. refl;
  allowed-validation_response = λ b m. refl;
  allowed-append_patches = λ ps r. refl;
  code-errored = λ code e. refl;
  code-allowed_response = λ m. refl;
  code-validation_response = λ b m. refl;
  code-append_patches = λ ps r. refl;
}

abbrev allowing : HandlerEnv String
allowing = record {
  get_admission = λ key. ok (key.namespace, "espejote.allowed()");
  get_cluster_admission = λ name. err not_found;
  namespace_json = λ name. ok "{}";
  evaluate = λ ns req namespace template. ok "{\"allowed\": true}";
  unmarshal_response = λ text. ok (record { allowed = true; message = ""; patches = [] });
}

abbrev team_key : NamespacedName
team_key = record { namespace = "team"; name = "labels" }

abbrev request : AdmissionRequest
request = record { namespace = "team"; json = ok "{}" }

allowed_run : (handle responses allowing team_key request).0 ≡ true
unfolding handle answer_with answer evaluate_admission namespace_variable to_admission_response
allowed_run = refl

handle-allowed_example :
    (read_for allowing team_key ≡ err not_found)
    ⊎ Permits allowing request (read_for allowing team_key)
handle-allowed_example =
    handle-allowed responses response_laws allowing team_key request allowed_run

-- Codes as texts, of the two that are met here.
abbrev sprint : ℕ → String
sprint code = if num_eq code 200 then "200" else "400"

handle_and_count-IsCoded_example :
    (labels : CounterLabels) × (code : ℕ) × (handle_and_count responses sprint allowing team_key
        request []
      ≡ (handle responses allowing team_key request, labels ∷ []))
    × (labels.admission ≡ "team")
    × (labels.namespace ≡ "labels")
    × (labels.code ≡ sprint code)
    × IsCoded responses response_laws (handle responses allowing team_key request) code
handle_and_count-IsCoded_example =
    handle_and_count-IsCoded responses response_laws sprint allowing team_key request []

abbrev insert : {A : Type 0} → (A → A → ℤ) → A → List A → List A
insert cmp x [] = x ∷ []
insert cmp x (y ∷ ys) =
    let rest = insert cmp x ys in elim (sign (cmp x y)) [ Ordering.gt ↦ y ∷ rest | _ ↦ x ∷ y ∷ ys ]

abbrev insertion_sort : {A : Type 0} → (A → A → ℤ) → List A → List A
insertion_sort cmp [] = []
insertion_sort cmp (x ∷ xs) = insert cmp x (insertion_sort cmp xs)

abbrev check_owners : Admission String String
check_owners = record set_labels { name = "owners"; mutating = false }

abbrev record_patch :
    WebhookConfigurationObject String String → List String → Option ApiError × List String
record_patch c s = (none, c.name ∷ s)

labels_ne_owners : let s : String = "labels" in s ≢ "owners"
labels_ne_owners h = ground (arith, eq_iff "labels" "owners")

sorted_run :
    insertion_sort compare_admissions (check_owners ∷ set_labels ∷ [])
    ≡ set_labels ∷ check_owners ∷ []
unfolding compare_admissions ◌+ℤ◌ ◌*ℤ◌
sorted_run = refl

ordered-IsArranged :
    IsArranged compare_admissions
      (set_labels ∷ check_owners ∷ [])
      (insertion_sort compare_admissions (set_labels ∷ check_owners ∷ []))
unfolding compare_admissions ◌+ℤ◌ ◌*ℤ◌
ordered-IsArranged = record {
  ascending = ((λ h. ground arith, tt), (tt, tt));
  listed = λ x. (λ h. h, λ h. h);
  distinct = λ f d. d;
}

swapped-IsArranged :
    IsArranged compare_admissions
      (check_owners ∷ set_labels ∷ [])
      (insertion_sort compare_admissions (check_owners ∷ set_labels ∷ []))
unfolding compare_admissions ◌+ℤ◌ ◌*ℤ◌
swapped-IsArranged = record {
  ascending = ((λ h. ground arith, tt), (tt, tt));
  listed = λ x. ground arith;
  distinct = λ f d. (λ h. elim h [ inl same ↦ d.0 (inl (sym same)) | inr n ↦ n ], ((λ n. n), tt));
}

none-IsArranged : IsArranged (compare_cluster_admissions {R = String} {Settings = String}) [] []
none-IsArranged = record { ascending = tt; listed = λ x. (λ h. h, λ h. h); distinct = λ f d. d }

reconcile_admissions_relisted_example :
    reconcile_admissions join
      (insertion_sort compare_admissions)
      (insertion_sort compare_cluster_admissions)
      record_patch
      names
      (ok (set_labels ∷ check_owners ∷ []))
      (ok [])
      []
    ≡ reconcile_admissions join
        (insertion_sort compare_admissions)
        (insertion_sort compare_cluster_admissions)
        record_patch
        names
        (ok (check_owners ∷ set_labels ∷ []))
        (ok [])
        []
reconcile_admissions_relisted_example =
    reconcile_admissions_relisted join (insertion_sort compare_admissions)
      (insertion_sort compare_cluster_admissions) record_patch names
      (set_labels ∷ check_owners ∷ []) (check_owners ∷ set_labels ∷ []) [] [] []
      (ordered-IsArranged, swapped-IsArranged) (none-IsArranged, none-IsArranged)
      (
        (
          λ h. elim h [ inl same ↦ labels_ne_owners (sym (ap (λ k. k.name) same)) | inr n ↦ n ],
          ((λ n. n), tt),
        ),
        (
          λ h. elim h [ inl same ↦ labels_ne_owners (ap (λ k. k.name) same) | inr n ↦ n ],
          ((λ n. n), tt),
        ),
        λ a. ground arith,
      )
      (tt, tt, λ c. (λ h. h, λ h. h))
