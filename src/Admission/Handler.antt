-- ===== src/Admission/Handler.antt =====
-- The handler of admission/handler.go: the answer to a request of the API server. The library's
-- responses, and what reads the cluster, encodes JSON and evaluates templates, are parameters.
pub mod Safety
pub mod Counting
use espejote.Base.{
  ℕ, String, Bool, true, false, not, ◌&&◌, Option, none, some, List, ◌∷◌, ◌==◌, if◌then◌else◌,
  Result, ok, err, wrap, ◌>>=◌, ◌≡◌,
}
use espejote.Kube.{Cause, ApiError, not_found, other, NamespacedName}

-- Functions of the packages webhook and admission of controller-runtime; `P` is a patch operation.
pub record Responses (P : Type 0) : Type 1 where
  pub Response : Type 0
  pub errored : ℕ → String → Response
  pub allowed_response : String → Response
  pub validation_response : Bool → String → Response
  pub append_patches : List P → Response → Response
  pub allowed : Response → Bool
  pub patches : Response → List P
  pub result_code : Response → Option ℕ

-- Their documented behaviour.
pub record ResponseLaws {P : Type 0} (L : Responses P) : Type 0 where
  pub allowed-errored : (code : ℕ) (e : String) → L.allowed (L.errored code e) ≡ false
  pub allowed-allowed_response : (m : String) → L.allowed (L.allowed_response m) ≡ true
  pub allowed-validation_response :
      (b : Bool) (m : String) → L.allowed (L.validation_response b m) ≡ b
  pub allowed-append_patches :
      (ps : List P) (r : L.Response) → L.allowed (L.append_patches ps r) ≡ L.allowed r
  pub code-errored : (code : ℕ) (e : String) → L.result_code (L.errored code e) ≡ some code
  pub code-allowed_response : (m : String) → L.result_code (L.allowed_response m) ≡ some 200
  pub code-validation_response :
      (b : Bool) (m : String)
      → L.result_code (L.validation_response b m) ≡ some (if b then 200 else 403)
  pub code-append_patches :
      (ps : List P) (r : L.Response) → L.result_code (L.append_patches ps r) ≡ L.result_code r

pub record AdmissionResponse (P : Type 0) : Type 0 where
  pub allowed : Bool
  pub message : String
  pub patches : List P

-- The parts of an AdmissionRequest that the code reads.
pub record AdmissionRequest : Type 0 where
  pub namespace : String
  pub json : Result Cause String

-- The namespace and the template of an Admission, the template of a ClusterAdmission.
pub record HandlerEnv (P : Type 0) : Type 0 where
  pub get_admission : NamespacedName → Result ApiError (String × String)
  pub get_cluster_admission : String → Result ApiError String
  pub namespace_json : String → Result Cause String
  pub evaluate : String → String → String → String → Result Cause String
  pub unmarshal_response : String → Result Cause (AdmissionResponse P)

abbrev pub status_bad_request : ℕ
status_bad_request = 400

abbrev pub status_internal_server_error : ℕ
status_internal_server_error = 500

module _ {P : Type 0} (env : HandlerEnv P) where
  -- The external variable for the namespace of the request.
  unfoldable pub namespace_variable : AdmissionRequest → Result Cause String
  namespace_variable req =
      if req.namespace == "" then ok "null" else env.namespace_json req.namespace

  -- From the request to what the template returns.
  unfoldable pub evaluate_admission :
      String → String → AdmissionRequest → Result Cause (AdmissionResponse P)
  evaluate_admission namespace template req = do
    req_json ← req.json
    ns_json ← namespace_variable req
    ret ← env.evaluate namespace req_json ns_json template
    env.unmarshal_response ret

-- The read of a ClusterAdmission, which has no namespace.
abbrev pub of_cluster : Result ApiError String → Result ApiError (String × String)
of_cluster (ok template) = ok ("", template)
of_cluster (err e) = err e

module _ {P : Type 0} (L : Responses P) where
  unfoldable pub to_admission_response : AdmissionResponse P → L.Response
  to_admission_response ar =
      L.append_patches ar.patches (L.validation_response ar.allowed ar.message)

  unfoldable pub answer : Result Cause (AdmissionResponse P) → L.Response
  answer (err e) = L.errored status_internal_server_error e
  answer (ok resp) = to_admission_response resp

  -- The answer where an admission was read, or not.
  unfoldable pub answer_with :
      HandlerEnv P → String → AdmissionRequest → Result ApiError (String × String) → L.Response
  answer_with env missing req (ok (namespace, template)) =
      answer (evaluate_admission env namespace template req)
  answer_with env missing req (err not_found) = L.allowed_response missing
  answer_with env missing req (err (other c)) = L.errored status_internal_server_error c

  -- handle
  unfoldable pub handle : HandlerEnv P → NamespacedName → AdmissionRequest → L.Response
  handle env key req =
      if key.namespace == "" && key.name == ""
      then L.errored status_bad_request "missing namespace and name in context"
      else if not (key.namespace == "")
      then answer_with env "Admission not found" req (env.get_admission key)
      else answer_with env "ClusterAdmission not found" req
          (of_cluster (env.get_cluster_admission key.name))

-- The labels of admissionRequestsTotal, in the order that the counter is declared with.
pub record CounterLabels : Type 0 where
  pub admission : String
  pub namespace : String
  pub code : String

-- WithLabelValues, by position.
abbrev pub with_label_values : String → String → String → CounterLabels
with_label_values a b c = record { admission = a; namespace = b; code = c }

abbrev pub or_ok : Option ℕ → ℕ
or_ok none = 200
or_ok (some code) = code

module _ {P : Type 0} (L : Responses P) (sprint : ℕ → String) where
  -- Handle: the answer, and the counters that were incremented, the last first; `sprint` is fmt.Sprint.
  unfoldable pub handle_and_count :
      HandlerEnv P
      → NamespacedName
      → AdmissionRequest
      → List CounterLabels
      → L.Response × List CounterLabels
  handle_and_count env key req counted =
      let ret = handle L env key req in
      (ret, with_label_values key.namespace key.name (sprint (or_ok (L.result_code ret))) ∷ counted)
