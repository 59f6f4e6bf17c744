-- ===== src/Admission/Handler/Safety.antt =====
-- Requests are allowed for a reason only.
use espejote.Base.{
  String, true, if◌then◌else◌, ◌==◌, ◌≡◌, ◌⊎◌, inl, inr, refl, arith, Result, ok, err, Bool-cases,
  Result-cases,
}
use espejote.Kube.{ApiError, not_found, other, NamespacedName}
use espejote.Admission.Handler.{
  Responses, ResponseLaws, AdmissionResponse, AdmissionRequest, HandlerEnv, evaluate_admission,
  to_admission_response, answer, answer_with, of_cluster, handle, status_bad_request,
  status_internal_server_error,
}

-- What is read for a key.
abbrev pub read_for :
    {P : Type 0} → HandlerEnv P → NamespacedName → Result ApiError (String × String)
read_for env key =
    if key.namespace == ""
    then of_cluster (env.get_cluster_admission key.name)
    else env.get_admission key

-- The template of the admission allows the request.
abbrev pub Permits :
    {P : Type 0} → HandlerEnv P → AdmissionRequest → Result ApiError (String × String) → Type 0
Permits {P} env req (ok (namespace, template)) =
    (r : AdmissionResponse P) × (evaluate_admission env namespace template req ≡ ok r)
    × (r.allowed ≡ true)
Permits env req (err e) = ⊥

module _ {P : Type 0} (L : Responses P) (laws : ResponseLaws L) (env : HandlerEnv P) where
  answer_with-allowed :
      (missing : String) (req : AdmissionRequest) (read : Result ApiError (String × String))
      → L.allowed (answer_with L env missing req read) ≡ true
      → (read ≡ err not_found) ⊎ Permits env req read
  unfolding answer_with answer to_admission_response
  answer_with-allowed missing req (ok (namespace, template)) h =
      elim (Result-cases (evaluate_admission env namespace template req)) [
        | inl (r, made) ↦ inr (
          r,
          made,
          ground (
            arith,
            laws.allowed-append_patches r.patches (L.validation_response r.allowed r.message),
            laws.allowed-validation_response r.allowed r.message,
          ),
        )
        | inr (e, failed) ↦ ground (arith, laws.allowed-errored status_internal_server_error e)
      ]
  answer_with-allowed missing req (err not_found) h = inl refl
  answer_with-allowed missing req (err (other c)) h =
      ground (arith, laws.allowed-errored status_internal_server_error c)

  -- Where the responses of the library do what they document, a request is allowed only if the
  -- admission of its path is not there, or the admission's template was evaluated and returned a
  -- response that allows it: every error denies it.
  pub handle-allowed :
      (key : NamespacedName) (req : AdmissionRequest)
      → L.allowed (handle L env key req) ≡ true
      → (read_for env key ≡ err not_found) ⊎ Permits env req (read_for env key)
  unfolding handle
  handle-allowed key req h = elim (Bool-cases (key.namespace == "")) [
    | inl unnamed ↦ elim (Bool-cases (key.name == "")) [
      | inl empty ↦
          ground
            (arith, laws.allowed-errored status_bad_request "missing namespace and name in context")
      | inr named ↦
          rw (unnamed, read_for)
            (answer_with-allowed "ClusterAdmission not found" req
              (of_cluster (env.get_cluster_admission key.name)) (ground arith))
    ]
    | inr namespaced ↦
        rw (namespaced, read_for)
          (answer_with-allowed "Admission not found" req (env.get_admission key) (ground arith))
  ]
