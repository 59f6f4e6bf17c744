-- ===== src/Admission/Handler/Counting.antt =====
-- What is counted for an answer.
use espejote.Base.{
  ℕ, String, Bool, true, false, List, ◌∷◌, ◌==◌, ◌≡◌, ◌⊎◌, inl, inr, refl, arith, Result, ok, err,
  Bool-cases,
}
use espejote.Kube.{ApiError, not_found, other, NamespacedName, Cause}
use espejote.Admission.Handler.{
  Responses, ResponseLaws, AdmissionResponse, AdmissionRequest, HandlerEnv, evaluate_admission,
  CounterLabels, to_admission_response, answer, answer_with, of_cluster, handle, handle_and_count,
  or_ok, status_bad_request, status_internal_server_error,
}

module _ {P : Type 0} (L : Responses P) (laws : ResponseLaws L) where
  -- 200 for an answer that allows, and 400, 403 or 500 for one that does not.
  abbrev pub IsCoded : L.Response → ℕ → Type 0
  IsCoded r code =
      ((L.allowed r ≡ true) × (code ≡ 200))
      ⊎ ((L.allowed r ≡ false) × ((code ≡ 400) ⊎ ((code ≡ 403) ⊎ (code ≡ 500))))

  abbrev code_of : L.Response → ℕ
  code_of r = or_ok (L.result_code r)

  errored-IsCoded :
      (code : ℕ) (e : String)
      → (code ≡ 400) ⊎ ((code ≡ 403) ⊎ (code ≡ 500))
      → IsCoded (L.errored code e) (code_of (L.errored code e))
  errored-IsCoded code e h = rw (laws.code-errored code e) (inr (laws.allowed-errored code e, h))

  response-IsCoded :
      (b : Bool) (m : String) (ps : List P)
      → IsCoded
          (L.append_patches ps (L.validation_response b m))
          (code_of (L.append_patches ps (L.validation_response b m)))
  response-IsCoded true m ps = ground (
    arith,
    laws.code-append_patches ps (L.validation_response true m),
    laws.code-validation_response true m,
    laws.allowed-append_patches ps (L.validation_response true m),
    laws.allowed-validation_response true m,
  )
  response-IsCoded false m ps = ground (
    arith,
    laws.code-append_patches ps (L.validation_response false m),
    laws.code-validation_response false m,
    laws.allowed-append_patches ps (L.validation_response false m),
    laws.allowed-validation_response false m,
  )

  answer-IsCoded :
      (r : Result Cause (AdmissionResponse P)) → IsCoded (answer L r) (code_of (answer L r))
  unfolding answer to_admission_response
  answer-IsCoded (err e) = errored-IsCoded status_internal_server_error e (inr (inr refl))
  answer-IsCoded (ok r) = response-IsCoded r.allowed r.message r.patches

  answer_with-IsCoded :
      (env : HandlerEnv P) (missing : String) (req : AdmissionRequest)
      (read : Result ApiError (String × String))
      → IsCoded (answer_with L env missing req read) (code_of (answer_with L env missing req read))
  unfolding answer_with answer to_admission_response
  answer_with-IsCoded env missing req (err not_found) =
      rw (laws.code-allowed_response missing) (inl (laws.allowed-allowed_response missing, refl))
  answer_with-IsCoded env missing req (err (other c)) =
      errored-IsCoded status_internal_server_error c (inr (inr refl))
  answer_with-IsCoded env missing req (ok (namespace, template)) =
      answer-IsCoded (evaluate_admission env namespace template req)

  handle-IsCoded :
      (env : HandlerEnv P) (key : NamespacedName) (req : AdmissionRequest)
      → IsCoded (handle L env key req) (code_of (handle L env key req))
  unfolding handle
  handle-IsCoded env key req = elim (Bool-cases (key.namespace == "")) [
    | inl unnamed ↦ elim (Bool-cases (key.name == "")) [
      | inl empty ↦
          rw (unnamed, empty, handle)
            (errored-IsCoded status_bad_request "missing namespace and name in context" (inl refl))
      | inr named ↦
          rw (unnamed, named, handle)
            (answer_with-IsCoded env "ClusterAdmission not found" req
              (of_cluster (env.get_cluster_admission key.name)))
    ]
    | inr namespaced ↦
        rw (namespaced, handle)
          (answer_with-IsCoded env "Admission not found" req (env.get_admission key))
  ]

  module _ (sprint : ℕ → String) where
    -- Where the responses of the library do what they document, a request is answered as by handle
    -- and counted once, with the namespace of the admission as the label admission, its name as the
    -- label namespace, and a code, which is 200 for an answer that allows the request and 400, 403
    -- or 500 for one that does not.
    pub handle_and_count-IsCoded :
        (env : HandlerEnv P) (key : NamespacedName) (req : AdmissionRequest)
        (counted : List CounterLabels)
        → (labels : CounterLabels) × (code : ℕ) × (handle_and_count L sprint env key req counted
            ≡ (handle L env key req, labels ∷ counted))
          × (labels.admission ≡ key.namespace)
          × (labels.namespace ≡ key.name)
          × (labels.code ≡ sprint code)
          × IsCoded (handle L env key req) code
    unfolding handle_and_count
    handle_and_count-IsCoded env key req counted =
        (_, code_of (handle L env key req), refl, refl, refl, refl, handle-IsCoded env key req)
