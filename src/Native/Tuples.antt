-- ===== src/Native/Tuples.antt =====
-- What a template gets from a native function.
use mathlib.Core.Path.{subst}
use espejote.Base.{
  ◌↔◌, sym, String, some, List, [], ◌∷◌, ◌≡◌, inl, inr, arith, Result, ok, Result-cases,
  Option-cases,
}
use espejote.Kube.{Cause}
use espejote.Renderer.Nodes.{
  Value, null, string, list, map, bool, int64, float64, ast_node, unsupported,
}
use espejote.Native.{
  CallError, pair, wrap_jsonnet_function_error_to_tuple, as_string, two_string_arguments,
  jsonnet_bcrypt,
}

as_string-some : (v : Value) (s : String) → as_string v ≡ some s → v ≡ string s
as_string-some null s h = cc
as_string-some (bool b) s h = cc
as_string-some (int64 n) s h = cc
as_string-some (float64 n) s h = cc
as_string-some (string t) s h = cc
as_string-some (list vs) s h = cc
as_string-some (map es) s h = cc
as_string-some (ast_node n) s h = cc
as_string-some (unsupported t) s h = cc

two_string_arguments-ok :
    (args : List Value) (p s : String)
    → two_string_arguments args ≡ ok (p, s)
    → args ≡ string p ∷ string s ∷ []
unfolding two_string_arguments
two_string_arguments-ok [] p s h = cc
two_string_arguments-ok (a ∷ []) p s h = cc
two_string_arguments-ok (a ∷ b ∷ c ∷ args) p s h = cc
two_string_arguments-ok (a ∷ b ∷ []) p s h = elim (Option-cases (as_string a)) [
  | inl wrong ↦ ground arith
  | inr (t, first) ↦ elim (Option-cases (as_string b)) [
    | inl wrong ↦ ground arith
    | inr (u, second) ↦ ground (arith, as_string-some a t first, as_string-some b u second)
  ]
]

module _ (message : CallError → String) (generate : String → String → Result Cause String) where
  hash_of_strings :
      (p s h : String)
      → generate p s ≡ ok h
      → wrap_jsonnet_function_error_to_tuple message
          (jsonnet_bcrypt generate)
          (string p ∷ string s ∷ [])
        ≡ pair (string h) null
  unfolding wrap_jsonnet_function_error_to_tuple jsonnet_bcrypt two_string_arguments
  hash_of_strings p s h made = ground arith

  strings_of_hash :
      (args : List Value) (h : String)
      → wrap_jsonnet_function_error_to_tuple message (jsonnet_bcrypt generate) args
        ≡ pair (string h) null
      → (p : String) × (s : String) × (args ≡ string p ∷ string s ∷ []) × (generate p s ≡ ok h)
  unfolding wrap_jsonnet_function_error_to_tuple jsonnet_bcrypt
  strings_of_hash args h t = elim (Result-cases (two_string_arguments args)) [
    | inl ((p, s), two) ↦ elim (Result-cases (generate p s)) [
      | inl (h', made) ↦ (p, s, two_string_arguments-ok args p s two, ground arith)
      | inr (e, failed) ↦ ground arith
    ]
    | inr (e, wrong) ↦ cc (rw (wrong, wrap_jsonnet_function_error_to_tuple, jsonnet_bcrypt) at t)
  ]

  -- A template gets a hash, and no error, exactly if it passes two strings and the hash of them can
  -- be made.
  pub jsonnet_bcrypt-pair :
      (args : List Value) (h : String)
      → (wrap_jsonnet_function_error_to_tuple message (jsonnet_bcrypt generate) args
          ≡ pair (string h) null)
        ↔ ((p : String) × (s : String) × (args ≡ string p ∷ string s ∷ []) × (generate p s ≡ ok h))
  jsonnet_bcrypt-pair args h = (
    strings_of_hash args h,
    λ r.
        subst
          (λ a.
            wrap_jsonnet_function_error_to_tuple message (jsonnet_bcrypt generate) a
            ≡ pair (string h) null)
          (sym r.2) (hash_of_strings r.0 r.1 h r.3),
  )
