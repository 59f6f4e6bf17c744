-- ===== src/Native.antt =====
-- The functions that templates call: native.go and error.go of internal/jsonnet, and
-- applyPatchNativeFunction of admission/handler.go. The hash of bcrypt and the JSON patch library are
-- parameters.
pub mod Tuples
use espejote.Base.{String, Option, none, some, List, [], ◌∷◌, Result, ok, err, wrap, ◌>>=◌}
use espejote.Kube.{Cause}
use espejote.Renderer.Nodes.{Value, Values, null, string, list, cons, nil}

pub data CallError : Type 0 where
  wrong_count wrong_first wrong_second : CallError
  library_error : Cause → CallError

-- A Go function that returns a value and an error; the value of a failed one is nil.
abbrev pub NativeFunction : Type 0
NativeFunction = List Value → Result CallError Value

abbrev pub pair : Value → Value → Value
pair a b = list (cons a (cons b nil))

-- WrapJsonnetFunctionErrorToTuple; `message` is the text of an error.
unfoldable pub wrap_jsonnet_function_error_to_tuple :
    (CallError → String) → NativeFunction → List Value → Value
wrap_jsonnet_function_error_to_tuple message f args = elim (f args) [
  | ok ret ↦ pair ret null
  | err e ↦ pair null (string (message e))
]

abbrev pub as_string : Value → Option String
as_string (string s) = some s
as_string _ = none

-- twoStringArguments
unfoldable pub two_string_arguments : List Value → Result CallError (String × String)
two_string_arguments (a ∷ b ∷ []) = elim (as_string a) [
  | none ↦ err wrong_first
  | some s ↦ elim (as_string b) [ none ↦ err wrong_second | some t ↦ ok (s, t) ]
]
two_string_arguments _ = err wrong_count

-- jsonnetBcrypt; `generate password salt` is GenerateFromPasswordWithSalt with the default cost.
unfoldable pub jsonnet_bcrypt : (String → String → Result Cause String) → NativeFunction
jsonnet_bcrypt generate args = do
  (password, salt) ← two_string_arguments args
  hash ← wrap library_error (generate password salt)
  ok (string hash)

abbrev pub as_list : Value → Option Values
as_list (list vs) = some vs
as_list _ = none

-- The function that applyPatchNativeFunction wraps; `apply object patch` encodes both, decodes the
-- patch, applies it and decodes the result.
unfoldable pub apply_patch : (Value → Values → Result Cause Value) → NativeFunction
apply_patch apply (obj ∷ patch ∷ []) = elim (as_list patch) [
  | none ↦ err wrong_second
  | some ops ↦ wrap library_error (apply obj ops)
]
apply_patch apply _ = err wrong_count
