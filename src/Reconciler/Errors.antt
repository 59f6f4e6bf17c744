-- ===== src/Reconciler/Errors.antt =====
-- EspejoteError of controllers/managedresource_controller.go.
use espejote.Base.{String, Bool, true, false}
use espejote.Kube.{ApiError, Cause}
use espejote.Renderer.{RenderError}
use espejote.Applygroup.Decode.{DecodeError}

pub data EspejoteErrorType : Type 0 where
  service_account_error waiting_for_cache_sync dependency_configuration_error : EspejoteErrorType
  template_error apply_error template_return_error : EspejoteErrorType
  controller_instantiation_error controller_start_error : EspejoteErrorType

abbrev pub type_string : EspejoteErrorType → String
type_string service_account_error = "ServiceAccountError"
type_string waiting_for_cache_sync = "WaitingForCacheSync"
type_string dependency_configuration_error = "DependencyConfigurationError"
type_string template_error = "TemplateError"
type_string apply_error = "ApplyError"
type_string template_return_error = "TemplateReturnError"
type_string controller_instantiation_error = "ControllerInstantiationError"
type_string controller_start_error = "ControllerStartError"

-- What an error wraps.
pub data Detail : Type 0 where
  hashing processing : Cause → Detail
  syncing : ApiError → Detail
  rendering : RenderError → Detail
  unmarshaling : DecodeError → Detail
  applying : Detail

-- An error that `errors.As` finds an EspejoteError in, by the outermost one, or any other.
pub data ReconcileError : Type 0 where
  typed : EspejoteErrorType → Detail → ReconcileError
  plain : ApiError → ReconcileError

-- EspejoteError.Transient
abbrev pub is_transient : EspejoteErrorType → Bool
is_transient waiting_for_cache_sync = true
is_transient _ = false

abbrev pub error_is_transient : ReconcileError → Bool
error_is_transient (typed t d) = is_transient t
error_is_transient (plain e) = false
