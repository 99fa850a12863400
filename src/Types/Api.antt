-- ===== src/Types/Api.antt =====
-- frontend/src/types/api.ts: its types, field by field. An optional field is an `Option`, a union of
-- string literals a data type, a number a natural number (a risk score or a temperature counts tenths).
-- `data` is a reserved word here: that field is `payload`.
use arka.Prelude.{Text, Bool, ℕ, Option, Fields}

pub data ApiErrorEnvelopeCode : Type 0 where
  authentication_required permission_denied emergency_stop_active scope_violation replay_detected
        approval_required approval_expired action_hash_mismatch self_approval_forbidden
        unavailable_dependency network_error internal_error :
      ApiErrorEnvelopeCode

pub record ApiErrorEnvelope : Type 0 where
  pub code : ApiErrorEnvelopeCode
  pub message : Text
  pub safe_details : Option Fields
  pub retryable : Bool

pub data UserSessionRole : Type 0 where
  lead_operator security_operator auditor : UserSessionRole

pub record UserSession : Type 0 where
  pub operator_id : Text
  pub role : UserSessionRole
  pub token : Text
  pub hardware_token_bound : Bool
  pub token_expires_at_unix : ℕ

pub record ApiResponseMeta : Type 0 where
  pub request_id : Text
  pub timestamp_unix : ℕ
  pub kernel_version : Option Text

pub record ApiResponse (T : Type 0) : Type 0 where
  pub success : Bool
  pub payload : Option T
  pub error : Option ApiErrorEnvelope
  pub meta : ApiResponseMeta
