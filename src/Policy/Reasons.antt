-- ===== src/Policy/Reasons.antt =====
-- The public reason codes (clerksan/ingest/policy.py, `PublicReasonCode`), which of them are
-- policy rejections, and which may be retried.
use clerk_san.Prelude.{
  Bool, List, Option, String, [], false, if◌then◌else◌, none, some, str_eq, true, ◌∷◌,
}

pub data PublicReasonCode : Type 0 where
  processing_queued : PublicReasonCode
  mapping_required : PublicReasonCode
  model_unavailable : PublicReasonCode
  processing_failed : PublicReasonCode
  legacy_outcome_unavailable : PublicReasonCode
  adapter_unavailable : PublicReasonCode
  decoder_unavailable : PublicReasonCode
  opaque_safe_fallback : PublicReasonCode
  invalid_host : PublicReasonCode
  empty_file : PublicReasonCode
  request_too_large : PublicReasonCode
  multipart_limit_exceeded : PublicReasonCode
  json_limit_exceeded : PublicReasonCode
  upload_capacity_exceeded : PublicReasonCode
  upload_too_large : PublicReasonCode
  prohibited_audio : PublicReasonCode
  prohibited_video : PublicReasonCode
  prohibited_executable : PublicReasonCode
  active_content : PublicReasonCode
  encrypted_content : PublicReasonCode
  inspection_ambiguous : PublicReasonCode
  malformed_content : PublicReasonCode
  resource_limit_exceeded : PublicReasonCode
  idempotency_conflict : PublicReasonCode
  internal_error : PublicReasonCode
  sandbox_unavailable : PublicReasonCode
  worker_capability_stale : PublicReasonCode
  registry_mismatch : PublicReasonCode
  local_data_needs_upgrade : PublicReasonCode
  generic_candidate_deferred : PublicReasonCode
  intake_intent_mismatch : PublicReasonCode

-- `reason.value`
abbrev pub value : PublicReasonCode → String
value processing_queued = "processing_queued"
value mapping_required = "mapping_required"
value model_unavailable = "model_unavailable"
value processing_failed = "processing_failed"
value legacy_outcome_unavailable = "legacy_outcome_unavailable"
value adapter_unavailable = "adapter_unavailable"
value decoder_unavailable = "decoder_unavailable"
value opaque_safe_fallback = "opaque_safe_fallback"
value invalid_host = "invalid_host"
value empty_file = "empty_file"
value request_too_large = "request_too_large"
value multipart_limit_exceeded = "multipart_limit_exceeded"
value json_limit_exceeded = "json_limit_exceeded"
value upload_capacity_exceeded = "upload_capacity_exceeded"
value upload_too_large = "upload_too_large"
value prohibited_audio = "prohibited_audio"
value prohibited_video = "prohibited_video"
value prohibited_executable = "prohibited_executable"
value active_content = "active_content"
value encrypted_content = "encrypted_content"
value inspection_ambiguous = "inspection_ambiguous"
value malformed_content = "malformed_content"
value resource_limit_exceeded = "resource_limit_exceeded"
value idempotency_conflict = "idempotency_conflict"
value internal_error = "internal_error"
value sandbox_unavailable = "sandbox_unavailable"
value worker_capability_stale = "worker_capability_stale"
value registry_mismatch = "registry_mismatch"
value local_data_needs_upgrade = "local_data_needs_upgrade"
value generic_candidate_deferred = "generic_candidate_deferred"
value intake_intent_mismatch = "intake_intent_mismatch"

all_reasons : List PublicReasonCode
all_reasons =
    processing_queued ∷ mapping_required ∷ model_unavailable ∷ processing_failed
    ∷ legacy_outcome_unavailable ∷ adapter_unavailable ∷ decoder_unavailable ∷ opaque_safe_fallback
    ∷ invalid_host ∷ empty_file ∷ request_too_large ∷ multipart_limit_exceeded ∷ json_limit_exceeded
    ∷ upload_capacity_exceeded ∷ upload_too_large ∷ prohibited_audio ∷ prohibited_video
    ∷ prohibited_executable ∷ active_content ∷ encrypted_content ∷ inspection_ambiguous
    ∷ malformed_content ∷ resource_limit_exceeded ∷ idempotency_conflict ∷ internal_error
    ∷ sandbox_unavailable ∷ worker_capability_stale ∷ registry_mismatch ∷ local_data_needs_upgrade
    ∷ generic_candidate_deferred ∷ intake_intent_mismatch ∷ []

find_reason : String → List PublicReasonCode → Option PublicReasonCode
find_reason token [] = none
find_reason token (reason ∷ reasons) =
    if str_eq (value reason) token then some reason else find_reason token reasons

-- `PublicReasonCode(token)`, which raises at a text that is no member's value
unfoldable pub reason_of : String → Option PublicReasonCode
unfolding find_reason all_reasons
reason_of token = find_reason token all_reasons

-- `_POLICY_REJECTIONS`
abbrev pub is_policy_rejection : PublicReasonCode → Bool
is_policy_rejection invalid_host = true
is_policy_rejection empty_file = true
is_policy_rejection request_too_large = true
is_policy_rejection multipart_limit_exceeded = true
is_policy_rejection json_limit_exceeded = true
is_policy_rejection upload_capacity_exceeded = true
is_policy_rejection upload_too_large = true
is_policy_rejection prohibited_audio = true
is_policy_rejection prohibited_video = true
is_policy_rejection prohibited_executable = true
is_policy_rejection active_content = true
is_policy_rejection encrypted_content = true
is_policy_rejection inspection_ambiguous = true
is_policy_rejection malformed_content = true
is_policy_rejection resource_limit_exceeded = true
is_policy_rejection idempotency_conflict = true
is_policy_rejection internal_error = true
is_policy_rejection intake_intent_mismatch = true
is_policy_rejection _ = false

-- `reason_is_retryable`
abbrev pub reason_is_retryable : PublicReasonCode → Bool
reason_is_retryable model_unavailable = true
reason_is_retryable processing_failed = true
reason_is_retryable adapter_unavailable = true
reason_is_retryable decoder_unavailable = true
reason_is_retryable opaque_safe_fallback = true
reason_is_retryable upload_capacity_exceeded = true
reason_is_retryable internal_error = true
reason_is_retryable sandbox_unavailable = true
reason_is_retryable worker_capability_stale = true
reason_is_retryable registry_mismatch = true
reason_is_retryable generic_candidate_deferred = true
reason_is_retryable _ = false
