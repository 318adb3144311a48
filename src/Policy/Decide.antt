-- ===== src/Policy/Decide.antt =====
-- `decide_intake` of clerksan/ingest/policy.py.
use Prim.Native.Char.{code}
use clerk_san.Prelude.{
  Bool, List, Option, Result, String, [], err, false, if◌then◌else◌, none, not, ok, some, str_eq,
  true, ◌&&◌, ◌==◌, ◌>>=◌, ◌||◌, ◌∷◌,
}
use clerk_san.Models.{IntakeIntent, IntentArgument, absent, intent_of, named}
use clerk_san.Policy.Reasons.{
  PublicReasonCode, active_content, adapter_unavailable, decoder_unavailable, empty_file,
  encrypted_content, generic_candidate_deferred, inspection_ambiguous, intake_intent_mismatch,
  is_policy_rejection, malformed_content, mapping_required, opaque_safe_fallback, processing_queued,
  prohibited_audio, prohibited_executable, prohibited_video, reason_is_retryable, reason_of,
}

-- clerksan/ingest/filetype.py, `DetectedFormat`
pub record DetectedFormat : Type 0 where
  pub family : String
  pub format : String
  pub canonical_mime : String
  pub charset : Option String
  pub evidence : List String

pub data IntakeAction : Type 0 where
  process store_unprocessed reject : IntakeAction

pub record IntakeDecision : Type 0 where
  pub action : IntakeAction
  pub reason_code : PublicReasonCode
  pub adapter_key : Option String
  pub retryable : Bool

pub data PolicyError : Type 0 where
  value_error : PolicyError

abbrev pub among : String → List String → Bool
among key [] = false
among key (x ∷ xs) = str_eq x key || among key xs

-- `adapters.get(key, key)`
abbrev pub get_or_key : String → List (String × String) → String
get_or_key key [] = key
get_or_key key ((k, v) ∷ rest) = if str_eq k key then v else get_or_key key rest

-- The rest of a text behind a prefix that it has
after_prefix : String → String → Option String
after_prefix String.[] s = some s
after_prefix (String.◌∷◌ p ps) String.[] = none
after_prefix (String.◌∷◌ p ps) (String.◌∷◌ c s) =
    if code p == code c then after_prefix ps s else none

-- `item.removeprefix(prefix)`
unfoldable pub remove_prefix : String → String → String
unfolding after_prefix
remove_prefix prefix item = elim (after_prefix prefix item) [ none ↦ item | some rest ↦ rest ]

-- The loop's body: what one item of evidence makes `_evidence_rejection` return, if it does.
abbrev pub rejection_of : Option PublicReasonCode → Option PublicReasonCode
rejection_of none = none
rejection_of (some reason) = if is_policy_rejection reason then some reason else none

abbrev pub or_else : {A : Type 0} → Option A → Option A → Option A
or_else none rest = rest
or_else (some a) rest = some a

-- `_evidence_rejection`
unfoldable pub evidence_rejection : List String → Option PublicReasonCode
unfolding remove_prefix
evidence_rejection [] = none
evidence_rejection (item ∷ items) =
    or_else (rejection_of (reason_of (remove_prefix "risk:" item))) (evidence_rejection items)

-- `_FAMILY_REJECTIONS.get(family)`
unfoldable pub family_rejection : String → Option PublicReasonCode
family_rejection family =
    if str_eq family "empty"
    then some empty_file
    else if str_eq family "audio"
    then some prohibited_audio
    else if str_eq family "video"
    then some prohibited_video
    else if str_eq family "executable"
    then some prohibited_executable
    else if str_eq family "active"
    then some active_content
    else if str_eq family "encrypted"
    then some encrypted_content
    else if str_eq family "ambiguous"
    then some inspection_ambiguous
    else if str_eq family "malformed"
    then some malformed_content
    else none

-- `evidence_rejection or _FAMILY_REJECTIONS.get(detected.family)`
unfoldable pub structural_rejection : DetectedFormat → Option PublicReasonCode
structural_rejection detected =
    or_else (evidence_rejection detected.evidence) (family_rejection detected.family)

-- `_is_tabular_format`
unfoldable pub is_tabular_format : DetectedFormat → Bool
is_tabular_format detected =
    among detected.family ("table" ∷ "tabular" ∷ "spreadsheet" ∷ [])
    || among detected.format ("csv" ∷ "tsv" ∷ "xlsx" ∷ "xls" ∷ "ods" ∷ [])

-- `_is_bill_scan_format`
unfoldable pub is_bill_scan_format : DetectedFormat → Bool
is_bill_scan_format detected = str_eq detected.family "image" || str_eq detected.format "pdf"

-- `_normalize_intake_intent`
unfoldable pub normalize_intake_intent : IntentArgument → Result PolicyError IntakeIntent
unfolding intent_of
normalize_intake_intent absent = ok IntakeIntent.legacy_unspecified
normalize_intake_intent (IntentArgument.member intent) = ok intent
normalize_intake_intent (named name) = elim (intent_of name) [
  | none ↦ err value_error
  | some intent ↦ ok intent
]

-- `_rejected`
abbrev pub rejected : PublicReasonCode → IntakeDecision
rejected reason = record {
  action = reject;
  reason_code = reason;
  adapter_key = none;
  retryable = reason_is_retryable reason;
}

abbrev pub stored : PublicReasonCode → IntakeDecision
stored reason = record {
  action = store_unprocessed;
  reason_code = reason;
  adapter_key = none;
  retryable = reason_is_retryable reason;
}

abbrev pub processed_by : PublicReasonCode → String → IntakeDecision
processed_by reason adapter = record {
  action = process;
  reason_code = reason;
  adapter_key = some adapter;
  retryable = false;
}

-- The last three outcomes: no adapter takes the format.
unfoldable pub unprocessed_reason : DetectedFormat → PublicReasonCode
unprocessed_reason detected =
    if str_eq detected.family "image"
    then decoder_unavailable
    else if str_eq detected.family "opaque"
    then opaque_safe_fallback
    else adapter_unavailable

-- From the registry's formats on: what an acceptable source becomes
unfoldable pub dispatch : DetectedFormat → List String → List (String × String) → IntakeDecision
unfolding unprocessed_reason
dispatch detected process_formats adapter_keys =
    if among detected.format process_formats
    then processed_by processing_queued (get_or_key detected.format adapter_keys)
    else stored (unprocessed_reason detected)

abbrev pub is_bill_scan : IntakeIntent → Bool
is_bill_scan IntakeIntent.bill_scan = true
is_bill_scan _ = false

abbrev pub is_generic_file : IntakeIntent → Bool
is_generic_file IntakeIntent.generic_file = true
is_generic_file _ = false

-- The part of `decide_intake` below the normalised intent
unfoldable pub decide_for_intent :
    DetectedFormat → List String → List (String × String) → IntakeIntent → IntakeDecision
unfolding dispatch is_tabular_format is_bill_scan_format
decide_for_intent detected process_formats adapter_keys intent =
    if is_bill_scan intent && not (is_bill_scan_format detected)
    then rejected intake_intent_mismatch
    else if str_eq detected.family "container" && not (among detected.format process_formats)
    then rejected inspection_ambiguous
    else if is_generic_file intent && is_tabular_format detected
    then processed_by mapping_required (get_or_key detected.format adapter_keys)
    else if is_generic_file intent
        && is_bill_scan_format detected
        && not (among detected.format process_formats)
    then stored generic_candidate_deferred
    else dispatch detected process_formats adapter_keys

abbrev pub or_empty : Option (List (String × String)) → List (String × String)
or_empty none = []
or_empty (some keys) = keys

unfoldable pub decide_intake :
    DetectedFormat
    → List String
    → Option (List (String × String))
    → Option PublicReasonCode
    → IntentArgument
    → Result PolicyError IntakeDecision
unfolding structural_rejection normalize_intake_intent decide_for_intent
decide_intake detected process_formats adapter_keys (some violation) intake_intent =
    if is_policy_rejection violation then ok (rejected violation) else err value_error
decide_intake detected process_formats adapter_keys none intake_intent =
    elim (structural_rejection detected) [
      | some reason ↦ ok (rejected reason)
      | none ↦ do
        intent ← normalize_intake_intent intake_intent
        ok (decide_for_intent detected process_formats (or_empty adapter_keys) intent)
    ]
