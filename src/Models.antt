-- ===== src/Models.antt =====
-- The enumerations of clerksan/db/models.py that several components share.
use clerk_san.Prelude.{Bool, Option, String, false, if◌then◌else◌, none, some, str_eq, true}

pub data JobStatus : Type 0 where
  queued running done failed dead : JobStatus

pub data IntakeIntent : Type 0 where
  legacy_unspecified generic_file bill_scan : IntakeIntent

pub data ExecutionProfile : Type 0 where
  legacy_compat universal_sandboxed : ExecutionProfile

pub data SourceIntakeState : Type 0 where
  queued processing processed needs_mapping stored_unprocessed failed : SourceIntakeState

pub data IntakeMode : Type 0 where
  legacy universal : IntakeMode

abbrev pub is_legacy : ExecutionProfile → Bool
is_legacy ExecutionProfile.legacy_compat = true
is_legacy ExecutionProfile.universal_sandboxed = false

abbrev pub is_universal : IntakeMode → Bool
is_universal IntakeMode.universal = true
is_universal IntakeMode.legacy = false

abbrev pub same_intent : IntakeIntent → IntakeIntent → Bool
same_intent IntakeIntent.legacy_unspecified IntakeIntent.legacy_unspecified = true
same_intent IntakeIntent.generic_file IntakeIntent.generic_file = true
same_intent IntakeIntent.bill_scan IntakeIntent.bill_scan = true
same_intent _ _ = false

-- `IntakeIntent(value)`, which raises at any other text
unfoldable pub intent_of : String → Option IntakeIntent
intent_of value =
    if str_eq value "legacy_unspecified"
    then some IntakeIntent.legacy_unspecified
    else if str_eq value "generic_file"
    then some IntakeIntent.generic_file
    else if str_eq value "bill_scan"
    then some IntakeIntent.bill_scan
    else none

-- `intent.value`
abbrev pub intent_name : IntakeIntent → String
intent_name IntakeIntent.legacy_unspecified = "legacy_unspecified"
intent_name IntakeIntent.generic_file = "generic_file"
intent_name IntakeIntent.bill_scan = "bill_scan"

-- An argument of type `IntakeIntent | str | None`.
pub data IntentArgument : Type 0 where
  absent : IntentArgument
  member : IntakeIntent → IntentArgument
  named : String → IntentArgument
