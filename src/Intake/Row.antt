-- ===== src/Intake/Row.antt =====
-- A row of the `source_intakes` table (clerksan/db/models.py, `SourceIntake`), as far as the
-- queue and the lifecycle read or write it.
use clerk_san.Prelude.{Bool, Option, String, ℕ}
use clerk_san.Models.{ExecutionProfile, IntakeIntent, SourceIntakeState}

pub record SourceIntake : Type 0 where
  pub id : ℕ
  pub document_id : ℕ
  pub source_file_id : ℕ
  pub source_version : ℕ
  pub intake_intent : IntakeIntent
  pub execution_profile : ExecutionProfile
  pub state : SourceIntakeState
  pub version : ℕ
  pub reason_code : Option String
  pub retryable : Bool
  pub failure_phase : Option String
  pub source_sha256 : String
  pub upload_idempotency_key : Option ℕ
  pub duplicate_of_document_id : Option ℕ
