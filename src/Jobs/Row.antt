-- ===== src/Jobs/Row.antt =====
-- A row of the `jobs` table (clerksan/db/models.py, `Job`), the settings that the queue reads,
-- and the errors that its operations raise. Identifiers are numbers, in the order of the
-- database's identifiers; times are microseconds. The database's own `updated_at` is left out.

use clerk_san.Prelude.{Bool, List, Option, Result, String, false, true, ℕ}
use clerk_san.Models.{ExecutionProfile, IntakeIntent, IntakeMode, JobStatus}
use clerk_san.Jobs.Payload.{Payload}

pub record Job : Type 0 where
  pub id : ℕ
  pub document_id : ℕ
  pub job_type : String
  pub payload : Payload
  pub idempotency_key : String
  pub execution_profile : ExecutionProfile
  pub sandbox_verified : Bool
  pub registry_digest : Option String
  pub capabilities_digest : Option String
  pub requirements_digest : String
  pub required_components : List String
  pub intake_intent : IntakeIntent
  pub status : JobStatus
  pub attempts : ℕ
  pub last_error : Option String
  pub available_at : ℕ
  pub lease_expires_at : Option ℕ
  pub lease_owner : Option String
  pub created_at : ℕ

pub record Settings : Type 0 where
  pub intake_mode : IntakeMode
  pub job_lease_seconds : ℕ
  pub job_max_attempts : ℕ
  pub job_retry_base_seconds : ℕ

-- What the queue reads of a `CapabilityRegistry`.
pub record Registry : Type 0 where
  pub registry_digest : String
  pub capabilities_digest : String
  pub sandbox_verified : Bool

pub data JobError : Type 0 where
  lookup_error state_error lease_lost value_error type_error : JobError

abbrev pub JobResult : Type 0 → Type 0
JobResult A = Result JobError A

abbrev pub is_queued : JobStatus → Bool
is_queued JobStatus.queued = true
is_queued _ = false

abbrev pub is_running : JobStatus → Bool
is_running JobStatus.running = true
is_running _ = false
