-- ===== src/Tests/Intake.antt =====
-- An intake's life and a worker's lease (clerksan/db/repositories.py, clerksan/ingest/activation.py).
use clerk_san.Prelude.{Bool, String, [], err, false, none, ok, refl, some, true, ◌∷◌, ◌≡◌}
use clerk_san.Models.{ExecutionProfile, IntakeIntent, IntakeMode, SourceIntakeState}
use clerk_san.Jobs.Row.{Settings, Registry}
use clerk_san.Intake.Row.{SourceIntake}
use clerk_san.Intake.Fields.{IntakeError}
use clerk_san.Intake.Transition.{Change, StateArgument, transition}
use clerk_san.Intake.Transition.Once.{IsTransition, transition_lem, transition_once}
use clerk_san.Intake.Capability.{ActivationStatus, CapabilityLease, evaluate_universal_activation}
use clerk_san.Intake.Capability.Ready.{IsProven, evaluate_universal_activation_lem}

abbrev intake : SourceIntake
intake = record {
  id = 4;
  document_id = 7;
  source_file_id = 9;
  source_version = 1;
  intake_intent = IntakeIntent.generic_file;
  execution_profile = ExecutionProfile.legacy_compat;
  state = SourceIntakeState.queued;
  version = 1;
  reason_code = none;
  retryable = false;
  failure_phase = none;
  source_sha256 = "s";
  upload_idempotency_key = none;
  duplicate_of_document_id = none;
}

abbrev failing : Change
failing = record {
  expected_version = 1;
  state = StateArgument.named "failed";
  actor = "worker";
  reason_code = some " processing_failed ";
  retryable = true;
  failure_phase = none;
}

abbrev starting : Change
starting = record failing {
  state = StateArgument.member SourceIntakeState.processing;
  reason_code = none;
}

abbrev failed_intake : SourceIntake
failed_intake = record intake {
  state = SourceIntakeState.failed;
  version = 2;
  reason_code = some "processing_failed";
  retryable = true;
}

intake_failed : transition (intake ∷ []) 4 failing ≡ ok (failed_intake ∷ [], 2)
unfolding transition
intake_failed = refl

transition_lem_example : IsTransition 4 failing (intake ∷ []) (failed_intake ∷ [], 2)
transition_lem_example =
    transition_lem (intake ∷ []) 4 failing (failed_intake ∷ [], 2) intake_failed

transition_once_example : (e : IntakeError) × (transition (failed_intake ∷ []) 4 starting ≡ err e)
transition_once_example =
    transition_once (intake ∷ []) 4 failing starting (failed_intake ∷ [], 2) intake_failed refl

abbrev settings : Settings
settings = record {
  intake_mode = IntakeMode.universal;
  job_lease_seconds = 60;
  job_max_attempts = 3;
  job_retry_base_seconds = 5;
}

abbrev registry : Registry
registry = record { registry_digest = "r"; capabilities_digest = "c"; sandbox_verified = true }

abbrev worker : CapabilityLease
worker = record {
  worker_id = "w1";
  registry_digest = "r";
  capabilities_digest = "c";
  sandbox_verified = true;
  heartbeat_at = 10;
  expires_at = 40;
}

abbrev id_ltb : String → String → Bool
id_ltb a b = false

abbrev status : ActivationStatus
status = evaluate_universal_activation id_ltb [] (worker ∷ []) settings registry ("pdf" ∷ []) 20

status_ready : status.ready ≡ true
unfolding evaluate_universal_activation
status_ready = refl

evaluate_universal_activation_lem_example :
    IsProven id_ltb []
      (worker ∷ [])
      registry
      ("pdf" ∷ [])
      20
      (evaluate_universal_activation id_ltb [] (worker ∷ []) settings registry ("pdf" ∷ []) 20)
evaluate_universal_activation_lem_example =
    evaluate_universal_activation_lem id_ltb [] (worker ∷ []) settings registry ("pdf" ∷ []) 20 refl
      status_ready
