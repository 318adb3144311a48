-- ===== src/Tests/Queue.antt =====
-- Jobs of clerksan/ingest/jobs.py in concrete states.
use clerk_san.Prelude.{
  Option, String, [], arith, err, false, min, none, ok, refl, some, true, ℕ, ◌*◌, ◌+◌, ◌∷◌, ◌≡◌,
  ◌≢◌, ◌≤◌, ◌⊎◌,
}
use clerk_san.Models.{ExecutionProfile, IntakeIntent, IntakeMode, JobStatus}
use clerk_san.Jobs.Payload.{end}
use clerk_san.Jobs.Row.{Job, JobError, Registry, Settings, state_error}
use clerk_san.Jobs.Table.{Jobs, find}
use clerk_san.Jobs.Enqueue.{conflicts}
use clerk_san.Jobs.Lease.{completed, mark_done, retried, retry_delay, retry_or_bury}
use clerk_san.Jobs.Claim.{claim_postgresql, claim_sqlite, eligible_clause, execution_scope}
use clerk_san.Jobs.Next.{Claimant, claim, claim_next, eligible_for, recover_rebuild, sqlite}
use clerk_san.Jobs.Identity.{IsUnique}
use clerk_san.Jobs.Invariant.{IsValidRow}
use clerk_san.Jobs.Safety.{IsValid}
use clerk_san.Jobs.Safety.Steps.{Reach-IsValid, Reach, Step}
use clerk_san.Jobs.Exclusive.Quiet.{claim_exclusive, still}
use clerk_san.Jobs.Claim.Choice.{claim-Chooses, Chooses, claimable}
use clerk_san.Jobs.Claim.Dialects.{claim_sqlite-eq-claim_postgresql, no_locks}
use clerk_san.Jobs.Retry.{retry_or_bury_outcome, retry_delay_doubles, IsRetried}
use clerk_san.Jobs.Lease.Held.{Holds}
use clerk_san.Jobs.Done.{mark_done_once, HeldCase, IsCompletion}
use clerk_san.Jobs.Scope.{claim_next-IsInScope, IsInScope}

abbrev settings : Settings
settings = record {
  intake_mode = IntakeMode.legacy;
  job_lease_seconds = 60;
  job_max_attempts = 3;
  job_retry_base_seconds = 5;
}

abbrev registry : Registry
registry = record { registry_digest = "r"; capabilities_digest = "c"; sandbox_verified = false }

abbrev waiting : ℕ → Job
waiting id = record {
  id = id;
  document_id = id;
  job_type = "process_document";
  payload = end;
  idempotency_key = "k";
  execution_profile = ExecutionProfile.legacy_compat;
  sandbox_verified = false;
  registry_digest = none;
  capabilities_digest = none;
  requirements_digest = "e";
  required_components = [];
  intake_intent = IntakeIntent.legacy_unspecified;
  status = JobStatus.queued;
  attempts = 0;
  last_error = none;
  available_at = 10 + id;
  lease_expires_at = none;
  lease_owner = none;
  created_at = 1;
}

-- The lease of a waiting job at time 20
abbrev taken : ℕ → Job
taken id = record (waiting id) {
  status = JobStatus.running;
  attempts = 1;
  lease_expires_at = some 60000020;
  lease_owner = some "w1";
}

-- A lease that ran out in the last attempt
abbrev crashed : Job
crashed = record (taken 3) { attempts = 3; lease_expires_at = some 15 }

abbrev claimant : Claimant
claimant = record {
  dialect = sqlite;
  lease_owner = some "w1";
  default_worker_id = "host";
  registry = registry;
  models_ready = true;
  empty_digest = "e";
  now = 20;
}

abbrev two : Jobs
two = waiting 1 ∷ waiting 2 ∷ []

abbrev one_taken : Jobs
one_taken = taken 1 ∷ waiting 2 ∷ []

abbrev both_taken : Jobs
both_taken = taken 1 ∷ taken 2 ∷ []

waiting-IsValidRow : (id : ℕ) → IsValidRow settings (waiting id)
waiting-IsValidRow id = record {
  expiry = refl;
  owner = refl;
  within = omega arith;
  started = omega arith;
  sandboxed = refl;
  supported = refl;
}

two-IsUnique : IsUnique two
unfolding conflicts
two-IsUnique = (refl, (refl, tt))

two-IsValid : IsValid settings two
two-IsValid = record {
  rows = (waiting-IsValidRow 1, (waiting-IsValidRow 2, tt));
  unique = two-IsUnique;
}

claim_first : claim_next (recover_rebuild 20) settings claimant two ≡ ok (one_taken, some (taken 1))
unfolding claim_next eligible_clause execution_scope
claim_first = refl

claim_second :
    claim_next (recover_rebuild 20) settings claimant one_taken ≡ ok (both_taken, some (taken 2))
unfolding claim_next eligible_clause execution_scope
claim_second = refl

finish_first : mark_done one_taken 1 (some "w1") ≡ ok (completed (taken 1) ∷ waiting 2 ∷ [])
unfolding mark_done
finish_first = refl

retry_first :
    retry_or_bury one_taken 1 "boom" (some "w1") settings 30
    ≡ ok (retried (taken 1) "boom" settings 30 ∷ waiting 2 ∷ [])
unfolding retry_or_bury retried
retry_first = refl

Reach-IsValid_example : IsValid settings one_taken
Reach-IsValid_example =
    Reach-IsValid settings (omega arith)
      (Reach.next Reach.here (Step.claims_next claimant 20 claim_first)) two-IsValid

claim_exclusive_example : (taken 2).id ≢ (taken 1).id
claim_exclusive_example =
    claim_exclusive settings (omega arith) claimant claimant 20 20 two one_taken one_taken
      both_taken (taken 1) (taken 2) two-IsValid claim_first still claim_second (omega arith)

claim-Chooses_example :
    Chooses settings 20 "w1"
      (claimable sqlite (eligible_for settings claimant))
      two
      (claim sqlite two (eligible_for settings claimant) 20 "w1" settings)
claim-Chooses_example =
    claim-Chooses settings 20 "w1" sqlite (eligible_for settings claimant) two two-IsUnique

claim_sqlite-eq-claim_postgresql_example :
    claim_sqlite two (eligible_for settings claimant) 20 "w1" settings
    ≡ claim_postgresql no_locks two (eligible_for settings claimant) 20 "w1" settings
claim_sqlite-eq-claim_postgresql_example =
    claim_sqlite-eq-claim_postgresql (eligible_for settings claimant) 20 "w1" settings two
      two-IsUnique

retry_or_bury_outcome_example :
    (job row : Job) × Holds one_taken 1 (some "w1") job
    × (find 1 (retried (taken 1) "boom" settings 30 ∷ waiting 2 ∷ []) ≡ some row)
    × IsRetried settings 30 job row
    × ((other : ℕ)
        → other ≢ 1
        → find other (retried (taken 1) "boom" settings 30 ∷ waiting 2 ∷ []) ≡ find other one_taken)
retry_or_bury_outcome_example =
    retry_or_bury_outcome one_taken (retried (taken 1) "boom" settings 30 ∷ waiting 2 ∷ []) 1 "boom"
      (some "w1") settings 30 retry_first

retry_delay_doubles_example :
    (retry_delay 1 5 ≡ min 5 3600)
    × (retry_delay (2 + 1) 5 ≡ min (2 * retry_delay 2 5) 3600)
    × (retry_delay 2 5 ≤ 3600)
retry_delay_doubles_example = retry_delay_doubles 2 5 (omega arith)

mark_done_once_example :
    ((error : JobError) × (mark_done one_taken 1 (some "w1") ≡ err error)
      × HeldCase one_taken 1 (some "w1") error)
    ⊎ ((jobs' : Jobs) × (mark_done one_taken 1 (some "w1") ≡ ok jobs')
        × IsCompletion one_taken jobs' 1 (some "w1")
        × ((other : Option String) → mark_done jobs' 1 other ≡ err state_error))
mark_done_once_example = mark_done_once one_taken 1 (some "w1")

claim_next-IsInScope_example : IsInScope settings claimant (taken 1)
claim_next-IsInScope_example =
    claim_next-IsInScope settings claimant 20 two one_taken (taken 1) (omega arith) two-IsValid
      claim_first
