-- ===== src/Jobs/Claim.antt =====
-- Claiming work: `claim_next` of clerksan/ingest/jobs.py, with its two database dialects, the
-- clause of eligible rows, the execution scope, and the burial of exhausted leases.
pub mod Dialects
pub mod Choice
use clerk_san.Prelude.{
  Bool, List, Option, String, [], false, holds, if◌then◌else◌, leb, ltb, map, none, not, select,
  some, str_eq, ℕ, ◌&&◌, ◌+◌, ◌==◌, ◌||◌, ◌∷◌,
}
use clerk_san.Models.{IntakeMode, JobStatus, is_legacy}
use clerk_san.Jobs.Payload.{job_pipeline_completed}
use clerk_san.Jobs.Row.{Job, Registry, Settings, is_queued, is_running}
use clerk_san.Jobs.Table.{Jobs, first, save}
use clerk_san.Jobs.Lease.{microseconds}

-- `Job.lease_expires_at.is_not(None), Job.lease_expires_at <= now`
abbrev pub lease_expired : ℕ → Job → Bool
lease_expired now job = holds (λ t. leb t now) job.lease_expires_at

unfoldable pub eligible_clause : ℕ → Settings → Job → Bool
eligible_clause now settings job =
    (is_queued job.status && leb job.available_at now)
    || (is_running job.status
        && lease_expired now job
        && ltb job.attempts settings.job_max_attempts)

-- `empty_digest` is `_required_components_digest([])`, a SHA-256 of the code's library.
unfoldable pub execution_scope : String → Settings → Registry → Bool → Job → Bool
execution_scope empty_digest settings registry models_ready job =
    (elim settings.intake_mode [
      | IntakeMode.universal ↦
          not (is_legacy job.execution_profile)
          && job.sandbox_verified
          && holds (str_eq registry.registry_digest) job.registry_digest
          && holds (str_eq registry.capabilities_digest) job.capabilities_digest
      | IntakeMode.legacy ↦ is_legacy job.execution_profile && not job.sandbox_verified
    ])
    && (models_ready || str_eq job.requirements_digest empty_digest)

-- `_lease`
unfoldable pub lease : Job → ℕ → String → Settings → Job
lease job now owner settings = record job {
  status = JobStatus.running;
  attempts = job.attempts + 1;
  lease_owner = some owner;
  lease_expires_at = some (now + microseconds settings.job_lease_seconds);
}

-- The row that the statement selected is leased and flushed.
unfoldable pub lease_selected : Option Job → Jobs → ℕ → String → Settings → Jobs × Option Job
unfolding save lease
lease_selected none jobs now owner settings = (jobs, none)
lease_selected (some job) jobs now owner settings =
    (save (lease job now owner settings) jobs, some (lease job now owner settings))

-- `FOR UPDATE SKIP LOCKED`: a row that another transaction has locked is passed over.
unfoldable pub claim_postgresql :
    (ℕ → Bool) → Jobs → (Job → Bool) → ℕ → String → Settings → Jobs × Option Job
unfolding first lease_selected
claim_postgresql locked jobs eligible now owner settings =
    lease_selected (first (λ job. eligible job && not (locked job.id)) jobs) jobs now owner settings

-- `WHERE Job.id == candidate AND eligible`
abbrev pub claims : Option Job → (Job → Bool) → Job → Bool
claims none eligible job = false
claims (some candidate) eligible job = job.id == candidate.id && eligible job

-- `scalar_one_or_none`
abbrev pub head? : Jobs → Option Job
head? [] = none
head? (job ∷ _) = some job

-- `UPDATE jobs SET … WHERE id = candidate AND eligible RETURNING *`
unfoldable pub update_candidate :
    Option Job → Jobs → (Job → Bool) → ℕ → String → Settings → Jobs × Option Job
unfolding lease
update_candidate candidate jobs eligible now owner settings = (
  map (λ job. if claims candidate eligible job then lease job now owner settings else job) jobs,
  head? (map (λ job. lease job now owner settings) (select (claims candidate eligible) jobs)),
)

unfoldable pub claim_sqlite : Jobs → (Job → Bool) → ℕ → String → Settings → Jobs × Option Job
unfolding first update_candidate
claim_sqlite jobs eligible now owner settings =
    update_candidate (first eligible jobs) jobs eligible now owner settings

-- The `WHERE` of `_bury_exhausted_expired_jobs`
unfoldable pub exhausted : ℕ → Settings → (Job → Bool) → Job → Bool
exhausted now settings scope job =
    is_running job.status
    && lease_expired now job
    && leb settings.job_max_attempts job.attempts
    && scope job

-- The row that a burial leaves: a stage that recorded its completion is done, any other is dead.
unfoldable pub buried : Job → Job
unfolding job_pipeline_completed
buried job =
    if job_pipeline_completed job.payload
    then record job {
      status = JobStatus.done;
      lease_expires_at = none;
      lease_owner = none;
      last_error = none;
    }
    else record job {
      status = JobStatus.dead;
      lease_expires_at = none;
      lease_owner = none;
      last_error = some "lease expired after final attempt";
    }

unfoldable pub bury_exhausted_expired_jobs : Jobs → ℕ → Settings → (Job → Bool) → Jobs × List Job
unfolding exhausted buried
bury_exhausted_expired_jobs jobs now settings scope = (
  map (λ job. if exhausted now settings scope job then buried job else job) jobs,
  map buried (
      select (λ job. exhausted now settings scope job && not (job_pipeline_completed job.payload))
        jobs),
)
