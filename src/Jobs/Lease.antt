-- ===== src/Jobs/Lease.antt =====
-- The operations of a worker on the one job that it holds: `renew_lease`, `mark_done` and
-- `retry_or_bury` of clerksan/ingest/jobs.py. An operation that raises writes nothing.
pub mod Held
use clerk_san.Prelude.{
  ◌>>=◌, ◌>>◌, Bool, Option, String, err, false, holds, if◌then◌else◌, leb, min, none, not, ok,
  require, some, str_eq, ℕ, ◌*◌, ◌+◌, ◌-◌, ◌^◌,
}
use clerk_san.Models.{JobStatus}
use clerk_san.Prelude.Strings.{strip, is_empty, prefix}
use clerk_san.Jobs.Row.{Job, JobResult, Settings, is_running, lease_lost, lookup_error, state_error}
use clerk_san.Jobs.Table.{Jobs, find, save}

abbrev pub microseconds : ℕ → ℕ
microseconds seconds = seconds * 1000000

abbrev pub max_retry_delay_seconds : ℕ
max_retry_delay_seconds = 3600

abbrev pub max_error_length : ℕ
max_error_length = 4000

unfoldable pub retry_delay : ℕ → ℕ → ℕ
retry_delay attempts base_seconds = min (base_seconds * 2 ^ (attempts - 1)) max_retry_delay_seconds

unfoldable pub clean_error : String → String
clean_error error =
    let cleaned = strip error in
    prefix max_error_length
      (if is_empty cleaned then "handler failed without an error message" else cleaned)

-- `_locked_job`
pub locked_job : Jobs → ℕ → JobResult Job
unfolding find
locked_job jobs job_id = elim (find job_id jobs) [ none ↦ err lookup_error | some job ↦ ok job ]

-- `lease_owner is not None and job.lease_owner != lease_owner`
unfoldable pub owned_by_other : Job → Option String → Bool
owned_by_other job none = false
owned_by_other job (some owner) = not (holds (str_eq owner) job.lease_owner)

-- `_require_running_lease`
unfoldable pub require_running_lease : Job → Option String → JobResult Unit
unfolding owned_by_other
require_running_lease job lease_owner = do
  require (is_running job.status) state_error
  require (not (owned_by_other job lease_owner)) lease_lost

unfoldable pub renew_lease : Jobs → ℕ → Option String → Settings → ℕ → JobResult Jobs
unfolding locked_job require_running_lease save
renew_lease jobs job_id lease_owner settings now = do
  job ← locked_job jobs job_id
  require_running_lease job lease_owner
  ok (
      save (record job { lease_expires_at = some (now + microseconds settings.job_lease_seconds) })
        jobs)

abbrev pub completed : Job → Job
completed job = record job {
  status = JobStatus.done;
  lease_expires_at = none;
  lease_owner = none;
  last_error = none;
}

unfoldable pub mark_done : Jobs → ℕ → Option String → JobResult Jobs
unfolding locked_job require_running_lease save
mark_done jobs job_id lease_owner = do
  job ← locked_job jobs job_id
  require_running_lease job lease_owner
  ok (save (completed job) jobs)

-- The row after `retry_or_bury`: dead after the last attempt, else queued with a delay.
unfoldable pub retried : Job → String → Settings → ℕ → Job
unfolding retry_delay clean_error
retried job error settings now =
    if leb settings.job_max_attempts job.attempts
    then record job {
      last_error = some (clean_error error);
      lease_expires_at = none;
      lease_owner = none;
      status = JobStatus.dead;
    }
    else record job {
      last_error = some (clean_error error);
      lease_expires_at = none;
      lease_owner = none;
      status = JobStatus.queued;
      available_at = now + microseconds (retry_delay job.attempts settings.job_retry_base_seconds);
    }

unfoldable pub retry_or_bury : Jobs → ℕ → String → Option String → Settings → ℕ → JobResult Jobs
unfolding locked_job require_running_lease save
retry_or_bury jobs job_id error lease_owner settings now = do
  job ← locked_job jobs job_id
  require_running_lease job lease_owner
  ok (save (retried job error settings now) jobs)
