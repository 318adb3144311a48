-- ===== src/Jobs/Invariant.antt =====
-- The invariant of the queue, and that every operation keeps it: a row's lease agrees with its
-- status, attempts stay within the limit, no two rows are the same work.
use clerk_san.Prelude.{Bool, String, arith, false, is_some, not, some, true, ℕ, ◌+◌, ◌<◌, ◌≡◌, ◌≤◌}
use clerk_san.Models.{JobStatus, is_legacy}
use clerk_san.Jobs.Row.{Job, Settings, is_queued, is_running}
use clerk_san.Jobs.Lease.{completed, retried}
use clerk_san.Jobs.Claim.{buried, eligible_clause, lease}
use clerk_san.Jobs.Next.{is_dead, requeued}

abbrev bit : Bool → ℕ
bit false = 0
bit true = 1

abbrev is_failed : JobStatus → Bool
is_failed JobStatus.failed = true
is_failed _ = false

module _ (settings : Settings) where
  -- A queued row has an attempt left, a running one has begun an attempt and holds a lease, and
  -- the queue never writes the status `failed`.
  pub record IsValidRow (job : Job) : Type 0 where
    pub expiry : is_some job.lease_expires_at ≡ is_running job.status
    pub owner : is_some job.lease_owner ≡ is_running job.status
    pub within : job.attempts + bit (is_queued job.status) ≤ settings.job_max_attempts
    pub started : bit (is_running job.status) ≤ job.attempts
    pub sandboxed : job.sandbox_verified ≡ not (is_legacy job.execution_profile)
    pub supported : is_failed job.status ≡ false

  pub renewed-IsValidRow :
      (job : Job) (t : ℕ)
      → is_running job.status ≡ true
      → IsValidRow job
      → IsValidRow (record job { lease_expires_at = some t })
  renewed-IsValidRow job t r h = ground arith

  pub completed-IsValidRow : (job : Job) → IsValidRow job → IsValidRow (completed job)
  completed-IsValidRow job h = ground arith

  pub retried-IsValidRow :
      (job : Job) (error : String) (now : ℕ)
      → IsValidRow job
      → IsValidRow (retried job error settings now)
  unfolding retried
  retried-IsValidRow job error now h = ground arith

  pub lease-IsValidRow :
      (job : Job) (now : ℕ) (owner : String)
      → eligible_clause now settings job ≡ true
      → IsValidRow job
      → IsValidRow (lease job now owner settings)
  unfolding lease eligible_clause
  lease-IsValidRow job now owner e h = ground arith

  pub buried-IsValidRow :
      (job : Job) → is_running job.status ≡ true → IsValidRow job → IsValidRow (buried job)
  unfolding buried
  buried-IsValidRow job r h = ground arith

  pub requeued-IsValidRow :
      (job : Job) (now : ℕ)
      → 0 < settings.job_max_attempts
      → is_dead job.status ≡ true
      → IsValidRow job
      → IsValidRow (requeued now job)
  unfolding requeued
  requeued-IsValidRow job now p d h = ground arith
