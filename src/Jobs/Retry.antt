-- ===== src/Jobs/Retry.antt =====
-- The delay before a retry, and what a failed attempt leaves (clerksan/ingest/jobs.py,
-- `_retry_delay` and `retry_or_bury`).
use clerk_san.Jobs.Safety.{retried-SameWork}
use native.Mathlib.Nat.{pow-suc}
use clerk_san.Prelude.{
  Option, String, arith, is_some, min, none, ok, some, suc, true, zero, ℕ, ◌*◌, ◌+◌, ◌-◌, ◌<◌, ◌^◌,
  ◌≡◌, ◌≢◌, ◌≤◌,
}
use clerk_san.Models.{JobStatus}
use clerk_san.Jobs.Row.{Job, Settings}
use clerk_san.Jobs.Table.{Jobs, find}
use clerk_san.Jobs.Lease.{microseconds, retried, retry_delay, retry_or_bury}
use clerk_san.Jobs.Lease.Held.{Holds, on_held, on_held-IsWritten}

-- The delay is the base after the first attempt, doubles with every further attempt, and is cut
-- at one hour.
pub retry_delay_doubles :
    (attempts base : ℕ)
    → 0 < attempts
    → (retry_delay 1 base ≡ min base 3600)
      × (retry_delay (attempts + 1) base ≡ min (2 * retry_delay attempts base) 3600)
      × (retry_delay attempts base ≤ 3600)
unfolding retry_delay
retry_delay_doubles zero base h = elim h [ ]
retry_delay_doubles (suc n) base h = (omega arith, omega (arith, double), omega arith)
  where
    double : base * 2 ^ (suc n + 1 - 1) ≡ 2 * (base * 2 ^ (suc n - 1))
    double =
        let up : suc n + 1 - 1 ≡ suc n = omega arith in
        let down : suc n - 1 ≡ n = omega arith in rw (up, down, pow-suc 2 n) (omega arith)

-- What `retry_or_bury` leaves of the row
pub record IsRetried (settings : Settings) (now : ℕ) (job row : Job) : Type 0 where
  pub unowned : row.lease_owner ≡ none
  pub unleased : row.lease_expires_at ≡ none
  pub same_attempts : row.attempts ≡ job.attempts
  pub explained : is_some row.last_error ≡ true
  pub last : settings.job_max_attempts ≤ job.attempts → row.status ≡ JobStatus.dead
  pub again :
      job.attempts < settings.job_max_attempts
      → (row.status ≡ JobStatus.queued)
        × (row.available_at
            ≡ now + microseconds (retry_delay job.attempts settings.job_retry_base_seconds))

retried-IsRetried :
    (settings : Settings) (now : ℕ) (error : String) (job : Job)
    → IsRetried settings now job (retried job error settings now)
unfolding retried
retried-IsRetried settings now error job = record {
  unowned = ground arith;
  unleased = ground arith;
  same_attempts = ground arith;
  explained = ground arith;
  last = λ h. ground arith;
  again = λ h. ground arith;
}

-- A `retry_or_bury` that does not raise was called on a stored, running row that no other worker
-- leases. It releases the lease, keeps the count of attempts and records an error; the row is
-- dead after the last attempt and else queued behind the backoff. No other row changes.
pub retry_or_bury_outcome :
    (jobs jobs' : Jobs) (id : ℕ) (error : String) (owner : Option String) (settings : Settings)
    (now : ℕ)
    → retry_or_bury jobs id error owner settings now ≡ ok jobs'
    → (job row : Job) × Holds jobs id owner job
      × (find id jobs' ≡ some row)
      × IsRetried settings now job row
      × ((other : ℕ) → other ≢ id → find other jobs' ≡ find other jobs)
unfolding retry_or_bury on_held
retry_or_bury_outcome jobs jobs' id error owner settings now e =
    let w =
      on_held-IsWritten (λ j. retried j error settings now) jobs jobs' id owner
        (λ j. (retried-SameWork settings j error now).id) e in
    (
      w.job,
      retried w.job error settings now,
      w.held,
      w.row,
      retried-IsRetried settings now error w.job,
      w.others,
    )
