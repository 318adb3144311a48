-- ===== src/Jobs/Safety.antt =====
-- Every step of the queue keeps its invariant, so every table that can be reached is valid.
pub mod Claiming
pub mod Steps
use clerk_san.Jobs.Lease.{retry_or_bury, mark_done, renew_lease, retried, completed, microseconds}
use clerk_san.Prelude.{All, All-In, Option, String, arith, ok, refl, some, true, ℕ, ◌+◌, ◌≡◌}
use clerk_san.Models.{running}
use clerk_san.Jobs.Row.{Job, Settings, is_running}
use clerk_san.Jobs.Table.{Jobs, save}
use clerk_san.Jobs.Table.Laws.{All-save, In-find}
use clerk_san.Jobs.Identity.{Agrees, In-Agrees, IsUnique, IsUnique-save, SameWork}
use clerk_san.Jobs.Lease.Held.{on_held, on_held-eq-ok}
use clerk_san.Jobs.Invariant.{
  IsValidRow, completed-IsValidRow, renewed-IsValidRow, retried-IsValidRow,
}

pub record IsValid (settings : Settings) (jobs : Jobs) : Type 0 where
  pub rows : All (IsValidRow settings) jobs
  pub unique : IsUnique jobs

module _ (settings : Settings) where
  pub save-IsValid :
      (jobs : Jobs) (new : Job)
      → IsValid settings jobs
      → All (Agrees new) jobs
      → IsValidRow settings new
      → IsValid settings (save new jobs)
  save-IsValid jobs new h a r = record {
    rows = All-save (IsValidRow settings) new jobs r h.rows;
    unique = IsUnique-save new jobs a h.unique;
  }

  -- A worker's operation on the job that it holds
  held-IsValid :
      (g : Job → Job) (jobs jobs' : Jobs) (job_id : ℕ) (owner : Option String)
      → ((job : Job) → SameWork (g job) job)
      → ((job : Job)
          → is_running job.status ≡ true
          → IsValidRow settings job
          → IsValidRow settings (g job))
      → IsValid settings jobs
      → on_held jobs job_id owner g ≡ ok jobs'
      → IsValid settings jobs'
  held-IsValid g jobs jobs' job_id owner same keep h e =
      let (job, held, written) = on_held-eq-ok g jobs jobs' job_id owner e in
      let stored = In-find job_id jobs job held.found in
      rw written (
        save-IsValid jobs (g job) h (In-Agrees jobs job (g job) h.unique stored (same job))
          (keep job held.running (All-In (IsValidRow settings) jobs job h.rows stored)))

  pub renew_lease-IsValid :
      (jobs jobs' : Jobs) (job_id : ℕ) (owner : Option String) (now : ℕ)
      → IsValid settings jobs
      → renew_lease jobs job_id owner settings now ≡ ok jobs'
      → IsValid settings jobs'
  unfolding renew_lease on_held
  renew_lease-IsValid jobs jobs' job_id owner now h e =
      held-IsValid
        (λ job. record job {
          lease_expires_at = some (now + microseconds settings.job_lease_seconds);
        })
        jobs jobs' job_id owner (λ job. record { id = refl; document = refl; key = refl })
        (λ job r v.
          renewed-IsValidRow settings job (now + microseconds settings.job_lease_seconds) r v)
        h e

  pub mark_done-IsValid :
      (jobs jobs' : Jobs) (job_id : ℕ) (owner : Option String)
      → IsValid settings jobs
      → mark_done jobs job_id owner ≡ ok jobs'
      → IsValid settings jobs'
  unfolding mark_done on_held
  mark_done-IsValid jobs jobs' job_id owner h e =
      held-IsValid completed jobs jobs' job_id owner
        (λ job. record { id = refl; document = refl; key = refl })
        (λ job r v. completed-IsValidRow settings job v) h e

  pub retried-SameWork :
      (job : Job) (error : String) (now : ℕ) → SameWork (retried job error settings now) job
  unfolding retried
  retried-SameWork job error now = ground arith

  pub retry_or_bury-IsValid :
      (jobs jobs' : Jobs) (job_id : ℕ) (error : String) (owner : Option String) (now : ℕ)
      → IsValid settings jobs
      → retry_or_bury jobs job_id error owner settings now ≡ ok jobs'
      → IsValid settings jobs'
  unfolding retry_or_bury on_held
  retry_or_bury-IsValid jobs jobs' job_id error owner now h e =
      held-IsValid (λ job. retried job error settings now) jobs jobs' job_id owner
        (λ job. retried-SameWork job error now)
        (λ job r v. retried-IsValidRow settings job error now v) h e
