-- ===== src/Jobs/Lease/Held.antt =====
-- The shape that `renew_lease`, `mark_done` and `retry_or_bury` share: find the row, require the
-- running lease, write the row.
use clerk_san.Jobs.Table.Laws.{id-find, find-save}
use clerk_san.Prelude.{
  Option, Option-cases, String, arith, false, inl, inr, ok, some, true, ℕ, ◌>>=◌, ◌>>◌, ◌≡◌, ◌≢◌,
}
use clerk_san.Jobs.Row.{Job, JobResult, is_running}
use clerk_san.Jobs.Table.{Jobs, find, save}
use clerk_san.Jobs.Lease.{locked_job, owned_by_other, require_running_lease}

unfoldable pub on_held : Jobs → ℕ → Option String → (Job → Job) → JobResult Jobs
unfolding locked_job
on_held jobs job_id lease_owner g = do
  job ← locked_job jobs job_id
  require_running_lease job lease_owner
  ok (save (g job) jobs)

-- The caller holds the row `job`: it is stored, running, and leased by no one else.
pub record Holds (jobs : Jobs) (job_id : ℕ) (lease_owner : Option String) (job : Job) : Type 0 where
  pub found : find job_id jobs ≡ some job
  pub running : is_running job.status ≡ true
  pub own : owned_by_other job lease_owner ≡ false

pub on_held-eq-ok :
    (g : Job → Job) (jobs jobs' : Jobs) (job_id : ℕ) (lease_owner : Option String)
    → on_held jobs job_id lease_owner g ≡ ok jobs'
    → (job : Job) × Holds jobs job_id lease_owner job × (jobs' ≡ save (g job) jobs)
unfolding on_held require_running_lease
on_held-eq-ok g jobs jobs' job_id lease_owner h = elim (Option-cases (find job_id jobs)) [
  | inl e ↦ absurd (ground (arith, e))
  | inr (job, e) ↦ (job, ground (arith, e), ground (arith, e))
]

-- What such an operation leaves: the row that it wrote, and every other row as it was.
pub record IsWritten (g : Job → Job) (jobs jobs' : Jobs) (job_id : ℕ) (lease_owner : Option String)
    : Type 0 where
  pub job : Job
  pub held : Holds jobs job_id lease_owner job
  pub row : find job_id jobs' ≡ some (g job)
  pub others : (other : ℕ) → other ≢ job_id → find other jobs' ≡ find other jobs

pub on_held-IsWritten :
    (g : Job → Job) (jobs jobs' : Jobs) (job_id : ℕ) (lease_owner : Option String)
    → ((job : Job) → (g job).id ≡ job.id)
    → on_held jobs job_id lease_owner g ≡ ok jobs'
    → IsWritten g jobs jobs' job_id lease_owner
on_held-IsWritten g jobs jobs' job_id lease_owner same e =
    let (job, held, written) = on_held-eq-ok g jobs jobs' job_id lease_owner e in
    let named = id-find job_id jobs job held.found in
    record {
      job = job;
      held = held;
      row = ground (arith, find-save job_id (g job) jobs, same job, named, held.found, written);
      others = λ other ne. ground (arith, find-save other (g job) jobs, same job, named, written);
    }
