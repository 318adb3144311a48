-- ===== src/Jobs/Done.antt =====
-- Completion is reported once (clerksan/ingest/jobs.py, `mark_done`).
use clerk_san.Prelude.{
  Bool-cases, Option, Option-cases, String, arith, err, false, inl, inr, none, ok, refl, some,
  subst, true, ℕ, ◌≡◌, ◌≢◌, ◌⊎◌,
}
use clerk_san.Models.{JobStatus}
use clerk_san.Jobs.Row.{Job, JobError, JobResult, is_running, lease_lost, lookup_error, state_error}
use clerk_san.Jobs.Table.{Jobs, find}
use clerk_san.Jobs.Lease.{completed, mark_done, owned_by_other, require_running_lease}
use clerk_san.Jobs.Lease.Held.{Holds, on_held, on_held-IsWritten}

pub data HeldCase (jobs : Jobs) (id : ℕ) (owner : Option String) : JobError → Type 0 where
  missing : find id jobs ≡ none → HeldCase jobs id owner lookup_error
  idle :
      (job : Job)
      → find id jobs ≡ some job
      → is_running job.status ≡ false
      → HeldCase jobs id owner state_error
  stolen :
      (job : Job)
      → find id jobs ≡ some job
      → is_running job.status ≡ true
      → owned_by_other job owner ≡ true
      → HeldCase jobs id owner lease_lost

-- The errors of the three operations, and why each is raised
pub on_held-HeldCase :
    (g : Job → Job) (jobs : Jobs) (id : ℕ) (owner : Option String) (error : JobError)
    → on_held jobs id owner g ≡ err error
    → HeldCase jobs id owner error
unfolding on_held require_running_lease
on_held-HeldCase g jobs id owner error h = elim (Option-cases (find id jobs)) [
  | inl e ↦ subst (HeldCase jobs id owner) (ground (arith, e)) (missing e)
  | inr (job, e) ↦ elim (Bool-cases (is_running job.status)) [
    | inr r ↦ subst (HeldCase jobs id owner) (ground (arith, e, r)) (idle job e r)
    | inl r ↦ elim (Bool-cases (owned_by_other job owner)) [
      | inl o ↦ subst (HeldCase jobs id owner) (ground (arith, e, r, o)) (stolen job e r o)
      | inr o ↦ absurd (ground (arith, e, r, o))
    ]
  ]
]

-- A row that is done: its lease and its error are cleared, and everything else is as it was.
pub record IsDone (before after : Job) : Type 0 where
  pub status : after.status ≡ JobStatus.done
  pub no_owner : after.lease_owner ≡ none
  pub no_expiry : after.lease_expires_at ≡ none
  pub no_error : after.last_error ≡ none
  pub kept : after ≡ record before {
    status = after.status;
    lease_owner = after.lease_owner;
    lease_expires_at = after.lease_expires_at;
    last_error = after.last_error;
  }

-- The caller held the row `before`, which is now `after`, and no other row changed.
pub record IsCompletion (jobs jobs' : Jobs) (id : ℕ) (owner : Option String) : Type 0 where
  pub before : Job
  pub after : Job
  pub held : Holds jobs id owner before
  pub stored : find id jobs' ≡ some after
  pub is_done : IsDone before after
  pub others : (other : ℕ) → other ≢ id → find other jobs' ≡ find other jobs

completed-IsDone : (job : Job) → IsDone job (completed job)
completed-IsDone job = record {
  status = refl;
  no_owner = refl;
  no_expiry = refl;
  no_error = refl;
  kept = refl;
}

done_twice :
    (jobs : Jobs) (id : ℕ) (owner : Option String) (job : Job)
    → find id jobs ≡ some job
    → is_running job.status ≡ false
    → mark_done jobs id owner ≡ err state_error
unfolding mark_done
done_twice jobs id owner job e r = ground (arith, e, r)

-- `mark_done` either raises for one of the three reasons, or gives the caller's running row the
-- status done, clears its owner, its expiry and its error and keeps its other columns, changes no
-- other row, and cannot be repeated by anyone.
pub mark_done_once :
    (jobs : Jobs) (id : ℕ) (owner : Option String)
    → ((error : JobError) × (mark_done jobs id owner ≡ err error) × HeldCase jobs id owner error)
      ⊎ ((jobs' : Jobs) × (mark_done jobs id owner ≡ ok jobs')
          × IsCompletion jobs jobs' id owner
          × ((other : Option String) → mark_done jobs' id other ≡ err state_error))
mark_done_once jobs id owner = by_result (mark_done jobs id owner) refl
  where
    by_result :
        (r : JobResult Jobs)
        → mark_done jobs id owner ≡ r
        → ((error : JobError) × (mark_done jobs id owner ≡ err error)
            × HeldCase jobs id owner error)
          ⊎ ((jobs' : Jobs) × (mark_done jobs id owner ≡ ok jobs')
              × IsCompletion jobs jobs' id owner
              × ((other : Option String) → mark_done jobs' id other ≡ err state_error))
    by_result (err error) e =
        inl
          (error, e, on_held-HeldCase completed jobs id owner error (unfold mark_done on_held in e))
    by_result (ok jobs') e =
        let w =
          on_held-IsWritten completed jobs jobs' id owner (λ j. refl)
            (unfold mark_done on_held in e) in
        inr (
          jobs',
          e,
          record {
            before = w.job;
            after = completed w.job;
            held = w.held;
            stored = w.row;
            is_done = completed-IsDone w.job;
            others = w.others;
          },
          λ other. done_twice jobs' id other (completed w.job) w.row refl,
        )
