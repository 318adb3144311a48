-- ===== src/Jobs/Next.antt =====
-- `claim_next` of clerksan/ingest/jobs.py as a whole, and the recovery that the worker runs on
-- each buried job in the same transaction (clerksan/ingest/worker.py,
-- `_mark_terminal_processing_failure`, as far as it writes the `jobs` table).
pub mod Inversion
use clerk_san.Prelude.{
  Bool, List, Option, String, [], false, holds, if◌then◌else◌, none, ok, some, str_eq, true, ℕ,
  ◌&&◌, ◌-◌, ◌>>=◌, ◌>>◌, ◌∷◌,
}
use clerk_san.Prelude.Strings.{is_empty}
use clerk_san.Models.{JobStatus, dead, queued}
use clerk_san.Jobs.Row.{Job, JobResult, Registry, Settings}
use clerk_san.Jobs.Table.{Jobs, save}
use clerk_san.Jobs.Fields.{clean_nonempty}
use clerk_san.Jobs.Lease.{microseconds}
use clerk_san.Jobs.Claim.{
  bury_exhausted_expired_jobs, claim_postgresql, claim_sqlite, eligible_clause, execution_scope,
}

pub data Dialect : Type 0 where
  sqlite : Dialect
  -- with the rows that other transactions have locked
  postgresql : (ℕ → Bool) → Dialect

unfoldable pub claim : Dialect → Jobs → (Job → Bool) → ℕ → String → Settings → Jobs × Option Job
unfolding claim_sqlite claim_postgresql
claim sqlite jobs eligible now owner settings = claim_sqlite jobs eligible now owner settings
claim (postgresql locked) jobs eligible now owner settings =
    claim_postgresql locked jobs eligible now owner settings

-- `on_terminal_lease` is called on each buried job in turn.
unfoldable pub each_terminal : (Job → Jobs → JobResult Jobs) → List Job → Jobs → JobResult Jobs
each_terminal handler [] jobs = ok jobs
each_terminal handler (job ∷ rest) jobs = handler job jobs >>= each_terminal handler rest

-- `lease_owner or default_worker_id()`
abbrev pub owner_or : String → Option String → String
owner_or default none = default
owner_or default (some owner) = if is_empty owner then default else owner

-- The arguments of `claim_next`, and what it reads of its surroundings
pub record Claimant : Type 0 where
  pub dialect : Dialect
  pub lease_owner : Option String
  pub default_worker_id : String
  pub registry : Registry
  pub models_ready : Bool
  pub empty_digest : String
  pub now : ℕ

abbrev pub scope_of : Settings → Claimant → Job → Bool
scope_of settings c = execution_scope c.empty_digest settings c.registry c.models_ready

abbrev pub eligible_for : Settings → Claimant → Job → Bool
eligible_for settings c job = eligible_clause c.now settings job && scope_of settings c job

unfoldable pub claim_next :
    (Job → Jobs → JobResult Jobs) → Settings → Claimant → Jobs → JobResult (Jobs × Option Job)
unfolding clean_nonempty each_terminal bury_exhausted_expired_jobs claim
claim_next on_terminal_lease settings c jobs = do
  owner ← clean_nonempty (owner_or c.default_worker_id c.lease_owner)
  let swept = bury_exhausted_expired_jobs jobs c.now settings (scope_of settings c)
  ready ← each_terminal on_terminal_lease swept.1 swept.0
  ok (claim c.dialect ready (eligible_for settings c) c.now owner settings)

abbrev pub is_dead : JobStatus → Bool
is_dead JobStatus.dead = true
is_dead _ = false

-- A maintenance job whose worker died in the last attempt
unfoldable pub is_crashed_rebuild : Job → Bool
is_crashed_rebuild job =
    str_eq job.job_type "rebuild_format_derivatives"
    && is_dead job.status
    && holds (λ e. str_eq e "lease expired after final attempt") job.last_error

unfoldable pub requeued : ℕ → Job → Job
requeued now job = record job {
  status = JobStatus.queued;
  attempts = 0;
  available_at = now - microseconds 1;
  last_error = none;
}

unfoldable pub recover_rebuild : ℕ → Job → Jobs → JobResult Jobs
unfolding is_crashed_rebuild requeued save
recover_rebuild now job jobs =
    ok (if is_crashed_rebuild job then save (requeued now job) jobs else jobs)
