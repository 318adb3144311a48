-- ===== src/Jobs/Scope.antt =====
-- A worker leases only jobs of its own execution boundary.
use clerk_san.Prelude.{
  Option, String, ap, arith, eq_iff, false, holds, none, not, ok, some, str_eq, subst, sym, true, ℕ,
  ◌<◌, ◌≡◌,
}
use clerk_san.Models.{is_legacy, is_universal}
use clerk_san.Jobs.Row.{Job, Settings}
use clerk_san.Jobs.Table.{Jobs}
use clerk_san.Jobs.Claim.{execution_scope, lease}
use clerk_san.Jobs.Claim.Choice.{Chooses, claim-Chooses, claimable}
use clerk_san.Jobs.Next.{
  Claimant, Dialect, claim_next, eligible_for, postgresql, recover_rebuild, scope_of, sqlite,
}
use clerk_san.Jobs.Next.Inversion.{claim_next-eq-ok}
use clerk_san.Jobs.Safety.{IsValid}
use clerk_san.Jobs.Safety.Steps.{ready-IsValid}

-- The evidence that a job carries agrees with the worker that leases it.
pub record IsInScope (settings : Settings) (c : Claimant) (job : Job) : Type 0 where
  pub boundary : is_legacy job.execution_profile ≡ not (is_universal settings.intake_mode)
  pub sandbox : job.sandbox_verified ≡ is_universal settings.intake_mode
  pub registry :
      is_universal settings.intake_mode ≡ true
      → (job.registry_digest ≡ some c.registry.registry_digest)
        × (job.capabilities_digest ≡ some c.registry.capabilities_digest)
  pub models : c.models_ready ≡ false → job.requirements_digest ≡ c.empty_digest

holds-str_eq : (s : String) (o : Option String) → holds (str_eq s) o ≡ true → o ≡ some s
holds-str_eq s none h = cc
holds-str_eq s (some t) h = ap some (sym ((eq_iff s t).0 h))

scope-IsInScope :
    (settings : Settings) (c : Claimant) (job : Job)
    → scope_of settings c job ≡ true
    → IsInScope settings c job
unfolding execution_scope
scope-IsInScope settings c job h = record {
  boundary = ground arith;
  sandbox = ground arith;
  registry = λ u. (
    holds-str_eq c.registry.registry_digest job.registry_digest (ground arith),
    holds-str_eq c.registry.capabilities_digest job.capabilities_digest (ground arith),
  );
  models = λ m. (eq_iff job.requirements_digest c.empty_digest).0 (ground arith);
}

leased_scope :
    (settings : Settings) (c : Claimant) (row : Job) (now : ℕ) (owner : String)
    → IsInScope settings c row
    → IsInScope settings c (lease row now owner settings)
unfolding lease
leased_scope settings c row now owner h = record {
  boundary = h.boundary;
  sandbox = h.sandbox;
  registry = h.registry;
  models = h.models;
}

claimable-scope :
    (settings : Settings) (c : Claimant) (dialect : Dialect) (job : Job)
    → claimable dialect (eligible_for settings c) job ≡ true
    → scope_of settings c job ≡ true
claimable-scope settings c sqlite job h = ground arith
claimable-scope settings c (postgresql locked) job h = ground arith

-- From a valid table, the job that `claim_next` returns is of the worker's execution boundary: a
-- legacy worker leases no sandboxed job and a universal worker no other, the latter only with the
-- digests of its own registry; while the models are not ready, only a job without requirements.
pub claim_next-IsInScope :
    (settings : Settings) (c : Claimant) (recovered_at : ℕ) (jobs jobs' : Jobs) (job : Job)
    → 0 < settings.job_max_attempts
    → IsValid settings jobs
    → claim_next (recover_rebuild recovered_at) settings c jobs ≡ ok (jobs', some job)
    → IsInScope settings c job
claim_next-IsInScope settings c recovered_at jobs jobs' job positive h e =
    let done =
      claim_next-eq-ok (recover_rebuild recovered_at) settings c jobs (jobs', some job) e in
    let ready = ready-IsValid settings positive c recovered_at jobs done.ready h done.recovered in
    let chosen =
      subst
        (Chooses settings c.now done.owner (claimable c.dialect (eligible_for settings c))
          done.ready)
        (sym done.chosen)
        (claim-Chooses settings c.now done.owner c.dialect (eligible_for settings c) done.ready
          ready.unique) in
    subst (IsInScope settings c) (sym chosen.leased) (
      leased_scope settings c chosen.row c.now done.owner (
        scope-IsInScope settings c chosen.row
          (claimable-scope settings c c.dialect chosen.row chosen.passed)))
