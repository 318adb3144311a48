-- ===== src/Intake/Capability.antt =====
-- Worker capability leases: `WorkerCapabilityLeaseRepo.refresh` of clerksan/db/repositories.py
-- and `evaluate_universal_activation` of clerksan/ingest/activation.py.
pub mod Ready
use clerk_san.Prelude.{
  Bool, List, Option, String, [], false, get_elem?, if◌then◌else◌, is_some, leb, ltb, none, not, ok,
  require, some, str_eq, true, ℕ, ◌&&◌, ◌==◌, ◌>>=◌, ◌>>◌, ◌||◌, ◌∷◌,
}
use clerk_san.Models.{is_legacy, is_universal}
use clerk_san.Policy.Reasons.{
  PublicReasonCode, registry_mismatch, sandbox_unavailable, worker_capability_stale,
}
use clerk_san.Jobs.Row.{Job, Settings, Registry, is_queued, is_running}
use clerk_san.Intake.Fields.{IntakeResult, clean_text, validate_digest, validation}

-- `WorkerCapabilityLease` of clerksan/db/models.py
pub record CapabilityLease : Type 0 where
  pub worker_id : String
  pub registry_digest : String
  pub capabilities_digest : String
  pub sandbox_verified : Bool
  pub heartbeat_at : ℕ
  pub expires_at : ℕ

abbrev pub Leases : Type 0
Leases = List CapabilityLease

-- The row of the worker is overwritten where it exists, and added where not.
unfoldable pub put_lease : CapabilityLease → Leases → Leases
put_lease lease [] = lease ∷ []
put_lease lease (other ∷ others) =
    if str_eq other.worker_id lease.worker_id
    then lease ∷ others
    else other ∷ put_lease lease others

unfoldable pub refresh : CapabilityLease → Leases → IntakeResult Leases
unfolding put_lease clean_text validate_digest
refresh offered leases = do
  worker_id ← clean_text offered.worker_id
  registry_digest ← validate_digest offered.registry_digest
  capabilities_digest ← validate_digest offered.capabilities_digest
  require (ltb offered.heartbeat_at offered.expires_at) validation
  ok (
      put_lease
        record offered {
          worker_id = worker_id;
          registry_digest = registry_digest;
          capabilities_digest = capabilities_digest;
        }
        leases)

-- `UniversalActivationStatus`
pub record ActivationStatus : Type 0 where
  pub ready : Bool
  pub reason_code : Option PublicReasonCode
  pub lease : Option CapabilityLease
  pub legacy_jobs_blocking : Bool

-- An active job that is not bound to the universal sandbox
abbrev pub is_blocking : Job → Bool
is_blocking job =
    (is_queued job.status || is_running job.status)
    && (is_legacy job.execution_profile || not job.sandbox_verified)

-- `select(Job.id).where(…).limit(1)` is not None
unfoldable pub any_job : (Job → Bool) → List Job → Bool
any_job test [] = false
any_job test (job ∷ jobs) = test job || any_job test jobs

module _ (id_ltb : String → String → Bool) where
  -- `order_by(heartbeat_at.desc(), worker_id.asc())`; the database's collation orders the texts.
  abbrev pub fresher : CapabilityLease → CapabilityLease → Bool
  fresher a b =
      ltb b.heartbeat_at a.heartbeat_at
      || (a.heartbeat_at == b.heartbeat_at && id_ltb a.worker_id b.worker_id)

  abbrev pub fresher_of : CapabilityLease → Option CapabilityLease → CapabilityLease
  fresher_of lease none = lease
  fresher_of lease (some other) = if fresher other lease then other else lease

  unfoldable pub latest : Leases → Option CapabilityLease
  latest [] = none
  latest (lease ∷ leases) = some (fresher_of lease (latest leases))

  -- The part of the evaluation that judges the latest lease
  unfoldable pub judge : Option CapabilityLease → Registry → ℕ → ActivationStatus
  judge none registry now = record {
    ready = false;
    reason_code = some worker_capability_stale;
    lease = none;
    legacy_jobs_blocking = false;
  }
  judge (some lease) registry now =
      if leb lease.expires_at now
      then record {
        ready = false;
        reason_code = some worker_capability_stale;
        lease = some lease;
        legacy_jobs_blocking = false;
      }
      else if not lease.sandbox_verified
          || not (str_eq lease.registry_digest registry.registry_digest)
          || not (str_eq lease.capabilities_digest registry.capabilities_digest)
      then record {
        ready = false;
        reason_code = some registry_mismatch;
        lease = some lease;
        legacy_jobs_blocking = false;
      }
      else record {
        ready = true;
        reason_code = none;
        lease = some lease;
        legacy_jobs_blocking = false;
      }

  unfoldable pub evaluate_universal_activation :
      List Job → Leases → Settings → Registry → List String → ℕ → ActivationStatus
  unfolding any_job latest judge
  evaluate_universal_activation jobs leases settings registry processed_formats now =
      if not (is_universal settings.intake_mode)
      then record { ready = true; reason_code = none; lease = none; legacy_jobs_blocking = false }
      else if not registry.sandbox_verified || not (is_some (get_elem? processed_formats 0))
      then record {
        ready = false;
        reason_code = some sandbox_unavailable;
        lease = none;
        legacy_jobs_blocking = false;
      }
      else if any_job is_blocking jobs
      then record {
        ready = false;
        reason_code = some registry_mismatch;
        lease = none;
        legacy_jobs_blocking = true;
      }
      else judge (latest leases) registry now
