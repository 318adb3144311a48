-- ===== src/Jobs/Sweep.antt =====
-- The burial of exhausted leases (clerksan/ingest/jobs.py, `_bury_exhausted_expired_jobs`).
use clerk_san.Prelude.{Bool, In, List, [], false, is_some, none, not, true, ℕ, ◌&&◌, ◌∷◌, ◌≡◌}
use clerk_san.Models.{JobStatus}
use clerk_san.Jobs.Payload.{job_pipeline_completed}
use clerk_san.Jobs.Row.{Job, Settings}
use clerk_san.Jobs.Table.{Jobs, before}
use clerk_san.Jobs.Claim.{buried, exhausted}

module _ (now : ℕ) (settings : Settings) (scope : Job → Bool) where
  -- The row after the sweep: untouched unless exhausted, else done where its stage had recorded
  -- completion, and dead with an explanation where not.
  pub record IsSettled (before after : Job) : Type 0 where
    pub spared : exhausted now settings scope before ≡ false → after ≡ before
    pub finished :
        exhausted now settings scope before ≡ true
        → job_pipeline_completed before.payload ≡ true
        → (after.status ≡ JobStatus.done)
          × (after.last_error ≡ none)
          × (after.lease_owner ≡ none)
          × (after.lease_expires_at ≡ none)
    pub failed :
        exhausted now settings scope before ≡ true
        → job_pipeline_completed before.payload ≡ false
        → (after.status ≡ JobStatus.dead)
          × (is_some after.last_error ≡ true)
          × (after.lease_owner ≡ none)
          × (after.lease_expires_at ≡ none)
    pub settled : exhausted now settings scope after ≡ false
    pub kept : after ≡ record before {
      status = after.status;
      last_error = after.last_error;
      lease_owner = after.lease_owner;
      lease_expires_at = after.lease_expires_at;
    }

  -- The tables have the same rows, one by one, each settled.
  abbrev pub AreSettled : Jobs → Jobs → Type 0
  AreSettled [] [] = Unit
  AreSettled [] (after ∷ afters) = ⊥
  AreSettled (before ∷ befores) [] = ⊥
  AreSettled (before ∷ befores) (after ∷ afters) =
      IsSettled before after × AreSettled befores afters

  pub record IsBurial (jobs : Jobs) (result : Jobs × List Job) : Type 0 where
    pub rows : AreSettled jobs result.0
    pub none_left : (after : Job) → In after result.0 → exhausted now settings scope after ≡ false
    pub reported : (t : Job) → In t result.1 → (t.status ≡ JobStatus.dead) × In t result.0
    pub complete :
        (before : Job)
        → In before jobs
        → exhausted now settings scope before ≡ true
        → job_pipeline_completed before.payload ≡ false
        → In (buried before) result.1

  abbrev failing : Job → Bool
  failing job = exhausted now settings scope job && not (job_pipeline_completed job.payload)
