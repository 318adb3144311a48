-- ===== src/Jobs/Safety/Steps.antt =====
-- The steps of the queue as a relation, and the invariant along every run.
use clerk_san.Jobs.Invariant.{IsValidRow}
use clerk_san.Jobs.Enqueue.Prepared.{enqueue-eq-ok, draft-IsSandboxed, IsSandboxed}
use clerk_san.Jobs.Next.Inversion.{claim_next-eq-ok}
use clerk_san.Prelude.{
  All, Bool-cases, List, Option, String, [], arith, if◌then◌else◌, inl, inr, ok, ok_injective,
  subst, sym, true, ℕ, ◌<◌, ◌∷◌, ◌≡◌,
}
use clerk_san.Jobs.Row.{Job, Settings}
use clerk_san.Jobs.Table.{Jobs, save}
use clerk_san.Jobs.Identity.{Agrees, Agrees-save}
use clerk_san.Jobs.Lease.{mark_done, renew_lease, retry_or_bury}
use clerk_san.Jobs.Claim.{bury_exhausted_expired_jobs, eligible_clause}
use clerk_san.Jobs.Next.{
  Claimant, claim_next, each_terminal, eligible_for, is_crashed_rebuild, recover_rebuild, requeued,
  scope_of,
}
use clerk_san.Jobs.Enqueue.{
  Database, Library, Request, enqueue, insert_job, queued_row, Draft, conflicts, has_document,
}
use clerk_san.Jobs.Safety.{IsValid, renew_lease-IsValid, mark_done-IsValid, retry_or_bury-IsValid}
use clerk_san.Jobs.Safety.Claiming.{
  IsSwept, bury-IsValid, claim-IsValid, recover_rebuild-IsValid, requeued-Agrees, terminal-IsSwept,
}

-- One operation that commits. An operation that raises is rolled back and is no step.
pub data Step (settings : Settings) : Jobs → Jobs → Type 0 where
  enqueues :
      (library : Library) (database : Database) (request : Request) {jobs jobs' : Jobs}
      {id : Option ℕ}
      → database.jobs ≡ jobs
      → enqueue library database request ≡ ok (record database { jobs = jobs' }, id)
      → Step settings jobs jobs'
  claims_next :
      (c : Claimant) (recovered_at : ℕ) {jobs jobs' : Jobs} {job : Option Job}
      → claim_next (recover_rebuild recovered_at) settings c jobs ≡ ok (jobs', job)
      → Step settings jobs jobs'
  renews :
      (id : ℕ) (owner : Option String) (now : ℕ) {jobs jobs' : Jobs}
      → renew_lease jobs id owner settings now ≡ ok jobs'
      → Step settings jobs jobs'
  finishes :
      (id : ℕ) (owner : Option String) {jobs jobs' : Jobs}
      → mark_done jobs id owner ≡ ok jobs'
      → Step settings jobs jobs'
  retries :
      (id : ℕ) (error : String) (owner : Option String) (now : ℕ) {jobs jobs' : Jobs}
      → retry_or_bury jobs id error owner settings now ≡ ok jobs'
      → Step settings jobs jobs'

pub data Reach (settings : Settings) (start : Jobs) : Jobs → Type 0 where
  here : Reach settings start start
  next :
      {jobs jobs' : Jobs}
      → Reach settings start jobs
      → Step settings jobs jobs'
      → Reach settings start jobs'

module _ (settings : Settings) (positive : 0 < settings.job_max_attempts) where
  IsSwept-save :
      (jobs : Jobs) (new : Job) (rest : List Job)
      → All (Agrees new) jobs
      → All (IsSwept settings jobs) rest
      → All (IsSwept settings (save new jobs)) rest
  IsSwept-save jobs new [] a h = tt
  IsSwept-save jobs new (job ∷ rest) a h = (
    record { valid = h.0.valid; agrees = Agrees-save job new jobs h.0.agrees a },
    IsSwept-save jobs new rest a h.1,
  )

  recovered-IsSwept :
      (now : ℕ) (job : Job) (jobs : Jobs) (rest : List Job)
      → IsSwept settings jobs job
      → All (IsSwept settings jobs) rest
      → All
          (IsSwept settings (if is_crashed_rebuild job then save (requeued now job) jobs else jobs))
          rest
  recovered-IsSwept now job jobs rest s h = elim (Bool-cases (is_crashed_rebuild job)) [
    | inl e ↦ rw e (
        IsSwept-save jobs (requeued now job) rest (requeued-Agrees settings now job jobs s.agrees)
          h)
    | inr e ↦ rw e h
  ]

  each_terminal-IsValid :
      (now : ℕ) (rest : List Job) (jobs jobs' : Jobs)
      → IsValid settings jobs
      → All (IsSwept settings jobs) rest
      → each_terminal (recover_rebuild now) rest jobs ≡ ok jobs'
      → IsValid settings jobs'
  unfolding each_terminal recover_rebuild
  each_terminal-IsValid now [] jobs jobs' h s e = subst (IsValid settings) (ok_injective e) h
  each_terminal-IsValid now (job ∷ rest) jobs jobs' h s e =
      each_terminal-IsValid now rest _ jobs'
        (recover_rebuild-IsValid settings now job jobs positive h s.0)
        (recovered-IsSwept now job jobs rest s.0 s.1) e

  new_row-IsValidRow :
      (d : Draft) (fresh now : ℕ) → IsSandboxed d → IsValidRow settings (queued_row d fresh now)
  unfolding queued_row
  new_row-IsValidRow d fresh now s = ground arith

  eligible_for-clause :
      (c : Claimant) (job : Job)
      → eligible_for settings c job ≡ true
      → eligible_clause c.now settings job ≡ true
  eligible_for-clause c job h = ground arith

  -- The table that the claim runs on, after the sweep and the recovery
  pub ready-IsValid :
      (c : Claimant) (recovered_at : ℕ) (jobs ready : Jobs)
      → IsValid settings jobs
      → each_terminal
          (recover_rebuild recovered_at)
          (bury_exhausted_expired_jobs jobs c.now settings (scope_of settings c)).1
          (bury_exhausted_expired_jobs jobs c.now settings (scope_of settings c)).0
        ≡ ok ready
      → IsValid settings ready
  ready-IsValid c recovered_at jobs ready h e =
      let swept = bury_exhausted_expired_jobs jobs c.now settings (scope_of settings c) in
      each_terminal-IsValid recovered_at swept.1 swept.0 ready
        (bury-IsValid settings c.now (scope_of settings c) jobs h)
        (terminal-IsSwept settings c.now (scope_of settings c) jobs h) e

  pub claim_next-IsValid :
      (c : Claimant) (recovered_at : ℕ) (jobs : Jobs) (result : Jobs × Option Job)
      → IsValid settings jobs
      → claim_next (recover_rebuild recovered_at) settings c jobs ≡ ok result
      → IsValid settings result.0
  claim_next-IsValid c recovered_at jobs result h e =
      let done = claim_next-eq-ok (recover_rebuild recovered_at) settings c jobs result e in
      let ready = ready-IsValid c recovered_at jobs done.ready h done.recovered in
      subst (λ r. IsValid settings r.0) (sym done.chosen)
        (claim-IsValid settings c.dialect (eligible_for settings c) done.ready c.now done.owner
          ready (eligible_for-clause c))

  insert_job-IsValid :
      (d : Draft) (database : Database)
      → IsSandboxed d
      → IsValid settings database.jobs
      → IsValid settings (insert_job (queued_row d database.fresh database.now) database).0.jobs
  unfolding insert_job queued_row
  insert_job-IsValid d database s h =
      let job = queued_row d database.fresh database.now in
      elim (Bool-cases (conflicts job database.jobs)) [
        | inl e ↦ rw e h
        | inr e ↦ elim (Bool-cases (has_document d.document_id database.documents)) [
          | inl f ↦
              rw (e, f)
                (record {
                  rows = (new_row-IsValidRow d database.fresh database.now s, h.rows);
                  unique = (e, h.unique);
                })
          | inr f ↦ rw (e, f) h
        ]
      ]

  pub enqueue-IsValid :
      (library : Library) (database : Database) (request : Request) (result : Database × Option ℕ)
      → IsValid settings database.jobs
      → enqueue library database request ≡ ok result
      → IsValid settings result.0.jobs
  enqueue-IsValid library database request result h e =
      let (d, drafted, stored) = enqueue-eq-ok library database request result e in
      subst (λ r. IsValid settings r.0.jobs) (sym stored)
        (insert_job-IsValid d database
          ((draft-IsSandboxed library database.intakes request).at d drafted) h)

  pub Step-IsValid :
      {jobs jobs' : Jobs}
      → Step settings jobs jobs'
      → IsValid settings jobs
      → IsValid settings jobs'
  Step-IsValid (enqueues library database request {jobs' = jobs'} {id = id} p e) h =
      enqueue-IsValid library database request (record database { jobs = jobs' }, id)
        (subst (IsValid settings) (sym p) h) e
  Step-IsValid (claims_next c t {jobs = jobs} {jobs' = jobs'} {job = job} e) h =
      claim_next-IsValid c t jobs (jobs', job) h e
  Step-IsValid (renews id owner now {jobs = jobs} {jobs' = jobs'} e) h =
      renew_lease-IsValid settings jobs jobs' id owner now h e
  Step-IsValid (finishes id owner {jobs = jobs} {jobs' = jobs'} e) h =
      mark_done-IsValid settings jobs jobs' id owner h e
  Step-IsValid (retries id error owner now {jobs = jobs} {jobs' = jobs'} e) h =
      retry_or_bury-IsValid settings jobs jobs' id error owner now h e

  -- With at least one attempt allowed, every table that the operations reach from a valid one is
  -- valid: each running row and no other has an owner and an expiry, a queued row has an attempt
  -- left, no row passes the attempt limit or has the status `failed`, sandbox evidence agrees
  -- with the execution profile, and no two rows share an identifier or a document's key.
  pub Reach-IsValid :
      {start jobs : Jobs}
      → Reach settings start jobs
      → IsValid settings start
      → IsValid settings jobs
  Reach-IsValid here h = h
  Reach-IsValid (next r step) h = Step-IsValid step (Reach-IsValid r h)
