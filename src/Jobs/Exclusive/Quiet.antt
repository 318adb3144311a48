-- ===== src/Jobs/Exclusive/Quiet.antt =====
-- The work of other workers around one leased job, as a relation, and the exclusion theorem.
use clerk_san.Jobs.Lease.Held.{on_held}
use clerk_san.Prelude.{
  Bool-cases, In, Option, String, inl, inr, not, ok, refl, some, subst, sym, true, ℕ, ◌+◌, ◌<◌,
  ◌||◌, ◌≡◌, ◌≢◌, ◌⊎◌,
}
use clerk_san.Jobs.Row.{Job, Settings}
use clerk_san.Jobs.Table.{Jobs, before}
use clerk_san.Jobs.Lease.{
  mark_done, microseconds, owned_by_other, renew_lease, retry_or_bury, retried, completed,
}
use clerk_san.Jobs.Next.{Claimant, claim_next, recover_rebuild}
use clerk_san.Jobs.Enqueue.{
  Database, Library, Request, enqueue, insert_job, queued_row, conflicts, has_document,
}
use clerk_san.Jobs.Enqueue.Prepared.{enqueue-eq-ok}
use clerk_san.Jobs.Leased.{IsLeasedAt}
use clerk_san.Jobs.Exclusive.{In-claim_next, claim_next-ne-leased, claimed-leased, held-In}
use clerk_san.Jobs.Safety.{
  IsValid, mark_done-IsValid, retry_or_bury-IsValid, renew_lease-IsValid, retried-SameWork,
}
use clerk_san.Jobs.Safety.Steps.{claim_next-IsValid, enqueue-IsValid}

-- A worker's operation on another job, or under another name than the lease's owner
abbrev pub IsForeign : Job → ℕ → Option String → Type 0
IsForeign job id owner = (id ≢ job.id) ⊎ (owned_by_other job owner ≡ true)

-- Committed operations of others: claims before the time `end`, and everything but the own
-- operations of the lease's owner on `job`.
pub data Quiet (settings : Settings) (job : Job) (until : ℕ) (start : Jobs) : Jobs → Type 0 where
  still : Quiet settings job until start start
  enqueues :
      (library : Library) (database : Database) (request : Request) {jobs jobs' : Jobs}
      {id : Option ℕ}
      → Quiet settings job until start jobs
      → database.jobs ≡ jobs
      → enqueue library database request ≡ ok (record database { jobs = jobs' }, id)
      → Quiet settings job until start jobs'
  claims_next :
      (c : Claimant) (recovered_at : ℕ) {jobs jobs' : Jobs} {claimed : Option Job}
      → Quiet settings job until start jobs
      → c.now < until
      → claim_next (recover_rebuild recovered_at) settings c jobs ≡ ok (jobs', claimed)
      → Quiet settings job until start jobs'
  renews :
      (id : ℕ) (owner : Option String) (now : ℕ) {jobs jobs' : Jobs}
      → Quiet settings job until start jobs
      → IsForeign job id owner
      → renew_lease jobs id owner settings now ≡ ok jobs'
      → Quiet settings job until start jobs'
  finishes :
      (id : ℕ) (owner : Option String) {jobs jobs' : Jobs}
      → Quiet settings job until start jobs
      → IsForeign job id owner
      → mark_done jobs id owner ≡ ok jobs'
      → Quiet settings job until start jobs'
  retries :
      (id : ℕ) (error : String) (owner : Option String) (now : ℕ) {jobs jobs' : Jobs}
      → Quiet settings job until start jobs
      → IsForeign job id owner
      → retry_or_bury jobs id error owner settings now ≡ ok jobs'
      → Quiet settings job until start jobs'

In-insert_job :
    (job new : Job) (database : Database)
    → In job database.jobs
    → In job (insert_job new database).0.jobs
unfolding insert_job
In-insert_job job new database m =
    let refused =
      conflicts new database.jobs || not (has_document new.document_id database.documents) in
    elim (Bool-cases refused) [ inl e ↦ rw e m | inr e ↦ rw e (inr m) ]

module _ (settings : Settings) (positive : 0 < settings.job_max_attempts) (job : Job)
    (until : ℕ) where
  abbrev Kept : Jobs → Type 0
  Kept jobs = IsValid settings jobs × In job jobs

  Kept-enqueue :
      (library : Library) (database : Database) (request : Request) (result : Database × Option ℕ)
      → Kept database.jobs
      → enqueue library database request ≡ ok result
      → Kept result.0.jobs
  Kept-enqueue library database request result k e =
      let (d, drafted, stored) = enqueue-eq-ok library database request result e in
      (
        enqueue-IsValid settings positive library database request result k.0 e,
        subst (λ r. In job r.0.jobs) (sym stored)
            (In-insert_job job (queued_row d database.fresh database.now) database k.1),
      )

  Kept-renew :
      (jobs jobs' : Jobs) (id : ℕ) (owner : Option String) (now : ℕ)
      → Kept jobs
      → IsForeign job id owner
      → renew_lease jobs id owner settings now ≡ ok jobs'
      → Kept jobs'
  unfolding renew_lease on_held
  Kept-renew jobs jobs' id owner now k foreign e = (
    renew_lease-IsValid settings jobs jobs' id owner now k.0 e,
    held-In settings
        (λ j. record j { lease_expires_at = some (now + microseconds settings.job_lease_seconds) })
        jobs jobs' id owner job (λ j. refl) k.0.unique k.1 foreign e,
  )

  Kept-done :
      (jobs jobs' : Jobs) (id : ℕ) (owner : Option String)
      → Kept jobs
      → IsForeign job id owner
      → mark_done jobs id owner ≡ ok jobs'
      → Kept jobs'
  unfolding mark_done on_held
  Kept-done jobs jobs' id owner k foreign e = (
    mark_done-IsValid settings jobs jobs' id owner k.0 e,
    held-In settings completed jobs jobs' id owner job (λ j. refl) k.0.unique k.1 foreign e,
  )

  Kept-retry :
      (jobs jobs' : Jobs) (id : ℕ) (error : String) (owner : Option String) (now : ℕ)
      → Kept jobs
      → IsForeign job id owner
      → retry_or_bury jobs id error owner settings now ≡ ok jobs'
      → Kept jobs'
  unfolding retry_or_bury on_held
  Kept-retry jobs jobs' id error owner now k foreign e = (
    retry_or_bury-IsValid settings jobs jobs' id error owner now k.0 e,
    held-In settings (λ j. retried j error settings now) jobs jobs' id owner job
        (λ j. (retried-SameWork settings j error now).id) k.0.unique k.1 foreign e,
  )

  Quiet-Kept :
      {start jobs : Jobs}
      → ((later : ℕ) → later < until → IsLeasedAt later job)
      → Kept start
      → Quiet settings job until start jobs
      → Kept jobs
  Quiet-Kept l k still = k
  Quiet-Kept l k (enqueues library database request {jobs' = jobs'} {id = id} q p e) =
      Kept-enqueue library database request (record database { jobs = jobs' }, id)
        (subst Kept (sym p) (Quiet-Kept l k q)) e
  Quiet-Kept l k (claims_next c t {jobs = jobs} {jobs' = jobs'} {claimed = claimed} q before e) =
      let before_k = Quiet-Kept l k q in
      (
        claim_next-IsValid settings positive c t jobs (jobs', claimed) before_k.0 e,
        In-claim_next settings positive c t jobs job (jobs', claimed) before_k.0 before_k.1
            (l c.now before) e,
      )
  Quiet-Kept l k (renews id owner now {jobs = jobs} {jobs' = jobs'} q foreign e) =
      Kept-renew jobs jobs' id owner now (Quiet-Kept l k q) foreign e
  Quiet-Kept l k (finishes id owner {jobs = jobs} {jobs' = jobs'} q foreign e) =
      Kept-done jobs jobs' id owner (Quiet-Kept l k q) foreign e
  Quiet-Kept l k (retries id error owner now {jobs = jobs} {jobs' = jobs'} q foreign e) =
      Kept-retry jobs jobs' id error owner now (Quiet-Kept l k q) foreign e

module _ (settings : Settings) (positive : 0 < settings.job_max_attempts) where
  -- From a valid table: once a claim has returned a job, and whatever other workers then commit
  -- (enqueues, claims at times before the lease ends, and operations on other jobs or under
  -- another name than the owner's), no claim by anyone before the lease ends returns that job.
  pub claim_exclusive :
      (c later : Claimant) (t u : ℕ) (jobs claimed between final : Jobs) (job other : Job)
      → IsValid settings jobs
      → claim_next (recover_rebuild t) settings c jobs ≡ ok (claimed, some job)
      → Quiet settings job (c.now + microseconds settings.job_lease_seconds) claimed between
      → claim_next (recover_rebuild u) settings later between ≡ ok (final, some other)
      → later.now < c.now + microseconds settings.job_lease_seconds
      → other.id ≢ job.id
  claim_exclusive c later t u jobs claimed between final job other h e q f before =
      let until = c.now + microseconds settings.job_lease_seconds in
      let leased = λ (at : ℕ) (b : at < until).
        (claimed-leased settings positive c t at jobs claimed job h e b).1 in
      let stored = (claimed-leased settings positive c t later.now jobs claimed job h e before).0 in
      let kept =
        Quiet-Kept settings positive job until leased
          (claim_next-IsValid settings positive c t jobs (claimed, some job) h e, stored) q in
      claim_next-ne-leased settings positive later u between final job other kept.0 kept.1
        (leased later.now before) f
