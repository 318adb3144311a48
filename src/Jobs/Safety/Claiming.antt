-- ===== src/Jobs/Safety/Claiming.antt =====
-- The claim keeps the invariant: the burial of exhausted leases, the recovery of crashed
-- maintenance jobs, and the lease of the chosen row.
use clerk_san.Jobs.Payload.{job_pipeline_completed}
use clerk_san.Jobs.Table.Laws.{first-In, first-test}
use clerk_san.Jobs.Claim.Dialects.{claim_sqlite-eq-claim_postgresql, no_locks}
use clerk_san.Jobs.Safety.{IsValid, save-IsValid}
use clerk_san.Jobs.Invariant.{IsValidRow, buried-IsValidRow, lease-IsValidRow, requeued-IsValidRow}
use clerk_san.Jobs.Table.{Jobs, first, save}
use clerk_san.Jobs.Identity.{
  SameWork, SameWork-refl, IsUnique-map, In-Agrees, Agrees, SameWork-trans, SameWork-sym,
}
use clerk_san.Jobs.Next.{claim, Dialect, postgresql, sqlite, is_crashed_rebuild, requeued, is_dead}
use clerk_san.Jobs.Claim.{
  buried, lease_selected, lease, bury_exhausted_expired_jobs, exhausted, eligible_clause,
  claim_postgresql,
}
use clerk_san.Jobs.Row.{Settings, Job}
use clerk_san.Prelude.{
  All, All-In, All-map, All-map_of, Bool, Bool-cases, In, In-map, In-select, Option, String, [],
  arith, if◌then◌else◌, inl, inr, map, none, not, refl, select, some, subst, sym, true, ℕ, ◌&&◌,
  ◌<◌, ◌∷◌, ◌≡◌,
}

module _ (settings : Settings) where
  pub lease-SameWork :
      (job : Job) (now : ℕ) (owner : String) → SameWork (lease job now owner settings) job
  unfolding lease
  lease-SameWork job now owner = record { id = refl; document = refl; key = refl }

  pub buried-SameWork : (job : Job) → SameWork (buried job) job
  unfolding buried
  buried-SameWork job = ground arith

  lease_selected-IsValid :
      (choice : Option Job) (test : Job → Bool) (jobs : Jobs) (now : ℕ) (owner : String)
      → IsValid settings jobs
      → first test jobs ≡ choice
      → ((job : Job) → test job ≡ true → eligible_clause now settings job ≡ true)
      → IsValid settings (lease_selected choice jobs now owner settings).0
  unfolding lease_selected
  lease_selected-IsValid none test jobs now owner h e eligible = h
  lease_selected-IsValid (some job) test jobs now owner h e eligible =
      let stored = first-In test jobs job e in
      save-IsValid settings jobs (lease job now owner settings) h
        (In-Agrees jobs job (lease job now owner settings) h.unique stored
          (lease-SameWork job now owner))
        (lease-IsValidRow settings job now owner (eligible job (first-test test jobs job e))
          (All-In (IsValidRow settings) jobs job h.rows stored))

  claim_postgresql-IsValid :
      (locked : ℕ → Bool) (eligible : Job → Bool) (jobs : Jobs) (now : ℕ) (owner : String)
      → IsValid settings jobs
      → ((job : Job) → eligible job ≡ true → eligible_clause now settings job ≡ true)
      → IsValid settings (claim_postgresql locked jobs eligible now owner settings).0
  unfolding claim_postgresql
  claim_postgresql-IsValid locked eligible jobs now owner h e =
      let test = λ (job : Job). eligible job && not (locked job.id) in
      lease_selected-IsValid (first test jobs) test jobs now owner h refl
        λ job t. e job (ground arith)

  pub claim-IsValid :
      (dialect : Dialect) (eligible : Job → Bool) (jobs : Jobs) (now : ℕ) (owner : String)
      → IsValid settings jobs
      → ((job : Job) → eligible job ≡ true → eligible_clause now settings job ≡ true)
      → IsValid settings (claim dialect jobs eligible now owner settings).0
  claim-IsValid sqlite eligible jobs now owner h e =
      unfold claim in
      subst (λ r. IsValid settings r.0)
        (sym (claim_sqlite-eq-claim_postgresql eligible now owner settings jobs h.unique))
        (claim_postgresql-IsValid no_locks eligible jobs now owner h e)
  claim-IsValid (postgresql locked) eligible jobs now owner h e =
      unfold claim in claim_postgresql-IsValid locked eligible jobs now owner h e

  -- A buried row that the sweep hands over: valid, and the same work as its stored row.
  pub record IsSwept (jobs : Jobs) (job : Job) : Type 0 where
    pub valid : IsValidRow settings job
    pub agrees : All (Agrees job) jobs

  module _ (now : ℕ) (scope : Job → Bool) where
    abbrev pub sweep : Job → Job
    sweep job = if exhausted now settings scope job then buried job else job

    sweep-SameWork : (job : Job) → SameWork (sweep job) job
    sweep-SameWork job = ground (arith, buried-SameWork job, SameWork-refl job)

    sweep-IsValidRow : (job : Job) → IsValidRow settings job → IsValidRow settings (sweep job)
    unfolding exhausted
    sweep-IsValidRow job h = ground (arith, h, buried-IsValidRow settings job)

    pub bury-IsValid :
        (jobs : Jobs)
        → IsValid settings jobs
        → IsValid settings (bury_exhausted_expired_jobs jobs now settings scope).0
    unfolding bury_exhausted_expired_jobs
    bury-IsValid jobs h = record {
      rows = All-map (IsValidRow settings) sweep jobs sweep-IsValidRow h.rows;
      unique = IsUnique-map sweep jobs sweep-SameWork h.unique;
    }

    buried_rows :
        (jobs : Jobs) (job : Job)
        → IsValid settings jobs
        → In job jobs
        → exhausted now settings scope job ≡ true
        → IsSwept (map sweep jobs) (buried job)
    unfolding exhausted
    buried_rows jobs job h m e = record {
      valid =
          buried-IsValidRow settings job (ground arith)
            (All-In (IsValidRow settings) jobs job h.rows m);
      agrees =
          In-Agrees (map sweep jobs) (sweep job) (buried job)
            (IsUnique-map sweep jobs sweep-SameWork h.unique) (In-map sweep jobs job m)
            (SameWork-trans (buried-SameWork job) (SameWork-sym (sweep-SameWork job)));
    }

    pub terminal-IsSwept :
        (jobs : Jobs)
        → IsValid settings jobs
        → All
            (IsSwept (bury_exhausted_expired_jobs jobs now settings scope).0)
            (bury_exhausted_expired_jobs jobs now settings scope).1
    unfolding bury_exhausted_expired_jobs
    terminal-IsSwept jobs h =
        let test = λ (job : Job).
          exhausted now settings scope job && not (job_pipeline_completed job.payload) in
        All-map_of (IsSwept (map sweep jobs)) buried (select test jobs) λ job m.
          let (stored, passed) = In-select test jobs job m in
          buried_rows jobs job h stored (ground arith)

  pub requeued-Agrees :
      (now : ℕ) (job : Job) (jobs : Jobs)
      → All (Agrees job) jobs
      → All (Agrees (requeued now job)) jobs
  unfolding requeued
  requeued-Agrees now job [] h = tt
  requeued-Agrees now job (other ∷ jobs) h = (
    λ e. SameWork-trans (record { id = refl; document = refl; key = refl }) (h.0 e),
    requeued-Agrees now job jobs h.1,
  )

  crashed-is_dead : (job : Job) → is_crashed_rebuild job ≡ true → is_dead job.status ≡ true
  unfolding is_crashed_rebuild
  crashed-is_dead job h = ground arith

  -- The recovery of each terminal row keeps the invariant.
  pub recover_rebuild-IsValid :
      (now : ℕ) (job : Job) (jobs : Jobs)
      → 0 < settings.job_max_attempts
      → IsValid settings jobs
      → IsSwept jobs job
      → IsValid settings (if is_crashed_rebuild job then save (requeued now job) jobs else jobs)
  recover_rebuild-IsValid now job jobs p h s = elim (Bool-cases (is_crashed_rebuild job)) [
    | inl e ↦ rw e (
        save-IsValid settings jobs (requeued now job) h (requeued-Agrees now job jobs s.agrees)
          (requeued-IsValidRow settings job now p (crashed-is_dead job e) s.valid))
    | inr e ↦ rw e h
  ]
