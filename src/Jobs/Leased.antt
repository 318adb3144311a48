-- ===== src/Jobs/Leased.antt =====
-- A row under a lease that has not ended: no claim may take it, no sweep buries it, and the
-- recovery of other rows does not write it.

use clerk_san.Jobs.Claim.Choice.{claimable}
use clerk_san.Jobs.Payload.{job_pipeline_completed}
use clerk_san.Jobs.Safety.Claiming.{sweep, buried-SameWork}
use clerk_san.Jobs.Identity.{IsUnique, In-unique}
use clerk_san.Jobs.Next.{
  requeued, each_terminal, Claimant, recover_rebuild, is_crashed_rebuild, eligible_for, Dialect,
  postgresql, sqlite,
}
use clerk_san.Prelude.{
  ==_iff, All, All-map_of, Bool, Bool-cases, In, In-map, In-select, List, String, [], ap, arith,
  false, if◌then◌else◌, inl, inr, map, not, ok, ok_injective, refl, select, subst, sym, true, ℕ,
  ◌&&◌, ◌+◌, ◌<◌, ◌==◌, ◌∙◌, ◌∷◌, ◌≡◌, ◌≢◌,
}
use clerk_san.Jobs.Row.{Job, Settings, is_running}
use clerk_san.Jobs.Table.{Jobs, save}
use clerk_san.Jobs.Lease.{microseconds}
use clerk_san.Jobs.Claim.{
  bury_exhausted_expired_jobs, eligible_clause, exhausted, lease, lease_expired, buried,
}

-- The row is running under a lease that ends after the time `now`.
abbrev pub IsLeasedAt : ℕ → Job → Type 0
IsLeasedAt now job = (is_running job.status ≡ true) × (lease_expired now job ≡ false)

pub In-save_self :
    (jobs : Jobs) (old new : Job) → In old jobs → new.id ≡ old.id → In new (save new jobs)
unfolding save
In-save_self [] old new m e = absurd m
In-save_self (job ∷ jobs) old new (inl p) e =
    let same : (job.id == new.id) ≡ true =
      (==_iff job.id new.id).1 (ap (λ (j : Job). j.id) (sym p) ∙ sym e) in
    rw same (inl refl)
In-save_self (job ∷ jobs) old new (inr m) e = elim (Bool-cases (job.id == new.id)) [
  | inl f ↦ rw f (inl refl)
  | inr f ↦ rw f (inr (In-save_self jobs old new m e))
]

pub In-save_ne :
    (jobs : Jobs) (job new : Job) → In job jobs → job.id ≢ new.id → In job (save new jobs)
unfolding save
In-save_ne [] job new m ne = absurd m
In-save_ne (x ∷ jobs) job new (inl p) ne = elim (Bool-cases (x.id == new.id)) [
  | inl f ↦ absurd (ne (ap (λ (j : Job). j.id) p ∙ (==_iff x.id new.id).0 f))
  | inr f ↦ rw f (inl p)
]
In-save_ne (x ∷ jobs) job new (inr m) ne = elim (Bool-cases (x.id == new.id)) [
  | inl f ↦ rw f (inr m)
  | inr f ↦ rw f (inr (In-save_ne jobs job new m ne))
]

module _ (settings : Settings) where
  pub leased-IsLeasedAt :
      (job : Job) (now later : ℕ) (owner : String)
      → later < now + microseconds settings.job_lease_seconds
      → IsLeasedAt later (lease job now owner settings)
  unfolding lease
  leased-IsLeasedAt job now later owner h = (refl, ground arith)

  pub leased-ineligible :
      (job : Job) (later : ℕ) → IsLeasedAt later job → eligible_clause later settings job ≡ false
  unfolding eligible_clause
  leased-ineligible job later h = ground arith

  pub leased_not_exhausted :
      (job : Job) (later : ℕ) (scope : Job → Bool)
      → IsLeasedAt later job
      → exhausted later settings scope job ≡ false
  unfolding exhausted
  leased_not_exhausted job later scope h = ground arith

  -- The sweep leaves a leased row where it is.
  pub In-sweep :
      (now : ℕ) (scope : Job → Bool) (jobs : Jobs) (job : Job)
      → In job jobs
      → exhausted now settings scope job ≡ false
      → In job (bury_exhausted_expired_jobs jobs now settings scope).0
  unfolding bury_exhausted_expired_jobs
  In-sweep now scope jobs job m e =
      let kept : sweep settings now scope job ≡ job = rw e refl in
      subst (λ j. In j (map (sweep settings now scope) jobs)) kept
        (In-map (sweep settings now scope) jobs job m)

  -- No swept row has the identifier of a leased row.
  pub terminal_apart :
      (now : ℕ) (scope : Job → Bool) (jobs : Jobs) (job : Job)
      → IsUnique jobs
      → In job jobs
      → exhausted now settings scope job ≡ false
      → All (λ t. t.id ≢ job.id) (bury_exhausted_expired_jobs jobs now settings scope).1
  unfolding bury_exhausted_expired_jobs
  terminal_apart now scope jobs job u m e =
      let test =
        λ (j : Job). exhausted now settings scope j && not (job_pipeline_completed j.payload) in
      All-map_of (λ t. t.id ≢ job.id) buried (select test jobs)
        λ j n same.
          let (stored, passed) = In-select test jobs j n in
          let one = In-unique jobs j job u stored m (sym (buried-SameWork settings j).id ∙ same) in
          let swept : exhausted now settings scope j ≡ true = ground arith in
          cc (ap (exhausted now settings scope) one)

  In-recovered :
      (now : ℕ) (t job : Job) (jobs : Jobs)
      → In job jobs
      → t.id ≢ job.id
      → In job (if is_crashed_rebuild t then save (requeued now t) jobs else jobs)
  unfolding requeued
  In-recovered now t job jobs m ne = elim (Bool-cases (is_crashed_rebuild t)) [
    | inl e ↦ rw e (In-save_ne jobs job (requeued now t) m (λ p. ne (sym p)))
    | inr e ↦ rw e m
  ]

  pub In-each_terminal :
      (now : ℕ) (rest : List Job) (job : Job) (jobs jobs' : Jobs)
      → In job jobs
      → All (λ t. t.id ≢ job.id) rest
      → each_terminal (recover_rebuild now) rest jobs ≡ ok jobs'
      → In job jobs'
  unfolding each_terminal recover_rebuild
  In-each_terminal now [] job jobs jobs' m ne e = subst (In job) (ok_injective e) m
  In-each_terminal now (t ∷ rest) job jobs jobs' m ne e =
      In-each_terminal now rest job _ jobs' (In-recovered now t job jobs m ne.0) ne.1 e

  pub claimable-clause :
      (c : Claimant) (job : Job)
      → claimable c.dialect (eligible_for settings c) job ≡ true
      → eligible_clause c.now settings job ≡ true
  claimable-clause c job h = by_dialect c.dialect h
    where
      by_dialect :
          (d : Dialect)
          → claimable d (eligible_for settings c) job ≡ true
          → eligible_clause c.now settings job ≡ true
      by_dialect sqlite h = ground arith
      by_dialect (postgresql locked) h = ground arith
