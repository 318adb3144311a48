-- ===== src/Jobs/Exclusive.antt =====
-- Exclusive leases: whatever other workers do, a leased job is not leased again before its lease
-- ends, and its row is not touched.
pub mod Quiet
use clerk_san.Jobs.Table.Laws.{In-find, id-find}
use clerk_san.Jobs.Safety.Steps.{ready-IsValid}
use clerk_san.Jobs.Next.Inversion.{claim_next-eq-ok}
use clerk_san.Jobs.Leased.{
  In-each_terminal, In-save_ne, In-sweep, IsLeasedAt, claimable-clause, leased-ineligible,
  leased_not_exhausted, terminal_apart, In-save_self, leased-IsLeasedAt,
}
use clerk_san.Jobs.Lease.Held.{on_held, on_held-eq-ok}
use clerk_san.Jobs.Claim.Choice.{claimable, Chooses, claim-Chooses}
use clerk_san.Jobs.Safety.{IsValid}
use clerk_san.Jobs.Payload.{job_pipeline_completed}
use clerk_san.Jobs.Safety.Claiming.{sweep, buried-SameWork, lease-SameWork}
use clerk_san.Jobs.Identity.{IsUnique, In-unique}
use clerk_san.Jobs.Next.{
  requeued, each_terminal, Claimant, recover_rebuild, is_crashed_rebuild, claim_next, eligible_for,
  Dialect, postgresql, scope_of, sqlite,
}
use clerk_san.Prelude.{
  In, Option, String, ap, arith, none, ok, some, subst, sym, true, ℕ, ◌+◌, ◌<◌, ◌∙◌, ◌≡◌, ◌≢◌, ◌⊎◌,
}
use clerk_san.Jobs.Row.{Job, Settings, is_running}
use clerk_san.Jobs.Table.{Jobs, save}
use clerk_san.Jobs.Lease.{microseconds, owned_by_other}
use clerk_san.Jobs.Claim.{
  bury_exhausted_expired_jobs, eligible_clause, exhausted, lease, lease_expired, buried,
}

module _ (settings : Settings) where
  -- What a claim that returned did around a leased row: the row stands in the table that the claim
  -- ran on, and the claim chose there.
  record Clears (c : Claimant) (result : Jobs × Option Job) (leased : Job) : Type 0 where
    owner : String
    ready : Jobs
    valid : IsValid settings ready
    present : In leased ready
    chosen :
        Chooses settings c.now owner (claimable c.dialect (eligible_for settings c)) ready result

  Chooses-In :
      (c : Claimant) (owner : String) (ready : Jobs) (leased : Job) (result : Jobs × Option Job)
      → IsUnique ready
      → In leased ready
      → IsLeasedAt c.now leased
      → Chooses settings c.now owner (claimable c.dialect (eligible_for settings c)) ready result
      → In leased result.0
  Chooses-In c owner ready leased (jobs', none) u m l chosen =
      subst (In leased) (sym chosen.unchanged) m
  Chooses-In c owner ready leased (jobs', some job) u m l chosen =
      let row_id = (lease-SameWork settings chosen.row c.now owner).id in
      let apart : leased.id ≢ job.id = λ same.
        let one =
          In-unique ready leased chosen.row u m chosen.stored
            (same ∙ ap (λ (j : Job). j.id) chosen.leased ∙ row_id) in
        cc (
          claimable-clause settings c chosen.row chosen.passed,
          leased-ineligible settings leased c.now l,
          ap (eligible_clause c.now settings) one,
        ) in
      subst (In leased) (sym chosen.written) (In-save_ne ready leased job m apart)

  pub held-In :
      (g : Job → Job) (jobs jobs' : Jobs) (job_id : ℕ) (owner : Option String) (leased : Job)
      → ((job : Job) → (g job).id ≡ job.id)
      → IsUnique jobs
      → In leased jobs
      → (job_id ≢ leased.id) ⊎ (owned_by_other leased owner ≡ true)
      → on_held jobs job_id owner g ≡ ok jobs'
      → In leased jobs'
  held-In g jobs jobs' job_id owner leased same u m foreign e =
      let (job, held, written) = on_held-eq-ok g jobs jobs' job_id owner e in
      let stored = In-find job_id jobs job held.found in
      let named = id-find job_id jobs job held.found in
      let apart : leased.id ≢ (g job).id = λ p.
        let one = In-unique jobs leased job u m stored (p ∙ same job) in
        let id = ap (λ (j : Job). j.id) one in
        let own = ap (λ (j : Job). owned_by_other j owner) one in
        ground (arith, held.own, own, id, named, foreign) in
      subst (In leased) (sym written) (In-save_ne jobs leased (g job) m apart)

module _ (settings : Settings) (positive : 0 < settings.job_max_attempts) where
  claim_next-Clears :
      (c : Claimant) (recovered_at : ℕ) (jobs : Jobs) (leased : Job) (result : Jobs × Option Job)
      → IsValid settings jobs
      → In leased jobs
      → IsLeasedAt c.now leased
      → claim_next (recover_rebuild recovered_at) settings c jobs ≡ ok result
      → Clears settings c result leased
  claim_next-Clears c recovered_at jobs leased result h m l e =
      let done = claim_next-eq-ok (recover_rebuild recovered_at) settings c jobs result e in
      let scope = scope_of settings c in
      let spared = leased_not_exhausted settings leased c.now scope l in
      let ready = ready-IsValid settings positive c recovered_at jobs done.ready h done.recovered in
      record {
        owner = done.owner;
        ready = done.ready;
        valid = ready;
        present =
            In-each_terminal settings recovered_at
              (bury_exhausted_expired_jobs jobs c.now settings scope).1 leased
              (bury_exhausted_expired_jobs jobs c.now settings scope).0 done.ready
              (In-sweep settings c.now scope jobs leased m spared)
              (terminal_apart settings c.now scope jobs leased h.unique m spared) done.recovered;
        chosen =
            subst
              (Chooses settings c.now done.owner (claimable c.dialect (eligible_for settings c))
                done.ready)
              (sym done.chosen)
              (claim-Chooses settings c.now done.owner c.dialect (eligible_for settings c)
                done.ready ready.unique);
      }

  pub In-claim_next :
      (c : Claimant) (recovered_at : ℕ) (jobs : Jobs) (leased : Job) (result : Jobs × Option Job)
      → IsValid settings jobs
      → In leased jobs
      → IsLeasedAt c.now leased
      → claim_next (recover_rebuild recovered_at) settings c jobs ≡ ok result
      → In leased result.0
  In-claim_next c recovered_at jobs leased result h m l e =
      let cleared = claim_next-Clears c recovered_at jobs leased result h m l e in
      Chooses-In settings c cleared.owner cleared.ready leased result cleared.valid.unique
        cleared.present l cleared.chosen

  pub claim_next-ne-leased :
      (c : Claimant) (recovered_at : ℕ) (jobs jobs' : Jobs) (leased other : Job)
      → IsValid settings jobs
      → In leased jobs
      → IsLeasedAt c.now leased
      → claim_next (recover_rebuild recovered_at) settings c jobs ≡ ok (jobs', some other)
      → other.id ≢ leased.id
  claim_next-ne-leased c recovered_at jobs jobs' leased other h m l e same =
      let cleared = claim_next-Clears c recovered_at jobs leased (jobs', some other) h m l e in
      let chosen = cleared.chosen in
      let row_id = (lease-SameWork settings chosen.row c.now cleared.owner).id in
      let one =
        In-unique cleared.ready chosen.row leased cleared.valid.unique chosen.stored cleared.present
          (sym row_id ∙ ap (λ (j : Job). j.id) (sym chosen.leased) ∙ same) in
      cc (
        claimable-clause settings c chosen.row chosen.passed,
        leased-ineligible settings leased c.now l,
        ap (eligible_clause c.now settings) one,
      )

  -- The row that a claim returns is stored, and leased up to its expiry.
  pub claimed-leased :
      (c : Claimant) (recovered_at later : ℕ) (jobs jobs' : Jobs) (job : Job)
      → IsValid settings jobs
      → claim_next (recover_rebuild recovered_at) settings c jobs ≡ ok (jobs', some job)
      → later < c.now + microseconds settings.job_lease_seconds
      → In job jobs' × IsLeasedAt later job
  claimed-leased c recovered_at later jobs jobs' job h e before_end =
      let done =
        claim_next-eq-ok (recover_rebuild recovered_at) settings c jobs (jobs', some job) e in
      let ready = ready-IsValid settings positive c recovered_at jobs done.ready h done.recovered in
      let chosen =
        subst
          (Chooses settings c.now done.owner (claimable c.dialect (eligible_for settings c))
            done.ready)
          (sym done.chosen)
          (claim-Chooses settings c.now done.owner c.dialect (eligible_for settings c) done.ready
            ready.unique) in
      let row_id = (lease-SameWork settings chosen.row c.now done.owner).id in
      (
        subst (In job) (sym chosen.written) (
            In-save_self done.ready chosen.row job chosen.stored
              (ap (λ (j : Job). j.id) chosen.leased ∙ row_id)),
        subst (IsLeasedAt later) (sym chosen.leased)
            (leased-IsLeasedAt settings chosen.row c.now later done.owner before_end),
      )
