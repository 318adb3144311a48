-- ===== src/Jobs/Next/Inversion.antt =====
-- What a `claim_next` that returned has done: a nonblank owner, the sweep, the recovery of each
-- swept row, and the claim on the table that this leaves.
use clerk_san.Jobs.Fields.{clean_nonempty}
use clerk_san.Prelude.{>>=-eq-ok, Option, String, ok, ok_injective, sym, ◌>>=◌, ◌≡◌}
use clerk_san.Jobs.Row.{Job, JobResult, Settings}
use clerk_san.Jobs.Table.{Jobs}
use clerk_san.Jobs.Claim.{bury_exhausted_expired_jobs}
use clerk_san.Jobs.Next.{
  Claimant, claim, claim_next, each_terminal, eligible_for, scope_of, owner_or,
}

pub record Claimed (handler : Job → Jobs → JobResult Jobs) (settings : Settings) (c : Claimant)
    (jobs : Jobs) (result : Jobs × Option Job) : Type 0 where
  pub owner : String
  pub ready : Jobs
  pub recovered :
      each_terminal handler
        (bury_exhausted_expired_jobs jobs c.now settings (scope_of settings c)).1
        (bury_exhausted_expired_jobs jobs c.now settings (scope_of settings c)).0
      ≡ ok ready
  pub chosen : result ≡ claim c.dialect ready (eligible_for settings c) c.now owner settings

pub claim_next-eq-ok :
    (handler : Job → Jobs → JobResult Jobs) (settings : Settings) (c : Claimant) (jobs : Jobs)
    (result : Jobs × Option Job)
    → claim_next handler settings c jobs ≡ ok result
    → Claimed handler settings c jobs result
unfolding claim_next
claim_next-eq-ok handler settings c jobs result e =
    let swept = bury_exhausted_expired_jobs jobs c.now settings (scope_of settings c) in
    let claimed = λ (owner : String) (ready : Jobs).
      claim c.dialect ready (eligible_for settings c) c.now owner settings in
    let (owner, _, rest) =
      >>=-eq-ok (clean_nonempty (owner_or c.default_worker_id c.lease_owner))
        (λ owner. each_terminal handler swept.1 swept.0 >>= λ ready. ok (claimed owner ready)) e in
    let (ready, recovered, final) =
      >>=-eq-ok (each_terminal handler swept.1 swept.0) (λ ready. ok (claimed owner ready)) rest in
    record {
      owner = owner;
      ready = ready;
      recovered = recovered;
      chosen = sym (ok_injective final);
    }
