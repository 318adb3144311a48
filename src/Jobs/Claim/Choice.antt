-- ===== src/Jobs/Claim/Choice.antt =====
-- Which row a claim leases: of the rows that it may take, the one that comes first.
use clerk_san.Prelude.{
  Bool, In, Option, String, false, none, not, refl, some, subst, sym, true, ℕ, ◌&&◌, ◌≡◌,
}
use clerk_san.Jobs.Row.{Job, Settings}
use clerk_san.Jobs.Table.{Jobs, before, first, save}
use clerk_san.Jobs.Table.Laws.{first-In, first-least, first-none, first-test}
use clerk_san.Jobs.Identity.{IsUnique}
use clerk_san.Jobs.Claim.{update_candidate, lease, lease_selected}
use clerk_san.Jobs.Claim.Dialects.{update_candidate-eq-lease_selected}
use clerk_san.Jobs.Next.{Dialect, claim, postgresql, sqlite}

-- The rows that the statement of the dialect may return
abbrev pub claimable : Dialect → (Job → Bool) → Job → Bool
claimable sqlite eligible job = eligible job
claimable (postgresql locked) eligible job = eligible job && not (locked job.id)

module _ (settings : Settings) (now : ℕ) (owner : String) where
  -- `job` is the lease of the first row that passes the test, and is written in its place.
  pub record IsChosen (test : Job → Bool) (jobs : Jobs) (result : Jobs) (job : Job) : Type 0 where
    pub row : Job
    pub stored : In row jobs
    pub passed : test row ≡ true
    pub least : (other : Job) → In other jobs → test other ≡ true → before other row ≡ false
    pub leased : job ≡ lease row now owner settings
    pub written : result ≡ save job jobs

  -- No row passes the test, and nothing is written.
  pub record IsIdle (test : Job → Bool) (jobs : Jobs) (result : Jobs) : Type 0 where
    pub idle : (other : Job) → In other jobs → test other ≡ false
    pub unchanged : result ≡ jobs

  -- Both outcomes of a claim
  abbrev pub Chooses : (Job → Bool) → Jobs → Jobs × Option Job → Type 0
  Chooses test jobs (result, none) = IsIdle test jobs result
  Chooses test jobs (result, some job) = IsChosen test jobs result job

  lease_selected-Chooses :
      (choice : Option Job) (test : Job → Bool) (jobs : Jobs)
      → first test jobs ≡ choice
      → Chooses test jobs (lease_selected choice jobs now owner settings)
  lease_selected-Chooses none test jobs e =
      unfold lease_selected in
      (record { idle = λ other m. first-none test jobs other e m; unchanged = refl })
  lease_selected-Chooses (some row) test jobs e =
      unfold lease_selected in
      (record {
        row = row;
        stored = first-In test jobs row e;
        passed = first-test test jobs row e;
        least = λ other m t. first-least test jobs row other e m t;
        leased = refl;
        written = refl;
      })

  -- In either dialect, where the table's identifiers are unique, a claim leases the claimable row
  -- that comes first by availability, creation and identifier, and writes nothing else; it
  -- returns nothing, and writes nothing, exactly where no row is claimable.
  pub claim-Chooses :
      (dialect : Dialect) (eligible : Job → Bool) (jobs : Jobs)
      → IsUnique jobs
      → Chooses (claimable dialect eligible) jobs (claim dialect jobs eligible now owner settings)
  unfolding claim update_candidate
  claim-Chooses sqlite eligible jobs u =
      subst (Chooses eligible jobs)
        (sym (
          update_candidate-eq-lease_selected eligible now owner settings (first eligible jobs) jobs
            u refl))
        (lease_selected-Chooses (first eligible jobs) eligible jobs refl)
  claim-Chooses (postgresql locked) eligible jobs u =
      let test = λ (job : Job). eligible job && not (locked job.id) in
      lease_selected-Chooses (first test jobs) test jobs refl
