-- ===== src/Jobs/Claim/Dialects.antt =====
-- The two database dialects of the claim do the same to the table, where identifiers are unique
-- and no other transaction holds a lock.
use clerk_san.Jobs.Table.Laws.{first-In, first-test}
use clerk_san.Prelude.{
  Bool, In, Option, String, [], ap, arith, false, fun_ext, if◌then◌else◌, inl, inr, map, none, not,
  refl, select, some, subst, sym, true, ℕ, ◌&&◌, ◌∙◌, ◌∷◌, ◌≡◌,
}
use clerk_san.Jobs.Row.{Job, Settings}
use clerk_san.Jobs.Table.{Jobs, first, save}
use clerk_san.Jobs.Identity.{IsUnique, conflicts-In}
use clerk_san.Jobs.Enqueue.{conflicts}
use clerk_san.Jobs.Claim.{
  claim_postgresql, claim_sqlite, claims, lease, lease_selected, update_candidate,
}

pub no_locks : ℕ → Bool
no_locks _ = false

unlocked : (eligible : Job → Bool) → (λ job. eligible job && not (no_locks job.id)) ≡ eligible
unfolding no_locks
unlocked eligible = fun_ext (λ job. ground arith)

module _ (candidate : Job) (eligible : Job → Bool) (f : Job → Job) where
  abbrev update : Job → Job
  update job = if claims (some candidate) eligible job then f job else job

  -- Past the row of the candidate the conditional update changes nothing.
  update_rest : (jobs : Jobs) → conflicts candidate jobs ≡ false → map update jobs ≡ jobs
  unfolding conflicts
  update_rest [] h = refl
  update_rest (job ∷ jobs) h = ground (arith, update_rest jobs)

  select_rest :
      (jobs : Jobs)
      → conflicts candidate jobs ≡ false
      → select (claims (some candidate) eligible) jobs ≡ []
  unfolding conflicts
  select_rest [] h = refl
  select_rest (job ∷ jobs) h = ground (arith, select_rest jobs)

  abbrev IsSave : Jobs → Type 0
  IsSave jobs =
      (map update jobs ≡ save (f candidate) jobs)
      × (select (claims (some candidate) eligible) jobs ≡ candidate ∷ [])

  update_head :
      (jobs : Jobs)
      → conflicts candidate jobs ≡ false
      → eligible candidate ≡ true
      → (f candidate).id ≡ candidate.id
      → IsSave (candidate ∷ jobs)
  unfolding save
  update_head jobs h e k = ground (arith, update_rest jobs h, select_rest jobs h)

  -- The row that the update writes is the one that a write by identifier replaces.
  update_lem :
      (jobs : Jobs)
      → IsUnique jobs
      → In candidate jobs
      → eligible candidate ≡ true
      → (f candidate).id ≡ candidate.id
      → IsSave jobs
  unfolding save
  update_lem [] u m e k = absurd m
  update_lem (job ∷ jobs) u (inl p) e k =
      subst (λ j. IsSave (j ∷ jobs)) p
        (update_head jobs (subst (λ j. conflicts j jobs ≡ false) (sym p) u.0) e k)
  update_lem (job ∷ jobs) u (inr m) e k =
      let apart = conflicts-In job candidate jobs u.0 m in
      let rest = update_lem jobs u.1 m e k in
      (ground (arith, apart, rest.0), ground (arith, apart, rest.1))

select-none : (eligible : Job → Bool) (jobs : Jobs) → select (claims none eligible) jobs ≡ []
select-none eligible [] = refl
select-none eligible (job ∷ jobs) = select-none eligible jobs

map_same : (jobs : Jobs) → map (λ job. job) jobs ≡ jobs
map_same [] = refl
map_same (job ∷ jobs) = rw (map_same jobs)

module _ (eligible : Job → Bool) (now : ℕ) (owner : String) (settings : Settings) where
  pub update_candidate-eq-lease_selected :
      (choice : Option Job) (jobs : Jobs)
      → IsUnique jobs
      → first eligible jobs ≡ choice
      → update_candidate choice jobs eligible now owner settings
        ≡ lease_selected choice jobs now owner settings
  unfolding update_candidate lease_selected lease
  update_candidate-eq-lease_selected none jobs u h =
      rw (map_same jobs, select-none eligible jobs) refl
  update_candidate-eq-lease_selected (some job) jobs u h =
      let (saved, chosen) =
        update_lem job eligible (λ j. lease j now owner settings) jobs u
          (first-In eligible jobs job h) (first-test eligible jobs job h) refl in
      rw (saved, chosen) refl

  -- Where the table's identifiers are unique, the claim of SQLite, one conditional update, writes
  -- and returns the same as the claim of PostgreSQL with no row locked by others.
  pub claim_sqlite-eq-claim_postgresql :
      (jobs : Jobs)
      → IsUnique jobs
      → claim_sqlite jobs eligible now owner settings
        ≡ claim_postgresql no_locks jobs eligible now owner settings
  claim_sqlite-eq-claim_postgresql jobs u =
      sqlite_as_update
      ∙ update_candidate-eq-lease_selected (first eligible jobs) jobs u refl
      ∙ postgresql_as_lease
    where
      sqlite_as_update :
          claim_sqlite jobs eligible now owner settings
          ≡ update_candidate (first eligible jobs) jobs eligible now owner settings
      sqlite_as_update = unfold claim_sqlite in refl

      postgresql_as_lease :
          lease_selected (first eligible jobs) jobs now owner settings
          ≡ claim_postgresql no_locks jobs eligible now owner settings
      postgresql_as_lease =
          unfold claim_postgresql in
          ap (λ (test : Job → Bool). lease_selected (first test jobs) jobs now owner settings)
            (sym (unlocked eligible))
