-- ===== src/Jobs/Table.antt =====
-- The `jobs` table as the list of its rows.
pub mod Laws
use clerk_san.Prelude.{
  ℕ, Bool, Option, none, some, List, [], ◌∷◌, ◌==◌, ltb, if◌then◌else◌, ◌&&◌, ◌||◌,
}
use clerk_san.Jobs.Row.{Job}

abbrev pub Jobs : Type 0
Jobs = List Job

-- `select(Job).where(Job.id == key)`
unfoldable pub find : ℕ → Jobs → Option Job
find key [] = none
find key (job ∷ jobs) = if job.id == key then some job else find key jobs

-- The flush of a changed row.
unfoldable pub save : Job → Jobs → Jobs
save new [] = []
save new (job ∷ jobs) = if job.id == new.id then new ∷ jobs else job ∷ save new jobs

-- `order_by(available_at, created_at, id)`: whether `a` comes before `b`
unfoldable pub before : Job → Job → Bool
before a b =
    ltb a.available_at b.available_at
    || (a.available_at == b.available_at
        && (ltb a.created_at b.created_at || (a.created_at == b.created_at && ltb a.id b.id)))

abbrev pub earlier : Job → Option Job → Job
earlier job none = job
earlier job (some other) = if before other job then other else job

-- `select(Job).where(test).order_by(…).limit(1)`
unfoldable pub first : (Job → Bool) → Jobs → Option Job
unfolding before
first test [] = none
first test (job ∷ jobs) =
    let rest = first test jobs in if test job then some (earlier job rest) else rest
