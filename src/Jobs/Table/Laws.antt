-- ===== src/Jobs/Table/Laws.antt =====
-- Laws of the table: what a lookup gives after a write, which rows a write keeps, and what the
-- ordered choice `first` returns.
use clerk_san.Prelude.{
  All, Bool, Bool-cases, In, Option-cases, [], arith, false, if◌then◌else◌, inl, inr, is_some, none,
  some, true, ℕ, ◌&&◌, ◌==◌, ◌∷◌, ◌≡◌,
}
use clerk_san.Jobs.Row.{Job}
use clerk_san.Jobs.Table.{Jobs, before, find, first, save}

-- A lookup by another identifier is not touched by a write.
pub find-save :
    (key : ℕ) (new : Job) (jobs : Jobs)
    → find key (save new jobs)
      ≡ (if new.id == key && is_some (find key jobs) then some new else find key jobs)
unfolding find save
find-save key new [] = ground arith
find-save key new (job ∷ jobs) = ground (arith, find-save key new jobs)

pub id-find : (key : ℕ) (jobs : Jobs) (job : Job) → find key jobs ≡ some job → job.id ≡ key
unfolding find
id-find key [] job h = cc
id-find key (x ∷ jobs) job h = ground (arith, id-find key jobs job)

pub In-find : (key : ℕ) (jobs : Jobs) (job : Job) → find key jobs ≡ some job → In job jobs
unfolding find
In-find key [] job h = cc
In-find key (x ∷ jobs) job h = ground (arith, In-find key jobs job)

pub All-save :
    (P : Job → Type 0) (new : Job) (jobs : Jobs) → P new → All P jobs → All P (save new jobs)
unfolding save
All-save P new [] p h = h
All-save P new (job ∷ jobs) p h = elim (Bool-cases (job.id == new.id)) [
  | inl e ↦ rw e (p, h.1)
  | inr e ↦ rw e (h.0, All-save P new jobs p h.1)
]

-- `before` is the strict part of a total preorder.
pub before_trans : (a b c : Job) → before b a ≡ false → before c b ≡ false → before c a ≡ false
unfolding before
before_trans a b c h k = ground arith

pub before_irrefl : (a : Job) → before a a ≡ false
unfolding before
before_irrefl a = ground arith

pub before_asym : (a b : Job) → before a b ≡ true → before b a ≡ false
unfolding before
before_asym a b h = ground arith

module _ (test : Job → Bool) where
  pub first-In : (jobs : Jobs) (job : Job) → first test jobs ≡ some job → In job jobs
  unfolding first
  first-In [] job h = cc
  first-In (x ∷ jobs) job h = ground (arith, first-In jobs job)

  pub first-test : (jobs : Jobs) (job : Job) → first test jobs ≡ some job → test job ≡ true
  unfolding first
  first-test [] job h = cc
  first-test (x ∷ jobs) job h = ground (arith, first-test jobs job)

  pub first-none :
      (jobs : Jobs) (job : Job) → first test jobs ≡ none → In job jobs → test job ≡ false
  unfolding first
  first-none [] job h m = absurd m
  first-none (x ∷ jobs) job h m = ground (arith, first-none jobs job)

  pub first-least :
      (jobs : Jobs) (job other : Job)
      → first test jobs ≡ some job
      → In other jobs
      → test other ≡ true
      → before other job ≡ false
  unfolding first
  first-least [] job other h m t = absurd m
  first-least (x ∷ jobs) job other h m t = elim (Option-cases (first test jobs)) [
    | inl e ↦ ground (arith, e, first-none jobs other e, before_irrefl x)
    | inr (r, e) ↦ ground (
      arith,
      e,
      first-least jobs r other e,
      before_trans x r other,
      before_asym r x,
      before_irrefl x,
    )
  ]
