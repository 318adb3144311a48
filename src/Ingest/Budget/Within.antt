-- ===== src/Ingest/Budget/Within.antt =====
-- A parse stays within its budget (clerksan/ingest/limits.py, `ParseBudget`).
use clerk_san.Prelude.{Option-cases, inl, inr, none, refl, ◌≡◌, ◌⊎◌}
use clerk_san.Ingest.Limits.{IngestLimits}
use clerk_san.Ingest.Budget.{Parse, ParseBudget, run}
use clerk_san.Ingest.Budget.Accounted.{IsAccounted, claimed, deepest, run_at}
use clerk_san.Ingest.Budget.Granted.{Fits, run_granted}

module _ (limits : IngestLimits) where
  -- Every parse, whether it raises or not, keeps a budget within its limits and leaves the level as
  -- it found it, and no counter falls, nor the recorded depth; a parse that does not raise has added
  -- to each counter exactly the sum of what its calls claim of it, members of any depth included,
  -- and the recorded depth is the deepest level that a call asked for, or that of before. A parse
  -- that raises does so with reason: it raises on its own, gives a negative amount or depth, or asks
  -- for more than a limit leaves. The calls are those of `consume_*`, direct calls of
  -- `consume_nesting` and blocks of `nested`, in any order.
  pub run_lem :
      (parse : Parse limits) (budget : ParseBudget)
      → IsAccounted limits
          (λ counter. claimed limits counter parse)
          (deepest limits budget.current_nesting parse)
          budget
          (run limits parse budget)
        × (((run limits parse budget).1 ≡ none) ⊎ ¬ Fits limits budget.current_nesting parse budget)
  run_lem parse budget = (
    run_at limits parse budget budget.current_nesting refl,
    elim (Option-cases (run limits parse budget).1) [
      | inl e ↦ inl e
      | inr (e, h) ↦ inr λ fits.
          let granted = run_granted limits parse budget budget.current_nesting refl fits in cc
    ],
  )
