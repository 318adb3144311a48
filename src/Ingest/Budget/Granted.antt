-- ===== src/Ingest/Budget/Granted.antt =====
-- A parse that asks for no more than the limits leave is not refused (clerksan/ingest/limits.py,
-- `ParseBudget`).
use clerk_san.Prelude.{
  Bool, ap, arith, false, negsuc, none, ok, pos, refl, require, some, true, ℕ, ℤ, ◌&&◌, ◌+◌, ◌>>◌,
  ◌∙◌, ◌≡◌, ◌≤◌,
}
use clerk_san.Ingest.Limits.{IngestLimits, LimitError}
use clerk_san.Ingest.Budget.{
  Counter, Outcome, Parse, ParseBudget, begin, consume, consume_nesting, consumes, deepens, enter,
  fails, finished, limit_of, nested, nests, run, settle, then_run,
}
use clerk_san.Ingest.Budget.Accounted.{
  amount_of, claimed, consume-IsAccounted, consume_nesting-IsAccounted, deepest, nested-IsAccounted,
  one, run_at,
}

abbrev pub is_nonnegative : ℤ → Bool
is_nonnegative (pos n) = true
is_nonnegative (negsuc n) = false

both-true : (a b : Bool) → (a && b) ≡ true → (a ≡ true) × (b ≡ true)
both-true true b h = (refl, h)
both-true false b h = absurd (cc)

module _ (limits : IngestLimits) where
  -- The parse raises nothing of its own and no call of it has a negative amount or depth.
  unfoldable pub is_sound : Parse limits → Bool
  is_sound finished = true
  is_sound (fails e) = false
  is_sound (consumes counter amount rest) = is_nonnegative amount && is_sound rest
  is_sound (deepens depth rest) = is_nonnegative depth && is_sound rest
  is_sound (nests member rest) = is_sound member && is_sound rest

  -- Everything that the calls of a parse ask for is within the limits.
  pub record Fits (level : ℕ) (parse : Parse limits) (budget : ParseBudget) : Type 0 where
    pub sound : is_sound parse ≡ true
    pub counters :
        (counter : Counter)
        → budget.consumed counter + claimed limits counter parse ≤ limit_of limits counter
    pub depth : deepest limits level parse ≤ limits.max_recursion_depth

  then_run-none :
      (rest : ParseBudget → Outcome limits) (after : Outcome limits)
      → after.1 ≡ none
      → (rest after.0).1 ≡ none
      → (then_run limits rest after).1 ≡ none
  then_run-none rest (budget, none) h k = k
  then_run-none rest (budget, some e) h k = cc

  settle-require :
      (budget changed : ParseBudget) (test : Bool) (e : LimitError)
      → test ≡ true
      → (settle limits budget (require test e >> ok changed)).1 ≡ none
  settle-require budget changed true e h = refl
  settle-require budget changed false e h = absurd (cc)

  consume_granted :
      (counter : Counter) (amount : ℤ) (budget : ParseBudget)
      → is_nonnegative amount ≡ true
      → budget.consumed counter + amount_of amount ≤ limit_of limits counter
      → (settle limits budget (consume limits counter amount budget)).1 ≡ none
  unfolding consume
  consume_granted counter (negsuc n) budget s h = absurd (cc)
  consume_granted counter (pos n) budget s h = settle-require budget _ _ _ (ground (arith, h))

  consume_nesting_granted :
      (depth : ℤ) (budget : ParseBudget)
      → is_nonnegative depth ≡ true
      → amount_of depth ≤ limits.max_recursion_depth
      → (settle limits budget (consume_nesting limits depth budget)).1 ≡ none
  unfolding consume_nesting
  consume_nesting_granted (negsuc n) budget s h = absurd (cc)
  consume_nesting_granted (pos n) budget s h = settle-require budget _ _ _ (ground (arith, h))

  begin-require :
      (body : ParseBudget → Outcome limits) (depth : ℕ) (budget changed : ParseBudget) (test : Bool)
      (e : LimitError)
      → test ≡ true
      → (body (enter limits depth changed)).1 ≡ none
      → (begin limits body depth budget (require test e >> ok changed)).1 ≡ none
  begin-require body depth budget changed true e h k = k
  begin-require body depth budget changed false e h k = absurd (cc)

  nested_granted :
      (body : ParseBudget → Outcome limits) (budget : ParseBudget)
      → budget.current_nesting + 1 ≤ limits.max_recursion_depth
      → ((inner : ParseBudget)
          → inner.current_nesting ≡ budget.current_nesting + 1
          → ((counter : Counter) → inner.consumed counter ≡ budget.consumed counter)
          → (body inner).1 ≡ none)
      → (nested limits body budget).1 ≡ none
  unfolding nested consume_nesting
  nested_granted body budget low h =
      begin-require body _ budget _ _ _ (ground (arith, low)) (h _ refl λ counter. refl)

  one_same : (counter : Counter) (amount : ℤ) → one limits counter amount counter ≡ amount_of amount
  one_same counter amount = ground arith

  pub run_granted :
      (parse : Parse limits) (budget : ParseBudget) (level : ℕ)
      → budget.current_nesting ≡ level
      → Fits level parse budget
      → (run limits parse budget).1 ≡ none
  unfolding run is_sound claimed deepest
  run_granted finished budget level l fits = refl
  run_granted (fails e) budget level l fits = absurd (let no = fits.sound in cc)
  run_granted (consumes counter amount rest) budget level l fits =
      let (s, later_sound) = both-true _ _ fits.sound in
      let after = settle limits budget (consume limits counter amount budget) in
      let step = consume-IsAccounted limits counter amount budget in
      let here : after.1 ≡ none =
        consume_granted counter amount budget s
          (omega (arith, fits.counters counter, one_same counter amount)) in
      then_run-none (run limits rest) after here (
        run_granted rest after.0 level (step.balanced ∙ l) record {
          sound = later_sound;
          counters = λ other. omega (arith, step.spent here other, fits.counters other);
          depth = fits.depth;
        })
  run_granted (deepens depth rest) budget level l fits =
      let (s, later_sound) = both-true _ _ fits.sound in
      let after = settle limits budget (consume_nesting limits depth budget) in
      let step = consume_nesting-IsAccounted limits depth budget in
      let here : after.1 ≡ none =
        consume_nesting_granted depth budget s (omega (arith, fits.depth)) in
      then_run-none (run limits rest) after here (
        run_granted rest after.0 level (step.balanced ∙ l) record {
          sound = later_sound;
          counters = λ other. omega (arith, step.spent here other, fits.counters other);
          depth = omega (arith, fits.depth);
        })
  run_granted (nests member rest) budget level l fits =
      let (s, later_sound) = both-true _ _ fits.sound in
      let after = nested limits (run limits member) budget in
      let step =
        nested-IsAccounted limits (λ other. claimed limits other member)
          (deepest limits (level + 1) member) (run limits member) budget
          λ inner same. run_at limits member inner (level + 1) (same ∙ ap (λ n. n + 1) l) in
      let here : after.1 ≡ none =
        nested_granted (run limits member) budget (omega (arith, l, fits.depth)) λ inner same kept.
          run_granted member inner (level + 1) (same ∙ ap (λ n. n + 1) l) record {
            sound = s;
            counters = λ other. omega (arith, kept other, fits.counters other);
            depth = omega (arith, fits.depth);
          } in
      then_run-none (run limits rest) after here (
        run_granted rest after.0 level (step.balanced ∙ l) record {
          sound = later_sound;
          counters = λ other. omega (arith, step.spent here other, fits.counters other);
          depth = omega (arith, fits.depth);
        })
