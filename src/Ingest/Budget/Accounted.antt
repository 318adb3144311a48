-- ===== src/Ingest/Budget/Accounted.antt =====
-- What each call of a parse does to the budget (clerksan/ingest/limits.py, `ParseBudget`).
use clerk_san.Prelude.{
  Bool, Bool-cases, Option, ap, arith, false, if◌then◌else◌, inl, inr, leb, max, negsuc, none, ok,
  pos, refl, require, some, true, ℕ, ℤ, ◌+◌, ◌-◌, ◌==◌, ◌>>◌, ◌∙◌, ◌≡◌, ◌≤◌,
}
use clerk_san.Ingest.Limits.{IngestLimits, LimitError, value_error}
use clerk_san.Ingest.Budget.{
  Counter, Outcome, Parse, ParseBudget, begin, consume, consume_nesting, consumes, deepens, enter,
  fails, finished, index, leave, limit_of, nested, nests, run, set_counter, settle, then_run,
}

abbrev pub amount_of : ℤ → ℕ
amount_of (pos n) = n
amount_of (negsuc n) = 0

module _ (limits : IngestLimits) where
  -- The amounts that the calls of a parse claim of one counter
  unfoldable pub claimed : Counter → Parse limits → ℕ
  claimed counter finished = 0
  claimed counter (fails e) = 0
  claimed counter (consumes other amount rest) =
      (if index counter == index other then amount_of amount else 0) + claimed counter rest
  claimed counter (deepens depth rest) = claimed counter rest
  claimed counter (nests member rest) = claimed counter member + claimed counter rest

  -- No counter is over its limit, nor the depth.
  pub record IsWithin (budget : ParseBudget) : Type 0 where
    pub counters : (counter : Counter) → budget.consumed counter ≤ limit_of limits counter
    pub nesting : budget.max_nesting ≤ limits.max_recursion_depth

  -- The deepest level that the calls of a parse ask for, if it starts at a level: a direct call
  -- names the level itself, a nested block is one level below the block around it.
  unfoldable pub deepest : ℕ → Parse limits → ℕ
  deepest level finished = 0
  deepest level (fails e) = 0
  deepest level (consumes counter amount rest) = deepest level rest
  deepest level (deepens depth rest) = max (amount_of depth) (deepest level rest)
  deepest level (nests member rest) =
      max (max (level + 1) (deepest (level + 1) member)) (deepest level rest)

  -- What a part of a parse does to a budget: it stays within, leaves the level as it was, takes
  -- nothing back, and where it does not raise has taken exactly what it claims and recorded exactly
  -- the deepest level that it asks for, if that is deeper than what was recorded before.
  pub record IsAccounted (claims : Counter → ℕ) (depth : ℕ) (before : ParseBudget)
      (after : Outcome limits) : Type 0 where
    pub is_within : IsWithin before → IsWithin after.0
    pub balanced : after.0.current_nesting ≡ before.current_nesting
    pub grows : (counter : Counter) → before.consumed counter ≤ after.0.consumed counter
    pub deeper : before.max_nesting ≤ after.0.max_nesting
    pub deepened : after.1 ≡ none → after.0.max_nesting ≡ max before.max_nesting depth
    pub spent :
        after.1 ≡ none
        → (counter : Counter) → after.0.consumed counter ≡ before.consumed counter + claims counter

  nothing-IsAccounted :
      (budget : ParseBudget) (raised : Option LimitError)
      → IsAccounted (λ counter. 0) 0 budget (budget, raised)
  nothing-IsAccounted budget raised = record {
    is_within = λ w. w;
    balanced = refl;
    grows = λ counter. omega arith;
    deeper = omega arith;
    deepened = λ h. omega arith;
    spent = λ h counter. omega arith;
  }

  raised-IsAccounted :
      (claims : Counter → ℕ) (depth : ℕ) (budget : ParseBudget) (e : LimitError)
      → IsAccounted claims depth budget (budget, some e)
  raised-IsAccounted claims depth budget e = record {
    is_within = λ w. w;
    balanced = refl;
    grows = λ counter. omega arith;
    deeper = omega arith;
    deepened = λ h. absurd (cc);
    spent = λ h counter. cc;
  }

  same-IsAccounted :
      {claims claims' : Counter → ℕ} {depth depth' : ℕ} {before : ParseBudget}
      {after : Outcome limits}
      → ((counter : Counter) → claims counter ≡ claims' counter)
      → depth ≡ depth'
      → IsAccounted claims depth before after
      → IsAccounted claims' depth' before after
  same-IsAccounted c d h = record {
    is_within = h.is_within;
    balanced = h.balanced;
    grows = h.grows;
    deeper = h.deeper;
    deepened = λ f. omega (arith, h.deepened f, d);
    spent = λ f counter. omega (arith, h.spent f counter, c counter);
  }

  then_run-IsAccounted :
      (first second : Counter → ℕ) (depth depth' : ℕ) (rest : ParseBudget → Outcome limits)
      (before : ParseBudget) (after : Outcome limits)
      → IsAccounted first depth before after
      → ((budget : ParseBudget)
          → budget.current_nesting ≡ before.current_nesting
          → IsAccounted second depth' budget (rest budget))
      → IsAccounted
          (λ counter. first counter + second counter)
          (max depth depth')
          before
          (then_run limits rest after)
  then_run-IsAccounted first second depth depth' rest before (budget, some e) h k = record {
    is_within = h.is_within;
    balanced = h.balanced;
    grows = h.grows;
    deeper = h.deeper;
    deepened = λ f. absurd (cc);
    spent = λ f counter. cc;
  }
  then_run-IsAccounted first second depth depth' rest before (budget, none) h k =
      let later = k budget h.balanced in
      record {
        is_within = λ w. later.is_within (h.is_within w);
        balanced = later.balanced ∙ h.balanced;
        grows = λ counter. omega (arith, h.grows counter, later.grows counter);
        deeper = omega (arith, h.deeper, later.deeper);
        deepened = λ f. omega (arith, h.deepened refl, later.deepened f);
        spent = λ f counter. omega (arith, h.spent refl counter, later.spent f counter);
      }

  settle-IsAccounted :
      (claims : Counter → ℕ) (depth : ℕ) (budget changed : ParseBudget) (test : Bool)
      (e : LimitError)
      → (test ≡ true → IsAccounted claims depth budget (changed, none))
      → IsAccounted claims depth budget (settle limits budget (require test e >> ok changed))
  settle-IsAccounted claims depth budget changed true e h = h refl
  settle-IsAccounted claims depth budget changed false e h =
      raised-IsAccounted claims depth budget e

  begin-IsAccounted :
      (claims : Counter → ℕ) (deep : ℕ) (body : ParseBudget → Outcome limits) (depth : ℕ)
      (budget changed : ParseBudget) (test : Bool) (e : LimitError)
      → (test ≡ true
          → IsAccounted claims deep budget (leave limits (body (enter limits depth changed))))
      → IsAccounted claims deep budget
          (begin limits body depth budget (require test e >> ok changed))
  begin-IsAccounted claims deep body depth budget changed true e h = h refl
  begin-IsAccounted claims deep body depth budget changed false e h =
      raised-IsAccounted claims deep budget e

  index_injective : (a b : Counter) → (index a == index b) ≡ true → a ≡ b
  index_injective a b h = ground arith

  abbrev pub one : Counter → ℤ → Counter → ℕ
  one counter amount other = if index other == index counter then amount_of amount else 0

  pub consume-IsAccounted :
      (counter : Counter) (amount : ℤ) (budget : ParseBudget)
      → IsAccounted
          (one counter amount)
          0
          budget
          (settle limits budget (consume limits counter amount budget))
  unfolding consume set_counter
  consume-IsAccounted counter (negsuc n) budget =
      raised-IsAccounted (one counter (negsuc n)) 0 budget value_error
  consume-IsAccounted counter (pos n) budget =
      settle-IsAccounted (one counter (pos n)) 0 budget
        (set_counter counter (budget.consumed counter + n) budget)
        (leb (budget.consumed counter + n) (limit_of limits counter)) _
        λ granted. record {
          is_within = λ w. record {
            counters = λ other. elim (Bool-cases (index other == index counter)) [
              | inl e ↦ ground (arith, ap (limit_of limits) (index_injective other counter e))
              | inr e ↦ ground (arith, w.counters other)
            ];
            nesting = w.nesting;
          };
          balanced = refl;
          grows = λ other. elim (Bool-cases (index other == index counter)) [
            | inl e ↦ ground (arith, index_injective other counter e)
            | inr e ↦ ground (arith)
          ];
          deeper = omega arith;
          deepened = λ h. omega arith;
          spent = λ h other. elim (Bool-cases (index other == index counter)) [
            | inl e ↦ ground (arith, ap budget.consumed (index_injective other counter e))
            | inr e ↦ ground (arith)
          ];
        }

  pub consume_nesting-IsAccounted :
      (depth : ℤ) (budget : ParseBudget)
      → IsAccounted
          (λ counter. 0)
          (amount_of depth)
          budget
          (settle limits budget (consume_nesting limits depth budget))
  unfolding consume_nesting
  consume_nesting-IsAccounted (negsuc n) budget =
      raised-IsAccounted (λ counter. 0) 0 budget value_error
  consume_nesting-IsAccounted (pos n) budget =
      settle-IsAccounted (λ counter. 0) n budget
        record budget { max_nesting = max budget.max_nesting n } (leb n limits.max_recursion_depth)
        _
        λ granted. record {
          is_within = λ w. record { counters = w.counters; nesting = ground (arith, w.nesting) };
          balanced = refl;
          grows = λ counter. omega arith;
          deeper = omega arith;
          deepened = λ h. refl;
          spent = λ h counter. omega arith;
        }

  pub nested-IsAccounted :
      (claims : Counter → ℕ) (deep : ℕ) (body : ParseBudget → Outcome limits) (budget : ParseBudget)
      → ((inner : ParseBudget)
          → inner.current_nesting ≡ budget.current_nesting + 1
          → IsAccounted claims deep inner (body inner))
      → IsAccounted claims
          (max (budget.current_nesting + 1) deep)
          budget
          (nested limits body budget)
  unfolding nested consume_nesting
  nested-IsAccounted claims deep body budget h =
      let depth = budget.current_nesting + 1 in
      let entered : ParseBudget = record budget { max_nesting = max budget.max_nesting depth } in
      let inner = h (enter limits depth entered) refl in
      begin-IsAccounted claims (max depth deep) body depth budget entered
        (leb depth limits.max_recursion_depth) _
        λ granted. record {
          is_within = λ w.
              let v =
                inner.is_within
                  record { counters = w.counters; nesting = ground (arith, w.nesting) } in
              record { counters = v.counters; nesting = v.nesting };
          balanced = ap (λ n. n - 1) inner.balanced ∙ omega arith;
          grows = inner.grows;
          deeper = omega (arith, inner.deeper);
          deepened = λ f. omega (arith, inner.deepened f);
          spent = inner.spent;
        }

  pub run_at :
      (parse : Parse limits) (budget : ParseBudget) (level : ℕ)
      → budget.current_nesting ≡ level
      → IsAccounted
          (λ counter. claimed counter parse)
          (deepest level parse)
          budget
          (run limits parse budget)
  unfolding run claimed deepest
  run_at finished budget level l = nothing-IsAccounted budget none
  run_at (fails e) budget level l = raised-IsAccounted (λ counter. 0) 0 budget e
  run_at (consumes counter amount rest) budget level l =
      same-IsAccounted (λ other. refl) (omega arith)
        (then_run-IsAccounted (one counter amount) (λ other. claimed other rest) 0
          (deepest level rest) (run limits rest) budget
          (settle limits budget (consume limits counter amount budget))
          (consume-IsAccounted counter amount budget)
          λ later same. run_at rest later level (same ∙ l))
  run_at (deepens depth rest) budget level l =
      same-IsAccounted (λ other. omega arith) refl
        (then_run-IsAccounted (λ other. 0) (λ other. claimed other rest) (amount_of depth)
          (deepest level rest) (run limits rest) budget
          (settle limits budget (consume_nesting limits depth budget))
          (consume_nesting-IsAccounted depth budget)
          λ later same. run_at rest later level (same ∙ l))
  run_at (nests member rest) budget level l =
      then_run-IsAccounted (λ other. claimed other member) (λ other. claimed other rest)
        (max (level + 1) (deepest (level + 1) member)) (deepest level rest) (run limits rest) budget
        (nested limits (run limits member) budget)
        (same-IsAccounted (λ other. refl) (ap (λ n. max (n + 1) (deepest (level + 1) member)) l)
          (nested-IsAccounted (λ other. claimed other member) (deepest (level + 1) member)
            (run limits member) budget
            λ inner same. run_at member inner (level + 1) (same ∙ ap (λ n. n + 1) l)))
        λ later same. run_at rest later level (same ∙ l)
