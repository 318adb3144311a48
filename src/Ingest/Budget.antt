-- ===== src/Ingest/Budget.antt =====
-- `ParseBudget` of clerksan/ingest/limits.py: the counters that one source's parse shares, and a
-- parse as the sequence of the calls that it makes on its budget.
pub mod Accounted
pub mod Granted
pub mod Within
use clerk_san.Prelude.{
  Option, String, err, if◌then◌else◌, max, none, ok, pos, some, ℕ, ℤ, ◌+◌, ◌-◌, ◌==◌, ◌>>=◌, ◌>>◌,
}
use clerk_san.Ingest.Limits.{IngestLimits, LimitError, LimitResult, nonnegative, within}

-- The counters, by the resource they count
pub data Counter : Type 0 where
  bytes pixels frames pages characters nodes rows cells parts normalized_output : Counter

-- The field of `IngestLimits` that `consume_*` hands to `_consume` with its counter
abbrev pub limit_of : IngestLimits → Counter → ℕ
limit_of limits bytes = limits.max_archive_uncompressed_bytes
limit_of limits pixels = limits.max_image_pixels
limit_of limits frames = limits.max_image_frames
limit_of limits pages = limits.max_pdf_pages
limit_of limits characters = limits.max_text_characters
limit_of limits nodes = limits.max_structured_nodes
limit_of limits rows = limits.max_tabular_rows
limit_of limits cells = limits.max_tabular_cells
limit_of limits parts = limits.max_archive_members
limit_of limits normalized_output = limits.max_normalized_output_bytes

abbrev pub limit_name : Counter → String
limit_name bytes = "max_archive_uncompressed_bytes"
limit_name pixels = "max_image_pixels"
limit_name frames = "max_image_frames"
limit_name pages = "max_pdf_pages"
limit_name characters = "max_text_characters"
limit_name nodes = "max_structured_nodes"
limit_name rows = "max_tabular_rows"
limit_name cells = "max_tabular_cells"
limit_name parts = "max_archive_members"
limit_name normalized_output = "max_normalized_output_bytes"

abbrev pub index : Counter → ℕ
index bytes = 0
index pixels = 1
index frames = 2
index pages = 3
index characters = 4
index nodes = 5
index rows = 6
index cells = 7
index parts = 8
index normalized_output = 9

pub record ParseBudget : Type 0 where
  pub consumed : Counter → ℕ
  pub max_nesting : ℕ
  pub current_nesting : ℕ

-- `setattr(self, counter_name, observed)`
unfoldable pub set_counter : Counter → ℕ → ParseBudget → ParseBudget
set_counter counter n budget = record budget {
  consumed = λ other. if index other == index counter then n else budget.consumed other;
}

module _ (limits : IngestLimits) where
  -- `_consume`
  unfoldable pub consume : Counter → ℤ → ParseBudget → LimitResult ParseBudget
  unfolding set_counter
  consume counter amount budget = do
    n ← nonnegative amount
    within (limit_name counter) (limit_of limits counter) (budget.consumed counter + n)
    ok (set_counter counter (budget.consumed counter + n) budget)

  unfoldable pub consume_nesting : ℤ → ParseBudget → LimitResult ParseBudget
  consume_nesting depth budget = do
    n ← nonnegative depth
    within "max_recursion_depth" limits.max_recursion_depth n
    ok record budget { max_nesting = max budget.max_nesting n }

  -- What a parse did to the budget it shares, and whether it raised. An error leaves the budget
  -- as it was when the error was raised.
  abbrev pub Outcome : Type 0
  Outcome = ParseBudget × Option LimitError

  abbrev pub settle : ParseBudget → LimitResult ParseBudget → Outcome
  settle budget (ok changed) = (changed, none)
  settle budget (err e) = (budget, some e)

  -- A call after another runs only if the other did not raise.
  abbrev pub then_run : (ParseBudget → Outcome) → Outcome → Outcome
  then_run rest (budget, none) = rest budget
  then_run rest (budget, some e) = (budget, some e)

  abbrev pub enter : ℕ → ParseBudget → ParseBudget
  enter depth budget = record budget { current_nesting = depth }

  -- The `finally` of `nested`
  abbrev pub leave : Outcome → Outcome
  leave after = (record after.0 { current_nesting = after.0.current_nesting - 1 }, after.1)

  -- The body runs one level deeper only if the depth was granted.
  abbrev pub begin : (ParseBudget → Outcome) → ℕ → ParseBudget → LimitResult ParseBudget → Outcome
  begin body depth budget (err e) = (budget, some e)
  begin body depth budget (ok entered) = leave (body (enter depth entered))

  -- `with budget.nested(): body`
  unfoldable pub nested : (ParseBudget → Outcome) → ParseBudget → Outcome
  unfolding consume_nesting
  nested body budget =
      let next_depth = budget.current_nesting + 1 in
      begin body next_depth budget (consume_nesting (pos next_depth) budget)

  -- The calls of a parse, in the order in which it makes them: `deepens` is a direct call of
  -- `consume_nesting`, `nests` a block of `with budget.nested()`.
  pub data Parse : Type 0 where
    finished : Parse
    fails : LimitError → Parse
    consumes : Counter → ℤ → Parse → Parse
    deepens : ℤ → Parse → Parse
    nests : Parse → Parse → Parse

  unfoldable pub run : Parse → ParseBudget → Outcome
  unfolding consume consume_nesting nested
  run finished budget = (budget, none)
  run (fails e) budget = (budget, some e)
  run (consumes counter amount rest) budget =
      then_run (run rest) (settle budget (consume counter amount budget))
  run (deepens depth rest) budget =
      then_run (run rest) (settle budget (consume_nesting depth budget))
  run (nests member rest) budget = then_run (run rest) (nested (run member) budget)
