-- ===== src/Intake/Transition.antt =====
-- `SourceIntakeRepo.transition` of clerksan/db/repositories.py: the table of the edges of an
-- intake's life, and the optimistic update.
pub mod Once
use clerk_san.Prelude.{
  Bool, List, Option, String, [], err, false, if◌then◌else◌, is_some, leb, none, not, ok, require,
  some, str_eq, true, ℕ, ◌&&◌, ◌+◌, ◌==◌, ◌>>=◌, ◌>>◌, ◌∷◌,
}
use clerk_san.Models.{
  SourceIntakeState, failed, needs_mapping, processed, processing, queued, stored_unprocessed,
}
use clerk_san.Intake.Row.{SourceIntake}
use clerk_san.Intake.Fields.{IntakeResult, clean_optional_text, clean_text, stale, validation}

abbrev pub Intakes : Type 0
Intakes = List SourceIntake

abbrev pub same_state : SourceIntakeState → SourceIntakeState → Bool
same_state SourceIntakeState.queued SourceIntakeState.queued = true
same_state SourceIntakeState.processing SourceIntakeState.processing = true
same_state SourceIntakeState.processed SourceIntakeState.processed = true
same_state SourceIntakeState.needs_mapping SourceIntakeState.needs_mapping = true
same_state SourceIntakeState.stored_unprocessed SourceIntakeState.stored_unprocessed = true
same_state SourceIntakeState.failed SourceIntakeState.failed = true
same_state _ _ = false

-- `SourceIntakeState(value)`
unfoldable pub state_of : String → Option SourceIntakeState
state_of value =
    if str_eq value "queued"
    then some SourceIntakeState.queued
    else if str_eq value "processing"
    then some SourceIntakeState.processing
    else if str_eq value "processed"
    then some SourceIntakeState.processed
    else if str_eq value "needs_mapping"
    then some SourceIntakeState.needs_mapping
    else if str_eq value "stored_unprocessed"
    then some SourceIntakeState.stored_unprocessed
    else if str_eq value "failed"
    then some SourceIntakeState.failed
    else none

-- `state in _SOURCE_INTAKE_TRANSITIONS[current]`
abbrev pub allowed : SourceIntakeState → SourceIntakeState → Bool
allowed SourceIntakeState.queued SourceIntakeState.queued = false
allowed SourceIntakeState.queued state = true
allowed SourceIntakeState.processing SourceIntakeState.processing = false
allowed SourceIntakeState.processing state = true
allowed SourceIntakeState.processed SourceIntakeState.queued = true
allowed SourceIntakeState.processed state = false
allowed SourceIntakeState.needs_mapping SourceIntakeState.queued = true
allowed SourceIntakeState.needs_mapping SourceIntakeState.processing = true
allowed SourceIntakeState.needs_mapping SourceIntakeState.failed = true
allowed SourceIntakeState.needs_mapping state = false
allowed SourceIntakeState.stored_unprocessed SourceIntakeState.queued = true
allowed SourceIntakeState.stored_unprocessed SourceIntakeState.processing = true
allowed SourceIntakeState.stored_unprocessed SourceIntakeState.failed = true
allowed SourceIntakeState.stored_unprocessed state = false
allowed SourceIntakeState.failed SourceIntakeState.queued = true
allowed SourceIntakeState.failed state = false

abbrev pub is_failed : SourceIntakeState → Bool
is_failed SourceIntakeState.failed = true
is_failed _ = false

-- The argument `state`: a member, or a text that names one
pub data StateArgument : Type 0 where
  member : SourceIntakeState → StateArgument
  named : String → StateArgument

abbrev pub state_argument : StateArgument → IntakeResult SourceIntakeState
state_argument (member state) = ok state
state_argument (named value) = elim (state_of value) [
  | none ↦ err validation
  | some state ↦ ok state
]

pub record Change : Type 0 where
  pub expected_version : ℕ
  pub state : StateArgument
  pub actor : String
  pub reason_code : Option String
  pub retryable : Bool
  pub failure_phase : Option String

-- `select(SourceIntake).where(SourceIntake.id == intake_id)`
unfoldable pub find : ℕ → Intakes → Option SourceIntake
find key [] = none
find key (row ∷ rows) = if row.id == key then some row else find key rows

-- The `where` of the conditional update
abbrev pub targeted : ℕ → ℕ → SourceIntakeState → SourceIntake → Bool
targeted intake_id expected_version state row =
    row.id == intake_id && row.version == expected_version && same_state row.state state

-- The `values` of the conditional update
abbrev pub moved :
    SourceIntakeState → Option String → Bool → Option String → SourceIntake → SourceIntake
moved state reason retryable phase row = record row {
  state = state;
  reason_code = reason;
  retryable = retryable;
  failure_phase = phase;
  version = row.version + 1;
}

-- An `UPDATE`: the rows after it, and its `rowcount`
unfoldable pub update_where :
    (SourceIntake → Bool) → (SourceIntake → SourceIntake) → Intakes → Intakes × ℕ
update_where test change [] = ([], 0)
update_where test change (row ∷ rows) =
    let (rest, count) = update_where test change rows in
    if test row then (change row ∷ rest, count + 1) else (row ∷ rest, count)

-- `if current is None or current.version != expected_version`
abbrev pub current_intake : Option SourceIntake → ℕ → IntakeResult SourceIntake
current_intake none expected_version = err stale
current_intake (some current) expected_version =
    if current.version == expected_version then ok current else err stale

-- `if result.rowcount != 1`
abbrev pub exactly_one_row : Intakes × ℕ → ℕ → IntakeResult (Intakes × ℕ)
exactly_one_row (rows, count) version = if count == 1 then ok (rows, version) else err stale

unfoldable pub transition : Intakes → ℕ → Change → IntakeResult (Intakes × ℕ)
unfolding find update_where state_of clean_text clean_optional_text
transition rows intake_id change =
    let reason = clean_optional_text change.reason_code in
    do
      require (leb 1 change.expected_version) validation
      state ← state_argument change.state
      current ← current_intake (find intake_id rows) change.expected_version
      require (allowed current.state state) validation
      require (not (is_failed state && not (is_some reason))) validation
      actor ← clean_text change.actor
      exactly_one_row
          (update_where (targeted intake_id change.expected_version current.state)
            (moved state reason change.retryable (clean_optional_text change.failure_phase)) rows)
          (change.expected_version + 1)
