-- ===== src/Intake/Transition/Once.antt =====
-- What a transition does, and that one wins per version of an intake
-- (clerksan/db/repositories.py, `SourceIntakeRepo.transition`).
use clerk_san.Intake.Fields.{clean_optional_text, IntakeError, validation, clean_text}
use clerk_san.Prelude.{
  Bool, Ensures-bind, Option, Result, [], ap, arith, err, inl, inr, is_some, leb, none, not, ok,
  refl, require, require-holds, some, subst, sym, true, ℕ, ◌&&◌, ◌+◌, ◌∷◌, ◌≡◌, ◌≢◌, ◌⊎◌,
}
use clerk_san.Models.{SourceIntakeState}
use clerk_san.Intake.Row.{SourceIntake}
use clerk_san.Intake.Transition.{
  Change, Intakes, allowed, current_intake, find, is_failed, same_state, state_argument, transition,
  update_where, exactly_one_row, moved, targeted,
}

module _ (test : SourceIntake → Bool) (change : SourceIntake → SourceIntake) where
  find-update_where :
      (key : ℕ) (rows : Intakes) (row : SourceIntake)
      → ((r : SourceIntake) → (change r).id ≡ r.id)
      → find key rows ≡ some row
      → test row ≡ true
      → find key (update_where test change rows).0 ≡ some (change row)
  unfolding find update_where
  find-update_where key [] row h e t = cc
  find-update_where key (r ∷ rows) row h e t = ground (arith, h r, find-update_where key rows row h)

  find-update_where_other :
      (key other : ℕ) (rows : Intakes)
      → ((r : SourceIntake) → (change r).id ≡ r.id)
      → ((r : SourceIntake) → test r ≡ true → r.id ≡ key)
      → other ≢ key
      → find other (update_where test change rows).0 ≡ find other rows
  unfolding find update_where
  find-update_where_other key other [] h t n = refl
  find-update_where_other key other (r ∷ rows) h t n =
      ground (arith, h r, t r, find-update_where_other key other rows h t n)

find-id : (key : ℕ) (rows : Intakes) (row : SourceIntake) → find key rows ≡ some row → row.id ≡ key
unfolding find
find-id key [] row e = cc
find-id key (r ∷ rows) row e = ground (arith, find-id key rows row)

same_state_refl : (state : SourceIntakeState) → same_state state state ≡ true
same_state_refl state = ground arith

-- The row `before` of the intake became `after`, along an edge of the table.
pub record IsMove (change : Change) (before after : SourceIntake) : Type 0 where
  pub expected : before.version ≡ change.expected_version
  pub next : after.version ≡ change.expected_version + 1
  pub edge : allowed before.state after.state ≡ true
  pub named : state_argument change.state ≡ ok after.state
  pub explained : is_failed after.state ≡ true → is_some after.reason_code ≡ true
  pub reason : after.reason_code ≡ clean_optional_text change.reason_code
  pub retry : after.retryable ≡ change.retryable
  pub phase : after.failure_phase ≡ clean_optional_text change.failure_phase
  pub kept : after ≡ record before {
    state = after.state;
    version = after.version;
    reason_code = after.reason_code;
    retryable = after.retryable;
    failure_phase = after.failure_phase;
  }

pub record IsTransition (intake_id : ℕ) (change : Change) (rows : Intakes) (result : Intakes × ℕ)
    : Type 0 where
  pub before : SourceIntake
  pub after : SourceIntake
  pub found : find intake_id rows ≡ some before
  pub stored : find intake_id result.0 ≡ some after
  pub move : IsMove change before after
  pub version : result.1 ≡ after.version
  pub others : (other : ℕ) → other ≢ intake_id → find other result.0 ≡ find other rows

current_intake-eq-ok :
    (o : Option SourceIntake) (version : ℕ) (row : SourceIntake)
    → current_intake o version ≡ ok row
    → (o ≡ some row) × (row.version ≡ version)
current_intake-eq-ok none version row h = cc
current_intake-eq-ok (some current) version row h = ground arith

exactly_one_row-eq-ok :
    (updated : Intakes × ℕ) (version : ℕ) (result : Intakes × ℕ)
    → exactly_one_row updated version ≡ ok result
    → result ≡ (updated.0, version)
exactly_one_row-eq-ok (rows, count) version result h = ground arith

-- The row that the update writes
abbrev written : Change → SourceIntakeState → SourceIntake → SourceIntake
written change state row =
    moved state (clean_optional_text change.reason_code) change.retryable
      (clean_optional_text change.failure_phase) row

written-IsTransition :
    (rows : Intakes) (intake_id : ℕ) (change : Change) (state : SourceIntakeState)
    (current : SourceIntake)
    → state_argument change.state ≡ ok state
    → (find intake_id rows ≡ some current) × (current.version ≡ change.expected_version)
    → allowed current.state state ≡ true
    → not (is_failed state && not (is_some (clean_optional_text change.reason_code))) ≡ true
    → IsTransition intake_id change rows (
      (update_where
          (targeted intake_id change.expected_version current.state)
          (written change state)
          rows).0,
      change.expected_version + 1,
    )
written-IsTransition rows intake_id change state current named (found, expected) edge explained =
    let test = targeted intake_id change.expected_version current.state in
    let id = find-id intake_id rows current found in
    record {
      before = current;
      after = written change state current;
      found = found;
      stored =
          find-update_where test (written change state) intake_id rows current (λ r. refl) found
            (ground (arith, same_state_refl current.state));
      move = record {
        expected = expected;
        next = ap (λ n. n + 1) expected;
        edge = edge;
        named = named;
        explained = λ h. ground arith;
        reason = refl;
        retry = refl;
        phase = refl;
        kept = refl;
      };
      version = ap (λ n. n + 1) (sym expected);
      others = λ other n.
          find-update_where_other test (written change state) intake_id other rows (λ r. refl)
            (λ r t. ground arith) n;
    }

-- Either it returned or it raised.
outcome : {E A : Type 0} (m : Result E A) → ((a : A) × (m ≡ ok a)) ⊎ ((e : E) × (m ≡ err e))
outcome (ok a) = inl (a, refl)
outcome (err e) = inr (e, refl)

-- A transition that succeeds moved the intake it names, which had the expected version, along an
-- edge of the table to the state it asks for, with the next version, which it returns; the reason,
-- the phase of the failure and whether it may be retried are those that were given, the texts cleaned,
-- and a failed intake has a reason; all other columns of the intake and all other intakes are
-- unchanged.
pub transition_lem :
    (rows : Intakes) (intake_id : ℕ) (change : Change) (result : Intakes × ℕ)
    → transition rows intake_id change ≡ ok result
    → IsTransition intake_id change rows result
unfolding transition
transition_lem rows intake_id change result h =
    let reason = clean_optional_text change.reason_code in
    let chain =
      Ensures-bind {P = IsTransition intake_id change rows}
        (require (leb 1 change.expected_version) validation) _
        λ u positive. Ensures-bind (state_argument change.state) _ λ state named.
          Ensures-bind (current_intake (find intake_id rows) change.expected_version) _
            λ current found.
              Ensures-bind (require (allowed current.state state) validation) _ λ v edge.
                Ensures-bind (require (not (is_failed state && not (is_some reason))) validation) _
                  λ w explained. Ensures-bind (clean_text change.actor) _ λ actor cleaned. record {
                    at = λ b e.
                        subst (IsTransition intake_id change rows)
                          (sym (
                            exactly_one_row-eq-ok
                              (update_where
                                (targeted intake_id change.expected_version current.state)
                                (written change state) rows)
                              (change.expected_version + 1) b e))
                          (written-IsTransition rows intake_id change state current named
                            (current_intake-eq-ok (find intake_id rows) change.expected_version
                              current found)
                            (require-holds _ _ v edge) (require-holds _ _ w explained));
                  } in
    chain.at result h

-- Of two transitions of one intake that expect the same version, the second raises, whatever else
-- they ask for, if the first succeeded.
pub transition_once :
    (rows : Intakes) (intake_id : ℕ) (first second : Change) (result : Intakes × ℕ)
    → transition rows intake_id first ≡ ok result
    → second.expected_version ≡ first.expected_version
    → (e : IntakeError) × (transition result.0 intake_id second ≡ err e)
transition_once rows intake_id first second result h same =
    let won = transition_lem rows intake_id first result h in
    elim (outcome (transition result.0 intake_id second)) [
      | inr raised ↦ raised
      | inl (again, e) ↦
          let lost = transition_lem result.0 intake_id second again e in
          let stored = won.stored in
          let found = lost.found in
          let next = won.move.next in
          let expected = lost.move.expected in
          let row : won.after ≡ lost.before = cc in
          let version = ap (λ (r : SourceIntake). r.version) row in absurd (omega (arith, version))
    ]
