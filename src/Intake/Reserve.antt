-- ===== src/Intake/Reserve.antt =====
-- `SourceIntakeRepo.reserve_upload_idempotency` of clerksan/db/repositories.py. A UUID is a number;
-- the insert that does nothing on a conflict (SQLite) and the one in a savepoint (PostgreSQL) act
-- alike on the rows. `owned` is the set of keys that the session remembers as its own.
pub mod Exclusive
use clerk_san.Prelude.{
  Bool, List, Option, String, [], err, false, holds, if◌then◌else◌, is_some, ltb, none, not, ok,
  require, select, some, str_eq, true, ℕ, ◌&&◌, ◌==◌, ◌>>=◌, ◌>>◌, ◌||◌, ◌∷◌,
}
use clerk_san.Prelude.Strings.{size, every}
use clerk_san.Models.{IntakeIntent, SourceIntakeState}
use clerk_san.Jobs.Row.{Job}
use clerk_san.Jobs.Payload.{get, Json, natural, Payload}
use clerk_san.Jobs.Fields.{is_lower_hex}
use clerk_san.Intake.Row.{SourceIntake}
use clerk_san.Intake.Fields.{IntakeResult, validate_digest, validation, value_error}
use clerk_san.Intake.Transition.{find}

-- `UploadIdempotencyReservation` of clerksan/db/models.py
pub record Reservation : Type 0 where
  pub upload_idempotency_key : ℕ
  pub source_sha256 : String
  pub intent_digest : String
  pub source_intake_id : Option ℕ

pub record Session : Type 0 where
  pub reservations : List Reservation
  pub owned : List ℕ

-- `key: UUID | str`
pub data KeyArgument : Type 0 where
  uuid : ℕ → KeyArgument
  text : String → KeyArgument

-- `IntakeReplayMetadata`, with the job as a whole
pub record ReplayMetadata : Type 0 where
  pub intake_id : ℕ
  pub document_id : ℕ
  pub source_file_id : ℕ
  pub source_version : ℕ
  pub source_sha256 : String
  pub duplicate_of_document_id : Option ℕ
  pub intake_intent : IntakeIntent
  pub state : SourceIntakeState
  pub reason_code : Option String
  pub job : Option Job

pub data UploadIdempotency : Type 0 where
  fresh_upload conflict : UploadIdempotency
  replay : ReplayMetadata → UploadIdempotency

-- `_normalize_upload_idempotency_key`; `read_uuid` is the constructor `UUID` on a text.
abbrev pub normalize_key : (String → Option ℕ) → KeyArgument → IntakeResult ℕ
normalize_key read_uuid (uuid key) = ok key
normalize_key read_uuid (text value) = elim (read_uuid value) [
  | none ↦ err validation
  | some key ↦ ok key
]

-- `_validate_sha256`
unfoldable pub validate_sha256 : String → IntakeResult (Unit {0})
unfolding size every
validate_sha256 value = require (size value == 64 && every is_lower_hex value) value_error

unfoldable pub held : ℕ → List ℕ → Bool
held key [] = false
held key (x ∷ xs) = x == key || held key xs

-- `owned_keys.discard(key_text)`
unfoldable pub discard : ℕ → List ℕ → List ℕ
discard key keys = select (λ x. not (x == key)) keys

unfoldable pub reserved : ℕ → List Reservation → Option Reservation
reserved key [] = none
reserved key (row ∷ rows) =
    if row.upload_idempotency_key == key then some row else reserved key rows

-- The insert: nothing where the key has a row
unfoldable pub insert_reservation : Reservation → List Reservation → Option (List Reservation)
unfolding reserved
insert_reservation row rows =
    if is_some (reserved row.upload_idempotency_key rows) then none else some (row ∷ rows)

-- `_job_source_version(job.payload)`
abbrev pub positive_version : Option Json → Option ℕ
positive_version (some (natural n)) = if ltb 0 n then some n else none
positive_version _ = none

unfoldable pub is_source_job : SourceIntake → Job → Bool
unfolding get
is_source_job intake job =
    job.document_id == intake.document_id
    && holds (λ v. v == intake.source_version) (positive_version (get "source_version" job.payload))
    && str_eq job.job_type "process_document"

-- `max(source_jobs, key=_job_order, default=None)`, the first of the greatest
module _ (job_ltb : Job → Job → Bool) where
  abbrev pub latest_of : Job → Option Job → Option Job
  latest_of job none = some job
  latest_of job (some other) = if job_ltb job other then some other else some job

  unfoldable pub latest_job : List Job → Option Job
  latest_job [] = none
  latest_job (job ∷ jobs) = latest_of job (latest_job jobs)

-- What surrounds a call: the intakes and jobs of the database, the reader of UUIDs, and the order
-- of `_job_order`, which reads a column that a `Job` here leaves out
pub record Surroundings : Type 0 where
  pub intakes : List SourceIntake
  pub jobs : List Job
  pub read_uuid : String → Option ℕ
  pub job_ltb : Job → Job → Bool

unfoldable pub replay_of : Surroundings → SourceIntake → ReplayMetadata
unfolding is_source_job latest_job
replay_of env intake = record {
  intake_id = intake.id;
  document_id = intake.document_id;
  source_file_id = intake.source_file_id;
  source_version = intake.source_version;
  source_sha256 = intake.source_sha256;
  duplicate_of_document_id = intake.duplicate_of_document_id;
  intake_intent = intake.intake_intent;
  state = intake.state;
  reason_code = intake.reason_code;
  job = latest_job env.job_ltb (select (is_source_job intake) env.jobs);
}

-- `intake is None or intake.upload_idempotency_key != normalized_key`
abbrev pub replay_bound : Surroundings → ℕ → Option SourceIntake → UploadIdempotency
replay_bound env key none = conflict
replay_bound env key (some intake) =
    if holds (λ k. k == key) intake.upload_idempotency_key
    then replay (replay_of env intake)
    else conflict

-- A row with the same content: bound to an intake or not
abbrev pub resolve_bound : Surroundings → Bool → ℕ → Option ℕ → UploadIdempotency
resolve_bound env owned key none = if owned then fresh_upload else conflict
resolve_bound env owned key (some intake_id) = replay_bound env key (find intake_id env.intakes)

abbrev pub resolve :
    Surroundings → Bool → ℕ → String → String → Option Reservation → IntakeResult UploadIdempotency
resolve env owned key sha256 intent none = err validation
resolve env owned key sha256 intent (some row) =
    if str_eq row.source_sha256 sha256 && str_eq row.intent_digest intent
    then ok (resolve_bound env owned key row.source_intake_id)
    else ok conflict

-- After the insert was refused, the row that stands is resolved.
abbrev pub inserted_or :
    Session
    → ℕ
    → Option (List Reservation)
    → IntakeResult UploadIdempotency
    → IntakeResult (Session × UploadIdempotency)
inserted_or session key (some rows) standing =
    ok (record { reservations = rows; owned = key ∷ session.owned }, fresh_upload)
inserted_or session key none standing = standing >>= λ outcome. ok (session, outcome)

-- The keys that the session still owns
unfoldable pub pruned : Session → ℕ → List ℕ
unfolding held discard reserved
pruned session key =
    if held key session.owned && not (is_some (reserved key session.reservations))
    then discard key session.owned
    else session.owned

unfoldable pub reserve_key :
    Surroundings → Session → ℕ → String → String → IntakeResult (Session × UploadIdempotency)
unfolding pruned held insert_reservation reserved
reserve_key env session key sha256 intent =
    let owned = pruned session key in
    let kept : Session = record session { owned = owned } in
    let found = reserved key session.reservations in
    let row : Reservation = record {
      upload_idempotency_key = key;
      source_sha256 = sha256;
      intent_digest = intent;
      source_intake_id = none;
    } in
    if held key owned
    then (resolve env true key sha256 intent found >>= λ outcome. ok (kept, outcome))
    else inserted_or kept key (insert_reservation row session.reservations)
        (resolve env false key sha256 intent found)

unfoldable pub reserve_upload_idempotency :
    Surroundings
    → Session
    → KeyArgument
    → String
    → String
    → IntakeResult (Session × UploadIdempotency)
unfolding validate_sha256 validate_digest reserve_key
reserve_upload_idempotency env session key source_sha256 intent_digest = do
  normalized_key ← normalize_key env.read_uuid key
  validate_sha256 source_sha256
  normalized_intent ← validate_digest intent_digest
  reserve_key env session normalized_key source_sha256 normalized_intent
