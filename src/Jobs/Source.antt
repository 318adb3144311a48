-- ===== src/Jobs/Source.antt =====
-- The exact source that a job's payload names (clerksan/ingest/jobs.py,
-- `_source_intake_for_payload` and `_resolve_intake_intent`). How the standard library reads a
-- UUID from a value, and writes it, is an argument.
use clerk_san.Prelude.{
  Bool, List, Option, String, [], err, if◌then◌else◌, is_some, ltb, none, not, ok, select, some,
  str_eq, true, ℕ, ◌&&◌, ◌==◌, ◌>>=◌, ◌∷◌,
}
use clerk_san.Models.{IntakeIntent, IntentArgument, absent, intent_of, member, named, same_intent}
use clerk_san.Intake.Row.{SourceIntake}
use clerk_san.Jobs.Payload.{Json, Payload, end, entry, get, natural, string}
use clerk_san.Jobs.Row.{JobResult, value_error}

-- `payload[key] = value`: an entry keeps its place, a new one goes to the end
unfoldable pub put : String → Json → Payload → Payload
put k v end = entry k v end
put k v (entry j w rest) = if str_eq j k then entry j v rest else entry j w (put k v rest)

-- What the code uses of the standard library's `uuid.UUID`
pub record Uuids : Type 0 where
  pub read : Json → Option ℕ
  pub write : ℕ → String

-- `_provided_payload_uuid`
unfoldable pub provided_payload_uuid : Uuids → Payload → String → JobResult (Option ℕ)
unfolding get
provided_payload_uuid uuids payload field_name = elim (get field_name payload) [
  | none ↦ ok none
  | some value ↦ elim (uuids.read value) [ none ↦ err value_error | some id ↦ ok (some id) ]
]

-- `_payload_source_version`: a positive integer that is no Boolean
abbrev pub payload_source_version : Json → Option ℕ
payload_source_version (natural n) = if ltb 0 n then some n else none
payload_source_version _ = none

-- `_provided_payload_source_version`
unfoldable pub provided_payload_source_version : Payload → String → JobResult (Option ℕ)
unfolding get
provided_payload_source_version payload field_name = elim (get field_name payload) [
  | none ↦ ok none
  | some value ↦ elim (payload_source_version value) [
    | none ↦ err value_error
    | some n ↦ ok (some n)
  ]
]

-- A `where` clause that is added only for a value that was supplied
abbrev pub matches : Option ℕ → ℕ → Bool
matches none column = true
matches (some value) column = column == value

unfoldable pub source_matches : ℕ → Option ℕ → Option ℕ → Option ℕ → SourceIntake → Bool
source_matches document_id intake_id file_id version row =
    row.document_id == document_id
    && matches intake_id row.id
    && matches file_id row.source_file_id
    && matches version row.source_version

-- `len(matches) != 1` raises
abbrev pub exactly_one : List SourceIntake → JobResult SourceIntake
exactly_one (row ∷ []) = ok row
exactly_one _ = err value_error

-- The canonical identity that is written back into the payload
unfoldable pub identified : Uuids → SourceIntake → Payload → Payload
unfolding put
identified uuids row payload = put "source_version" (natural row.source_version) (
    put "source_file_id" (string (uuids.write row.source_file_id))
      (put "source_intake_id" (string (uuids.write row.id)) payload))

abbrev pub none_given : Option ℕ → Option ℕ → Option ℕ → Bool
none_given a b c = not (is_some a) && not (is_some b) && not (is_some c)

-- `_source_intake_for_payload`
unfoldable pub source_intake_for_payload :
    Uuids → List SourceIntake → ℕ → Payload → JobResult (Option SourceIntake × Payload)
unfolding provided_payload_uuid provided_payload_source_version source_matches identified
source_intake_for_payload uuids intakes document_id payload = do
  intake_id ← provided_payload_uuid uuids payload "source_intake_id"
  file_id ← provided_payload_uuid uuids payload "source_file_id"
  version ← provided_payload_source_version payload "source_version"
  if none_given intake_id file_id version then ok (none, payload) else do
    row ← exactly_one (select (source_matches document_id intake_id file_id version) intakes)
    ok (some row, identified uuids row payload)

-- `_normalize_optional_intake_intent`
unfoldable pub normalize_optional_intake_intent : IntentArgument → JobResult (Option IntakeIntent)
unfolding intent_of
normalize_optional_intake_intent absent = ok none
normalize_optional_intake_intent (member intent) = ok (some intent)
normalize_optional_intake_intent (named value) = elim (intent_of value) [
  | none ↦ err value_error
  | some intent ↦ ok (some intent)
]

-- `requested_intent or IntakeIntent.LEGACY_UNSPECIFIED`
abbrev pub or_legacy : Option IntakeIntent → IntakeIntent
or_legacy none = IntakeIntent.legacy_unspecified
or_legacy (some intent) = intent

abbrev pub agreed_intent : Option IntakeIntent → Option SourceIntake → JobResult IntakeIntent
agreed_intent requested none = ok (or_legacy requested)
agreed_intent none (some row) = ok row.intake_intent
agreed_intent (some intent) (some row) =
    if same_intent intent row.intake_intent then ok row.intake_intent else err value_error

-- `_resolve_intake_intent`, with the payload that it updates
unfoldable pub resolve_intake_intent :
    Uuids
    → List SourceIntake
    → ℕ
    → Payload
    → IntentArgument
    → JobResult (IntakeIntent × Option SourceIntake × Payload)
unfolding normalize_optional_intake_intent source_intake_for_payload
resolve_intake_intent uuids intakes document_id payload requested = do
  requested_intent ← normalize_optional_intake_intent requested
  resolved ← source_intake_for_payload uuids intakes document_id payload
  intent ← agreed_intent requested_intent resolved.0
  ok (intent, resolved.0, resolved.1)
