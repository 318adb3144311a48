-- ===== src/Jobs/Enqueue.antt =====
-- `enqueue` of clerksan/ingest/jobs.py.
pub mod Prepared
pub mod Replay
use clerk_san.Prelude.{
  Bool, List, Option, String, [], err, false, holds, if◌then◌else◌, none, not, ok, require, some,
  str_eq, true, ℕ, ◌&&◌, ◌==◌, ◌>>=◌, ◌>>◌, ◌||◌, ◌∷◌,
}
use clerk_san.Models.{
  ExecutionProfile, IntentArgument, JobStatus, intent_name, is_legacy, is_universal, IntakeIntent,
}
use clerk_san.Intake.Row.{SourceIntake}
use clerk_san.Jobs.Payload.{
  Items, Json, Payload, array, boolean, cons, end, entry, get, natural, negative, nil, null, object,
  opaque, real, string,
}
use clerk_san.Jobs.Row.{Job, JobResult, Registry, Settings, type_error, value_error}
use clerk_san.Jobs.Table.{Jobs}
use clerk_san.Jobs.Fields.{clean_nonempty, normalize_required_components, validate_optional_digest}
use clerk_san.Jobs.Source.{Uuids, identified, put, resolve_intake_intent}

-- The keyword arguments of `enqueue`; `settings` holds the intake mode of the given settings.
pub record Request : Type 0 where
  pub job_type : String
  pub payload : Payload
  pub idempotency_key : String
  pub settings : Option Settings
  pub registry_digest : Option String
  pub capabilities_digest : Option String
  pub requirements_digest : Option String
  pub required_components : List String
  pub intake_intent : IntentArgument
  pub capability_registry : Option Registry

-- What a call finds: the documents, intakes and jobs of the database, and the clock of its
-- `now()` defaults. `fresh` is the identifier that `uuid4` draws.
pub record Database : Type 0 where
  pub documents : List ℕ
  pub intakes : List SourceIntake
  pub jobs : Jobs
  pub now : ℕ
  pub fresh : ℕ

-- Code outside this module: UUIDs, SHA-256 of the components' JSON, the registry of settings
pub record Library : Type 0 where
  pub uuids : Uuids
  pub required_components_digest : List String → String
  pub build_capability_registry : Settings → JobResult Registry

-- `json.dumps` accepts every value but those that are no JSON.
mutual
  pub json_safe : Json → Bool
  json_safe opaque = false
  json_safe (array items) = items_safe items
  json_safe (object payload) = payload_safe payload
  json_safe null = true
  json_safe (boolean b) = true
  json_safe (natural n) = true
  json_safe (negative n) = true
  json_safe (real x) = true
  json_safe (string s) = true

  pub items_safe : Items → Bool
  items_safe nil = true
  items_safe (cons value items) = json_safe value && items_safe items

  pub payload_safe : Payload → Bool
  payload_safe end = true
  payload_safe (entry key value rest) = json_safe value && payload_safe rest

-- `stored.get("document_id")`
abbrev pub or_null : Option Json → Json
or_null none = null
or_null (some value) = value

-- `_job_document_payload`
unfoldable pub job_document_payload : Uuids → Payload → JobResult (ℕ × Payload)
unfolding get put payload_safe
job_document_payload uuids payload = elim (uuids.read (or_null (get "document_id" payload))) [
  | none ↦ err value_error
  | some document_id ↦
      let stored = put "document_id" (string (uuids.write document_id)) payload in
      if payload_safe stored then ok (document_id, stored) else err type_error
]

abbrev pub or_else : Option String → Option String → Option String
or_else (some value) other = some value
or_else none other = other

-- The registry whose digests are the defaults
pub active_registry : Library → Request → JobResult (Option Registry)
active_registry library request = elim request.capability_registry [
  | some registry ↦ ok (some registry)
  | none ↦ elim request.settings [
    | none ↦ ok none
    | some settings ↦ library.build_capability_registry settings >>= λ registry. ok (some registry)
  ]
]

unfoldable pub wants_universal : Option Settings → Bool
wants_universal settings = holds (λ s. is_universal s.intake_mode) settings

-- A universal job needs a verified registry, and its evidence has to be that registry's.
unfoldable pub check_evidence :
    Bool → Option Registry → Option String → Option String → JobResult Unit
check_evidence sandboxed registry registry_digest capabilities_digest =
    if sandboxed
    then elim registry [
      | none ↦ err value_error
      | some active ↦ do
        require active.sandbox_verified value_error
        require
            (holds (str_eq active.registry_digest) registry_digest
              && holds (str_eq active.capabilities_digest) capabilities_digest)
            value_error
    ]
    else ok tt

abbrev pub digest_of : (Registry → String) → Option Registry → Option String
digest_of field none = none
digest_of field (some registry) = some (field registry)

abbrev pub is_sandboxed : Option SourceIntake → Bool
is_sandboxed source = holds (λ row. not (is_legacy row.execution_profile)) source

-- What `enqueue` decides of the row, before the database fills in identifier and times
pub record Draft : Type 0 where
  pub document_id : ℕ
  pub job_type : String
  pub payload : Payload
  pub idempotency_key : String
  pub execution_profile : ExecutionProfile
  pub sandbox_verified : Bool
  pub registry_digest : Option String
  pub capabilities_digest : Option String
  pub requirements_digest : String
  pub required_components : List String
  pub intake_intent : IntakeIntent

-- `normalized_requirements_digest or canonical_requirements_digest`
abbrev pub or_canonical : Option String → String → String
or_canonical none canonical = canonical
or_canonical (some digest) canonical = digest

unfoldable pub draft : Library → List SourceIntake → Request → JobResult Draft
unfolding active_registry clean_nonempty validate_optional_digest wants_universal check_evidence
    normalize_required_components job_document_payload resolve_intake_intent put
draft library intakes request = do
  registry ← active_registry library request
  job_type ← clean_nonempty request.job_type
  key ← clean_nonempty request.idempotency_key
  registry_digest ←
      validate_optional_digest
        (or_else request.registry_digest (digest_of (λ r. r.registry_digest) registry))
  capabilities_digest ←
      validate_optional_digest
        (or_else request.capabilities_digest (digest_of (λ r. r.capabilities_digest) registry))
  check_evidence (wants_universal request.settings) registry registry_digest capabilities_digest
  components ← normalize_required_components request.required_components
  let canonical = library.required_components_digest components
  requirements_digest ← validate_optional_digest request.requirements_digest
  require (not (holds (λ d. not (str_eq d canonical)) requirements_digest)) value_error
  identified ← job_document_payload library.uuids request.payload
  resolved ←
      resolve_intake_intent library.uuids intakes identified.0 identified.1 request.intake_intent
  require (not (is_sandboxed resolved.1 && not (wants_universal request.settings))) value_error
  ok (record {
    document_id = identified.0;
    job_type = job_type;
    payload = put "intake_intent" (string (intent_name resolved.0)) resolved.2;
    idempotency_key = key;
    execution_profile =
        if wants_universal request.settings
        then ExecutionProfile.universal_sandboxed
        else ExecutionProfile.legacy_compat;
    sandbox_verified = wants_universal request.settings;
    registry_digest = registry_digest;
    capabilities_digest = capabilities_digest;
    requirements_digest = or_canonical requirements_digest canonical;
    required_components = components;
    intake_intent = resolved.0;
  })

-- The row with its defaults: queued, no attempt, no lease, available at once
unfoldable pub queued_row : Draft → ℕ → ℕ → Job
queued_row d fresh now = record {
  id = fresh;
  document_id = d.document_id;
  job_type = d.job_type;
  payload = d.payload;
  idempotency_key = d.idempotency_key;
  execution_profile = d.execution_profile;
  sandbox_verified = d.sandbox_verified;
  registry_digest = d.registry_digest;
  capabilities_digest = d.capabilities_digest;
  requirements_digest = d.requirements_digest;
  required_components = d.required_components;
  intake_intent = d.intake_intent;
  status = JobStatus.queued;
  attempts = 0;
  last_error = none;
  available_at = now;
  lease_expires_at = none;
  lease_owner = none;
  created_at = now;
}

abbrev pub has_document : ℕ → List ℕ → Bool
has_document key [] = false
has_document key (document ∷ documents) = document == key || has_document key documents

-- `UNIQUE (document_id, idempotency_key)`
unfoldable pub same_work : Job → Job → Bool
same_work a b = a.document_id == b.document_id && str_eq a.idempotency_key b.idempotency_key

unfoldable pub conflicts : Job → Jobs → Bool
unfolding same_work
conflicts job [] = false
conflicts job (other ∷ jobs) = other.id == job.id || same_work other job || conflicts job jobs

-- The savepoint that inserts the row: an `IntegrityError` is answered by `None`.
unfoldable pub insert_job : Job → Database → Database × Option ℕ
unfolding conflicts
insert_job job database =
    if conflicts job database.jobs || not (has_document job.document_id database.documents)
    then (database, none)
    else (record database { jobs = job ∷ database.jobs }, some job.id)

unfoldable pub enqueue : Library → Database → Request → JobResult (Database × Option ℕ)
unfolding draft queued_row insert_job
enqueue library database request = do
  d ← draft library database.intakes request
  ok (insert_job (queued_row d database.fresh database.now) database)
