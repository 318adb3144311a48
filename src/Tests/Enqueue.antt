-- ===== src/Tests/Enqueue.antt =====
-- Requests to `enqueue` of clerksan/ingest/jobs.py.
use clerk_san.Prelude.{List, [], err, false, none, ok, refl, some, ℕ, ◌∷◌, ◌≡◌}
use clerk_san.Models.{ExecutionProfile, IntakeIntent, IntentArgument}
use clerk_san.Jobs.Payload.{end, entry, natural, string}
use clerk_san.Jobs.Row.{value_error}
use clerk_san.Jobs.Source.{Uuids}
use clerk_san.Jobs.Enqueue.{Database, Draft, Library, Request, draft, enqueue, queued_row}
use clerk_san.Jobs.Enqueue.Replay.{enqueue_replay, later}

-- Identifiers are JSON numbers here, and texts of no more than one form.
abbrev uuids : Uuids
uuids = record {
  read = λ value. elim value [ natural n ↦ some n | string s ↦ some 7 | _ ↦ none ];
  write = λ n. "document-7";
}

abbrev library : Library
library = record {
  uuids = uuids;
  required_components_digest = λ components. "e";
  build_capability_registry = λ settings. err value_error;
}

abbrev request : Request
request = record {
  job_type = " process_document ";
  payload = entry "document_id" (natural 7) end;
  idempotency_key = "upload-1";
  settings = none;
  registry_digest = none;
  capabilities_digest = none;
  requirements_digest = none;
  required_components = [];
  intake_intent = IntentArgument.absent;
  capability_registry = none;
}

abbrev database : List ℕ → Database
database documents = record { documents = documents; intakes = []; jobs = []; now = 50; fresh = 1 }

abbrev drafted : Draft
drafted = record {
  document_id = 7;
  job_type = "process_document";
  payload =
      entry "document_id" (string "document-7")
        (entry "intake_intent" (string "legacy_unspecified") end);
  idempotency_key = "upload-1";
  execution_profile = ExecutionProfile.legacy_compat;
  sandbox_verified = false;
  registry_digest = none;
  capabilities_digest = none;
  requirements_digest = "e";
  required_components = [];
  intake_intent = IntakeIntent.legacy_unspecified;
}

request_ok : draft library [] request ≡ ok drafted
unfolding draft
request_ok = refl

abbrev filled : Database
filled = record (database (7 ∷ [])) { jobs = queued_row drafted 1 50 ∷ [] }

request_enqueued : enqueue library (database (7 ∷ [])) request ≡ ok (filled, some 1)
unfolding enqueue
request_enqueued = refl

enqueue_replay_example : enqueue library (later filled 2 90) request ≡ ok (later filled 2 90, none)
enqueue_replay_example =
    enqueue_replay library (database (7 ∷ [])) filled request 1 2 90 request_enqueued
