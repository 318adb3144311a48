-- ===== src/Jobs/Enqueue/Prepared.antt =====
-- What `enqueue` stores, whatever the request: the execution profile of its evidence, and one row
-- for one piece of work.
use clerk_san.Intake.Row.{SourceIntake}
use clerk_san.Jobs.Source.{resolve_intake_intent}
use clerk_san.Jobs.Fields.{clean_nonempty, validate_optional_digest, normalize_required_components}
use clerk_san.Prelude.{
  >>=-eq-ok, Ensures, Ensures-bind, Ensures-ok, List, Option, ap, arith, holds, not, ok,
  ok_injective, refl, require, str_eq, sym, ℕ, ◌&&◌, ◌>>=◌, ◌∙◌, ◌≡◌,
}
use clerk_san.Models.{is_legacy}
use clerk_san.Jobs.Row.{value_error, JobResult}
use clerk_san.Jobs.Enqueue.{
  Database, Library, Request, active_registry, or_else, digest_of, check_evidence, wants_universal,
  job_document_payload, is_sandboxed, enqueue, draft, Draft, insert_job, queued_row,
}

abbrev pub IsSandboxed : Draft → Type 0
IsSandboxed d = d.sandbox_verified ≡ not (is_legacy d.execution_profile)

pub draft-IsSandboxed :
    (library : Library) (intakes : List SourceIntake) (request : Request)
    → Ensures IsSandboxed (draft library intakes request)
unfolding draft
draft-IsSandboxed library intakes request =
    Ensures-bind (active_registry library request) _ λ registry _.
      Ensures-bind (clean_nonempty request.job_type) _ λ job_type _.
        Ensures-bind (clean_nonempty request.idempotency_key) _ λ key _.
          Ensures-bind
            (validate_optional_digest
              (or_else request.registry_digest (digest_of (λ r. r.registry_digest) registry)))
            _
            λ registry_digest _.
              Ensures-bind
                (validate_optional_digest (
                  or_else request.capabilities_digest
                    (digest_of (λ r. r.capabilities_digest) registry)))
                _
                λ capabilities_digest _.
                  Ensures-bind
                    (check_evidence (wants_universal request.settings) registry registry_digest
                      capabilities_digest)
                    _
                    λ _ _.
                      Ensures-bind (normalize_required_components request.required_components) _
                        λ components _.
                          Ensures-bind (validate_optional_digest request.requirements_digest) _
                            λ requirements_digest _.
                              Ensures-bind
                                (require
                                  (not (
                                    holds
                                      (λ d.
                                        not (
                                          str_eq d (library.required_components_digest components)))
                                      requirements_digest))
                                  value_error)
                                _
                                λ _ _.
                                  Ensures-bind (job_document_payload library.uuids request.payload)
                                    _
                                    λ identified _.
                                      Ensures-bind
                                        (resolve_intake_intent library.uuids intakes identified.0
                                          identified.1 request.intake_intent)
                                        _
                                        λ resolved _.
                                          Ensures-bind
                                            (require
                                              (not (
                                                is_sandboxed resolved.1
                                                && not (wants_universal request.settings)))
                                              value_error)
                                            _ λ _ _. Ensures-ok _ (ground arith)

-- Inversion of an `enqueue` that returned
pub enqueue-eq-ok :
    (library : Library) (database : Database) (request : Request) (result : Database × Option ℕ)
    → enqueue library database request ≡ ok result
    → (d : Draft) × (draft library database.intakes request ≡ ok d)
      × (result ≡ insert_job (queued_row d database.fresh database.now) database)
unfolding enqueue
enqueue-eq-ok library database request result e =
    let (d, drafted, rest) =
      >>=-eq-ok (draft library database.intakes request)
        (λ d. ok (insert_job (queued_row d database.fresh database.now) database)) {last = result}
        e in
    (d, drafted, sym (ok_injective rest))

enqueue_lem :
    (library : Library) (database : Database) (request : Request)
    → enqueue library database request ≡ (
        draft library database.intakes request >>= λ d.
        ok (insert_job (queued_row d database.fresh database.now) database))
unfolding enqueue
enqueue_lem library database request = refl

pub enqueue_drafted :
    (library : Library) (database : Database) (request : Request) (d : Draft)
    → draft library database.intakes request ≡ ok d
    → enqueue library database request
      ≡ ok (insert_job (queued_row d database.fresh database.now) database)
enqueue_drafted library database request d e =
    enqueue_lem library database request
    ∙ ap
        (λ (m : JobResult Draft).
          m >>= λ d. ok (insert_job (queued_row d database.fresh database.now) database))
        e
