-- ===== src/Jobs/Enqueue/Replay.antt =====
-- Enqueueing the same work again (clerksan/ingest/jobs.py, `enqueue`).
use clerk_san.Prelude.{Option, ap, arith, eq_iff, none, ok, refl, some, sym, true, ℕ, ◌∙◌, ◌≡◌}
use clerk_san.Jobs.Row.{Job}
use clerk_san.Jobs.Enqueue.{
  Database, Draft, Library, Request, conflicts, enqueue, insert_job, queued_row, draft,
}
use clerk_san.Jobs.Enqueue.Prepared.{enqueue-eq-ok, enqueue_drafted}

abbrev pub later : Database → ℕ → ℕ → Database
later database fresh now = record database { fresh = fresh; now = now }

inserted_conflicts :
    (d : Draft) (database : Database) (fresh now : ℕ) (id : ℕ)
    → (insert_job (queued_row d database.fresh database.now) database).1 ≡ some id
    → conflicts
        (queued_row d fresh now)
        (insert_job (queued_row d database.fresh database.now) database).0.jobs
      ≡ true
unfolding insert_job queued_row
inserted_conflicts d database fresh now id h =
    ground (arith, eq_iff d.idempotency_key d.idempotency_key)

refused_again :
    (job : Job) (database : Database)
    → conflicts job database.jobs ≡ true
    → insert_job job database ≡ (database, none)
unfolding insert_job
refused_again job database h = rw h refl

same_intakes :
    (job : Job) (database : Database) → (insert_job job database).0.intakes ≡ database.intakes
unfolding insert_job
same_intakes job database = ground arith

-- Once a request has queued a job, the same request queues nothing more, whatever identifier is
-- drawn and whenever it comes: it returns `None` and leaves the database as it is.
pub enqueue_replay :
    (library : Library) (database queued : Database) (request : Request) (id fresh now : ℕ)
    → enqueue library database request ≡ ok (queued, some id)
    → enqueue library (later queued fresh now) request ≡ ok (later queued fresh now, none)
enqueue_replay library database queued request id fresh now e =
    let (d, drafted, stored) = enqueue-eq-ok library database request (queued, some id) e in
    let again = queued_row d fresh now in
    let table = ap (λ (r : Database × Option ℕ). r.0) stored in
    let drafted_again : draft library queued.intakes request ≡ ok d =
      ap (λ i. draft library i request)
        (ap (λ (q : Database). q.intakes) table
          ∙ same_intakes (queued_row d database.fresh database.now) database)
      ∙ drafted in
    let conflict : conflicts again queued.jobs ≡ true =
      ap (λ (q : Database). conflicts again q.jobs) table
      ∙ inserted_conflicts d database fresh now id
          (ap (λ (r : Database × Option ℕ). r.1) (sym stored)) in
    enqueue_drafted library (later queued fresh now) request d drafted_again
    ∙ ap ok (refused_again again (later queued fresh now) conflict)
