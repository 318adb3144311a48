-- ===== src/Tests/Reserve.antt =====
-- Two sessions that upload under one key (clerksan/db/repositories.py).
use clerk_san.Prelude.{String, [], false, none, ok, refl, some, ◌∷◌, ◌≡◌, ◌≢◌}
use clerk_san.Intake.Reserve.{
  Reservation, Session, Surroundings, conflict, fresh_upload, held, reserve_upload_idempotency,
  text, uuid,
}
use clerk_san.Intake.Reserve.Exclusive.{reserve_once}

abbrev env : Surroundings
env = record { intakes = []; jobs = []; read_uuid = λ value. some 5; job_ltb = λ a b. false }

abbrev sha256 : String
sha256 = "aaaaaaaaaaaaaaaaaaaaaaaaaaaaaaaaaaaaaaaaaaaaaaaaaaaaaaaaaaaaaaaa"

abbrev intent : String
intent = "bbbbbbbbbbbbbbbbbbbbbbbbbbbbbbbbbbbbbbbbbbbbbbbbbbbbbbbbbbbbbbbb"

abbrev opening : Session
opening = record { reservations = []; owned = [] }

abbrev row : Reservation
row = record {
  upload_idempotency_key = 5;
  source_sha256 = sha256;
  intent_digest = intent;
  source_intake_id = none;
}

abbrev winner : Session
winner = record { reservations = row ∷ []; owned = 5 ∷ [] }

abbrev loser : Session
loser = record winner { owned = [] }

first_wins :
    reserve_upload_idempotency env opening (text "k") sha256 intent ≡ ok (winner, fresh_upload)
unfolding reserve_upload_idempotency
first_wins = refl

second_conflicts :
    reserve_upload_idempotency env loser (uuid 5) sha256 intent ≡ ok (loser, conflict)
unfolding reserve_upload_idempotency
second_conflicts = refl

reserve_once_example : conflict ≢ fresh_upload
reserve_once_example =
    reserve_once env env opening winner (text "k") (uuid 5) 5 sha256 intent sha256 intent []
      (loser, conflict) refl refl first_wins (unfold held in refl) second_conflicts
