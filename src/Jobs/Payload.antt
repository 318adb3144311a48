-- ===== src/Jobs/Payload.antt =====
-- The JSON object that a job carries, and the marker by which a handler records that its stage
-- is complete (clerksan/ingest/jobs.py, `_job_pipeline_completed`).
use clerk_san.Prelude.{ℕ, String, Bool, false, Option, none, some, if◌then◌else◌, str_eq}

-- `real` is a finite float by its bit pattern, `opaque` a value that `json.dumps` refuses.
mutual
  pub data Json : Type 0 where
    null : Json
    boolean : Bool → Json
    natural : ℕ → Json
    negative : ℕ → Json
    real : ℕ → Json
    string : String → Json
    array : Items → Json
    object : Payload → Json
    opaque : Json

  pub data Items : Type 0 where
    nil : Items
    cons : Json → Items → Items

  pub data Payload : Type 0 where
    end : Payload
    entry : String → Json → Payload → Payload

-- `payload.get(key)`
unfoldable pub get : String → Payload → Option Json
get k end = none
get k (entry j v rest) = if str_eq j k then some v else get k rest

-- `value is True`
abbrev pub is_true : Option Json → Bool
is_true (some (boolean b)) = b
is_true _ = false

abbrev pub completed_flag : Option Json → Bool
completed_flag (some (object pipeline)) = is_true (get "completed" pipeline)
completed_flag _ = false

unfoldable pub job_pipeline_completed : Payload → Bool
unfolding get
job_pipeline_completed payload = completed_flag (get "_pipeline" payload)
