-- ===== src/Requests/Json.antt =====
-- `_json_depth` and `_validate_json_body` of clerksan/api/request_boundaries.py.
pub mod Text
pub mod Depth
use clerk_san.Prelude.{
  Bool, List, Result, [], false, if◌then◌else◌, leb, length, max, require, true, ℕ, ◌+◌, ◌-◌, ◌==◌,
  ◌>>=◌, ◌>>◌, ◌||◌, ◌∷◌,
}

-- The errors that the guards raise, by their public code
pub data BoundaryError : Type 0 where
  json_limit_exceeded request_too_large malformed_content request_receive_timeout : BoundaryError
  multipart_limit_exceeded empty_file upload_too_large : BoundaryError

pub record Scan : Type 0 where
  pub depth : ℕ
  pub maximum : ℕ
  pub in_string : Bool
  pub escaped : Bool

-- The loop's body
unfoldable pub scan_byte : ℕ → Scan → Scan
scan_byte value scan =
    if scan.in_string
    then (if scan.escaped
        then record scan { escaped = false }
        else if value == 0x5c
        then record scan { escaped = true }
        else if value == 0x22
        then record scan { in_string = false }
        else scan)
    else if value == 0x22
    then record scan { in_string = true }
    else if value == 0x7b || value == 0x5b
    then record scan { depth = scan.depth + 1; maximum = max scan.maximum (scan.depth + 1) }
    else if value == 0x7d || value == 0x5d
    then record scan { depth = scan.depth - 1 }
    else scan

unfoldable pub scan_bytes : List ℕ → Scan → Scan
unfolding scan_byte
scan_bytes [] scan = scan
scan_bytes (value ∷ body) scan = scan_bytes body (scan_byte value scan)

abbrev pub start : Scan
start = record { depth = 0; maximum = 0; in_string = false; escaped = false }

unfoldable pub json_depth : List ℕ → ℕ
unfolding scan_bytes
json_depth body = (scan_bytes body start).maximum

unfoldable pub validate_json_body : List ℕ → ℕ → ℕ → Result BoundaryError (Unit {0})
unfolding json_depth
validate_json_body body max_json_bytes max_json_depth = do
  require (leb (length body) max_json_bytes) json_limit_exceeded
  require (leb (json_depth body) max_json_depth) json_limit_exceeded
