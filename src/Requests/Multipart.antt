-- ===== src/Requests/Multipart.antt =====
-- `_validate_multipart_body` and `_multipart_boundary` of clerksan/api/request_boundaries.py.
pub mod Find
pub mod Round
pub mod Accepts
pub mod Parts
use clerk_san.Prelude.{
  Bool, List, Option, Result, [], err, false, if◌then◌else◌, leb, length, none, not, ok, require,
  select, some, suc, true, zero, ℕ, ◌&&◌, ◌*◌, ◌++◌, ◌+◌, ◌-◌, ◌==◌, ◌>>=◌, ◌>>◌, ◌||◌, ◌∷◌,
}
use clerk_san.Ingest.Bytes.{slice}
use clerk_san.Requests.Json.{
  BoundaryError, empty_file, malformed_content, multipart_limit_exceeded, upload_too_large,
}
use clerk_san.Requests.Multipart.Find.{find, starts_with}

pub record MultipartLimits : Type 0 where
  pub max_multipart_files : ℕ
  pub max_multipart_fields : ℕ
  pub max_upload_bytes : ℕ

-- What `email` reads from a Content-Disposition: whether it has the parameters
pub record Disposition : Type 0 where
  pub has_name : Bool
  pub has_filename : Bool

-- A part that the loop went over: where its headers and its content start, where the content ends
-- at the next line that starts with the delimiter, and whether it is a file
pub record Part : Type 0 where
  pub header_start : ℕ
  pub header_end : ℕ
  pub next_marker : ℕ
  pub is_file : Bool

abbrev pub max_multipart_header_bytes : ℕ
max_multipart_header_bytes = 64 * 1024

abbrev pub crlf : List ℕ
crlf = 13 ∷ 10 ∷ []

abbrev pub blank_line : List ℕ
blank_line = 13 ∷ 10 ∷ 13 ∷ 10 ∷ []

abbrev pub dashes : List ℕ
dashes = 0x2d ∷ 0x2d ∷ []

-- `boundary` is the parameter of the Content-Type, by code points, if it is a text.
unfoldable pub multipart_boundary : Option (List ℕ) → Result BoundaryError (List ℕ)
multipart_boundary none = err malformed_content
multipart_boundary (some boundary) = do
  require (not (length boundary == 0) && leb (length boundary) 200) malformed_content
  require (length (select (λ c. leb 128 c) boundary) == 0) malformed_content
  require (length (select (λ c. c == 13 || c == 10) boundary) == 0) malformed_content
  ok boundary

abbrev pub or_raise : {A : Type 0} → Option A → BoundaryError → Result BoundaryError A
or_raise none raised = err raised
or_raise (some found) raised = ok found

abbrev pub validate_file_size : MultipartLimits → Bool → ℕ → Result BoundaryError (Unit {0})
validate_file_size limits false file_bytes = ok tt
validate_file_size limits true file_bytes = do
  require (not (file_bytes == 0)) empty_file
  require (leb file_bytes limits.max_upload_bytes) upload_too_large

abbrev pub prepend :
    Part
    → Option (Result BoundaryError (Bool × List Part))
    → Option (Result BoundaryError (Bool × List Part))
prepend part none = none
prepend part (some (err raised)) = some (err raised)
prepend part (some (ok (saw_final, parts))) = some (ok (saw_final, part ∷ parts))

-- `parse` is the standard library's parser of a part's headers: `none` where there is no
-- Content-Disposition.
module _ (parse : List ℕ → Option Disposition) (limits : MultipartLimits)
    (body delimiter : List ℕ) where
  -- The rest of the loop's body, behind a delimiter that ends at `cursor` and is not the final one
  unfoldable pub read_part : ℕ → ℕ → ℕ → Result BoundaryError Part
  unfolding slice find
  read_part cursor files fields = do
    require (starts_with crlf (slice body cursor (cursor + 2))) malformed_content
    header_end ← or_raise (find body blank_line (cursor + 2)) multipart_limit_exceeded
    require (leb (header_end - (cursor + 2)) max_multipart_header_bytes) multipart_limit_exceeded
    disposition ←
        or_raise (parse (slice body (cursor + 2) header_end ++ blank_line)) malformed_content
    require disposition.has_name malformed_content
    require
        (leb (files + (if disposition.has_filename then 1 else 0)) limits.max_multipart_files
          && leb (fields + (if disposition.has_filename then 0 else 1)) limits.max_multipart_fields)
        multipart_limit_exceeded
    next_marker ← or_raise (find body (crlf ++ delimiter) (header_end + 4)) malformed_content
    validate_file_size limits disposition.has_filename (next_marker - (header_end + 4))
    ok record {
      header_start = cursor + 2;
      header_end = header_end;
      next_marker = next_marker;
      is_file = disposition.has_filename;
    }

  -- The loop, which returns whether it saw the final delimiter, and the parts before it. `none` means
  -- that the fuel ran out, which Parts rules out.
  unfoldable pub read_parts : ℕ → ℕ → ℕ → ℕ → Option (Result BoundaryError (Bool × List Part))
  unfolding find slice read_part
  read_parts zero cursor files fields = none
  read_parts (suc fuel) cursor files fields = elim (find body delimiter cursor) [
    | none ↦ some (ok (false, []))
    | some marker ↦
        elim (starts_with dashes
          (slice body (marker + length delimiter) (marker + length delimiter + 2))) [
            | true ↦ some (ok (true, []))
            | false ↦ elim (read_part (marker + length delimiter) files fields) [
              | err raised ↦ some (err raised)
              | ok part ↦ prepend part (
                  read_parts fuel (part.header_end + 4) (files + (if part.is_file then 1 else 0))
                    (fields + (if part.is_file then 0 else 1)))
            ]
          ]
  ]

abbrev pub final :
    Option (Result BoundaryError (Bool × List Part)) → Result BoundaryError (List Part)
final none = err malformed_content
final (some (err raised)) = err raised
final (some (ok (saw_final, parts))) = do require saw_final malformed_content; ok parts

-- The parts are returned for the theorems: the source returns nothing.
unfoldable pub validate_multipart_body :
    (List ℕ → Option Disposition)
    → MultipartLimits
    → Option (List ℕ)
    → List ℕ
    → Result BoundaryError (List Part)
unfolding multipart_boundary read_parts
validate_multipart_body parse limits boundary body = do
  rendered ← multipart_boundary boundary
  final (read_parts parse limits body (dashes ++ rendered) (length body + 1) 0 0 0)
