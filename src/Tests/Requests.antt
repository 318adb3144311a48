-- ===== src/Tests/Requests.antt =====
-- Requests on concrete bodies (clerksan/api/request_boundaries.py).
use clerk_san.Prelude.{
  Bool, List, Option, Result, [], err, false, if◌then◌else◌, length, ltb, none, ok, refl, some,
  true, ℕ, ◌++◌, ◌+◌, ◌==◌, ◌↔◌, ◌∷◌, ◌≡◌, ◌≤◌,
}
use clerk_san.Requests.Json.{
  BoundaryError, json_depth, multipart_limit_exceeded, validate_json_body,
}
use clerk_san.Requests.Json.Text.{
  Value, array, member_then, nesting, no_member, no_value, object, raw, render, scalar, spaced,
  value_then,
}
use clerk_san.Requests.Json.Depth.{json_depth-eq-nesting}
use clerk_san.Requests.Body.{Message, disconnect, other, read_body, replays, request}
use clerk_san.Requests.Body.Whole.{Received, read_body-iff-Sends}
use clerk_san.Requests.Multipart.{
  Disposition, MultipartLimits, Part, dashes, multipart_boundary, read_parts,
  validate_multipart_body,
}
use clerk_san.Requests.Multipart.Parts.{validate_multipart_body_lem}
use clerk_san.Requests.Multipart.Round.{Walk}

-- `{ "]": [1,{ }] }`
abbrev json : Value
json = object (0x20 ∷ []) (
    member_then [] (raw 0x5d ∷ []) []
      (spaced (0x20 ∷ [])
        (array []
          (value_then (scalar (0x31 ∷ [])) (value_then (object (0x20 ∷ []) no_member) no_value)))
        (0x20 ∷ []))
      no_member)

json_depth-eq-nesting_example :
    (json_depth (render json) ≡ nesting json)
    × ((validate_json_body (render json) 20 3 ≡ ok tt)
        ↔ ((length (render json) ≤ 20) × (nesting json ≤ 3)))
json_depth-eq-nesting_example = json_depth-eq-nesting json 20 3 (
  (refl, tt),
  (tt, (refl, tt), tt, ((refl, tt), (tt, ((refl, tt), (((refl, tt), tt), tt))), (refl, tt)), tt),
)

abbrev messages : List Message
messages = request (1 ∷ 2 ∷ []) true ∷ other ∷ request (3 ∷ []) false ∷ disconnect ∷ []

read_body-iff-Sends_example :
    ((read_body messages 3 ≡ ok (1 ∷ 2 ∷ 3 ∷ [])) ↔ Received messages (1 ∷ 2 ∷ 3 ∷ []) 3)
    × (read_body (replays 2 (1 ∷ 2 ∷ 3 ∷ []) false) 3 ≡ (
        if ltb 3 (length {A = ℕ} (1 ∷ 2 ∷ 3 ∷ []))
        then err BoundaryError.request_too_large
        else ok (1 ∷ 2 ∷ 3 ∷ [])))
read_body-iff-Sends_example = read_body-iff-Sends messages 3 (1 ∷ 2 ∷ 3 ∷ []) 1

-- Headers whose first byte is `f` name a file, all others a field.
abbrev parse : List ℕ → Option Disposition
parse [] = none
parse (c ∷ headers) = some record { has_name = true; has_filename = c == b'f' }

abbrev multipart_limits : MultipartLimits
multipart_limits = record {
  max_multipart_files = 1;
  max_multipart_fields = 1;
  max_upload_bytes = 9;
}

-- The delimiter `--b` on a line of its own, and then a part of the kind
abbrev part_of : ℕ → List ℕ → List ℕ
part_of kind content =
    dashes ++ (b'b' ∷ 13 ∷ 10 ∷ kind ∷ 13 ∷ 10 ∷ 13 ∷ 10 ∷ content ++ (13 ∷ 10 ∷ []))

abbrev closing : List ℕ
closing = dashes ++ (b'b' ∷ dashes)

-- A file and a field
abbrev form : List ℕ
form = part_of b'f' (7 ∷ 8 ∷ []) ++ (part_of b'n' [] ++ closing)

form_parts : List Part
form_parts =
    record { header_start = 5; header_end = 6; next_marker = 12; is_file = true }
    ∷ record { header_start = 19; header_end = 20; next_marker = 24; is_file = false }
    ∷ []

form_passes : validate_multipart_body parse multipart_limits (some (b'b' ∷ [])) form ≡ ok form_parts
unfolding validate_multipart_body form_parts
form_passes = refl

two_files_raise :
    validate_multipart_body parse multipart_limits
      (some (b'b' ∷ []))
      (part_of b'f' (7 ∷ []) ++ (part_of b'f' (8 ∷ []) ++ closing))
    ≡ err multipart_limit_exceeded
unfolding validate_multipart_body
two_files_raise = refl

-- A file that holds `--b--` behind another byte ends the count: the second file is not seen.
two_files_pass :
    (parts : List Part) × (validate_multipart_body parse multipart_limits
        (some (b'b' ∷ []))
        (part_of b'f' (7 ∷ closing) ++ (part_of b'f' (8 ∷ []) ++ closing))
      ≡ ok parts)
    × (length parts ≡ 1)
unfolding validate_multipart_body
two_files_pass = (_, refl, refl)

validate_multipart_body_lem_example :
    ((result : Result BoundaryError (Bool × List Part)) × (read_parts parse multipart_limits form
          (dashes ++ (b'b' ∷ []))
          (length form + 1)
          0
          0
          0
        ≡ some result))
    × ((parts : List Part)
        → (validate_multipart_body parse multipart_limits (some (b'b' ∷ [])) form ≡ ok parts) ↔ (
            (multipart_boundary (some (b'b' ∷ [])) ≡ ok (b'b' ∷ []))
            × Walk parse multipart_limits form (dashes ++ (b'b' ∷ [])) 0 0 0 (true, parts)))
validate_multipart_body_lem_example =
    validate_multipart_body_lem parse multipart_limits (b'b' ∷ []) form
