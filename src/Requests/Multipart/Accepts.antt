-- ===== src/Requests/Multipart/Accepts.antt =====
-- The check of a multipart body lets pass what the scan finds to be a chain of parts
-- (clerksan/api/request_boundaries.py).
use clerk_san.Prelude.{
  Bool, List, Option, [], ap, arith, false, if◌then◌else◌, leb, length, ok, refl, some, subst, suc,
  sym, true, zero, ℕ, ◌&&◌, ◌++◌, ◌+◌, ◌-◌, ◌<◌, ◌∙◌, ◌∷◌, ◌≡◌, ◌≤◌,
}
use clerk_san.Ingest.Bytes.{slice}
use clerk_san.Requests.Multipart.{
  Disposition, MultipartLimits, Part, blank_line, crlf, dashes, max_multipart_header_bytes, prepend,
  read_part, read_parts, validate_file_size,
}
use clerk_san.Requests.Multipart.Find.{IsFirst-find, find, starts_with}
use clerk_san.Requests.Multipart.Round.{IsPart, Walk}

crlf_not_dashes :
    (bytes : List ℕ) → starts_with crlf bytes ≡ true → starts_with dashes bytes ≡ false
unfolding starts_with
crlf_not_dashes [] h = cc
crlf_not_dashes (c ∷ bytes) h = ground (arith, h)

validate_file_size-ok :
    (limits : MultipartLimits) (is_file : Bool) (file_bytes : ℕ)
    → (is_file ≡ true → (0 < file_bytes) × (file_bytes ≤ limits.max_upload_bytes))
    → validate_file_size limits is_file file_bytes ≡ ok tt
validate_file_size-ok limits false file_bytes h = refl
validate_file_size-ok limits true file_bytes h = ground (arith, h refl)

module _ (parse : List ℕ → Option Disposition) (limits : MultipartLimits)
    (body delimiter : List ℕ) where
  read_part-ok :
      (at files fields header_end next_marker : ℕ) (is_file : Bool)
      → starts_with crlf (slice body at (at + 2)) ≡ true
      → find body blank_line (at + 2) ≡ some header_end
      → leb (header_end - (at + 2)) max_multipart_header_bytes ≡ true
      → parse (slice body (at + 2) header_end ++ blank_line)
        ≡ some record { has_name = true; has_filename = is_file }
      → (leb (files + (if is_file then 1 else 0)) limits.max_multipart_files
          && leb (fields + (if is_file then 0 else 1)) limits.max_multipart_fields)
        ≡ true
      → find body (crlf ++ delimiter) (header_end + 4) ≡ some next_marker
      → validate_file_size limits is_file (next_marker - (header_end + 4)) ≡ ok tt
      → read_part parse limits body delimiter at files fields
        ≡ ok record {
          header_start = at + 2;
          header_end = header_end;
          next_marker = next_marker;
          is_file = is_file;
        }
  unfolding read_part
  read_part-ok at files fields header_end next_marker is_file a b c d e f g =
      rw (a, b, c, d, e, f, g) refl

  IsPart-read_part :
      (cursor files fields : ℕ) (part : Part) (h : IsPart parse limits body delimiter cursor part)
      → files + (if part.is_file then 1 else 0) ≤ limits.max_multipart_files
      → fields + (if part.is_file then 0 else 1) ≤ limits.max_multipart_fields
      → read_part parse limits body delimiter (h.marker + length delimiter) files fields ≡ ok part
  IsPart-read_part cursor files fields part h few_files few_fields =
      let at = h.marker + length delimiter in
      read_part-ok at files fields part.header_end part.next_marker part.is_file h.line_break
        (subst (λ n. find body blank_line n ≡ some part.header_end) h.starts
          (IsFirst-find body blank_line part.header_start part.header_end h.headers))
        (subst (λ n. leb (part.header_end - n) max_multipart_header_bytes ≡ true) h.starts
          (ground (arith, h.short)))
        (subst
          (λ n.
            parse (slice body n part.header_end ++ blank_line)
            ≡ some record { has_name = true; has_filename = part.is_file })
          h.starts h.named)
        (ground (arith, few_files, few_fields))
        (IsFirst-find body (crlf ++ delimiter) (part.header_end + 4) part.next_marker h.content)
        (validate_file_size-ok limits part.is_file (part.next_marker - (part.header_end + 4))
          h.file_size)
      ∙ ap
          (λ n. ok record {
            header_start = n;
            header_end = part.header_end;
            next_marker = part.next_marker;
            is_file = part.is_file;
          })
          (sym h.starts)

  pub Walk-read_parts :
      (parts : List Part) (fuel cursor files fields : ℕ)
      → length body < fuel + cursor
      → Walk parse limits body delimiter cursor files fields (true, parts)
      → read_parts parse limits body delimiter fuel cursor files fields ≡ some (ok (true, parts))
  unfolding read_parts
  Walk-read_parts [] zero cursor files fields enough walk =
      let (marker, first, t) = walk.final_delimiter refl in
      absurd (omega (arith, first.late, first.inside))
  Walk-read_parts [] (suc fuel) cursor files fields enough walk =
      let (marker, first, t) = walk.final_delimiter refl in
      let e = IsFirst-find body delimiter cursor marker first in rw (e, read_parts) (rw t refl)
  Walk-read_parts (part ∷ parts) zero cursor files fields enough walk =
      let h = walk.are_parts.0 in absurd (omega (arith, h.delimited.late, h.delimited.inside))
  Walk-read_parts (part ∷ parts) (suc fuel) cursor files fields enough walk =
      let h = walk.are_parts.0 in
      let e = IsFirst-find body delimiter cursor h.marker h.delimited in
      let at = h.marker + length delimiter in
      let f = crlf_not_dashes (slice body at (at + 2)) h.line_break in
      let r =
        IsPart-read_part cursor files fields part h (ground (arith, walk.few_files))
          (ground (arith, walk.few_fields)) in
      let rest =
        Walk-read_parts parts fuel (part.header_end + 4) (files + (if part.is_file then 1 else 0))
          (fields + (if part.is_file then 0 else 1))
          (omega (arith, enough, h.delimited.late, h.starts, h.headers.late))
          record {
            are_parts = walk.are_parts.1;
            few_files = ground (arith, walk.few_files);
            few_fields = ground (arith, walk.few_fields);
            final_delimiter = walk.final_delimiter;
          } in
      rw (e, read_parts) (rw f (rw r (ap (prepend part) rest)))
