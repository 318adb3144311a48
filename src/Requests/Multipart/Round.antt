-- ===== src/Requests/Multipart/Round.antt =====
-- One round of the loop over a multipart body (clerksan/api/request_boundaries.py).
use clerk_san.Prelude.{
  Bool, Ensures, Ensures-bind, Ensures-ok, List, Option, [], ap, arith, false, if◌then◌else◌, leb,
  length, none, not, ok, refl, require, require-holds, select, some, true, ℕ, ◌&&◌, ◌++◌, ◌+◌, ◌-◌,
  ◌<◌, ◌∙◌, ◌∷◌, ◌≡◌, ◌≤◌,
}
use clerk_san.Ingest.Bytes.{slice}
use clerk_san.Requests.Json.{BoundaryError, malformed_content, multipart_limit_exceeded}
use clerk_san.Requests.Multipart.Find.{IsFirst, find, find-IsFirst, starts_with}
use clerk_san.Requests.Multipart.{
  Disposition, MultipartLimits, Part, blank_line, crlf, dashes, max_multipart_header_bytes,
  or_raise, read_part, validate_file_size,
}

or_raise-some :
    {A : Type 0} (o : Option A) (e : BoundaryError) (found : A)
    → or_raise o e ≡ ok found
    → o ≡ some found
or_raise-some none e n h = absurd (cc)
or_raise-some (some m) e n h = cc

validate_file_size_lem :
    (limits : MultipartLimits) (is_file : Bool) (file_bytes : ℕ) (u : Unit {0})
    → validate_file_size limits is_file file_bytes ≡ ok u
    → is_file ≡ true
    → (0 < file_bytes) × (file_bytes ≤ limits.max_upload_bytes)
validate_file_size_lem limits false file_bytes u h e = absurd (cc)
validate_file_size_lem limits true file_bytes u h e = ground (arith, h)

both-leb : (a b c d : ℕ) → (leb a b && leb c d) ≡ true → (a ≤ b) × (c ≤ d)
both-leb a b c d h = ground (arith, h)

abbrev pub files_of : List Part → List Part
files_of parts = select (λ part. part.is_file) parts

abbrev pub fields_of : List Part → List Part
fields_of parts = select (λ part. not part.is_file) parts

module _ (parse : List ℕ → Option Disposition) (limits : MultipartLimits)
    (body delimiter : List ℕ) where
  -- The part behind the first delimiter at `cursor` or later, wherever in a line it stands: a line
  -- break follows, the headers end at the first blank line and name the part, and its content ends
  -- at the next line break that the delimiter follows.
  pub record IsPart (cursor : ℕ) (part : Part) : Type 0 where
    pub marker : ℕ
    pub delimited : IsFirst body delimiter cursor marker
    pub starts : part.header_start ≡ marker + length delimiter + 2
    pub line_break :
        starts_with crlf (slice body (marker + length delimiter) (marker + length delimiter + 2))
        ≡ true
    pub headers : IsFirst body blank_line part.header_start part.header_end
    pub short : part.header_end - part.header_start ≤ max_multipart_header_bytes
    pub named :
        parse (slice body part.header_start part.header_end ++ blank_line)
        ≡ some record { has_name = true; has_filename = part.is_file }
    pub content : IsFirst body (crlf ++ delimiter) (part.header_end + 4) part.next_marker
    pub file_size :
        part.is_file ≡ true
        → (0 < part.next_marker - (part.header_end + 4))
          × (part.next_marker - (part.header_end + 4) ≤ limits.max_upload_bytes)

  -- The search for each part goes on where the content of the one before starts.
  abbrev pub AreParts : ℕ → List Part → Type 0
  AreParts cursor [] = Unit
  AreParts cursor (part ∷ parts) = IsPart cursor part × AreParts (part.header_end + 4) parts

  -- What one round has found: the part, and that it is within the limits
  pub record Round (cursor files fields : ℕ) (part : Part) : Type 0 where
    pub is_part : IsPart cursor part
    pub few_files : files + (if part.is_file then 1 else 0) ≤ limits.max_multipart_files
    pub few_fields : fields + (if part.is_file then 0 else 1) ≤ limits.max_multipart_fields

  -- Where the search goes on behind the parts
  abbrev pub behind : ℕ → List Part → ℕ
  behind cursor [] = cursor
  behind cursor (part ∷ parts) = behind (part.header_end + 4) parts

  pub record Walk (cursor files fields : ℕ) (seen : Bool × List Part) : Type 0 where
    pub are_parts : AreParts cursor seen.1
    pub few_files : files + length (files_of seen.1) ≤ limits.max_multipart_files
    pub few_fields : fields + length (fields_of seen.1) ≤ limits.max_multipart_fields
    pub final_delimiter :
        seen.0 ≡ true
        → (marker : ℕ) × IsFirst body delimiter (behind cursor seen.1) marker
          × (starts_with dashes
                (slice body (marker + length delimiter) (marker + length delimiter + 2))
              ≡ true)

  pub read_part-Round :
      (cursor marker files fields : ℕ)
      → IsFirst body delimiter cursor marker
      → Ensures
          (Round cursor files fields)
          (read_part parse limits body delimiter (marker + length delimiter) files fields)
  unfolding read_part
  read_part-Round cursor marker files fields delimited =
      let at = marker + length delimiter in
      Ensures-bind (require (starts_with crlf (slice body at (at + 2))) malformed_content) _
        λ a line_break.
          Ensures-bind (or_raise (find body blank_line (at + 2)) multipart_limit_exceeded) _
            λ header_end headers.
              Ensures-bind
                (require (leb (header_end - (at + 2)) max_multipart_header_bytes)
                  multipart_limit_exceeded)
                _
                λ b short.
                  Ensures-bind
                    (or_raise (parse (slice body (at + 2) header_end ++ blank_line))
                      malformed_content)
                    _
                    λ disposition read.
                      Ensures-bind (require disposition.has_name malformed_content) _ λ c named.
                        Ensures-bind
                          (require
                            (leb (files + (if disposition.has_filename then 1 else 0))
                                limits.max_multipart_files
                              && leb (fields + (if disposition.has_filename then 0 else 1))
                                  limits.max_multipart_fields)
                            multipart_limit_exceeded)
                          _
                          λ d few.
                            Ensures-bind
                              (or_raise (find body (crlf ++ delimiter) (header_end + 4))
                                malformed_content)
                              _
                              λ next_marker content.
                                Ensures-bind
                                  (validate_file_size limits disposition.has_filename
                                    (next_marker - (header_end + 4)))
                                  _
                                  λ f size.
                                    let fits =
                                      both-leb (files + (if disposition.has_filename then 1 else 0))
                                        limits.max_multipart_files
                                        (fields + (if disposition.has_filename then 0 else 1))
                                        limits.max_multipart_fields (require-holds _ _ d few) in
                                    Ensures-ok _ record {
                                      is_part = record {
                                        marker = marker;
                                        delimited = delimited;
                                        starts = refl;
                                        line_break = require-holds _ _ a line_break;
                                        headers =
                                            find-IsFirst body blank_line (at + 2) header_end
                                              (or_raise-some _ _ header_end headers);
                                        short = ground (
                                          arith,
                                          require-holds
                                              (leb (header_end - (at + 2))
                                                max_multipart_header_bytes)
                                              _ b short,
                                        );
                                        named =
                                            or_raise-some _ _ disposition read
                                            ∙ ap
                                                (λ h. some record {
                                                  has_name = h;
                                                  has_filename = disposition.has_filename;
                                                })
                                                (require-holds _ _ c named);
                                        content =
                                            find-IsFirst body (crlf ++ delimiter) (header_end + 4)
                                              next_marker (or_raise-some _ _ next_marker content);
                                        file_size =
                                            validate_file_size_lem limits disposition.has_filename _
                                              f size;
                                      };
                                      few_files = fits.0;
                                      few_fields = fits.1;
                                    }
