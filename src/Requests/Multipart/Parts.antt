-- ===== src/Requests/Multipart/Parts.antt =====
-- Which multipart bodies are let pass (clerksan/api/request_boundaries.py).
use clerk_san.Prelude.{
  >>=-eq-ok, Bool, Bool-cases, Ensures, Ensures-ok, List, Option, Option-cases, Result, [], ap,
  arith, err, false, if◌then◌else◌, inl, inr, leb, length, none, not, ok, ok_injective, refl,
  require, select, some, subst, suc, sym, true, zero, ℕ, ◌&&◌, ◌++◌, ◌+◌, ◌<◌, ◌==◌, ◌||◌, ◌↔◌, ◌∙◌,
  ◌∷◌, ◌≡◌, ◌≤◌, ◌⊎◌,
}
use clerk_san.Ingest.Bytes.{slice}
use clerk_san.Requests.Json.{BoundaryError, malformed_content}
use clerk_san.Requests.Multipart.Find.{find, find-IsFirst, starts_with}
use clerk_san.Requests.Multipart.{
  Disposition, MultipartLimits, Part, dashes, final, multipart_boundary, prepend, read_part,
  read_parts, validate_multipart_body,
}
use clerk_san.Requests.Multipart.Accepts.{Walk-read_parts}
use clerk_san.Requests.Multipart.Round.{Round, Walk, read_part-Round}

Result-cases : {E A : Type 0} (m : Result E A) → ((e : E) × (m ≡ err e)) ⊎ ((a : A) × (m ≡ ok a))
Result-cases (err e) = inl (e, refl)
Result-cases (ok a) = inr (a, refl)

module _ (parse : List ℕ → Option Disposition) (limits : MultipartLimits)
    (body delimiter : List ℕ) where
  abbrev Ends : ℕ → ℕ → ℕ → Option (Result BoundaryError (Bool × List Part)) → Type 0
  Ends cursor files fields o =
      (result : Result BoundaryError (Bool × List Part)) × (o ≡ some result)
      × Ensures (Walk parse limits body delimiter cursor files fields) result

  prepend-Ends :
      (cursor files fields : ℕ) (part : Part) (o : Option (Result BoundaryError (Bool × List Part)))
      → Round parse limits body delimiter cursor files fields part
      → Ends
          (part.header_end + 4)
          (files + (if part.is_file then 1 else 0))
          (fields + (if part.is_file then 0 else 1))
          o
      → Ends cursor files fields (prepend part o)
  prepend-Ends cursor files fields part o round (err e, same, h) =
      (err e, ap (prepend part) same, record { at = λ a r. absurd (cc) })
  prepend-Ends cursor files fields part o round (ok (saw_final, parts), same, h) =
      let walk = h.at (saw_final, parts) refl in
      (
        ok (saw_final, part ∷ parts),
        ap (prepend part) same,
        Ensures-ok (saw_final, part ∷ parts)
            record {
              are_parts = (round.is_part, walk.are_parts);
              few_files = ground (arith, walk.few_files);
              few_fields = ground (arith, walk.few_fields);
              final_delimiter = walk.final_delimiter;
            },
      )

  read_parts-Ends :
      (fuel cursor files fields : ℕ)
      → cursor ≤ length body
      → length body < fuel + cursor
      → files ≤ limits.max_multipart_files
      → fields ≤ limits.max_multipart_fields
      → Ends cursor files fields (read_parts parse limits body delimiter fuel cursor files fields)
  unfolding read_parts
  read_parts-Ends zero cursor files fields low enough few_files few_fields = absurd (omega arith)
  read_parts-Ends (suc fuel) cursor files fields low enough few_files few_fields =
      elim (Option-cases (find body delimiter cursor)) [
        | inl e ↦
            rw (e, read_parts)
              (
                ok (false, []),
                refl,
                Ensures-ok (false, [])
                    record {
                      are_parts = tt;
                      few_files = omega arith;
                      few_fields = omega arith;
                      final_delimiter = λ h. absurd (cc);
                    },
              )
        | inr (marker, e) ↦
            let first = find-IsFirst body delimiter cursor marker e in
            rw (e, read_parts)
              (elim (Bool-cases (
                starts_with dashes
                  (slice body (marker + length delimiter) (marker + length delimiter + 2)))) [
                    | inl t ↦ rw t (
                      ok (true, []),
                      refl,
                      Ensures-ok (true, [])
                          record {
                            are_parts = tt;
                            few_files = omega arith;
                            few_fields = omega arith;
                            final_delimiter = λ h. (marker, first, t);
                          },
                    )
                    | inr f ↦
                        rw f
                          (elim (Result-cases (
                            read_part parse limits body delimiter (marker + length delimiter) files
                              fields)) [
                                | inl (raised, r) ↦
                                    rw r (err raised, refl, record { at = λ a h. absurd (cc) })
                                | inr (part, r) ↦
                                    let round =
                                      (read_part-Round parse limits body delimiter cursor marker
                                          files fields first).at
                                        part r in
                                    let p = round.is_part in
                                    rw r (
                                      prepend-Ends cursor files fields part _ round (
                                        read_parts-Ends fuel (part.header_end + 4)
                                          (files + (if part.is_file then 1 else 0))
                                          (fields + (if part.is_file then 0 else 1))
                                          (omega (arith, p.headers.inside))
                                          (omega
                                            (arith, p.delimited.late, p.starts, p.headers.late))
                                          round.few_files round.few_fields))
                              ])
                  ])
      ]

final-ok :
    (o : Option (Result BoundaryError (Bool × List Part))) (parts : List Part)
    → final o ≡ ok parts
    → o ≡ some (ok (true, parts))
final-ok none parts e = absurd (cc)
final-ok (some (err raised)) parts e = absurd (cc)
final-ok (some (ok (false, found))) parts e = absurd (cc)
final-ok (some (ok (true, found))) parts e =
    let same : found ≡ parts = cc in ap (λ ps. some (ok (true, ps))) same

multipart_boundary-ok :
    (boundary rendered : List ℕ)
    → multipart_boundary (some boundary) ≡ ok rendered
    → boundary ≡ rendered
unfolding multipart_boundary
multipart_boundary-ok boundary rendered e =
    let (a, first, e1) =
      >>=-eq-ok
        (require (not (length boundary == 0) && leb (length boundary) 200) malformed_content) _ e in
    let (b, second, e2) =
      >>=-eq-ok (require (length (select (λ c. leb 128 c) boundary) == 0) malformed_content) _ e1 in
    let (c, third, e3) =
      >>=-eq-ok
        (require (length (select (λ c. c == 13 || c == 10) boundary) == 0) malformed_content) _
        e2 in
    ok_injective e3

multipart_boundary-same :
    (boundary rendered : List ℕ)
    → multipart_boundary (some boundary) ≡ ok rendered
    → multipart_boundary (some boundary) ≡ ok boundary
multipart_boundary-same boundary rendered e =
    e ∙ ap ok (sym (multipart_boundary-ok boundary rendered e))

-- The check of a multipart body ends on every body: within its length plus one rounds the loop has a
-- result. It lets a body pass exactly if it lets the boundary pass and the scan finds a chain of parts,
-- and then a final delimiter, as follows. Each part stands behind the first delimiter, wherever in a
-- line, that comes at or after the start of the content of the part before; a line break follows that
-- delimiter, then headers of at most 65536 bytes up to their first blank line, which give a name, and
-- then content up to the next line break that the delimiter follows. Of the parts that the scan finds
-- before that final delimiter, no more are files, and no more are fields, than the limits allow, and
-- each file has at least one byte and at most `max_upload_bytes`; what stands behind the final
-- delimiter is not counted.
pub validate_multipart_body_lem :
    (parse : List ℕ → Option Disposition) (limits : MultipartLimits) (rendered body : List ℕ)
    → ((result : Result BoundaryError (Bool × List Part)) × (read_parts parse limits body
            (dashes ++ rendered)
            (length body + 1)
            0
            0
            0
          ≡ some result))
      × ((parts : List Part)
          → (validate_multipart_body parse limits (some rendered) body ≡ ok parts) ↔ (
              (multipart_boundary (some rendered) ≡ ok rendered)
              × Walk parse limits body (dashes ++ rendered) 0 0 0 (true, parts)))
unfolding validate_multipart_body
validate_multipart_body_lem parse limits rendered body =
    let (result, same, walk) =
      read_parts-Ends parse limits body (dashes ++ rendered) (length body + 1) 0 0 0 (omega arith)
        (omega arith) (omega arith) (omega arith) in
    (
      (result, same),
      λ parts. (
        λ e.
            let (between, boundary, rest) = >>=-eq-ok (multipart_boundary (some rendered)) _ e in
            let delimiter = sym (multipart_boundary-ok rendered between boundary) in
            let finished : final
                  (read_parts parse limits body (dashes ++ rendered) (length body + 1) 0 0 0)
                ≡ ok parts =
              subst
                (λ b.
                  final (read_parts parse limits body (dashes ++ b) (length body + 1) 0 0 0)
                  ≡ ok parts)
                delimiter rest in
            let found =
              sym same
              ∙ final-ok (read_parts parse limits body (dashes ++ rendered) (length body + 1) 0 0 0)
                  parts finished in
            (multipart_boundary-same rendered between boundary, walk.at (true, parts) (cc)),
        λ (boundary, accepted).
            let read =
              Walk-read_parts parse limits body (dashes ++ rendered) parts (length body + 1) 0 0 0
                (omega arith) accepted in
            rw (boundary, read) refl,
      ),
    )
