-- ===== src/Ingest/Zip64/Search.antt =====
-- The search for a ZIP64 block ends, inside the extra field (clerksan/ingest/limits.py).
use clerk_san.Prelude.{
  Bool, Bool-cases, List, Option, ap, arith, drop, err, false, if◌then◌else◌, inl, inr, leb, length,
  length-drop, length-take, ltb, ok, refl, some, suc, sym, true, zero, ℕ, ◌+◌, ◌-◌, ◌<◌, ◌==◌, ◌∙◌,
  ◌≡◌, ◌≤◌,
}
use clerk_san.Ingest.Limits.{LimitResult, unsafe_archive_member}
use clerk_san.Ingest.Bytes.{field, slice}
use clerk_san.Ingest.Zip64.{find_zip64, or_stuck, zip64_extra_payload}

length-slice :
    (bytes : List ℕ) (start end : ℕ)
    → end ≤ length bytes
    → length (slice bytes start end) ≡ end - start
unfolding slice
length-slice bytes start end h =
    length-take (end - start) (drop start bytes) (omega (arith, length-drop start bytes))

-- The walk over the field, block by block: one starts at the field's start, and one behind each
-- block that is inside the field and whose header does not say ZIP64.
pub data Reached (extra : List ℕ) : ℕ → Type 0 where
  at_start : Reached extra 0
  behind :
      (cursor : ℕ)
      → Reached extra cursor
      → (field extra cursor 2 == 1) ≡ false
      → cursor + 4 + field extra (cursor + 2) 2 ≤ length extra
      → Reached extra (cursor + 4 + field extra (cursor + 2) 2)

-- A block that the walk reaches and whose header says ZIP64, with its whole content
pub record IsBlock (extra payload : List ℕ) : Type 0 where
  pub start : ℕ
  pub reached : Reached extra start
  pub header : field extra start 2 ≡ 1
  pub size : field extra (start + 2) 2 ≡ length payload
  pub inside : start + 4 + length payload ≤ length extra
  pub content : payload ≡ slice extra (start + 4) (start + 4 + length payload)

-- The walk reaches a place behind which no whole block stands.
pub record IsCut (extra : List ℕ) : Type 0 where
  pub cursor : ℕ
  pub reached : Reached extra cursor
  pub cut : length extra < cursor + 4 + field extra (cursor + 2) 2

module _ (extra : List ℕ) where
  abbrev pub IsAnswer : LimitResult (List ℕ) → Type 0
  IsAnswer (ok payload) = IsBlock extra payload
  IsAnswer (err e) = (e ≡ unsafe_archive_member) × IsCut extra

  -- The loop ends with an answer.
  abbrev pub Ends : Option (LimitResult (List ℕ)) → Type 0
  Ends o = (result : LimitResult (List ℕ)) × (o ≡ some result) × IsAnswer result

  found-Ends :
      (cursor : ℕ)
      → Reached extra cursor
      → field extra cursor 2 ≡ 1
      → cursor + 4 + field extra (cursor + 2) 2 ≤ length extra
      → Ends (some (ok (slice extra (cursor + 4) (cursor + 4 + field extra (cursor + 2) 2))))
  found-Ends cursor reached h inside =
      let payload = slice extra (cursor + 4) (cursor + 4 + field extra (cursor + 2) 2) in
      let size : length payload ≡ field extra (cursor + 2) 2 =
        (length-slice extra (cursor + 4) (cursor + 4 + field extra (cursor + 2) 2) inside
          ∙ omega arith) in
      (
        ok payload,
        refl,
        record {
          start = cursor;
          reached = reached;
          header = h;
          size = sym size;
          inside = omega (arith, size);
          content = ap (λ n. slice extra (cursor + 4) (cursor + 4 + n)) (sym size);
        },
      )

  raised-Ends :
      (cursor : ℕ)
      → Reached extra cursor
      → length extra < cursor + 4 + field extra (cursor + 2) 2
      → Ends (some (err unsafe_archive_member))
  raised-Ends cursor reached cut = (
    err unsafe_archive_member,
    refl,
    (refl, record { cursor = cursor; reached = reached; cut = cut }),
  )

  if-Ends :
      (b : Bool) {x y : Option (LimitResult (List ℕ))}
      → (b ≡ true → Ends x)
      → (b ≡ false → Ends y)
      → Ends (if b then x else y)
  if-Ends true h k = h refl
  if-Ends false h k = k refl

  find_zip64-Ends :
      (fuel cursor : ℕ)
      → Reached extra cursor
      → cursor ≤ length extra
      → length extra < fuel + cursor
      → Ends (find_zip64 fuel extra cursor)
  unfolding find_zip64
  find_zip64-Ends zero cursor reached low h = absurd (omega arith)
  find_zip64-Ends (suc fuel) cursor reached low h =
      let size = field extra (cursor + 2) 2 in
      let raised = raised-Ends cursor reached in
      if-Ends (leb (length extra) cursor) (λ a. raised (ground arith))
        λ a.
          if-Ends (ltb (length extra) (cursor + 4)) (λ b. raised (ground arith))
            λ b.
              if-Ends (ltb (length extra) (cursor + 4 + size)) (λ c. raised (ground arith))
                λ c.
                  let inside : cursor + 4 + size ≤ length extra = ground arith in
                  elim (Bool-cases (field extra cursor 2 == 1)) [
                    | inl t ↦ rw t (found-Ends cursor reached (ground arith) inside)
                    | inr f ↦ rw f (
                        find_zip64-Ends fuel (cursor + 4 + size) (behind cursor reached f inside)
                          inside (omega arith))
                  ]

-- The search for a ZIP64 block ends on every extra field, and a payload that it finds is the whole
-- content of a block inside the field whose header says ZIP64, which the walk reaches from the
-- field's start over the whole of each block before, none of which is a ZIP64 block. It raises only
-- where the walk reaches a place behind which no whole block stands, and then the error of unsafe
-- members.
pub zip64_extra_payload_lem :
    (extra : List ℕ)
    → (result : LimitResult (List ℕ)) × (find_zip64 (length extra + 1) extra 0 ≡ some result)
      × (zip64_extra_payload extra ≡ result)
      × IsAnswer extra result
unfolding zip64_extra_payload
zip64_extra_payload_lem extra =
    let (result, e, h) =
      find_zip64-Ends extra (length extra + 1) 0 at_start (omega arith) (omega arith) in
    (result, e, ap or_stuck e, h)
