-- ===== src/Ingest/Zip64.antt =====
-- The sizes of an entry of an archive's central directory: `_zip_member_sizes`,
-- `_zip64_extra_payload` and `_read_zip64_size` of clerksan/ingest/limits.py.
pub mod Search
use clerk_san.Prelude.{
  List, Option, err, if◌then◌else◌, leb, length, ltb, none, not, ok, some, suc, zero, ℕ, ◌&&◌, ◌+◌,
  ◌==◌, ◌>>=◌, ◌>>◌,
}
use clerk_san.Ingest.Limits.{LimitResult, unsafe_archive_member, value_error}
use clerk_san.Ingest.Bytes.{field, slice}

-- The loop over the extra field's blocks. `none` means that the fuel ran out, which Search rules
-- out at the fuel that `zip64_extra_payload` gives.
unfoldable pub find_zip64 : ℕ → List ℕ → ℕ → Option (LimitResult (List ℕ))
unfolding field slice
find_zip64 zero extra cursor = none
find_zip64 (suc fuel) extra cursor =
    let header_id = field extra cursor 2 in
    let size = field extra (cursor + 2) 2 in
    let payload_end = cursor + 4 + size in
    let rest = find_zip64 fuel extra payload_end in
    if leb (length extra) cursor
    then some (err unsafe_archive_member)
    else if ltb (length extra) (cursor + 4)
    then some (err unsafe_archive_member)
    else if ltb (length extra) payload_end
    then some (err unsafe_archive_member)
    else if header_id == 1
    then some (ok (slice extra (cursor + 4) payload_end))
    else rest

abbrev pub or_stuck : Option (LimitResult (List ℕ)) → LimitResult (List ℕ)
or_stuck none = err value_error
or_stuck (some result) = result

unfoldable pub zip64_extra_payload : List ℕ → LimitResult (List ℕ)
unfolding find_zip64
zip64_extra_payload extra = or_stuck (find_zip64 (length extra + 1) extra 0)

unfoldable pub read_zip64_size : List ℕ → ℕ → LimitResult (ℕ × ℕ)
unfolding field
read_zip64_size payload cursor =
    if ltb (length payload) (cursor + 8)
    then err unsafe_archive_member
    else ok (field payload cursor 8, cursor + 8)

abbrev pub zip64_sentinel : ℕ
zip64_sentinel = 0xffff_ffff

-- A size whose field holds the sentinel is read from the payload, any other stands.
abbrev pub size_or : List ℕ → ℕ → ℕ → LimitResult (ℕ × ℕ)
size_or payload cursor size =
    if size == zip64_sentinel then read_zip64_size payload cursor else ok (size, cursor)

unfoldable pub zip_member_sizes : ℕ → ℕ → List ℕ → LimitResult (ℕ × ℕ)
unfolding zip64_extra_payload read_zip64_size
zip_member_sizes compressed_size uncompressed_size extra =
    if not (compressed_size == zip64_sentinel) && not (uncompressed_size == zip64_sentinel)
    then ok (compressed_size, uncompressed_size)
    else do
      payload ← zip64_extra_payload extra
      uncompressed ← size_or payload 0 uncompressed_size
      compressed ← size_or payload uncompressed.1 compressed_size
      ok (compressed.0, uncompressed.0)
