-- ===== src/Ingest/Directory.antt =====
-- `safe_zip_central_directory` of clerksan/ingest/limits.py: the archive's metadata read from its
-- bytes. The layout of an entry is that of `zipfile.structCentralDir`.
pub mod Tiling
use clerk_san.Prelude.{
  Bool, List, Option, String, [], err, if◌then◌else◌, leb, length, none, ok, pos, require, some,
  suc, zero, ℕ, ◌%◌, ◌&&◌, ◌+◌, ◌-◌, ◌/◌, ◌==◌, ◌>>=◌, ◌>>◌, ◌^◌, ◌∷◌,
}
use clerk_san.Jobs.Fields.{contains}
use clerk_san.Ingest.Limits.{IngestLimits, LimitResult, unsafe_archive_member, within}
use clerk_san.Ingest.Bytes.{field, slice}
use clerk_san.Ingest.Zip64.{zip_member_sizes}
use clerk_san.Ingest.Archive.{ArchiveMember, Paths, Validator, add, finish, fresh_validator}

-- What the code reads of the record that `zipfile._EndRecData` finds
pub record EndRecord : Type 0 where
  pub disk_number : ℕ
  pub disk_start : ℕ
  pub entries_total : ℕ
  pub entries_this_disk : ℕ
  pub size : ℕ
  pub location : ℕ

-- Python's library: the end record of the bytes, if there is one, and the decoding of a name, as
-- UTF-8 or as code page 437
pub record Zipfile : Type 0 where
  pub end_record : List ℕ → Option EndRecord
  pub decode : Bool → List ℕ → Option String

abbrev pub size_central_dir : ℕ
size_central_dir = 46

-- `zipfile.stringCentralDir`, the bytes `PK\1\2`
abbrev pub central_signature : ℕ
central_signature = 0x0201_4b50

-- `stat.S_ISLNK(attributes >> 16)`
unfoldable pub is_link : ℕ → Bool
is_link attributes = (attributes / 2 ^ 16 / 2 ^ 12) % 2 ^ 4 == 10

-- `_decode_zip_member_name`; bit 11 of the flags says UTF-8.
unfoldable pub decode_zip_member_name : Zipfile → List ℕ → ℕ → LimitResult String
decode_zip_member_name zipfile raw_name flags =
    elim (zipfile.decode ((flags / 2 ^ 11) % 2 == 1) raw_name) [
      | none ↦ err unsafe_archive_member
      | some name ↦ ok name
    ]

-- `names.add(name)`
abbrev pub add_name : String → List String → List String
add_name name names = if contains name names then names else name ∷ names

-- `if end_record is None`
abbrev pub present : Option EndRecord → LimitResult EndRecord
present none = err unsafe_archive_member
present (some found) = ok found

module _ (zipfile : Zipfile) (paths : Paths) (limits : IngestLimits) where
  -- One entry of the directory at the cursor: its member, and where it ends
  unfoldable pub read_entry : List ℕ → ℕ → ℕ → LimitResult (ArchiveMember × ℕ)
  unfolding field slice decode_zip_member_name zip_member_sizes is_link
  read_entry archive directory_end cursor =
      let name_start = cursor + size_central_dir in
      let name_end = name_start + field archive (cursor + 28) 2 in
      let extra_end = name_end + field archive (cursor + 30) 2 in
      let entry_end = extra_end + field archive (cursor + 32) 2 in
      do
        require (leb (cursor + size_central_dir) directory_end) unsafe_archive_member
        require (field archive cursor 4 == central_signature) unsafe_archive_member
        require (leb entry_end directory_end) unsafe_archive_member
        name ←
            decode_zip_member_name zipfile (slice archive name_start name_end)
              (field archive (cursor + 8) 2)
        sizes ←
            zip_member_sizes (field archive (cursor + 20) 4) (field archive (cursor + 24) 4)
              (slice archive name_end extra_end)
        ok (
          record {
            name = name;
            compressed_size = pos sizes.0;
            uncompressed_size = pos sizes.1;
            is_symlink = is_link (field archive (cursor + 38) 4);
          },
          entry_end,
        )

  -- The loop over the entries, which ends at the cursor behind the last
  unfoldable pub read_entries :
      List ℕ → ℕ → ℕ → ℕ → Validator → List String → LimitResult (ℕ × Validator × List String)
  unfolding read_entry add
  read_entries archive directory_end zero cursor v names = ok (cursor, v, names)
  read_entries archive directory_end (suc count) cursor v names = do
    entry ← read_entry archive directory_end cursor
    next ← add paths limits entry.0 v
    read_entries archive directory_end count entry.1 next (add_name entry.0.name names)

  unfoldable pub safe_zip_central_directory : List ℕ → LimitResult (List String)
  unfolding read_entries finish
  safe_zip_central_directory archive = do
    end ← present (zipfile.end_record archive)
    require
        (end.disk_number == 0 && end.disk_start == 0 && end.entries_this_disk == end.entries_total)
        unsafe_archive_member
    within "max_archive_members" limits.max_archive_members end.entries_total
    require (leb end.size end.location && leb end.location (length archive)) unsafe_archive_member
    read ←
        read_entries archive end.location end.entries_total (end.location - end.size)
          fresh_validator []
    require (read.0 == end.location) unsafe_archive_member
    finished ← finish paths limits read.1
    ok read.2
