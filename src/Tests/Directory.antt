-- ===== src/Tests/Directory.antt =====
-- The metadata of concrete archives (clerksan/ingest/limits.py).
use clerk_san.Prelude.{List, [], length, ok, refl, some, ℕ, ◌+◌, ◌^◌, ◌∷◌, ◌≡◌}
use clerk_san.Ingest.Limits.{LimitResult}
use clerk_san.Ingest.Zip64.{find_zip64, zip64_extra_payload, zip_member_sizes}
use clerk_san.Ingest.Zip64.Search.{IsAnswer, zip64_extra_payload_lem}
use clerk_san.Ingest.Directory.{EndRecord, Zipfile, safe_zip_central_directory}
use clerk_san.Ingest.Directory.Tiling.{IsDirectory, safe_zip_central_directory_lem}
use clerk_san.Tests.Ingest.{limits, paths}

-- A block of another kind, and then a ZIP64 block that holds one size
abbrev extra : List ℕ
extra = 7 ∷ 0 ∷ 1 ∷ 0 ∷ 255 ∷ 1 ∷ 0 ∷ 8 ∷ 0 ∷ 5 ∷ 0 ∷ 0 ∷ 0 ∷ 1 ∷ 0 ∷ 0 ∷ 0 ∷ []

sizes_read : zip_member_sizes 3 0xffff_ffff extra ≡ ok (3, 5 + 2 ^ 32)
unfolding zip_member_sizes
sizes_read = refl

zip64_extra_payload_lem_example :
    (result : LimitResult (List ℕ)) × (find_zip64 (length extra + 1) extra 0 ≡ some result)
    × (zip64_extra_payload extra ≡ result)
    × IsAnswer extra result
zip64_extra_payload_lem_example = zip64_extra_payload_lem extra

-- One entry: the member `a` of 4 bytes that expands to 9
abbrev archive : List ℕ
archive =
    0x50 ∷ 0x4b ∷ 1 ∷ 2 ∷ 0 ∷ 0 ∷ 0 ∷ 0 ∷ 0 ∷ 0 ∷ 0 ∷ 0 ∷ 0 ∷ 0 ∷ 0 ∷ 0 ∷ 0 ∷ 0 ∷ 0 ∷ 0 ∷ 4 ∷ 0 ∷ 0
    ∷ 0 ∷ 9 ∷ 0 ∷ 0 ∷ 0 ∷ 1 ∷ 0 ∷ 0 ∷ 0 ∷ 0 ∷ 0 ∷ 0 ∷ 0 ∷ 0 ∷ 0 ∷ 0 ∷ 0 ∷ 0 ∷ 0 ∷ 0 ∷ 0 ∷ 0 ∷ 0 ∷ 97
    ∷ []

abbrev zipfile : Zipfile
zipfile = record {
  end_record = λ bytes. some record {
    disk_number = 0;
    disk_start = 0;
    entries_total = 1;
    entries_this_disk = 1;
    size = 47;
    location = 47;
  };
  decode = λ utf_8 name. some "a";
}

archive_read : safe_zip_central_directory zipfile paths limits archive ≡ ok ("a" ∷ [])
unfolding safe_zip_central_directory
archive_read = refl

safe_zip_central_directory_lem_example :
    (end : EndRecord) × (zipfile.end_record archive ≡ some end)
    × IsDirectory zipfile paths limits archive end ("a" ∷ [])
safe_zip_central_directory_lem_example =
    safe_zip_central_directory_lem zipfile paths limits archive ("a" ∷ []) archive_read
