-- ===== src/Tests/Ingest.antt =====
-- A parse and an archive under small limits (clerksan/ingest/limits.py).
use clerk_san.Prelude.{List, [], false, ltb, none, ok, pos, refl, ◌*◌, ◌∷◌, ◌≡◌, ◌⊎◌}
use clerk_san.Ingest.Limits.{IngestLimits}
use clerk_san.Ingest.Budget.{
  Parse, ParseBudget, consumes, deepens, finished, nests, pages, rows, run,
}
use clerk_san.Ingest.Budget.Accounted.{IsAccounted, claimed, deepest}
use clerk_san.Ingest.Budget.Granted.{Fits}
use clerk_san.Ingest.Budget.Within.{run_lem}
use clerk_san.Ingest.Archive.{ArchiveMember, Paths, safe_zip_members}
use clerk_san.Ingest.Archive.Safe.{IsSafeArchive, safe_zip_members_lem}

abbrev pub limits : IngestLimits
limits = record {
  max_upload_bytes = 100;
  max_pdf_pages = 10;
  max_image_pixels = 100;
  max_image_width = 20;
  max_image_height = 20;
  max_archive_members = 3;
  max_archive_uncompressed_bytes = 50;
  over_expansion_ratio = λ uncompressed compressed. ltb (10 * compressed) uncompressed;
  max_image_frames = 4;
  max_text_characters = 100;
  max_tabular_rows = 10;
  max_tabular_cells = 40;
  max_structured_nodes = 20;
  max_recursion_depth = 2;
  max_normalized_output_bytes = 60;
}

abbrev budget : ParseBudget
budget = record { consumed = λ counter. 0; max_nesting = 0; current_nesting = 0 }

-- An archive's level, a member that takes pages, and then too many rows at the top
abbrev parse : Parse limits
parse = deepens (pos 1) (nests (consumes pages (pos 3) finished) (consumes rows (pos 11) finished))

run_lem_example :
    IsAccounted limits
      (λ counter. claimed limits counter parse)
      (deepest limits 0 parse)
      budget
      (run limits parse budget)
    × (((run limits parse budget).1 ≡ none) ⊎ ¬ Fits limits 0 parse budget)
run_lem_example = run_lem limits parse budget

abbrev pub paths : Paths
paths = record { is_windows_absolute = λ name. false; posix_parts = λ name. name ∷ [] }

abbrev entries : List ArchiveMember
entries =
    (record {
      name = "a.txt";
      compressed_size = pos 4;
      uncompressed_size = pos 30;
      is_symlink = false;
    })
    ∷ (record {
      name = "b/c.txt";
      compressed_size = pos 2;
      uncompressed_size = pos 20;
      is_symlink = false;
    })
    ∷ []

entries_safe : safe_zip_members paths limits entries ≡ ok ("a.txt" ∷ "b/c.txt" ∷ [])
unfolding safe_zip_members
entries_safe = refl

safe_zip_members_lem_example : IsSafeArchive paths limits entries ("a.txt" ∷ "b/c.txt" ∷ [])
safe_zip_members_lem_example =
    safe_zip_members_lem paths limits entries ("a.txt" ∷ "b/c.txt" ∷ []) entries_safe
