-- ===== src/Ingest/Archive.antt =====
-- `safe_zip_members` of clerksan/ingest/limits.py: the validation of an archive's members before
-- any is opened.
pub mod Safe
use Prim.Native.Char.{code}
use clerk_san.Prelude.{
  Bool, List, String, [], err, false, if◌then◌else◌, leb, length, ltb, negsuc, not, ok, pos,
  require, str_eq, ℕ, ℤ, ◌&&◌, ◌++◌, ◌+◌, ◌==◌, ◌>>=◌, ◌>>◌, ◌||◌, ◌∷◌,
}
use clerk_san.Prelude.Strings.{every, is_empty}
use clerk_san.Ingest.Limits.{
  IngestLimits, LimitResult, resource_limit_exceeded, unsafe_archive_member, within,
}

-- `_ArchiveMember`
pub record ArchiveMember : Type 0 where
  pub name : String
  pub compressed_size : ℤ
  pub uncompressed_size : ℤ
  pub is_symlink : Bool

-- Python's path classes, which the check consults
pub record Paths : Type 0 where
  pub is_windows_absolute : String → Bool
  pub posix_parts : String → List String

abbrev pub is_letter : ℕ → Bool
is_letter c = (leb 65 c && leb c 90) || (leb 97 c && leb c 122)

-- `name.startswith(("/", "//"))`
abbrev pub starts_with_slash : String → Bool
starts_with_slash String.[] = false
starts_with_slash (String.◌∷◌ c s) = code c == 47

-- `re.match(r"^[A-Za-z]:", name)`
abbrev pub is_drive_qualified : String → Bool
is_drive_qualified String.[] = false
is_drive_qualified (String.◌∷◌ c String.[]) = false
is_drive_qualified (String.◌∷◌ c (String.◌∷◌ d s)) = is_letter (code c) && code d == 58

-- `part in {"", ".", ".."}` for some part
unfoldable pub any_ambiguous : List String → Bool
any_ambiguous [] = false
any_ambiguous (part ∷ parts) =
    str_eq part "" || str_eq part "." || str_eq part ".." || any_ambiguous parts

-- `_ArchiveSafetyValidator`
pub record Validator : Type 0 where
  pub member_count : ℕ
  pub total_compressed : ℕ
  pub total_uncompressed : ℕ
  pub names : List String

abbrev pub fresh_validator : Validator
fresh_validator = record {
  member_count = 0;
  total_compressed = 0;
  total_uncompressed = 0;
  names = [];
}

module _ (paths : Paths) (limits : IngestLimits) where
  -- The conditions of `_validate_member_path`, each of which raises
  unfoldable pub is_safe_path : String → Bool
  unfolding every any_ambiguous
  is_safe_path name =
      not (is_empty name)
      && every (λ c. not (c == 0)) name
      && every (λ c. not (c == 92)) name
      && not (starts_with_slash name || paths.is_windows_absolute name)
      && not (is_drive_qualified name)
      && not (any_ambiguous (paths.posix_parts name))

  -- `_check_member_expansion`; at a compressed size of 0 the source's two tests part.
  unfoldable pub expands_too_far : ℕ → ℕ → Bool
  expands_too_far uncompressed compressed =
      if compressed == 0
      then ltb 0 uncompressed
      else limits.over_expansion_ratio uncompressed compressed

  abbrev pub member_size : ℤ → LimitResult ℕ
  member_size (pos n) = ok n
  member_size (negsuc n) = err unsafe_archive_member

  unfoldable pub add : ArchiveMember → Validator → LimitResult Validator
  unfolding is_safe_path expands_too_far
  add member v = do
    within "max_archive_members" limits.max_archive_members (v.member_count + 1)
    require (is_safe_path member.name) unsafe_archive_member
    require (not member.is_symlink) unsafe_archive_member
    compressed ← member_size member.compressed_size
    uncompressed ← member_size member.uncompressed_size
    require (not (expands_too_far uncompressed compressed))
        (resource_limit_exceeded "max_archive_expansion_ratio")
    within "max_archive_uncompressed_bytes" limits.max_archive_uncompressed_bytes
        (v.total_uncompressed + uncompressed)
    ok record {
      member_count = v.member_count + 1;
      total_compressed = v.total_compressed + compressed;
      total_uncompressed = v.total_uncompressed + uncompressed;
      names = v.names ++ (member.name ∷ []);
    }

  unfoldable pub add_all : List ArchiveMember → Validator → LimitResult Validator
  unfolding add
  add_all [] v = ok v
  add_all (member ∷ members) v = do next ← add member v; add_all members next

  unfoldable pub finish : Validator → LimitResult (List String)
  finish v = do
    require (not (expands_too_far v.total_uncompressed v.total_compressed))
        (resource_limit_exceeded "max_archive_expansion_ratio")
    ok v.names

  unfoldable pub safe_zip_members : List ArchiveMember → LimitResult (List String)
  unfolding add_all finish
  safe_zip_members members = do
    within "max_archive_members" limits.max_archive_members (length members)
    v ← add_all members fresh_validator
    finish v
