-- ===== src/Ingest/Limits.antt =====
-- `IngestLimits` and the single checks of clerksan/ingest/limits.py.
use clerk_san.Prelude.{
  Bool, Result, String, err, if◌then◌else◌, leb, negsuc, ok, pos, require, ℕ, ℤ, ◌*◌, ◌>>=◌, ◌>>◌,
}

-- The floating-point comparison `uncompressed / compressed > max_archive_expansion_ratio` is the
-- field `over_expansion_ratio`, applied to the two sizes.
pub record IngestLimits : Type 0 where
  pub max_upload_bytes : ℕ
  pub max_pdf_pages : ℕ
  pub max_image_pixels : ℕ
  pub max_image_width : ℕ
  pub max_image_height : ℕ
  pub max_archive_members : ℕ
  pub max_archive_uncompressed_bytes : ℕ
  pub over_expansion_ratio : ℕ → ℕ → Bool
  pub max_image_frames : ℕ
  pub max_text_characters : ℕ
  pub max_tabular_rows : ℕ
  pub max_tabular_cells : ℕ
  pub max_structured_nodes : ℕ
  pub max_recursion_depth : ℕ
  pub max_normalized_output_bytes : ℕ

-- `ResourceLimitExceeded` by the limit's name, `UnsafeArchiveMemberError`, and `ValueError`
pub data LimitError : Type 0 where
  resource_limit_exceeded : String → LimitError
  unsafe_archive_member : LimitError
  value_error : LimitError

abbrev pub LimitResult : Type 0 → Type 0
LimitResult A = Result LimitError A

-- `_require_nonnegative`, with the number that it lets pass
abbrev pub nonnegative : ℤ → LimitResult ℕ
nonnegative (pos n) = ok n
nonnegative (negsuc n) = err value_error

-- `if value > limit: raise ResourceLimitExceeded(name, …)`
abbrev pub within : String → ℕ → ℕ → LimitResult (Unit {0})
within name limit value = require (leb value limit) (resource_limit_exceeded name)

unfoldable pub check_upload_size : ℤ → IngestLimits → LimitResult (Unit {0})
check_upload_size size limits = do
  n ← nonnegative size
  within "max_upload_bytes" limits.max_upload_bytes n

unfoldable pub check_pdf_pages : ℤ → IngestLimits → LimitResult (Unit {0})
check_pdf_pages page_count limits = do
  n ← nonnegative page_count
  within "max_pdf_pages" limits.max_pdf_pages n

-- `if width < 1 or height < 1`
abbrev pub dimension : ℤ → LimitResult ℕ
dimension (pos n) = if leb 1 n then ok n else err value_error
dimension (negsuc n) = err value_error

unfoldable pub check_image_pixels : ℤ → ℤ → IngestLimits → LimitResult (Unit {0})
check_image_pixels width height limits = do
  w ← dimension width
  h ← dimension height
  within "max_image_width" limits.max_image_width w
  within "max_image_height" limits.max_image_height h
  within "max_image_pixels" limits.max_image_pixels (w * h)
