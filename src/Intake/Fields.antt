-- ===== src/Intake/Fields.antt =====
-- The checks of clerksan/db/repositories.py on the textual fields of an intake.
use clerk_san.Prelude.{Option, Result, String, err, if◌then◌else◌, none, ok, some, ◌&&◌, ◌==◌}
use clerk_san.Prelude.Strings.{is_empty, strip, size, every}
use clerk_san.Jobs.Fields.{is_lower_hex}

pub data IntakeError : Type 0 where
  validation stale value_error : IntakeError

abbrev pub IntakeResult : Type 0 → Type 0
IntakeResult A = Result IntakeError A

-- `_clean_text`
unfoldable pub clean_text : String → IntakeResult String
unfolding strip
clean_text value =
    let cleaned = strip value in if is_empty cleaned then err value_error else ok cleaned

-- `_clean_optional_text`
unfoldable pub clean_optional_text : Option String → Option String
unfolding strip
clean_optional_text none = none
clean_optional_text (some value) =
    let cleaned = strip value in if is_empty cleaned then none else some cleaned

-- `_validate_optional_digest`, at a value that is present
unfoldable pub validate_digest : String → IntakeResult String
unfolding strip size every
validate_digest value =
    let cleaned = strip value in
    if size cleaned == 64 && every is_lower_hex cleaned then ok cleaned else err validation
