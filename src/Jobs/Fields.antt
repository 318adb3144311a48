-- ===== src/Jobs/Fields.antt =====
-- The checks of clerksan/ingest/jobs.py on the textual fields of a job.
use clerk_san.Prelude.{
  Bool, List, Option, String, [], err, false, if◌then◌else◌, leb, ltb, none, ok, some, str_eq, true,
  ℕ, ◌&&◌, ◌==◌, ◌>>=◌, ◌||◌, ◌∷◌,
}
use clerk_san.Prelude.Strings.{every, is_empty, size, strip}
use clerk_san.Prelude.Sorting.{sorted}
use clerk_san.Jobs.Row.{JobResult, value_error}
use Prim.Native.Char.{code}

-- `_clean_nonempty`
unfoldable pub clean_nonempty : String → JobResult String
unfolding strip
clean_nonempty value =
    let cleaned = strip value in if is_empty cleaned then err value_error else ok cleaned

abbrev pub is_lower_hex : ℕ → Bool
is_lower_hex c = (leb b'0' c && leb c b'9') || (leb b'a' c && leb c b'f')

-- `_validate_optional_digest`
unfoldable pub validate_optional_digest : Option String → JobResult (Option String)
unfolding strip size every
validate_optional_digest none = ok none
validate_optional_digest (some value) =
    let cleaned = strip value in
    if size cleaned == 64 && every is_lower_hex cleaned then ok (some cleaned) else err value_error

-- Python's `<=` on texts, by code points
unfoldable pub str_leb : String → String → Bool
str_leb String.[] t = true
str_leb (String.◌∷◌ c s) String.[] = false
str_leb (String.◌∷◌ c s) (String.◌∷◌ d t) =
    ltb (code c) (code d) || (code c == code d && str_leb s t)

abbrev pub contains : String → List String → Bool
contains value [] = false
contains value (x ∷ xs) = str_eq value x || contains value xs

-- `len(values) != len(set(values))`
unfoldable pub has_duplicates : List String → Bool
has_duplicates [] = false
has_duplicates (x ∷ xs) = contains x xs || has_duplicates xs

strip_all : List String → JobResult (List String)
unfolding clean_nonempty
strip_all [] = ok []
strip_all (value ∷ values) = do
  cleaned ← clean_nonempty value
  rest ← strip_all values
  ok (cleaned ∷ rest)

-- `_normalize_required_components`
unfoldable pub normalize_required_components : List String → JobResult (List String)
unfolding strip_all has_duplicates sorted str_leb
normalize_required_components values = do
  normalized ← strip_all values
  if has_duplicates normalized then err value_error else ok (sorted str_leb normalized)
