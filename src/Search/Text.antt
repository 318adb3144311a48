-- ===== src/Search/Text.antt =====
-- Python's texts as lists of code points: `isspace`, `strip`, `splitlines` and `join`, by the
-- language's documentation, and the character classes of clerksan/search/chunking.py.
use clerk_san.Prelude.{
  Bool, List, [], false, if◌then◌else◌, leb, true, ℕ, ◌&&◌, ◌++◌, ◌==◌, ◌||◌, ◌∷◌,
}

abbrev pub Text : Type 0
Text = List ℕ

abbrev pub between : ℕ → ℕ → ℕ → Bool
between low high c = leb low c && leb c high

unfoldable pub is_space : ℕ → Bool
is_space c =
    between 9 13 c
    || between 28 32 c
    || c == 0x85
    || c == 0xa0
    || c == 0x1680
    || between 0x2000 0x200a c
    || between 0x2028 0x2029 c
    || c == 0x202f
    || c == 0x205f
    || c == 0x3000

-- `_CJK`
unfoldable pub is_cjk : ℕ → Bool
is_cjk c =
    between 0x3040 0x30ff c
    || between 0x3400 0x4dbf c
    || between 0x4e00 0x9fff c
    || between 0xff00 0xffef c

-- `_LATIN_WORD`
unfoldable pub is_word : ℕ → Bool
is_word c = between b'A' b'Z' c || between b'a' b'z' c || between b'0' b'9' c || c == b'_'

abbrev pub null : {A : Type 0} → List A → Bool
null [] = true
null (x ∷ xs) = false

unfoldable pub lstrip : Text → Text
lstrip [] = []
lstrip (c ∷ text) = let rest = lstrip text in if is_space c then rest else c ∷ text

unfoldable pub rstrip : Text → Text
rstrip [] = []
rstrip (c ∷ text) = let rest = rstrip text in if is_space c && null rest then [] else c ∷ rest

unfoldable pub strip_text : Text → Text
unfolding lstrip rstrip
strip_text text = rstrip (lstrip text)

-- `separator.join(parts)`
unfoldable pub join_texts : Text → List Text → Text
join_texts separator [] = []
join_texts separator (part ∷ []) = part
join_texts separator (part ∷ (next ∷ parts)) =
    part ++ (separator ++ join_texts separator (next ∷ parts))

abbrev pub is_line_end : ℕ → Bool
is_line_end c = between 10 13 c || between 28 30 c || c == 0x85 || between 0x2028 0x2029 c

-- `text.splitlines()`, with the line that is being read, and whether the last character was a
-- carriage return, which takes a line feed behind it along
unfoldable pub lines_of : Text → Text → Bool → List Text
lines_of [] line returned = if null line then [] else line ∷ []
lines_of (c ∷ text) line returned =
    let joined = returned && c == 10 in
    let rest = lines_of text (if joined || is_line_end c then [] else line ++ (c ∷ [])) (c == 13) in
    if joined then rest else if is_line_end c then line ∷ rest else rest

unfoldable pub splitlines : Text → List Text
unfolding lines_of
splitlines text = lines_of text [] false
