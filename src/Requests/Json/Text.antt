-- ===== src/Requests/Json/Text.antt =====
-- JSON texts as a grammar, independent of the scanner in clerksan/api/request_boundaries.py.
use clerk_san.Prelude.{Bool, List, [], max, not, true, ℕ, ◌&&◌, ◌++◌, ◌+◌, ◌==◌, ◌||◌, ◌∷◌, ◌≡◌}

-- A character of a string: as it stands, or behind a backslash
pub data Character : Type 0 where
  raw escape : ℕ → Character

-- A scalar is a number, `true`, `false` or `null`, by its bytes. White space stands around any
-- value, behind an opening bracket, and on both sides of a key.
mutual
  pub data Value : Type 0 where
    scalar : List ℕ → Value
    text : List Character → Value
    array : List ℕ → Values → Value
    object : List ℕ → Members → Value
    spaced : List ℕ → Value → List ℕ → Value

  pub data Values : Type 0 where
    no_value : Values
    value_then : Value → Values → Values

  pub data Members : Type 0 where
    no_member : Members
    member_then : List ℕ → List Character → List ℕ → Value → Members → Members

unfoldable pub render_characters : List Character → List ℕ
render_characters [] = []
render_characters (raw c ∷ characters) = c ∷ render_characters characters
render_characters (escape c ∷ characters) = 0x5c ∷ c ∷ render_characters characters

unfoldable pub render_text : List Character → List ℕ
unfolding render_characters
render_text characters = 0x22 ∷ render_characters characters ++ (0x22 ∷ [])

-- A key with the white space around it, and its colon
unfoldable pub render_key : List ℕ → List Character → List ℕ → List ℕ
unfolding render_text
render_key before key after = before ++ (render_text key ++ (after ++ (0x3a ∷ [])))

-- `,` behind a value that another one follows
abbrev pub comma : List ℕ
comma = 0x2c ∷ []

unfoldable mutual
  unfolding render_text render_key

  pub render : Value → List ℕ
  render (scalar bytes) = bytes
  render (text characters) = render_text characters
  render (array spaces values) = 0x5b ∷ (spaces ++ render_values values) ++ (0x5d ∷ [])
  render (object spaces members) = 0x7b ∷ (spaces ++ render_members members) ++ (0x7d ∷ [])
  render (spaced before value after) = before ++ (render value ++ after)

  pub render_values : Values → List ℕ
  render_values no_value = []
  render_values (value_then value no_value) = render value
  render_values (value_then value (value_then other values)) =
      render value ++ (comma ++ render_values (value_then other values))

  pub render_members : Members → List ℕ
  render_members no_member = []
  render_members (member_then before key after value no_member) =
      render_key before key after ++ render value
  render_members
        (member_then before key after value (member_then before' key' after' value' members)) =
      render_key before key after
      ++ (render value
          ++ (comma ++ render_members (member_then before' key' after' value' members)))

-- How deep the value's arrays and objects are nested
unfoldable mutual
  pub nesting : Value → ℕ
  nesting (scalar bytes) = 0
  nesting (text characters) = 0
  nesting (array spaces values) = 1 + nesting_values values
  nesting (object spaces members) = 1 + nesting_members members
  nesting (spaced before value after) = nesting value

  pub nesting_values : Values → ℕ
  nesting_values no_value = 0
  nesting_values (value_then value values) = max (nesting value) (nesting_values values)

  pub nesting_members : Members → ℕ
  nesting_members no_member = 0
  nesting_members (member_then before key after value members) =
      max (nesting value) (nesting_members members)

-- No quote, bracket or brace
abbrev pub is_plain : ℕ → Bool
is_plain c = not (c == 0x22) && not (c == 0x7b || c == 0x5b) && not (c == 0x7d || c == 0x5d)

abbrev pub IsPlain : List ℕ → Type 0
IsPlain [] = Unit
IsPlain (c ∷ bytes) = (is_plain c ≡ true) × IsPlain bytes

-- Blank, tab, line feed or carriage return
abbrev pub is_space : ℕ → Bool
is_space c = c == 0x20 || c == 0x09 || (c == 0x0a || c == 0x0d)

abbrev pub IsSpaces : List ℕ → Type 0
IsSpaces [] = Unit
IsSpaces (c ∷ bytes) = (is_space c ≡ true) × IsSpaces bytes

-- A raw character is no quote and no backslash.
abbrev pub IsText : List Character → Type 0
IsText [] = Unit
IsText (raw c ∷ characters) = (not (c == 0x22 || c == 0x5c) ≡ true) × IsText characters
IsText (escape c ∷ characters) = IsText characters

abbrev mutual
  pub IsJson : Value → Type 0
  IsJson (scalar bytes) = IsPlain bytes
  IsJson (text characters) = IsText characters
  IsJson (array spaces values) = IsSpaces spaces × AreJson values
  IsJson (object spaces members) = IsSpaces spaces × HaveJson members
  IsJson (spaced before value after) = IsSpaces before × IsJson value × IsSpaces after

  pub AreJson : Values → Type 0
  AreJson no_value = Unit
  AreJson (value_then value values) = IsJson value × AreJson values

  pub HaveJson : Members → Type 0
  HaveJson no_member = Unit
  HaveJson (member_then before key after value members) =
      IsSpaces before × IsText key × IsSpaces after × IsJson value × HaveJson members
