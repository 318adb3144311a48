-- ===== src/Search/Chunking.antt =====
-- `chunk_document` of clerksan/search/chunking.py.
pub mod Blocks
pub mod Packed
pub mod Content
pub mod Tables
use clerk_san.Prelude.{
  Bool, List, Option, Result, [], drop, false, if◌then◌else◌, leb, length, ltb, none, not, ok,
  require, select, some, take, ℕ, ◌&&◌, ◌++◌, ◌+◌, ◌-◌, ◌==◌, ◌>>=◌, ◌>>◌, ◌||◌, ◌∷◌,
}
use clerk_san.Search.Text.{Text, is_space, join_texts, null, splitlines, strip_text}
use clerk_san.Search.Tokens.{estimate_tokens}
use clerk_san.Search.Split.{split_large_paragraph}

pub data ChunkError : Type 0 where
  chunking_error value_error : ChunkError

pub record Chunk : Type 0 where
  pub seq : ℕ
  pub heading_path : Text
  pub text : Text
  pub token_count : ℕ

-- How many `#` the line starts with
unfoldable pub hashes : Text → ℕ
hashes [] = 0
hashes (c ∷ line) = if c == b'#' then 1 + hashes line else 0

abbrev pub titled : ℕ → Text → Option (ℕ × Text)
titled level [] = none
titled level (c ∷ []) = none
titled level (c ∷ (d ∷ title)) =
    if leb 1 level && leb level 6 && is_space c then some (level, strip_text (d ∷ title)) else none

-- `_HEADING.match(line)`: the level and the title, stripped. The title has at least one character, of
-- which white space is one.
unfoldable pub heading : Text → Option (ℕ × Text)
unfolding hashes is_space strip_text
heading line = titled (hashes line) (drop (hashes line) line)

abbrev pub arrow : Text
arrow = 32 ∷ b'>' ∷ 32 ∷ []

unfoldable pub is_blank : Text → Bool
unfolding strip_text
is_blank line = null (strip_text line)

abbrev pub any_text : List Text → Bool
any_text [] = false
any_text (line ∷ lines) = not (is_blank line) || any_text lines

-- What is yielded at a heading and at the end
unfoldable pub section : List Text → List Text → List (Text × List Text)
unfolding is_blank join_texts
section path lines = if any_text lines then (join_texts arrow path, lines) ∷ [] else []

-- The loop of `_sections`
unfoldable pub sections_from : List Text → List Text → List Text → List (Text × List Text)
unfolding heading section
sections_from [] path lines = section path lines
sections_from (line ∷ body) path lines = elim (heading line) [
  | none ↦ sections_from body path (lines ++ (line ∷ []))
  | some (level, title) ↦
      section path lines ++ sections_from body (take (level - 1) path ++ (title ∷ [])) []
]

unfoldable pub sections : Text → List (Text × List Text)
unfolding sections_from splitlines
sections body = sections_from (splitlines body) [] []

unfoldable pub is_table_line : Text → Bool
unfolding strip_text
is_table_line line = elim (strip_text line) [
  | [] ↦ false
  | c ∷ stripped ↦ c == b'|' && leb 2 (length (select (λ d. d == b'|') (c ∷ stripped)))
]

abbrev pub line_feed : Text
line_feed = 10 ∷ []

-- `flush` of `_paragraph_blocks`
unfoldable pub flush : List Text → Bool → List (Text × Bool)
unfolding strip_text join_texts
flush current current_is_table =
    let text = strip_text (join_texts line_feed current) in
    if null text then [] else (text, current_is_table) ∷ []

unfoldable pub blocks_from : List Text → List Text → Bool → List (Text × Bool)
unfolding is_blank is_table_line flush
blocks_from [] current current_is_table = flush current current_is_table
blocks_from (line ∷ lines) current current_is_table =
    let blank = is_blank line in
    let is_table = is_table_line line in
    let broken =
      not (null current)
      && not (is_table && current_is_table || not is_table && not current_is_table) in
    let kept = if broken then [] else current in
    let rest =
      blocks_from lines (if blank then [] else kept ++ (line ∷ [])) (not blank && is_table) in
    if blank || broken then flush current current_is_table ++ rest else rest

unfoldable pub paragraph_blocks : List Text → List (Text × Bool)
unfolding blocks_from
paragraph_blocks lines = blocks_from lines [] false

-- The pieces of the blocks
unfoldable pub pieces_of : ℕ → List (Text × Bool) → Result ChunkError (List Text)
unfolding estimate_tokens split_large_paragraph
pieces_of max_tokens [] = ok []
pieces_of max_tokens ((block, is_table) ∷ blocks) = do
  require (leb (estimate_tokens block) max_tokens || not is_table) chunking_error
  pieces ← pieces_of max_tokens blocks
  ok (
      if leb (estimate_tokens block) max_tokens
      then block ∷ pieces
      else split_large_paragraph block max_tokens ++ pieces)

abbrev pub blank_line : Text
blank_line = 10 ∷ 10 ∷ []

unfoldable pub make_chunk : Text → List Text → Chunk
unfolding strip_text join_texts estimate_tokens
make_chunk heading_path parts = record {
  seq = 0;
  heading_path = heading_path;
  text = strip_text (join_texts blank_line parts);
  token_count = estimate_tokens (strip_text (join_texts blank_line parts));
}

abbrev pub flush_pieces : Text → List Text → List Chunk
flush_pieces heading_path [] = []
flush_pieces heading_path (piece ∷ current) = make_chunk heading_path (piece ∷ current) ∷ []

-- The loop over the pieces
unfoldable pub pack_pieces : Text → ℕ → List Text → List Text → ℕ → List Chunk
unfolding estimate_tokens make_chunk
pack_pieces heading_path max_tokens [] current current_tokens = flush_pieces heading_path current
pack_pieces heading_path max_tokens (piece ∷ pieces) current current_tokens =
    let piece_tokens = estimate_tokens piece in
    let separator_tokens = if null current then 0 else 1 in
    let full =
      not (null current) && ltb max_tokens (current_tokens + separator_tokens + piece_tokens) in
    let kept = if full then [] else current in
    let kept_tokens = if full then 0 else current_tokens in
    let rest =
      pack_pieces heading_path max_tokens pieces (kept ++ (piece ∷ []))
        (kept_tokens + (piece_tokens + separator_tokens)) in
    if full then flush_pieces heading_path current ++ rest else rest

unfoldable pub chunk_section : Text → List Text → ℕ → Result ChunkError (List Chunk)
unfolding paragraph_blocks pieces_of pack_pieces
chunk_section heading_path lines max_tokens = do
  pieces ← pieces_of max_tokens (paragraph_blocks lines)
  ok (pack_pieces heading_path max_tokens pieces [] 0)

unfoldable pub chunk_sections : List (Text × List Text) → ℕ → Result ChunkError (List Chunk)
unfolding chunk_section
chunk_sections [] max_tokens = ok []
chunk_sections ((heading_path, lines) ∷ rest) max_tokens = do
  chunks ← chunk_section heading_path lines max_tokens
  others ← chunk_sections rest max_tokens
  ok (chunks ++ others)

-- `enumerate`
unfoldable pub numbered : ℕ → List Chunk → List Chunk
numbered index [] = []
numbered index (chunk ∷ chunks) = record chunk { seq = index } ∷ numbered (index + 1) chunks

unfoldable pub chunk_document : Text → ℕ → Result ChunkError (List Chunk)
unfolding chunk_sections sections numbered
chunk_document markdown_body max_tokens = do
  require (leb 1 max_tokens) value_error
  chunks ← chunk_sections (sections markdown_body) max_tokens
  ok (numbered 0 chunks)
