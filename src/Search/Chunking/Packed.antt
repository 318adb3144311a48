-- ===== src/Search/Chunking/Packed.antt =====
-- The pieces of a section in chunks (clerksan/search/chunking.py).
use clerk_san.Prelude.{
  All, Bool-cases, Ensures, Ensures-bind, Ensures-ok, List, [], ap, append_nil, arith,
  if◌then◌else◌, inl, inr, ltb, map, not, refl, sym, ℕ, ◌&&◌, ◌++◌, ◌+◌, ◌∙◌, ◌∷◌, ◌≡◌, ◌≢◌, ◌≤◌,
}
use clerk_san.Search.Text.{Text, join_texts, null, strip_text}
use clerk_san.Search.Tokens.{estimate_tokens}
use clerk_san.Search.Tokens.Strip.{
  dense, dense-eq-nil, dense-strip, estimate_tokens-strip, estimate_tokens-strip-positive,
}
use clerk_san.Search.Group.{
  All-append, IsGroup, IsPiece, dense-join, dense_all, dense_all-append, dense_all-cons,
  dense_all-none, dense_all-one, first-nil, next-IsGroup, no_texts-IsGroup,
}
use clerk_san.Search.Chunking.{
  Chunk, blank_line, chunk_section, flush_pieces, make_chunk, pack_pieces, paragraph_blocks,
  pieces_of,
}
use clerk_san.Search.Chunking.Blocks.{no_lines, paragraph_blocks-Blocks, pieces_of-Pieces, shift}

-- A chunk has some text, at its own count of tokens, and is within the budget.
pub record IsChunk (max_tokens : ℕ) (chunk : Chunk) : Type 0 where
  pub counted : chunk.token_count ≡ estimate_tokens chunk.text
  pub some_tokens : 1 ≤ chunk.token_count
  pub within : chunk.token_count ≤ max_tokens

pub record Chunks (max_tokens : ℕ) (whole : Text) (chunks : List Chunk) : Type 0 where
  pub are_chunks : All (IsChunk max_tokens) chunks
  pub content : dense_all (map (λ (chunk : Chunk). chunk.text) chunks) ≡ whole

abbrev chunk_text : Chunk → Text
chunk_text chunk = chunk.text

map-append : {A B : Type 0} (f : A → B) (xs ys : List A) → map f (xs ++ ys) ≡ map f xs ++ map f ys
map-append f [] ys = refl
map-append f (x ∷ xs) ys = ap (λ rest. f x ∷ rest) (map-append f xs ys)

pub Chunks-append :
    (max_tokens : ℕ) (xs ys : List Chunk) {a b : Text}
    → Chunks max_tokens a xs
    → Chunks max_tokens b ys
    → Chunks max_tokens (a ++ b) (xs ++ ys)
Chunks-append max_tokens xs ys {a} h k = record {
  are_chunks = All-append (IsChunk max_tokens) xs ys h.are_chunks k.are_chunks;
  content =
      ap dense_all (map-append chunk_text xs ys)
      ∙ dense_all-append (map chunk_text xs) (map chunk_text ys)
      ∙ ap (λ start. start ++ dense_all (map chunk_text ys)) h.content
      ∙ ap (λ rest. a ++ rest) k.content;
}

pub Chunks-eq :
    (max_tokens : ℕ) (chunks : List Chunk) {a b : Text}
    → a ≡ b
    → Chunks max_tokens a chunks
    → Chunks max_tokens b chunks
Chunks-eq max_tokens chunks e h = record { are_chunks = h.are_chunks; content = h.content ∙ e }

pub empty-Chunks : (max_tokens : ℕ) → Chunks max_tokens [] []
unfolding dense_all
empty-Chunks max_tokens = record { are_chunks = tt; content = refl }

blank_line-blank : dense blank_line ≡ []
unfolding dense
blank_line-blank = refl

flush_pieces-Chunks :
    (heading_path : Text) (max_tokens : ℕ) (current : List Text) (tokens : ℕ)
    → IsGroup blank_line max_tokens current tokens
    → Chunks max_tokens (dense_all current) (flush_pieces heading_path current)
unfolding make_chunk
flush_pieces-Chunks heading_path max_tokens [] tokens h =
    Chunks-eq max_tokens [] no_lines (empty-Chunks max_tokens)
flush_pieces-Chunks heading_path max_tokens (piece ∷ current) tokens h =
    let joined = dense-join blank_line (piece ∷ current) blank_line-blank in
    let stripped = dense-strip (join_texts blank_line (piece ∷ current)) in
    let some_text : strip_text (join_texts blank_line (piece ∷ current)) ≢ [] = (λ e.
      h.pieces.0.some_text (
        first-nil (dense piece) (dense_all current) (
          dense_all-cons piece current
          ∙ sym joined
          ∙ dense-eq-nil (join_texts blank_line (piece ∷ current)) e))) in
    record {
      are_chunks = (
        record {
          counted = refl;
          some_tokens =
              estimate_tokens-strip-positive (join_texts blank_line (piece ∷ current)) some_text;
          within =
              omega
                (arith, estimate_tokens-strip (join_texts blank_line (piece ∷ current)), h.within);
        },
        tt,
      );
      content =
          dense_all-one (strip_text (join_texts blank_line (piece ∷ current))) ∙ stripped ∙ joined;
    }

pack_pieces-Chunks :
    (heading_path : Text) (max_tokens : ℕ) (pieces current : List Text) (tokens : ℕ)
    → All (IsPiece max_tokens) pieces
    → IsGroup blank_line max_tokens current tokens
    → Chunks max_tokens
        (dense_all current ++ dense_all pieces)
        (pack_pieces heading_path max_tokens pieces current tokens)
unfolding pack_pieces
pack_pieces-Chunks heading_path max_tokens [] current tokens h group =
    Chunks-eq max_tokens _
      (sym (append_nil (dense_all current)) ∙ ap (λ rest. dense_all current ++ rest) no_lines)
      (flush_pieces-Chunks heading_path max_tokens current tokens group)
pack_pieces-Chunks heading_path max_tokens (piece ∷ pieces) current tokens h group =
    let grown =
      next-IsGroup blank_line blank_line-blank max_tokens current tokens piece group h.0 in
    elim (Bool-cases (
      not (null current)
      && ltb max_tokens (tokens + (if null current then 0 else 1) + estimate_tokens piece))) [
        | inl full ↦
            let alone = rw full at grown in
            rw full (
              Chunks-eq max_tokens _
                (ap (λ rest. dense_all current ++ rest)
                  (shift [] piece pieces ∙ dense_all-none (piece ∷ pieces)))
                (Chunks-append max_tokens (flush_pieces heading_path current) _
                  (flush_pieces-Chunks heading_path max_tokens current tokens group)
                  (pack_pieces-Chunks heading_path max_tokens pieces (piece ∷ []) _ h.1 alone)))
        | inr room ↦
            let joined = rw room at grown in
            rw room (
              Chunks-eq max_tokens _ (shift current piece pieces) (
                pack_pieces-Chunks heading_path max_tokens pieces (current ++ (piece ∷ [])) _ h.1
                  joined))
      ]

pub chunk_section-Chunks :
    (heading_path : Text) (lines : List Text) (max_tokens : ℕ)
    → 1 ≤ max_tokens
    → Ensures (Chunks max_tokens (dense_all lines)) (chunk_section heading_path lines max_tokens)
unfolding chunk_section
chunk_section-Chunks heading_path lines max_tokens h =
    let blocks = paragraph_blocks-Blocks lines in
    Ensures-bind (pieces_of max_tokens (paragraph_blocks lines)) _ λ pieces found.
      let held =
        (pieces_of-Pieces max_tokens (paragraph_blocks lines) h blocks.some_text).at pieces found in
      Ensures-ok _ (
        Chunks-eq max_tokens _ (dense_all-none pieces ∙ held.content ∙ blocks.content) (
          pack_pieces-Chunks heading_path max_tokens pieces [] 0 held.are_pieces
            (no_texts-IsGroup blank_line blank_line-blank max_tokens)))
