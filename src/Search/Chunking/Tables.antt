-- ===== src/Search/Chunking/Tables.antt =====
-- When a document cannot be chunked (clerksan/search/chunking.py).
use clerk_san.Prelude.{
  All, Bool, List, Result, [], arith, err, false, holds, leb, not, ok, refl, require, require-holds,
  true, ℕ, ◌>>=◌, ◌||◌, ◌↔◌, ◌∷◌, ◌≡◌, ◌≤◌,
}
use clerk_san.Search.Text.{Text}
use clerk_san.Search.Tokens.{estimate_tokens}
use clerk_san.Search.Chunking.{
  ChunkError, chunk_document, chunk_section, chunk_sections, chunking_error, paragraph_blocks,
  pieces_of, section, sections, value_error,
}

-- The code returns a value.
abbrev pub Returns : {A : Type 0} → Result ChunkError A → Type 0
Returns (err e) = ⊥
Returns (ok a) = Unit

Returns-bind :
    {A B : Type 0} (m : Result ChunkError A) (f : A → Result ChunkError B)
    → Returns (m >>= f)
    → (a : A) × (m ≡ ok a) × Returns (f a)
Returns-bind (err e) f h = absurd h
Returns-bind (ok a) f h = (a, refl, h)

Returns-then :
    {A B : Type 0} (m : Result ChunkError A) (f : A → Result ChunkError B)
    → Returns m
    → ((a : A) → Returns (f a))
    → Returns (m >>= f)
Returns-then (err e) f h k = h
Returns-then (ok a) f h k = k a

Returns-require : (test : Bool) (e : ChunkError) → test ≡ true → Returns (require test e)
Returns-require true e h = tt
Returns-require false e h = absurd (cc)

ok-Returns : {A : Type 0} (m : Result ChunkError A) (a : A) → m ≡ ok a → Returns m
ok-Returns (err e) a h = absurd (cc)
ok-Returns (ok b) a h = tt

module _ (max_tokens : ℕ) where
  abbrev pub FitsBlock : Text × Bool → Type 0
  FitsBlock block = block.1 ≡ true → estimate_tokens block.0 ≤ max_tokens

  abbrev pub FitsSection : Text × List Text → Type 0
  FitsSection section = All FitsBlock (paragraph_blocks section.1)

  fits_iff :
      (block : Text) (is_table : Bool)
      → ((leb (estimate_tokens block) max_tokens || not is_table) ≡ true)
        ↔ (is_table ≡ true → estimate_tokens block ≤ max_tokens)
  fits_iff block true = (λ e t. ground (arith, e), λ h. let low = h refl in ground (arith, low))
  fits_iff block false = (λ e t. absurd (cc), λ h. ground arith)

  pieces_of-Returns :
      (blocks : List (Text × Bool)) → Returns (pieces_of max_tokens blocks) ↔ All FitsBlock blocks
  unfolding pieces_of
  pieces_of-Returns [] = (λ h. tt, λ h. tt)
  pieces_of-Returns ((block, is_table) ∷ blocks) =
      let (forth, back) = pieces_of-Returns blocks in
      let (fits, holds) = fits_iff block is_table in
      (
        λ h.
            let (u, e, h1) =
              Returns-bind
                (require (leb (estimate_tokens block) max_tokens || not is_table) chunking_error) _
                h in
            let (pieces, e1, h2) = Returns-bind (pieces_of max_tokens blocks) _ h1 in
            (
              fits (require-holds _ _ u e),
              forth (ok-Returns (pieces_of max_tokens blocks) pieces e1),
            ),
        λ k.
            Returns-then
              (require (leb (estimate_tokens block) max_tokens || not is_table) chunking_error) _
              (Returns-require _ _ (holds k.0))
              (λ u. Returns-then (pieces_of max_tokens blocks) _ (back k.1) (λ pieces. tt)),
      )

  chunk_section-Returns :
      (heading_path : Text) (lines : List Text)
      → Returns (chunk_section heading_path lines max_tokens)
        ↔ All FitsBlock (paragraph_blocks lines)
  unfolding chunk_section
  chunk_section-Returns heading_path lines =
      let (forth, back) = pieces_of-Returns (paragraph_blocks lines) in
      (
        λ h.
            let (pieces, e, h1) =
              Returns-bind (pieces_of max_tokens (paragraph_blocks lines)) _ h in
            forth (ok-Returns (pieces_of max_tokens (paragraph_blocks lines)) pieces e),
        λ k. Returns-then (pieces_of max_tokens (paragraph_blocks lines)) _ (back k) (λ pieces. tt),
      )

  chunk_sections-Returns :
      (parts : List (Text × List Text))
      → Returns (chunk_sections parts max_tokens) ↔ All FitsSection parts
  unfolding chunk_sections
  chunk_sections-Returns [] = (λ h. tt, λ h. tt)
  chunk_sections-Returns ((heading_path, lines) ∷ parts) =
      let (forth, back) = chunk_section-Returns heading_path lines in
      let (forth_rest, back_rest) = chunk_sections-Returns parts in
      (
        λ h.
            let (chunks, e, h1) = Returns-bind (chunk_section heading_path lines max_tokens) _ h in
            let (others, e1, h2) = Returns-bind (chunk_sections parts max_tokens) _ h1 in
            (forth (ok-Returns _ chunks e), forth_rest (ok-Returns _ others e1)),
        λ k. Returns-then (chunk_section heading_path lines max_tokens) _ (back k.0) (λ chunks.
            Returns-then (chunk_sections parts max_tokens) _ (back_rest k.1) (λ others. tt)),
      )

-- A document is chunked without an error exactly if the budget is at least one token and every block
-- of table lines is within it: paragraphs of any length are split.
pub chunk_document-iff-FitsSection :
    (markdown_body : Text) (max_tokens : ℕ)
    → Returns (chunk_document markdown_body max_tokens)
      ↔ ((1 ≤ max_tokens) × All (FitsSection max_tokens) (sections markdown_body))
unfolding chunk_document
chunk_document-iff-FitsSection markdown_body max_tokens =
    let (forth, back) = chunk_sections-Returns max_tokens (sections markdown_body) in
    (
      λ h.
          let (u, e, h1) = Returns-bind (require (leb 1 max_tokens) value_error) _ h in
          let (chunks, e1, h2) =
            Returns-bind (chunk_sections (sections markdown_body) max_tokens) _ h1 in
          (
            ground (arith, require-holds (leb 1 max_tokens) value_error u e),
            forth (ok-Returns _ chunks e1),
          ),
      λ k.
          Returns-then (require (leb 1 max_tokens) value_error) _
            (Returns-require _ _ (ground (arith, k.0)))
            (λ u.
              Returns-then (chunk_sections (sections markdown_body) max_tokens) _ (back k.1)
                (λ chunks. tt)),
    )
