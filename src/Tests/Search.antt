-- ===== src/Tests/Search.antt =====
-- Concrete documents in chunks (clerksan/search/chunking.py).
use clerk_san.Prelude.{All, List, [], ok, refl, ◌↔◌, ◌∷◌, ◌≡◌, ◌≤◌}
use clerk_san.Search.Text.{Text, splitlines}
use clerk_san.Search.Tokens.{estimate_tokens}
use clerk_san.Search.Group.{dense_all}
use clerk_san.Search.Chunking.{Chunk, chunk_document, sections}
use clerk_san.Search.Chunking.Packed.{Chunks}
use clerk_san.Search.Chunking.Content.{AreNumbered, chunk_document_lem, plain_lines}
use clerk_san.Search.Chunking.Tables.{FitsSection, Returns, chunk_document-iff-FitsSection}

tokens_estimated : estimate_tokens (b'a' ∷ b'b' ∷ b'c' ∷ b'd' ∷ b'e' ∷ 32 ∷ 0x3042 ∷ b'.' ∷ []) ≡ 4
unfolding estimate_tokens
tokens_estimated = refl

-- `# T`, and then the line `a. b`
abbrev document : Text
document = b'#' ∷ 32 ∷ b'T' ∷ 10 ∷ b'a' ∷ b'.' ∷ 32 ∷ b'b' ∷ 10 ∷ []

abbrev document_chunks : List Chunk
document_chunks =
    record { seq = 0; heading_path = b'T' ∷ []; text = b'a' ∷ b'.' ∷ []; token_count = 2 }
    ∷ record { seq = 1; heading_path = b'T' ∷ []; text = b'b' ∷ []; token_count = 1 }
    ∷ []

document_chunked : chunk_document document 2 ≡ ok document_chunks
unfolding chunk_document
document_chunked = refl

chunk_document_lem_example :
    AreNumbered 0 document_chunks
    × Chunks 2 (dense_all (plain_lines (splitlines document))) document_chunks
chunk_document_lem_example = chunk_document_lem document 2 document_chunks document_chunked

chunk_document-iff-FitsSection_example :
    Returns (chunk_document document 2) ↔ ((1 ≤ 2) × All (FitsSection 2) (sections document))
chunk_document-iff-FitsSection_example = chunk_document-iff-FitsSection document 2
