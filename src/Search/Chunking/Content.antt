-- ===== src/Search/Chunking/Content.antt =====
-- The chunks of a document (clerksan/search/chunking.py).
use clerk_san.Prelude.{
  >>=-eq-ok, Bool, Bool-cases, Ensures, Ensures-bind, Ensures-ok, List, Option, Option-cases, [],
  ap, append_assoc, append_nil, arith, false, inl, inr, leb, map, none, ok, ok_injective, refl,
  require, require-holds, select, some, subst, sym, take, true, ℕ, ◌++◌, ◌+◌, ◌-◌, ◌∙◌, ◌∷◌, ◌≡◌,
  ◌≤◌,
}
use clerk_san.Search.Text.{Text, splitlines}
use clerk_san.Search.Tokens.Strip.{dense}
use clerk_san.Search.Group.{dense_all, dense_all-cons, dense_all-none}
use clerk_san.Search.Chunking.{
  Chunk, any_text, chunk_document, chunk_section, chunk_sections, heading, is_blank, numbered,
  section, sections, sections_from, value_error,
}
use clerk_san.Search.Chunking.Blocks.{is_blank-dense, no_lines, shift}
use clerk_san.Search.Chunking.Packed.{
  Chunks, Chunks-append, Chunks-eq, chunk_section-Chunks, empty-Chunks,
}

abbrev is_none : {A : Type 0} → Option A → Bool
is_none none = true
is_none (some a) = false

-- The lines that are no headings
abbrev pub plain_lines : List Text → List Text
plain_lines body = select (λ line. is_none (heading line)) body

abbrev lines_in : List (Text × List Text) → Text
lines_in [] = []
lines_in (section ∷ sections) = dense_all section.1 ++ lines_in sections

lines_in-append :
    (xs ys : List (Text × List Text)) → lines_in (xs ++ ys) ≡ lines_in xs ++ lines_in ys
lines_in-append [] ys = refl
lines_in-append (x ∷ xs) ys =
    ap (λ rest. dense_all x.1 ++ rest) (lines_in-append xs ys)
    ∙ sym (append_assoc (dense_all x.1) (lines_in xs) (lines_in ys))

no_text-dense : (lines : List Text) → any_text lines ≡ false → dense_all lines ≡ []
no_text-dense [] h = sym no_lines
no_text-dense (line ∷ lines) h =
    let blank : is_blank line ≡ true = ground (arith, h) in
    let rest : any_text lines ≡ false = ground (arith, h) in
    sym (dense_all-cons line lines)
    ∙ ap (λ start. start ++ dense_all lines) (is_blank-dense line blank)
    ∙ no_text-dense lines rest

section-lines : (path lines : List Text) → lines_in (section path lines) ≡ dense_all lines
unfolding section
section-lines path lines = elim (Bool-cases (any_text lines)) [
  | inl t ↦ rw t (append_nil (dense_all lines))
  | inr f ↦ rw f (sym (no_text-dense lines f))
]

sections_from-lines :
    (body path lines : List Text)
    → lines_in (sections_from body path lines) ≡ dense_all lines ++ dense_all (plain_lines body)
unfolding sections_from
sections_from-lines [] path lines =
    section-lines path lines
    ∙ sym (append_nil (dense_all lines))
    ∙ ap (λ rest. dense_all lines ++ rest) no_lines
sections_from-lines (line ∷ body) path lines = elim (Option-cases (heading line)) [
  | inl n ↦
      rw (n, sections_from)
        (sections_from-lines body path (lines ++ (line ∷ [])) ∙ shift lines line (plain_lines body))
  | inr ((level, title), s) ↦
      rw (s, sections_from)
        (lines_in-append (section path lines)
            (sections_from body (take (level - 1) path ++ (title ∷ [])) [])
          ∙ ap
              (λ start.
                start ++ lines_in (sections_from body (take (level - 1) path ++ (title ∷ [])) []))
              (section-lines path lines)
          ∙ ap (λ rest. dense_all lines ++ rest)
              (sections_from-lines body (take (level - 1) path ++ (title ∷ [])) []
                ∙ dense_all-none (plain_lines body)))
]

chunk_sections-Chunks :
    (sections : List (Text × List Text)) (max_tokens : ℕ)
    → 1 ≤ max_tokens
    → Ensures (Chunks max_tokens (lines_in sections)) (chunk_sections sections max_tokens)
unfolding chunk_sections
chunk_sections-Chunks [] max_tokens h = Ensures-ok [] (empty-Chunks max_tokens)
chunk_sections-Chunks ((heading_path, lines) ∷ sections) max_tokens h =
    Ensures-bind (chunk_section heading_path lines max_tokens) _ λ chunks found.
      Ensures-bind (chunk_sections sections max_tokens) _ λ others rest. Ensures-ok _ (
        Chunks-append max_tokens chunks others
          ((chunk_section-Chunks heading_path lines max_tokens h).at chunks found)
          ((chunk_sections-Chunks sections max_tokens h).at others rest))

abbrev pub AreNumbered : ℕ → List Chunk → Type 0
AreNumbered index [] = Unit
AreNumbered index (chunk ∷ chunks) = (chunk.seq ≡ index) × AreNumbered (index + 1) chunks

numbered-AreNumbered : (chunks : List Chunk) (index : ℕ) → AreNumbered index (numbered index chunks)
unfolding numbered
numbered-AreNumbered [] index = tt
numbered-AreNumbered (chunk ∷ chunks) index = (refl, numbered-AreNumbered chunks (index + 1))

numbered-Chunks :
    (max_tokens : ℕ) (chunks : List Chunk) (index : ℕ) {whole : Text}
    → Chunks max_tokens whole chunks
    → Chunks max_tokens whole (numbered index chunks)
unfolding numbered
numbered-Chunks max_tokens [] index h = h
numbered-Chunks max_tokens (chunk ∷ chunks) index h =
    let rest =
      numbered-Chunks max_tokens chunks (index + 1)
        {whole = dense_all (map (λ (c : Chunk). c.text) chunks)}
        record { are_chunks = h.are_chunks.1; content = refl } in
    record {
      are_chunks = (
        record {
          counted = h.are_chunks.0.counted;
          some_tokens = h.are_chunks.0.some_tokens;
          within = h.are_chunks.0.within;
        },
        rest.are_chunks,
      );
      content =
          sym (dense_all-cons _ _)
          ∙ ap (λ texts. dense chunk.text ++ texts) rest.content
          ∙ dense_all-cons _ _
          ∙ h.content;
    }

-- Every document that is chunked without an error gives chunks that are numbered from 0 without gaps,
-- each with a text of at least one and at most `max_tokens` tokens at its own count; and without white
-- space the chunks are, in order, the document's lines that are no headings, so that no text is lost
-- and none is doubled.
pub chunk_document_lem :
    (markdown_body : Text) (max_tokens : ℕ) (chunks : List Chunk)
    → chunk_document markdown_body max_tokens ≡ ok chunks
    → AreNumbered 0 chunks
      × Chunks max_tokens (dense_all (plain_lines (splitlines markdown_body))) chunks
unfolding chunk_document sections
chunk_document_lem markdown_body max_tokens chunks e =
    let (u, positive, e1) = >>=-eq-ok (require (leb 1 max_tokens) value_error) _ e in
    let (found, sectioned, e2) =
      >>=-eq-ok (chunk_sections (sections markdown_body) max_tokens) _ e1 in
    let budget : 1 ≤ max_tokens =
      ground (arith, require-holds (leb 1 max_tokens) value_error u positive) in
    let held =
      (chunk_sections-Chunks (sections markdown_body) max_tokens budget).at found sectioned in
    let whole =
      sections_from-lines (splitlines markdown_body) [] []
      ∙ dense_all-none (plain_lines (splitlines markdown_body)) in
    let numbers : numbered 0 found ≡ chunks = ok_injective e2 in
    subst
      (λ c.
        AreNumbered 0 c × Chunks max_tokens (dense_all (plain_lines (splitlines markdown_body))) c)
      numbers
      (
        numbered-AreNumbered found 0,
        numbered-Chunks max_tokens found 0 (Chunks-eq max_tokens found whole held),
      )
