-- ===== src/Search/Chunking/Blocks.antt =====
-- The paragraph blocks of a section hold its lines (clerksan/search/chunking.py).
use clerk_san.Prelude.{
  All, Bool, Bool-cases, Ensures, Ensures-bind, Ensures-ok, List, [], ap, append_assoc, append_nil,
  arith, false, inl, inr, leb, not, refl, require, subst, sym, true, ℕ, ◌&&◌, ◌++◌, ◌||◌, ◌∙◌, ◌∷◌,
  ◌≡◌, ◌≢◌, ◌≤◌,
}
use clerk_san.Search.Split.Sentences.{split_large_paragraph-Pieces}
use clerk_san.Search.Text.{Text, join_texts, null, strip_text}
use clerk_san.Search.Tokens.{estimate_tokens}
use clerk_san.Search.Tokens.Strip.{dense, dense-eq-nil, dense-strip, null-eq, strip-eq-nil}
use clerk_san.Search.Group.{
  All-append, dense-join, dense_all, dense_all-append, dense_all-cons, dense_all-none,
  dense_all-one, dense_all-snoc,
}
use clerk_san.Search.Split.{split_large_paragraph}
use clerk_san.Search.Split.Pieces.{Pieces, Pieces-append, Pieces-cons, Pieces-eq, empty-Pieces}
use clerk_san.Search.Chunking.{
  blocks_from, chunking_error, flush, is_blank, is_table_line, line_feed, paragraph_blocks,
  pieces_of,
}

abbrev pub texts_of : List (Text × Bool) → List Text
texts_of [] = []
texts_of (block ∷ blocks) = block.0 ∷ texts_of blocks

pub record Blocks (whole : Text) (blocks : List (Text × Bool)) : Type 0 where
  pub some_text : All (λ text. dense text ≢ []) (texts_of blocks)
  pub content : dense_all (texts_of blocks) ≡ whole

texts_of-append : (xs ys : List (Text × Bool)) → texts_of (xs ++ ys) ≡ texts_of xs ++ texts_of ys
texts_of-append [] ys = refl
texts_of-append (x ∷ xs) ys = ap (λ rest. x.0 ∷ rest) (texts_of-append xs ys)

Blocks-append :
    (xs ys : List (Text × Bool)) {a b : Text}
    → Blocks a xs
    → Blocks b ys
    → Blocks (a ++ b) (xs ++ ys)
Blocks-append xs ys {a} h k =
    let both =
      All-append (λ text. dense text ≢ []) (texts_of xs) (texts_of ys) h.some_text k.some_text in
    record {
      some_text = subst (All (λ text. dense text ≢ [])) (sym (texts_of-append xs ys)) both;
      content =
          ap dense_all (texts_of-append xs ys)
          ∙ dense_all-append (texts_of xs) (texts_of ys)
          ∙ ap (λ start. start ++ dense_all (texts_of ys)) h.content
          ∙ ap (λ rest. a ++ rest) k.content;
    }

Blocks-eq : (blocks : List (Text × Bool)) {a b : Text} → a ≡ b → Blocks a blocks → Blocks b blocks
Blocks-eq blocks e h = record { some_text = h.some_text; content = h.content ∙ e }

line_feed-blank : dense line_feed ≡ []
unfolding dense
line_feed-blank = refl

pub no_lines : [] ≡ dense_all []
unfolding dense_all
no_lines = refl

flush-Blocks : (current : List Text) (flag : Bool) → Blocks (dense_all current) (flush current flag)
unfolding flush
flush-Blocks current flag =
    let joined = dense-join line_feed current line_feed-blank in
    let stripped = dense-strip (join_texts line_feed current) in
    elim (Bool-cases (null (strip_text (join_texts line_feed current)))) [
      | inl t ↦ rw t record {
        some_text = tt;
        content =
            sym no_lines
            ∙ sym (
                dense-eq-nil (join_texts line_feed current)
                  (null-eq (strip_text (join_texts line_feed current)) t))
            ∙ joined;
      }
      | inr f ↦ rw f record {
        some_text = (
          (λ e.
              let t : null (strip_text (join_texts line_feed current)) ≡ true =
                ap null (strip-eq-nil (join_texts line_feed current) (sym stripped ∙ e)) in
              absurd (cc)),
          tt,
        );
        content = dense_all-one (strip_text (join_texts line_feed current)) ∙ stripped ∙ joined;
      }
    ]

pub is_blank-dense : (line : Text) → is_blank line ≡ true → dense line ≡ []
unfolding is_blank
is_blank-dense line h = dense-eq-nil line (null-eq (strip_text line) h)

pub shift :
    (current : List Text) (line : Text) (lines : List Text)
    → dense_all (current ++ (line ∷ [])) ++ dense_all lines
      ≡ dense_all current ++ dense_all (line ∷ lines)
shift current line lines =
    ap (λ start. start ++ dense_all lines) (dense_all-snoc current line)
    ∙ append_assoc (dense_all current) (dense line) (dense_all lines)
    ∙ ap (λ rest. dense_all current ++ rest) (dense_all-cons line lines)

blocks_from-Blocks :
    (lines current : List Text) (flag : Bool)
    → Blocks (dense_all current ++ dense_all lines) (blocks_from lines current flag)
unfolding blocks_from
blocks_from-Blocks [] current flag =
    Blocks-eq _
      (sym (append_nil (dense_all current)) ∙ ap (λ rest. dense_all current ++ rest) no_lines)
      (flush-Blocks current flag)
blocks_from-Blocks (line ∷ lines) current flag = elim (Bool-cases (is_blank line)) [
  | inl t ↦ rw t (
      Blocks-eq _
        (ap (λ rest. dense_all current ++ rest)
          (dense_all-none lines
            ∙ ap (λ start. start ++ dense_all lines) (sym (is_blank-dense line t))
            ∙ dense_all-cons line lines))
        (Blocks-append (flush current flag) _ (flush-Blocks current flag)
          (blocks_from-Blocks lines [] false)))
  | inr f ↦
      elim (Bool-cases (
        not (null current)
        && not (is_table_line line && flag || not (is_table_line line) && not flag))) [
          | inl b ↦ rw f (
              rw b (
                Blocks-eq _
                  (ap (λ rest. dense_all current ++ rest)
                    (shift [] line lines ∙ dense_all-none (line ∷ lines)))
                  (Blocks-append (flush current flag) _ (flush-Blocks current flag)
                    (blocks_from-Blocks lines (line ∷ []) (is_table_line line)))))
          | inr g ↦ rw f (
              rw g (
                Blocks-eq _ (shift current line lines)
                  (blocks_from-Blocks lines (current ++ (line ∷ [])) (is_table_line line))))
        ]
]

pub paragraph_blocks-Blocks :
    (lines : List Text) → Blocks (dense_all lines) (paragraph_blocks lines)
unfolding paragraph_blocks
paragraph_blocks-Blocks lines =
    Blocks-eq _ (dense_all-none lines) (blocks_from-Blocks lines [] false)

-- The pieces of the blocks
pub pieces_of-Pieces :
    (max_tokens : ℕ) (blocks : List (Text × Bool))
    → 1 ≤ max_tokens
    → All (λ text. dense text ≢ []) (texts_of blocks)
    → Ensures (Pieces max_tokens (dense_all (texts_of blocks))) (pieces_of max_tokens blocks)
unfolding pieces_of
pieces_of-Pieces max_tokens [] h k =
    Ensures-ok [] (Pieces-eq max_tokens [] no_lines (empty-Pieces max_tokens))
pieces_of-Pieces max_tokens ((block, is_table) ∷ blocks) h k =
    Ensures-bind (require (leb (estimate_tokens block) max_tokens || not is_table) chunking_error) _
      λ a fits. Ensures-bind (pieces_of max_tokens blocks) _ λ pieces found.
        let rest = (pieces_of-Pieces max_tokens blocks h k.1).at pieces found in
        Ensures-ok _ (
          Pieces-eq max_tokens _ (dense_all-cons block (texts_of blocks))
            (elim (Bool-cases (leb (estimate_tokens block) max_tokens)) [
              | inl t ↦ rw t (
                  Pieces-cons max_tokens block pieces
                    record { some_text = k.0; within = ground (arith, t) } rest)
              | inr f ↦ rw f (
                  Pieces-append max_tokens (split_large_paragraph block max_tokens) pieces
                    (split_large_paragraph-Pieces max_tokens block h) rest)
            ]))
