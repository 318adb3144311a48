-- ===== src/Search/Split/Pieces.antt =====
-- Pieces within the budget, and the split of a text by its characters
-- (clerksan/search/chunking.py).
use clerk_san.Prelude.{
  All, Bool-cases, List, [], ap, append_assoc, append_nil, arith, false, inl, inr, ltb, not, refl,
  sym, true, ℕ, ◌&&◌, ◌++◌, ◌<◌, ◌∙◌, ◌∷◌, ◌≡◌, ◌≢◌, ◌≤◌,
}
use clerk_san.Search.Text.{Text, null, strip_text}
use clerk_san.Search.Tokens.{estimate_tokens}
use clerk_san.Search.Tokens.Strip.{
  dense, dense-append, dense-eq-nil, dense-strip, estimate_tokens-blank, estimate_tokens-char,
  estimate_tokens-snoc, estimate_tokens-strip, null-eq, strip-eq-nil,
}
use clerk_san.Search.Group.{All-append, IsPiece, dense_all, dense_all-append}
use clerk_san.Search.Split.{hard_split, hard_split_from}

-- What the pieces hold, and that each of them is one
pub record Pieces (max_tokens : ℕ) (whole : Text) (pieces : List Text) : Type 0 where
  pub are_pieces : All (IsPiece max_tokens) pieces
  pub content : dense_all pieces ≡ whole

strip-IsPiece :
    (max_tokens : ℕ) (text : Text)
    → dense text ≢ []
    → estimate_tokens text ≤ max_tokens
    → IsPiece max_tokens (strip_text text)
strip-IsPiece max_tokens text h k = record {
  some_text = λ e. h (sym (dense-strip text) ∙ e);
  within = omega (arith, estimate_tokens-strip text, k);
}

pub Pieces-cons :
    (max_tokens : ℕ) (piece : Text) (pieces : List Text) {whole : Text}
    → IsPiece max_tokens piece
    → Pieces max_tokens whole pieces
    → Pieces max_tokens (dense piece ++ whole) (piece ∷ pieces)
unfolding dense_all
Pieces-cons max_tokens piece pieces h k = record {
  are_pieces = (h, k.are_pieces);
  content = ap (λ rest. dense piece ++ rest) k.content;
}

pub Pieces-append :
    (max_tokens : ℕ) (xs ys : List Text) {a b : Text}
    → Pieces max_tokens a xs
    → Pieces max_tokens b ys
    → Pieces max_tokens (a ++ b) (xs ++ ys)
Pieces-append max_tokens xs ys {a} h k = record {
  are_pieces = All-append (IsPiece max_tokens) xs ys h.are_pieces k.are_pieces;
  content =
      dense_all-append xs ys
      ∙ ap (λ start. start ++ dense_all ys) h.content
      ∙ ap (λ rest. a ++ rest) k.content;
}

pub Pieces-eq :
    (max_tokens : ℕ) (pieces : List Text) {a b : Text}
    → a ≡ b
    → Pieces max_tokens a pieces
    → Pieces max_tokens b pieces
Pieces-eq max_tokens pieces e h = record { are_pieces = h.are_pieces; content = h.content ∙ e }

pub empty-Pieces : (max_tokens : ℕ) → Pieces max_tokens [] []
unfolding dense_all
empty-Pieces max_tokens = record { are_pieces = tt; content = refl }

one_char : (c : ℕ) → estimate_tokens (c ∷ []) ≤ 1
one_char c =
    omega (arith, estimate_tokens-char c [], estimate_tokens-blank [] (unfold dense in refl))

room_for :
    (max_tokens : ℕ) (current : Text) (c : ℕ)
    → 1 ≤ max_tokens
    → (not (null current) && ltb max_tokens (estimate_tokens (current ++ (c ∷ [])))) ≡ false
    → estimate_tokens (current ++ (c ∷ [])) ≤ max_tokens
room_for max_tokens [] c h f = omega (arith, one_char c)
room_for max_tokens (d ∷ current) c h f = ground (arith, f)

hard_split_from-Pieces :
    (max_tokens : ℕ) (text current : Text)
    → 1 ≤ max_tokens
    → estimate_tokens current ≤ max_tokens
    → Pieces max_tokens (dense (current ++ text)) (hard_split_from max_tokens text current)
unfolding hard_split_from
hard_split_from-Pieces max_tokens [] current h k = elim (Bool-cases (null (strip_text current))) [
  | inl t ↦ rw t (
      Pieces-eq max_tokens []
        (sym
          (ap dense (append_nil current) ∙ dense-eq-nil current (null-eq (strip_text current) t)))
        (empty-Pieces max_tokens))
  | inr f ↦ rw f (
      Pieces-eq max_tokens (strip_text current ∷ [])
        (append_nil (dense (strip_text current))
          ∙ dense-strip current
          ∙ sym (ap dense (append_nil current)))
        (Pieces-cons max_tokens (strip_text current) []
          (strip-IsPiece max_tokens current
            (λ e.
              let t : null (strip_text current) ≡ true = ap null (strip-eq-nil current e) in
              absurd (cc))
            k)
          (empty-Pieces max_tokens)))
]
hard_split_from-Pieces max_tokens (c ∷ text) current h k =
    elim (Bool-cases
      (not (null current) && ltb max_tokens (estimate_tokens (current ++ (c ∷ []))))) [
        | inl t ↦
            let rest =
              hard_split_from-Pieces max_tokens text (c ∷ []) h (omega (arith, one_char c, h)) in
            let large : max_tokens < estimate_tokens (current ++ (c ∷ [])) = ground (arith, t) in
            let some_text : dense current ≢ [] = (λ e. absurd (
              omega (
                arith,
                estimate_tokens-blank current e,
                estimate_tokens-snoc current c,
                large,
                h,
              ))) in
            rw t (
              Pieces-eq max_tokens _
                (ap (λ start. start ++ dense (c ∷ text)) (dense-strip current)
                  ∙ sym (dense-append current (c ∷ text)))
                (Pieces-cons max_tokens (strip_text current) _
                  (strip-IsPiece max_tokens current some_text k) rest))
        | inr f ↦ rw f (
            Pieces-eq max_tokens _ (ap dense (append_assoc current (c ∷ []) text)) (
              hard_split_from-Pieces max_tokens text (current ++ (c ∷ [])) h
                (room_for max_tokens current c h f)))
      ]

pub hard_split-Pieces :
    (max_tokens : ℕ) (text : Text)
    → 1 ≤ max_tokens
    → Pieces max_tokens (dense text) (hard_split text max_tokens)
unfolding hard_split
hard_split-Pieces max_tokens text h =
    hard_split_from-Pieces max_tokens text [] h
      (omega (arith, estimate_tokens-blank [] (unfold dense in refl)))
