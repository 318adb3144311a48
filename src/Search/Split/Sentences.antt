-- ===== src/Search/Split/Sentences.antt =====
-- A large paragraph is split into pieces within the budget, with nothing lost
-- (clerksan/search/chunking.py).
use clerk_san.Prelude.{
  All, Bool, Bool-cases, List, [], ap, append_assoc, append_nil, arith, false, if◌then◌else◌, inl,
  inr, leb, length, ltb, map, not, refl, select, sym, true, ℕ, ◌&&◌, ◌++◌, ◌+◌, ◌∙◌, ◌∷◌, ◌≡◌, ◌≢◌,
  ◌≤◌,
}
use clerk_san.Search.Text.{Text, is_space, join_texts, null, strip_text}
use clerk_san.Search.Tokens.{estimate_tokens}
use clerk_san.Search.Tokens.Strip.{
  dense, dense-append, dense-eq-nil, dense-strip, null-eq, strip-eq-nil,
}
use clerk_san.Search.Group.{
  IsGroup, IsPiece, dense-join, dense_all, dense_all-cons, dense_all-none, dense_all-snoc,
  first-nil, next-IsGroup, no_texts-IsGroup,
}
use clerk_san.Search.Split.{
  ends_sentence, flush_sentences, hard_split, pack_sentences, sentences_of, space,
  split_large_paragraph, split_sentences,
}
use clerk_san.Search.Split.Pieces.{
  Pieces, Pieces-append, Pieces-cons, Pieces-eq, empty-Pieces, hard_split-Pieces,
}

dense-shift :
    (sentence : Text) (c : ℕ) (text : Text)
    → dense (sentence ++ (c ∷ [])) ++ dense text ≡ dense sentence ++ dense (c ∷ text)
dense-shift sentence c text =
    sym (dense-append (sentence ++ (c ∷ [])) text)
    ∙ ap dense (append_assoc sentence (c ∷ []) text)
    ∙ dense-append sentence (c ∷ text)

dense-skip :
    (c : ℕ) (text sentence : Text)
    → is_space c ≡ true
    → sentence ≡ []
    → dense text ≡ dense sentence ++ dense (c ∷ text)
unfolding dense
dense-skip c text sentence t e =
    let same : dense (c ∷ text) ≡ dense text = rw t refl in
    sym same ∙ ap (λ s. dense s ++ dense (c ∷ text)) (sym e)

-- The sentences hold the text.
split_sentences-dense :
    (text sentence : Text) (behind : Bool)
    → (behind ≡ true → sentence ≡ [])
    → dense_all (split_sentences text sentence behind) ≡ dense sentence ++ dense text
unfolding split_sentences dense dense_all
split_sentences-dense [] sentence behind h = refl
split_sentences-dense (c ∷ text) sentence behind h = elim (Bool-cases (behind && is_space c)) [
  | inl t ↦ rw t (
      split_sentences-dense text [] true (λ e. refl)
      ∙ dense-skip c text sentence (ground (arith, t)) (h (ground (arith, t))))
  | inr f ↦ elim (Bool-cases (ends_sentence c)) [
    | inl e ↦ rw f (
        rw e (
          ap (λ rest. dense (sentence ++ (c ∷ [])) ++ rest)
            (split_sentences-dense text [] true (λ r. refl))
          ∙ dense-shift sentence c text))
    | inr g ↦ rw f (
        rw g (
          split_sentences-dense text (sentence ++ (c ∷ [])) false (λ r. absurd (cc))
          ∙ dense-shift sentence c text))
  ]
]

sentences-dense :
    (parts : List Text)
    → dense_all (select (λ part. not (null part)) (map strip_text parts)) ≡ dense_all parts
unfolding dense_all
sentences-dense [] = refl
sentences-dense (part ∷ parts) = elim (Bool-cases (null (strip_text part))) [
  | inl t ↦ rw t (
      sentences-dense parts
      ∙ ap (λ start. start ++ dense_all parts)
          (sym (dense-eq-nil part (null-eq (strip_text part) t))))
  | inr f ↦ rw f (
      ap (λ start. start ++ dense_all (select (λ p. not (null p)) (map strip_text parts)))
        (dense-strip part)
      ∙ ap (λ rest. dense part ++ rest) (sentences-dense parts))
]

sentences-some_text :
    (parts : List Text)
    → All (λ text. dense text ≢ []) (select (λ part. not (null part)) (map strip_text parts))
sentences-some_text [] = tt
sentences-some_text (part ∷ parts) = elim (Bool-cases (null (strip_text part))) [
  | inl t ↦ rw t (sentences-some_text parts)
  | inr f ↦ rw f (
    (λ e.
        let t : null (strip_text part) ≡ true =
          ap null (strip-eq-nil part (sym (dense-strip part) ∙ e)) in
        absurd (cc)),
    sentences-some_text parts,
  )
]

space-blank : dense space ≡ []
unfolding dense
space-blank = refl

flush_sentences-Pieces :
    (max_tokens : ℕ) (current : List Text) (tokens : ℕ)
    → IsGroup space max_tokens current tokens
    → Pieces max_tokens (dense_all current) (flush_sentences current)
flush_sentences-Pieces max_tokens [] tokens h = unfold dense_all in empty-Pieces max_tokens
flush_sentences-Pieces max_tokens (sentence ∷ current) tokens h =
    let joined = dense-join space (sentence ∷ current) space-blank in
    Pieces-eq max_tokens _ (append_nil (dense (join_texts space (sentence ∷ current))) ∙ joined) (
      Pieces-cons max_tokens (join_texts space (sentence ∷ current)) []
        record {
          some_text = λ e. h.pieces.0.some_text (
              first-nil (dense sentence) (dense_all current)
                (dense_all-cons sentence current ∙ sym joined ∙ e));
          within = h.within;
        }
        (empty-Pieces max_tokens))

pack_sentences-Pieces :
    (max_tokens : ℕ) (sentences current : List Text) (tokens : ℕ)
    → 1 ≤ max_tokens
    → All (λ text. dense text ≢ []) sentences
    → IsGroup space max_tokens current tokens
    → Pieces max_tokens
        (dense_all current ++ dense_all sentences)
        (pack_sentences max_tokens sentences current tokens)
unfolding pack_sentences dense_all
pack_sentences-Pieces max_tokens [] current tokens h k group =
    Pieces-eq max_tokens _ (sym (append_nil (dense_all current)))
      (flush_sentences-Pieces max_tokens current tokens group)
pack_sentences-Pieces max_tokens (sentence ∷ sentences) current tokens h k group =
    elim (Bool-cases (ltb max_tokens (estimate_tokens sentence))) [
      | inl t ↦ rw t (
          Pieces-append max_tokens (flush_sentences current) _
            (flush_sentences-Pieces max_tokens current tokens group)
            (Pieces-append max_tokens (hard_split sentence max_tokens) _
              (hard_split-Pieces max_tokens sentence h)
              (pack_sentences-Pieces max_tokens sentences [] 0 h k.1
                (no_texts-IsGroup space space-blank max_tokens))))
      | inr f ↦
          let piece : IsPiece max_tokens sentence = record {
            some_text = k.0;
            within = ground (arith, f);
          } in
          let grown =
            next-IsGroup space space-blank max_tokens current tokens sentence group piece in
          elim (Bool-cases (
            not (null current)
            && ltb max_tokens
                (tokens + (if null current then 0 else 1) + estimate_tokens sentence))) [
                  | inl full ↦
                      let alone = rw full at grown in
                      rw f (
                        rw full (
                          Pieces-append max_tokens (flush_sentences current) _
                            (flush_sentences-Pieces max_tokens current tokens group)
                            (Pieces-eq max_tokens _
                              (ap (λ start. start ++ dense_all sentences)
                                (append_nil (dense sentence)))
                              (pack_sentences-Pieces max_tokens sentences (sentence ∷ []) _ h k.1
                                alone))))
                  | inr room ↦
                      let joined = rw room at grown in
                      rw f (
                        rw room (
                          Pieces-eq max_tokens _
                            (ap (λ start. start ++ dense_all sentences)
                                (dense_all-snoc current sentence)
                              ∙ append_assoc (dense_all current) (dense sentence)
                                  (dense_all sentences))
                            (pack_sentences-Pieces max_tokens sentences (current ++ (sentence ∷ []))
                              _ h k.1 joined)))
                ]
    ]

dense-nil : (text : Text) → dense [] ++ dense text ≡ dense text
unfolding dense
dense-nil text = refl

pub split_large_paragraph-Pieces :
    (max_tokens : ℕ) (text : Text)
    → 1 ≤ max_tokens
    → Pieces max_tokens (dense text) (split_large_paragraph text max_tokens)
unfolding split_large_paragraph sentences_of
split_large_paragraph-Pieces max_tokens text h =
    let parts = split_sentences text [] false in
    let same : dense_all (sentences_of text) ≡ dense text =
      sentences-dense parts
      ∙ split_sentences-dense text [] false (λ e. absurd (cc))
      ∙ dense-nil text in
    elim (Bool-cases (leb (length (sentences_of text)) 1)) [
      | inl t ↦ rw t (hard_split-Pieces max_tokens text h)
      | inr f ↦ rw f (
          Pieces-eq max_tokens _ (dense_all-none (sentences_of text) ∙ same) (
            pack_sentences-Pieces max_tokens (sentences_of text) [] 0 h (sentences-some_text parts)
              (no_texts-IsGroup space space-blank max_tokens)))
    ]
