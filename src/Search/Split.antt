-- ===== src/Search/Split.antt =====
-- `_hard_split` and `_split_large_paragraph` of clerksan/search/chunking.py.
pub mod Pieces
pub mod Sentences
use clerk_san.Prelude.{
  Bool, List, [], false, if◌then◌else◌, leb, length, ltb, map, not, select, ℕ, ◌&&◌, ◌++◌, ◌+◌,
  ◌==◌, ◌||◌, ◌∷◌,
}
use clerk_san.Search.Text.{Text, is_space, join_texts, null, strip_text}
use clerk_san.Search.Tokens.{estimate_tokens}

-- The loop of `_hard_split`
unfoldable pub hard_split_from : ℕ → Text → Text → List Text
unfolding strip_text estimate_tokens
hard_split_from max_tokens [] current =
    if null (strip_text current) then [] else strip_text current ∷ []
hard_split_from max_tokens (character ∷ text) current =
    let candidate = current ++ (character ∷ []) in
    let full = not (null current) && ltb max_tokens (estimate_tokens candidate) in
    let rest = hard_split_from max_tokens text (if full then character ∷ [] else candidate) in
    if full then strip_text current ∷ rest else rest

unfoldable pub hard_split : Text → ℕ → List Text
unfolding hard_split_from
hard_split text max_tokens = hard_split_from max_tokens text []

abbrev pub ends_sentence : ℕ → Bool
ends_sentence c = c == 0x3002 || c == 0xff01 || c == 0xff1f || c == b'.' || c == b'!' || c == b'?'

-- `re.split` at the white space behind a mark, which may be empty: `behind` says that everything since
-- the last mark was white space
unfoldable pub split_sentences : Text → Text → Bool → List Text
unfolding is_space
split_sentences [] sentence behind = sentence ∷ []
split_sentences (c ∷ text) sentence behind =
    let skipped = behind && is_space c in
    let rest =
      split_sentences text (if skipped || ends_sentence c then [] else sentence ++ (c ∷ []))
        (skipped || ends_sentence c) in
    if skipped then rest else if ends_sentence c then (sentence ++ (c ∷ [])) ∷ rest else rest

-- The parts that are not blank, stripped
unfoldable pub sentences_of : Text → List Text
unfolding split_sentences strip_text
sentences_of text =
    select (λ part. not (null part)) (map strip_text (split_sentences text [] false))

abbrev pub space : Text
space = 32 ∷ []

abbrev pub flush_sentences : List Text → List Text
flush_sentences [] = []
flush_sentences (sentence ∷ current) = join_texts space (sentence ∷ current) ∷ []

-- The loop over the sentences
unfoldable pub pack_sentences : ℕ → List Text → List Text → ℕ → List Text
unfolding estimate_tokens hard_split join_texts
pack_sentences max_tokens [] current current_tokens = flush_sentences current
pack_sentences max_tokens (sentence ∷ sentences) current current_tokens =
    let sentence_tokens = estimate_tokens sentence in
    let large = ltb max_tokens sentence_tokens in
    let separator_tokens = if null current then 0 else 1 in
    let full =
      not (null current) && ltb max_tokens (current_tokens + separator_tokens + sentence_tokens) in
    let kept = if full then [] else current in
    let kept_tokens = if full then 0 else current_tokens in
    let rest =
      pack_sentences max_tokens sentences (if large then [] else kept ++ (sentence ∷ []))
        (if large then 0 else kept_tokens + (sentence_tokens + separator_tokens)) in
    if large
    then flush_sentences current ++ (hard_split sentence max_tokens ++ rest)
    else if full
    then flush_sentences current ++ rest
    else rest

unfoldable pub split_large_paragraph : Text → ℕ → List Text
unfolding sentences_of hard_split pack_sentences
split_large_paragraph text max_tokens =
    if leb (length (sentences_of text)) 1
    then hard_split text max_tokens
    else pack_sentences max_tokens (sentences_of text) [] 0
