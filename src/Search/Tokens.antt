-- ===== src/Search/Tokens.antt =====
-- `estimate_tokens` of clerksan/search/chunking.py.
pub mod Sum
pub mod Strip
use clerk_san.Prelude.{[], if◌then◌else◌, max, suc, zero, ℕ, ◌+◌, ◌/◌, ◌∷◌}
use clerk_san.Search.Text.{Text, is_cjk, is_space, is_word}

-- How many word characters the text starts with
unfoldable pub run : Text → ℕ
run [] = 0
run (c ∷ text) = if is_word c then 1 + run text else 0

-- What a character adds to the total where no word reaches over it: a whole word counts at its first
-- character.
unfoldable pub weight : ℕ → Text → ℕ
unfolding run is_space is_cjk is_word
weight c text =
    if is_space c
    then 0
    else if is_cjk c
    then 1
    else if is_word c
    then max 1 ((1 + run text + 3) / 4)
    else 1

-- How far the index jumps over the characters behind
unfoldable pub jump : ℕ → Text → ℕ
unfolding run is_space is_cjk is_word
jump c text = if is_space c then 0 else if is_cjk c then 0 else if is_word c then run text else 0

-- The loop, on the text behind the index after a number of characters to jump over
unfoldable pub tokens_from : ℕ → Text → ℕ
unfolding weight jump
tokens_from skipped [] = 0
tokens_from zero (c ∷ text) = weight c text + tokens_from (jump c text) text
tokens_from (suc skipped) (c ∷ text) = tokens_from skipped text

unfoldable pub estimate_tokens : Text → ℕ
unfolding tokens_from
estimate_tokens text = tokens_from 0 text
