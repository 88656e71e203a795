-- ===== src/Query/Keyword.antt =====
-- packages/engine/src/query/keyword/tokenizer.ts: the tokens of a text and of a query, and the search
-- expression of a query. Parameters are Unicode's: NFKC, the scripts, the classes of characters, and
-- lower case. The four replacements that put a blank between two characters of an identifier are one
-- test on the two and the next.
pub mod Literals
pub mod Segments
mod Tests
use lorelum.Prelude.{
  ℕ, Bool, true, false, not, ◌&&◌, ◌||◌, Option, none, some, List, [], ◌∷◌, ◌++◌, leb, ◌==◌,
  if◌then◌else◌, Text, contains, is_empty, map,
}

pub record Unicode : Type 0 where
  pub nfkc : Text → Text
  pub is_cjk_character : ℕ → Bool
  pub is_letter : ℕ → Bool
  pub is_number : ℕ → Bool
  pub lower_case : Text → Text

-- The tokens of a run of CJK characters: each two that are next to one another, or the only one.
unfoldable pub append_cjk_tokens : Text → List Text
append_cjk_tokens [] = []
append_cjk_tokens (c ∷ []) = (c ∷ []) ∷ []
append_cjk_tokens (c ∷ d ∷ []) = (c ∷ d ∷ []) ∷ []
append_cjk_tokens (c ∷ d ∷ e ∷ cs) = (c ∷ d ∷ []) ∷ append_cjk_tokens (d ∷ e ∷ cs)

abbrev pub is_upper : ℕ → Bool
is_upper c = leb 65 c && leb c 90

abbrev pub is_lower : ℕ → Bool
is_lower c = leb 97 c && leb c 122

abbrev pub is_digit : ℕ → Bool
is_digit c = leb 48 c && leb c 57

abbrev pub begins_lower : Text → Bool
begins_lower [] = false
begins_lower (c ∷ cs) = is_lower c

-- A blank between `c` and `d`, where `rest` follows: before the last capital of several and a small
-- letter, between a small letter or a digit and a capital, between a letter and a digit.
unfoldable pub breaks : Unicode → ℕ → ℕ → Text → Bool
breaks u c d rest =
    (is_upper c && is_upper d && begins_lower rest)
    || ((is_lower c || is_digit c) && is_upper d)
    || (u.is_letter c && is_digit d)
    || (is_digit c && u.is_letter d)

abbrev pub onto_first : ℕ → List Text → List Text
onto_first c [] = (c ∷ []) ∷ []
onto_first c (t ∷ ts) = (c ∷ t) ∷ ts

-- The segments of a word.
unfoldable pub segments : Unicode → Text → List Text
unfolding breaks
segments u [] = []
segments u (c ∷ []) = (c ∷ []) ∷ []
segments u (c ∷ d ∷ cs) =
    let rest = segments u (d ∷ cs) in if breaks u c d cs then (c ∷ []) ∷ rest else onto_first c rest

abbrev pub several : List Text → Bool
several [] = false
several (t ∷ []) = false
several (t ∷ s ∷ ts) = true

-- A word's tokens: the whole of it if it has several segments, and each segment.
unfoldable pub word_tokens : Unicode → Text → List Text
unfolding segments
word_tokens u word =
    let parts = map u.lower_case (segments u word) in
    if several parts then u.lower_case word ∷ parts else parts

-- `text.matchAll(WORD_CHARACTERS)`; `current` is the match so far.
unfoldable pub words_from : Unicode → Text → Text → List Text
words_from u current [] = if is_empty current then [] else current ∷ []
words_from u current (c ∷ cs) =
    let in_word = u.is_letter c || u.is_number c in
    let rest = words_from u (if in_word then current ++ c ∷ [] else []) cs in
    if in_word then rest else if is_empty current then rest else current ∷ rest

abbrev pub all_tokens : Unicode → List Text → List Text
all_tokens u [] = []
all_tokens u (word ∷ words) = word_tokens u word ++ all_tokens u words

unfoldable pub append_technical_tokens : Unicode → Text → List Text
unfolding word_tokens words_from
append_technical_tokens u text = all_tokens u (words_from u [] text)

-- The loop over the characters, with its two runs; one of them is empty.
unfoldable pub tokens_from : Unicode → Text → Text → Text → List Text
unfolding append_cjk_tokens append_technical_tokens
tokens_from u cjk_run technical_run [] =
    append_cjk_tokens cjk_run ++ append_technical_tokens u technical_run
tokens_from u cjk_run technical_run (c ∷ cs) =
    let cjk = u.is_cjk_character c in
    let rest =
      tokens_from u (if cjk then cjk_run ++ c ∷ [] else [])
        (if cjk then [] else technical_run ++ c ∷ []) cs in
    if cjk
    then append_technical_tokens u technical_run ++ rest
    else append_cjk_tokens cjk_run ++ rest

unfoldable pub tokenize_keyword_text : Unicode → Text → List Text
unfolding tokens_from
tokenize_keyword_text u text = tokens_from u [] [] (u.nfkc text)

-- `[...new Set(tokens)]`
unfoldable pub unique_tokens : List Text → List Text → List Text
unique_tokens seen [] = []
unique_tokens seen (t ∷ ts) =
    let rest = unique_tokens (t ∷ seen) ts in if contains t seen then rest else t ∷ rest

-- `token.replaceAll('"', '""')`
unfoldable pub escape : Text → Text
escape [] = []
escape (c ∷ cs) = if c == 34 then 34 ∷ 34 ∷ escape cs else c ∷ escape cs

abbrev pub quoted : Text → Text
quoted token = 34 ∷ escape token ++ 34 ∷ []

-- `.join(" OR ")`
unfoldable pub any_of : Text → List Text → Text
unfolding escape
any_of token [] = quoted token
any_of token (t ∷ ts) = quoted token ++ 32 ∷ 79 ∷ 82 ∷ 32 ∷ any_of t ts

unfoldable pub encode_keyword_match : List Text → Option Text
unfolding unique_tokens any_of
encode_keyword_match tokens = elim (unique_tokens [] tokens) [
  | [] ↦ none
  | t ∷ ts ↦ some (any_of t ts)
]
