-- ===== src/Query/Keyword/Tests.antt =====
-- Runs of the tokenizer, and its theorems at concrete tokens.
use lorelum.Prelude.{
  ℕ, ◌≡◌, ◌⊎◌, refl, Bool, true, false, ◌&&◌, ◌||◌, Option, none, some, List, [], ◌∷◌, leb, Text,
  units, contains,
}
use lorelum.Query.Keyword.{Unicode, segments, tokenize_keyword_text, encode_keyword_match}
use lorelum.Query.Keyword.Literals.{
  before_string, read_terms, first_occurrences, distinct, encode_keyword_match_reads,
}

-- A stand-in for Unicode: ASCII letters and digits, and one block of characters; case is kept.
abbrev unicode : Unicode
unicode = record {
  nfkc = λ t. t;
  is_cjk_character = λ c. leb 19968 c && leb c 40959;
  is_letter = λ c. (leb 65 c && leb c 90) || (leb 97 c && leb c 122);
  is_number = λ c. leb 48 c && leb c 57;
  lower_case = λ t. t;
}

identifiers :
    (segments unicode (units "HTTPServer2go")
      ≡ units "HTTP" ∷ units "Server" ∷ units "2" ∷ units "go" ∷ [])
    × (segments unicode (units "plain") ≡ units "plain" ∷ [])
unfolding segments
identifiers = (refl, refl)

tokenizes :
    tokenize_keyword_text unicode (20320 ∷ 22909 ∷ 20320 ∷ 32 ∷ 97 ∷ 66 ∷ 45 ∷ 99 ∷ 20320 ∷ [])
    ≡ (20320 ∷ 22909 ∷ [])
      ∷ (22909 ∷ 20320 ∷ [])
      ∷ units "aB"
      ∷ units "a"
      ∷ units "B"
      ∷ units "c"
      ∷ (20320 ∷ [])
      ∷ []
unfolding tokenize_keyword_text
tokenizes = refl

-- a"b, OR, a"b: the second a"b is dropped, the quote doubled.
abbrev tokens : List Text
tokens = (97 ∷ 34 ∷ 98 ∷ []) ∷ units "OR" ∷ (97 ∷ 34 ∷ 98 ∷ []) ∷ []

encodes :
    encode_keyword_match tokens
    ≡ some (34 ∷ 97 ∷ 34 ∷ 34 ∷ 98 ∷ 34 ∷ 32 ∷ 79 ∷ 82 ∷ 32 ∷ 34 ∷ 79 ∷ 82 ∷ 34 ∷ [])
unfolding encode_keyword_match lorelum.Prelude.contains lorelum.Prelude.text_eq
encodes = refl

encode_keyword_match_reads_example :
    ((tokens ≡ []) × (encode_keyword_match tokens ≡ none))
    ⊎ ((expression : Text) × (encode_keyword_match tokens ≡ some expression)
        × (read_terms before_string expression ≡ some (first_occurrences tokens))
        × (distinct (first_occurrences tokens) ≡ true)
        × ((t : Text) → contains t (first_occurrences tokens) ≡ contains t tokens))
encode_keyword_match_reads_example = encode_keyword_match_reads tokens
