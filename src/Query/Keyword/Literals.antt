-- ===== src/Query/Keyword/Literals.antt =====
-- The search expressions of `encodeKeywordMatch`, and a reader of them.
use mathlib.Core.List.{append-nil, append_assoc}
use lorelum.Prelude.{
  ℕ, ◌≡◌, ◌⊎◌, refl, sym, ap, ◌∙◌, subst, Bool, Bool-cases, true, false, not, ◌&&◌, Option, none,
  some, List, [], ◌∷◌, ◌++◌, ◌==◌, if◌then◌else◌, Text, text_eq, text_eq_sound, text_eq_refl,
  contains, keep, inl, inr, arith,
}
use lorelum.Query.Keyword.{unique_tokens, escape, any_of, encode_keyword_match}

-- The grammar of FTS5 that the encoder uses: strings in double quotes, in which two quotes are one,
-- with ` OR ` between them. A reader is before a string, in it, behind a quote in it, or in ` OR `.
pub data Reading : Type 0 where
  before_string want_o want_r want_blank : Reading
  inside behind_quote : Text → Reading

abbrev prepend : Text → Option (List Text) → Option (List Text)
prepend t none = none
prepend t (some ts) = some (t ∷ ts)

-- The terms of an expression of that grammar.
unfoldable pub read_terms : Reading → Text → Option (List Text)
read_terms before_string [] = none
read_terms before_string (c ∷ cs) =
    let rest = read_terms (inside []) cs in if c == 34 then rest else none
read_terms want_o [] = none
read_terms want_o (c ∷ cs) = let rest = read_terms want_r cs in if c == 79 then rest else none
read_terms want_r [] = none
read_terms want_r (c ∷ cs) = let rest = read_terms want_blank cs in if c == 82 then rest else none
read_terms want_blank [] = none
read_terms want_blank (c ∷ cs) =
    let rest = read_terms before_string cs in if c == 32 then rest else none
read_terms (inside term) [] = none
read_terms (inside term) (c ∷ cs) =
    read_terms (if c == 34 then behind_quote term else inside (term ++ c ∷ [])) cs
read_terms (behind_quote term) [] = some (term ∷ [])
read_terms (behind_quote term) (c ∷ cs) =
    let rest = read_terms (if c == 34 then inside (term ++ 34 ∷ []) else want_o) cs in
    if c == 34 then rest else if c == 32 then prepend term rest else none

read_terms-plain :
    (term cs : Text) (c : ℕ)
    → (c == 34) ≡ false
    → read_terms (inside term) (c ∷ cs) ≡ read_terms (inside (term ++ c ∷ [])) cs
unfolding read_terms
read_terms-plain term cs c plain = rw (read_terms, plain) refl

read_terms-escape :
    (term token rest : Text)
    → read_terms (inside term) (escape token ++ 34 ∷ rest)
      ≡ read_terms (behind_quote (term ++ token)) rest
unfolding read_terms escape
read_terms-escape term [] rest = rw (append-nil term) refl
read_terms-escape term (c ∷ cs) rest = elim (Bool-cases (c == 34)) [
  | inl quote ↦
      let same : c ≡ 34 = ground arith in
      rw quote (
        read_terms-escape (term ++ 34 ∷ []) cs rest
        ∙ rw (append_assoc term (34 ∷ []) cs, same) refl)
  | inr plain ↦ rw plain (
      read_terms-plain term (escape cs ++ 34 ∷ rest) c plain
      ∙ read_terms-escape (term ++ c ∷ []) cs rest
      ∙ rw (append_assoc term (c ∷ []) cs) refl)
]

read_terms-any_of :
    (token : Text) (tokens : List Text)
    → read_terms before_string (any_of token tokens) ≡ some (token ∷ tokens)
unfolding read_terms any_of
read_terms-any_of token [] = read_terms-escape [] token []
read_terms-any_of token (t ∷ ts) =
    let inner = read_terms-any_of t ts in
    ap (λ text. read_terms (inside []) text)
      (append_assoc (escape token) (34 ∷ []) (32 ∷ 79 ∷ 82 ∷ 32 ∷ any_of t ts))
    ∙ read_terms-escape [] token (32 ∷ 79 ∷ 82 ∷ 32 ∷ any_of t ts)
    ∙ ap (prepend token) inner

-- Each token where it first comes: the first one, then the rest without it.
abbrev pub first_occurrences : List Text → List Text
first_occurrences [] = []
first_occurrences (t ∷ ts) = t ∷ keep (λ s. not (text_eq t s)) (first_occurrences ts)

abbrev pub distinct : List Text → Bool
distinct [] = true
distinct (t ∷ ts) = not (contains t ts) && distinct ts

keep_both :
    (p q r : Text → Bool) (xs : List Text)
    → ((x : Text) → r x ≡ (p x && q x))
    → keep q (keep p xs) ≡ keep r xs
unfolding keep
keep_both p q r [] h = refl
keep_both p q r (x ∷ xs) h = ground (arith, h x, keep_both p q r xs h)

unseen_more :
    (t : Text) (seen : List Text) (x : Text)
    → not (contains x (t ∷ seen)) ≡ (not (text_eq t x) && not (contains x seen))
unfolding contains
unseen_more t seen x = ground arith

-- Where `t` was seen already, dropping it too makes no difference.
seen_twice :
    (t : Text) (seen : List Text) (x : Text)
    → contains t seen ≡ true
    → not (contains x seen) ≡ (not (text_eq t x) && not (contains x seen))
seen_twice t seen x h = elim (Bool-cases (text_eq t x)) [
  | inl e ↦
      let same : x ≡ t = sym (text_eq_sound t x e) in
      let found : contains x seen ≡ true = subst (λ z. contains z seen ≡ true) (sym same) h in
      ground arith
  | inr e ↦ ground arith
]

unique_tokens_lem :
    (seen ts : List Text)
    → unique_tokens seen ts ≡ keep (λ x. not (contains x seen)) (first_occurrences ts)
unfolding unique_tokens keep
unique_tokens_lem seen [] = refl
unique_tokens_lem seen (t ∷ ts) =
    let rest = unique_tokens_lem (t ∷ seen) ts in
    elim (Bool-cases (contains t seen)) [
      | inl old ↦ rw old (
          rest
          ∙ sym (
              keep_both (λ x. not (text_eq t x)) (λ x. not (contains x seen))
                (λ x. not (contains x (t ∷ seen))) (first_occurrences ts) (unseen_more t seen)))
      | inr new ↦ rw new (
          ap (λ z. t ∷ z)
            (rest
              ∙ sym (
                  keep_both (λ x. not (text_eq t x)) (λ x. not (contains x seen))
                    (λ x. not (contains x (t ∷ seen))) (first_occurrences ts)
                    (unseen_more t seen))))
    ]

keep_every : (xs : List Text) → keep (λ x. not (contains x [])) xs ≡ xs
unfolding keep contains
keep_every [] = refl
keep_every (x ∷ xs) = ap (λ z. x ∷ z) (keep_every xs)

contains-keep :
    (t x : Text) (ts : List Text)
    → contains x (keep (λ s. not (text_eq t s)) ts) ≡ (contains x ts && not (text_eq t x))
unfolding contains keep
contains-keep t x [] = refl
contains-keep t x (y ∷ ys) = elim (Bool-cases (text_eq y x)) [
  | inl e ↦
      let same : y ≡ x = text_eq_sound y x e in
      let ih = contains-keep t x ys in
      let here : text_eq t y ≡ text_eq t x = ap (text_eq t) same in ground arith
  | inr e ↦ ground (arith, contains-keep t x ys)
]

contains-first_occurrences :
    (x : Text) (ts : List Text) → contains x (first_occurrences ts) ≡ contains x ts
unfolding contains
contains-first_occurrences x [] = refl
contains-first_occurrences x (t ∷ ts) =
    ground (arith, contains-keep t x (first_occurrences ts), contains-first_occurrences x ts)

distinct-keep :
    (t : Text) (ts : List Text)
    → distinct ts ≡ true
    → distinct (keep (λ s. not (text_eq t s)) ts) ≡ true
unfolding keep
distinct-keep t [] h = refl
distinct-keep t (y ∷ ys) h = ground (arith, contains-keep t y ys, distinct-keep t ys)

distinct-first_occurrences : (ts : List Text) → distinct (first_occurrences ts) ≡ true
distinct-first_occurrences [] = refl
distinct-first_occurrences (t ∷ ts) = ground (
  arith,
  contains-keep t t (first_occurrences ts),
  text_eq_refl t,
  distinct-keep t (first_occurrences ts),
  distinct-first_occurrences ts,
)

abbrev from_unique : List Text → Option Text
from_unique us = elim us [ [] ↦ none | t ∷ ts ↦ some (any_of t ts) ]

-- `encodeKeywordMatch` gives no expression for no tokens. For any others, quotes, blanks and the word
-- OR in them included, its expression reads back, by the grammar of strings joined with OR, as the
-- tokens where each first comes, in that order. No two of these are equal, and they are all the tokens
-- and no others.
pub encode_keyword_match_reads :
    (tokens : List Text)
    → ((tokens ≡ []) × (encode_keyword_match tokens ≡ none))
      ⊎ ((expression : Text) × (encode_keyword_match tokens ≡ some expression)
          × (read_terms before_string expression ≡ some (first_occurrences tokens))
          × (distinct (first_occurrences tokens) ≡ true)
          × ((t : Text) → contains t (first_occurrences tokens) ≡ contains t tokens))
unfolding encode_keyword_match
encode_keyword_match_reads [] = inl (unfold unique_tokens in (refl, refl))
encode_keyword_match_reads (t ∷ ts) =
    let rest = keep (λ s. not (text_eq t s)) (first_occurrences ts) in
    let same : unique_tokens [] (t ∷ ts) ≡ t ∷ rest =
      unique_tokens_lem [] (t ∷ ts) ∙ keep_every (first_occurrences (t ∷ ts)) in
    inr (
      any_of t rest,
      ap from_unique same,
      read_terms-any_of t rest,
      distinct-first_occurrences (t ∷ ts),
      λ x. contains-first_occurrences x (t ∷ ts),
    )
