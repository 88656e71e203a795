-- ===== src/Query/Keyword/Segments.antt =====
-- No character of a run or a word is lost or made up by cutting it into tokens.
use lorelum.Prelude.{ℕ, ◌≡◌, refl, ap, ◌∙◌, Bool-cases, List, [], ◌∷◌, ◌++◌, Text, inl, inr}
use lorelum.Query.Keyword.{Unicode, append_cjk_tokens, breaks, segments, onto_first}

-- The run that overlapping tokens were made of: the first token, and the last character of each other.
abbrev pub tails : List Text → Text
tails [] = []
tails ([] ∷ ts) = tails ts
tails ((c ∷ []) ∷ ts) = tails ts
tails ((c ∷ d ∷ cs) ∷ ts) = d ∷ tails ts

abbrev pub rejoined : List Text → Text
rejoined [] = []
rejoined ([] ∷ ts) = tails ts
rejoined ((c ∷ cs) ∷ ts) = c ∷ tails ((c ∷ cs) ∷ ts)

abbrev pub concatenated : List Text → Text
concatenated [] = []
concatenated (t ∷ ts) = t ++ concatenated ts

tails-append_cjk_tokens : (c d : ℕ) (cs : Text) → tails (append_cjk_tokens (c ∷ d ∷ cs)) ≡ d ∷ cs
unfolding append_cjk_tokens
tails-append_cjk_tokens c d [] = refl
tails-append_cjk_tokens c d (e ∷ cs) = ap (λ t. d ∷ t) (tails-append_cjk_tokens d e cs)

rejoined-append_cjk_tokens : (run : Text) → rejoined (append_cjk_tokens run) ≡ run
unfolding append_cjk_tokens
rejoined-append_cjk_tokens [] = refl
rejoined-append_cjk_tokens (c ∷ []) = refl
rejoined-append_cjk_tokens (c ∷ d ∷ []) = refl
rejoined-append_cjk_tokens (c ∷ d ∷ e ∷ cs) = ap (λ t. c ∷ t) (tails-append_cjk_tokens c d (e ∷ cs))

concatenated-onto_first :
    (c : ℕ) (ts : List Text) → concatenated (onto_first c ts) ≡ c ∷ concatenated ts
concatenated-onto_first c [] = refl
concatenated-onto_first c (t ∷ ts) = refl

concatenated-segments : (u : Unicode) (word : Text) → concatenated (segments u word) ≡ word
unfolding segments
concatenated-segments u [] = refl
concatenated-segments u (c ∷ []) = refl
concatenated-segments u (c ∷ d ∷ cs) =
    let rest = concatenated-segments u (d ∷ cs) in
    elim (Bool-cases (breaks u c d cs)) [
      | inl cut ↦ rw cut (ap (λ t. c ∷ t) rest)
      | inr whole ↦
          rw whole (concatenated-onto_first c (segments u (d ∷ cs)) ∙ ap (λ t. c ∷ t) rest)
    ]

-- A run of CJK characters is its first token followed by the second character of each, or its only
-- character; and the segments of a word, one after the other, are the word.
pub tokens_keep_text :
    (u : Unicode) (run word : Text)
    → (rejoined (append_cjk_tokens run) ≡ run) × (concatenated (segments u word) ≡ word)
tokens_keep_text u run word = (rejoined-append_cjk_tokens run, concatenated-segments u word)
