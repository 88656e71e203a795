-- ===== src/Query/Projection/Content.antt =====
-- What is cut and trimmed loses white space only.
use mathlib.Core.List.{append-nil, append_assoc}
use lorelum.Prelude.{
  ℕ, ◌≡◌, refl, ap, sym, ◌∙◌, Bool-cases, true, not, ◌&&◌, List, [], ◌∷◌, ◌++◌, ltb, leb, Text,
  is_space, is_empty, trim, trim_start, trim_end, all, keep, keep-append, inl, inr, arith,
}
use lorelum.Query.Projection.{
  estimated_tokens, push, hard_split_from, hard_split, split_sentences, onto_first, ends_sentence,
  trimmed_parts, joined, fill, split_by_token_budget,
}
use lorelum.Query.Projection.Budget.{trim-empty}

-- The characters that are no white space.
unfoldable pub ink : Text → Text
ink t = keep (λ c. not (is_space c)) t

unfoldable pub all_ink : List Text → Text
unfolding ink
all_ink [] = []
all_ink (t ∷ ts) = ink t ++ all_ink ts

pub ink-append : (s t : Text) → ink (s ++ t) ≡ ink s ++ ink t
unfolding ink
ink-append s t = keep-append (λ c. not (is_space c)) s t

pub all_ink-append : (ss ts : List Text) → all_ink (ss ++ ts) ≡ all_ink ss ++ all_ink ts
unfolding all_ink
all_ink-append [] ts = refl
all_ink-append (s ∷ ss) ts =
    rw (all_ink-append ss ts) (sym (append_assoc (ink s) (all_ink ss) (all_ink ts)))

ink-spaces : (t : Text) → all is_space t ≡ true → ink t ≡ []
unfolding ink all keep
ink-spaces [] h = refl
ink-spaces (c ∷ cs) h = ground (arith, ink-spaces cs)

ink-trim_start : (t : Text) → ink (trim_start t) ≡ ink t
unfolding ink trim_start keep
ink-trim_start [] = refl
ink-trim_start (c ∷ cs) = ground (arith, ink-trim_start cs)

ink-trim_end : (t : Text) → ink (trim_end t) ≡ ink t
unfolding ink trim_end keep
ink-trim_end [] = refl
ink-trim_end (c ∷ cs) = ground (arith, ink-trim_end cs)

pub ink-trim : (t : Text) → ink (trim t) ≡ ink t
unfolding trim
ink-trim t = ink-trim_end (trim_start t) ∙ ink-trim_start t

ink-push : (t : Text) → all_ink (push t) ≡ ink t
unfolding push all_ink
ink-push t = elim (Bool-cases (is_empty (trim t))) [
  | inl blank ↦ rw blank (sym (ink-spaces t (trim-empty t blank)))
  | inr kept ↦ rw kept (append-nil (ink (trim t)) ∙ ink-trim t)
]

ink-hard_split_from :
    (maximum : ℕ) (buffer text : Text)
    → all_ink (hard_split_from maximum buffer text) ≡ ink buffer ++ ink text
unfolding hard_split_from all_ink keep
ink-hard_split_from maximum buffer [] = ink-push buffer ∙ sym (append-nil (ink buffer))
ink-hard_split_from maximum buffer (c ∷ cs) =
    elim (Bool-cases
      (not (is_empty (trim buffer)) && ltb maximum (estimated_tokens (buffer ++ c ∷ [])))) [
        | inl full ↦ rw full (
            rw (ink-hard_split_from maximum (c ∷ []) cs, ink-trim buffer, ← ink-append (c ∷ []) cs)
              refl)
        | inr loose ↦ rw loose (
            rw (ink-hard_split_from maximum (buffer ++ c ∷ []) cs, ink-append buffer (c ∷ []))
              (append_assoc (ink buffer) (ink (c ∷ [])) (ink cs)
                ∙ ap (λ t. ink buffer ++ t) (sym (ink-append (c ∷ []) cs))))
      ]

ink-hard_split : (text : Text) (maximum : ℕ) → all_ink (hard_split text maximum) ≡ ink text
unfolding hard_split ink keep
ink-hard_split text maximum = ink-hard_split_from maximum [] text

ink-blank : (t : Text) → ink (32 ∷ t) ≡ ink t
unfolding ink keep is_space
ink-blank t = refl

ink-joined : (current sentence : Text) → ink (joined current sentence) ≡ ink current ++ ink sentence
ink-joined [] sentence = unfold ink in unfold keep in refl
ink-joined (c ∷ cs) sentence =
    ink-append (c ∷ cs) (32 ∷ sentence) ∙ ap (λ t. ink (c ∷ cs) ++ t) (ink-blank sentence)

ink-fill :
    (maximum : ℕ) (current : Text) (sentences : List Text)
    → all_ink (fill maximum current sentences) ≡ ink current ++ all_ink sentences
unfolding fill all_ink
ink-fill maximum current [] = ink-push current ∙ sym (append-nil (ink current))
ink-fill maximum current (sentence ∷ sentences) =
    elim (Bool-cases (ltb maximum (estimated_tokens sentence))) [
      | inl long ↦ rw long (
          pieces (push current) (hard_split sentence maximum) _ (ink current) (ink sentence)
            (all_ink sentences) (ink-push current) (ink-hard_split sentence maximum)
            (ink-fill maximum [] sentences ∙ nothing (all_ink sentences)))
      | inr short ↦
          rw short (elim (Bool-cases (ltb maximum (estimated_tokens (joined current sentence)))) [
            | inl over ↦ rw over (
                all_ink-append (push current) _
                ∙ rw (ink-push current, ink-fill maximum sentence sentences) refl)
            | inr under ↦ rw under (
                ink-fill maximum (joined current sentence) sentences
                ∙ rw (ink-joined current sentence)
                    (append_assoc (ink current) (ink sentence) (all_ink sentences)))
          ])
    ]
  where
    nothing : (t : Text) → ink [] ++ t ≡ t
    nothing t = unfold ink in unfold keep in refl

    pieces :
        (as' bs cs : List Text) (a b c : Text)
        → all_ink as' ≡ a
        → all_ink bs ≡ b
        → all_ink cs ≡ c
        → all_ink ((as' ++ bs) ++ cs) ≡ a ++ (b ++ c)
    pieces as' bs cs a b c x y z =
        rw (all_ink-append (as' ++ bs) cs, all_ink-append as' bs, x, y, z) (append_assoc a b c)

ink-onto_first : (c : ℕ) (ts : List Text) → all_ink (onto_first c ts) ≡ ink (c ∷ []) ++ all_ink ts
unfolding all_ink
ink-onto_first c [] = refl
ink-onto_first c (t ∷ ts) =
    rw (ink-append (c ∷ []) t) (append_assoc (ink (c ∷ [])) (ink t) (all_ink ts))

ink-split_sentences : (text : Text) → all_ink (split_sentences text) ≡ ink text
unfolding split_sentences all_ink
ink-split_sentences [] = append-nil (ink [])
ink-split_sentences (c ∷ cs) =
    let rest = ink-split_sentences cs in
    rw (ink-append (c ∷ []) cs, ← rest)
      (elim (Bool-cases (ends_sentence c)) [
        | inl ending ↦ rw ending refl
        | inr inside ↦ rw inside (ink-onto_first c (split_sentences cs))
      ])

ink-trimmed_parts : (ts : List Text) → all_ink (trimmed_parts ts) ≡ all_ink ts
unfolding trimmed_parts all_ink
ink-trimmed_parts [] = refl
ink-trimmed_parts (t ∷ ts) =
    all_ink-append (push t) (trimmed_parts ts) ∙ rw (ink-push t, ink-trimmed_parts ts) refl

-- Whatever the budget, `splitByTokenBudget` keeps the text: its pieces one after the other are the text
-- but for white space.
pub split_by_token_budget_keeps :
    (text : Text) (maximum : ℕ) → all_ink (split_by_token_budget text maximum) ≡ ink text
unfolding split_by_token_budget all_ink ink keep
split_by_token_budget_keeps text maximum =
    elim (Bool-cases (leb (estimated_tokens (trim text)) maximum)) [
      | inl whole ↦ rw whole (ink-push text)
      | inr parts ↦ rw parts (
          ink-fill maximum [] (trimmed_parts (split_sentences text))
          ∙ ink-trimmed_parts (split_sentences text)
          ∙ ink-split_sentences text)
    ]
