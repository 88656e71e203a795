-- ===== src/Query/Projection/Budget.antt =====
-- The pieces stay within the budget.
use lorelum.Prelude.{
  ℕ, ◌+◌, ◌-◌, ◌≤◌, ◌≡◌, refl, subst, Bool, Bool-cases, true, false, not, ◌&&◌, List, [], ◌∷◌, ◌++◌,
  ltb, leb, Text, is_space, is_empty, trim, trim_start, trim_end, all, all_of_both, inl, inr, arith,
}
use lorelum.Query.Projection.{
  character_cost, estimated_tokens, push, hard_split_from, hard_split, split_sentences,
  trimmed_parts, joined, fill, split_by_token_budget, join_headings, shortened, first_or_empty,
  heading_prefix, MarkdownUnit, prefix_of, prefixed, unit_chunks, semantic_view_max, is_cjk,
}

pub estimated_tokens-append :
    (s t : Text) → estimated_tokens (s ++ t) ≡ estimated_tokens s + estimated_tokens t
unfolding estimated_tokens
estimated_tokens-append [] t = omega arith
estimated_tokens-append (c ∷ cs) t = ground (arith, estimated_tokens-append cs t)

character_cost_le : (c : ℕ) → character_cost c ≤ 4
unfolding character_cost
character_cost_le c = ground arith

estimated_tokens-trim_start : (t : Text) → estimated_tokens (trim_start t) ≤ estimated_tokens t
unfolding estimated_tokens trim_start
estimated_tokens-trim_start [] = ground arith
estimated_tokens-trim_start (c ∷ cs) = ground (arith, estimated_tokens-trim_start cs)

estimated_tokens-trim_end : (t : Text) → estimated_tokens (trim_end t) ≤ estimated_tokens t
unfolding estimated_tokens trim_end
estimated_tokens-trim_end [] = ground arith
estimated_tokens-trim_end (c ∷ cs) = ground (arith, estimated_tokens-trim_end cs)

pub estimated_tokens-trim : (t : Text) → estimated_tokens (trim t) ≤ estimated_tokens t
unfolding trim
estimated_tokens-trim t =
    omega (arith, estimated_tokens-trim_end (trim_start t), estimated_tokens-trim_start t)

-- Only white space is trimmed away to nothing.
trim_end-empty : (t : Text) → is_empty (trim_end t) ≡ true → all is_space t ≡ true
unfolding trim_end all
trim_end-empty [] h = refl
trim_end-empty (c ∷ cs) h = ground (arith, trim_end-empty cs)

trim_start-spaces : (t u : Text) → all is_space t ≡ true → trim_start (t ++ u) ≡ trim_start u
unfolding trim_start all
trim_start-spaces [] u h = refl
trim_start-spaces (c ∷ cs) u h = ground (arith, trim_start-spaces cs u)

trim_start-space : (t : Text) → all is_space (trim_start t) ≡ true → all is_space t ≡ true
unfolding trim_start all
trim_start-space [] h = refl
trim_start-space (c ∷ cs) h = ground (arith, trim_start-space cs)

pub trim-empty : (t : Text) → is_empty (trim t) ≡ true → all is_space t ≡ true
unfolding trim
trim-empty t h = trim_start-space t (trim_end-empty (trim_start t) h)

-- `t` fits, and is not empty.
unfoldable pub fits : ℕ → Text → Bool
fits maximum t = leb (estimated_tokens t) maximum && not (is_empty t)

push-fits :
    (maximum : ℕ) (t : Text)
    → estimated_tokens (trim t) ≤ maximum
    → all (fits maximum) (push t) ≡ true
unfolding push fits all
push-fits maximum t h = ground arith

estimated_tokens-trim_one : (c : ℕ) → estimated_tokens (trim (c ∷ [])) ≤ 4
estimated_tokens-trim_one c =
    let a = estimated_tokens-trim (c ∷ []) in
    let b = character_cost_le c in unfold estimated_tokens in omega arith

-- One character on a buffer that is white space leaves that character at most.
trim-snoc :
    (buffer : Text) (c : ℕ)
    → is_empty (trim buffer) ≡ true
    → estimated_tokens (trim (buffer ++ c ∷ [])) ≤ 4
unfolding trim
trim-snoc buffer c h =
    rw (trim_start-spaces buffer (c ∷ []) (trim-empty buffer h)) (estimated_tokens-trim_one c)

hard_split_from-fits :
    (maximum : ℕ) (buffer text : Text)
    → 4 ≤ maximum
    → estimated_tokens (trim buffer) ≤ maximum
    → all (fits maximum) (hard_split_from maximum buffer text) ≡ true
unfolding hard_split_from all fits
hard_split_from-fits maximum buffer [] room h = push-fits maximum buffer h
hard_split_from-fits maximum buffer (c ∷ cs) room h =
    elim (Bool-cases
      (not (is_empty (trim buffer)) && ltb maximum (estimated_tokens (buffer ++ c ∷ [])))) [
        | inl full ↦
            let rest =
              hard_split_from-fits maximum (c ∷ []) cs room
                (omega (arith, estimated_tokens-trim_one c)) in
            rw full (ground arith)
        | inr loose ↦
            let a = trim-snoc buffer c in
            let b = estimated_tokens-trim (buffer ++ c ∷ []) in
            rw loose (hard_split_from-fits maximum (buffer ++ c ∷ []) cs room (ground arith))
      ]

hard_split-fits :
    (maximum : ℕ) (text : Text) → 4 ≤ maximum → all (fits maximum) (hard_split text maximum) ≡ true
unfolding hard_split
hard_split-fits maximum text room =
    hard_split_from-fits maximum [] text room (
      unfold trim in
      unfold estimated_tokens in unfold trim_end in unfold trim_start in ground arith)

fill-fits :
    (maximum : ℕ) (current : Text) (sentences : List Text)
    → 4 ≤ maximum
    → estimated_tokens current ≤ maximum
    → all (fits maximum) (fill maximum current sentences) ≡ true
unfolding fill
fill-fits maximum current [] room h =
    push-fits maximum current (omega (arith, estimated_tokens-trim current))
fill-fits maximum current (sentence ∷ sentences) room h =
    let pushed = push-fits maximum current (omega (arith, estimated_tokens-trim current)) in
    let pieces = hard_split-fits maximum sentence room in
    elim (Bool-cases (ltb maximum (estimated_tokens sentence))) [
      | inl long ↦ rw long (
          all_of_both (fits maximum) (push current ++ hard_split sentence maximum) _
            (all_of_both (fits maximum) (push current) (hard_split sentence maximum) pushed pieces)
            (fill-fits maximum [] sentences room (unfold estimated_tokens in ground arith)))
      | inr short ↦
          rw short (elim (Bool-cases (ltb maximum (estimated_tokens (joined current sentence)))) [
            | inl over ↦ rw over (
                all_of_both (fits maximum) (push current) _ pushed
                  (fill-fits maximum sentence sentences room (ground arith)))
            | inr under ↦
                rw under (fill-fits maximum (joined current sentence) sentences room (ground arith))
          ])
    ]

pub split_by_token_budget-fits :
    (maximum : ℕ) (text : Text)
    → 4 ≤ maximum
    → all (fits maximum) (split_by_token_budget text maximum) ≡ true
unfolding split_by_token_budget
split_by_token_budget-fits maximum text room =
    elim (Bool-cases (leb (estimated_tokens (trim text)) maximum)) [
      | inl whole ↦ rw whole (push-fits maximum text (ground arith))
      | inr parts ↦ rw parts (
          fill-fits maximum [] (trimmed_parts (split_sentences text)) room
            (unfold estimated_tokens in ground arith))
    ]

first-fits :
    (maximum : ℕ) (ts : List Text)
    → all (fits maximum) ts ≡ true
    → estimated_tokens (first_or_empty ts) ≤ maximum
unfolding all fits estimated_tokens
first-fits maximum [] h = ground arith
first-fits maximum (t ∷ ts) h = ground arith

heading_prefix-fits :
    (path : List Text) (maximum : ℕ)
    → 4 ≤ maximum
    → estimated_tokens (heading_prefix path maximum) ≤ maximum
unfolding heading_prefix
heading_prefix-fits path maximum room =
    let heading = join_headings (shortened maximum path) in
    elim (Bool-cases (ltb maximum (estimated_tokens heading))) [
      | inl long ↦
          rw long
            (first-fits maximum (hard_split heading maximum) (hard_split-fits maximum heading room))
      | inr short ↦ rw short (ground arith)
    ]

prefix-fits : (unit : MarkdownUnit) → estimated_tokens (prefix_of unit) ≤ 770
prefix-fits unit =
    let a = heading_prefix-fits unit.heading_path 768 (ground arith) in
    let b = estimated_tokens-append (heading_prefix unit.heading_path 768) (10 ∷ 10 ∷ []) in
    unfold estimated_tokens in unfold character_cost in unfold is_cjk in ground arith

prefixed-fits :
    (prefix : Text) (parts : List Text) (budget : ℕ)
    → all (fits budget) parts ≡ true
    → all (fits (estimated_tokens prefix + budget)) (prefixed prefix parts) ≡ true
unfolding all fits
prefixed-fits prefix [] budget h = refl
prefixed-fits prefix (part ∷ parts) budget h =
    let a = estimated_tokens-append prefix part in
    let b = prefixed-fits prefix parts budget in let c = append-filled prefix part in ground arith
  where
    append-filled : (s t : Text) → is_empty t ≡ false → is_empty (s ++ t) ≡ false
    append-filled [] t h = h
    append-filled (c ∷ cs) t h = refl

pub unit_chunks-fits :
    (unit : MarkdownUnit) → all (fits semantic_view_max) (unit_chunks unit) ≡ true
unfolding unit_chunks
unit_chunks-fits unit =
    let prefix = prefix_of unit in
    let budget = semantic_view_max - estimated_tokens prefix in
    let a = prefix-fits unit in
    let parts = split_by_token_budget-fits budget unit.text (omega arith) in
    subst (λ n. all (fits n) (prefixed prefix (split_by_token_budget unit.text budget)) ≡ true)
      (total (estimated_tokens prefix) a)
      (prefixed-fits prefix (split_by_token_budget unit.text budget) budget parts)
  where
    total : (n : ℕ) → n ≤ 770 → n + (1536 - n) ≡ 1536
    total n h = omega arith
