-- ===== src/Query/Projection/Clauses.antt =====
-- How many views a query has, and that they are the query.
use mathlib.Core.List.{append-nil, append_assoc}
use lorelum.Prelude.{
  ℕ, zero, suc, ◌+◌, ◌-◌, ◌≤◌, ◌≡◌, refl, ap, sym, ◌∙◌, Bool, Bool-cases, true, false, not, ◌||◌,
  List, [], ◌∷◌, ◌++◌, ltb, if◌then◌else◌, Text, is_space, is_empty, keep, keep-append, length, inl,
  inr, arith,
}
use lorelum.Query.Projection.{onto_first}
use lorelum.Query.Projection.Content.{ink, all_ink, ink-append, ink-trim}
use lorelum.Query.Projection.Views.{
  max_query_views, is_boundary, collapse, compact, split_at_boundaries, compacted_parts, is_short,
  paired, merge_short, merged_parts, pair_last, capped, query_fragments, QueryEmbeddingInput,
  inputs_from, project_multi_view_query,
}

-- The characters of a text that are neither white space nor of a boundary.
unfoldable pub letters : Text → Text
unfolding ink
letters t = keep (λ c. not (is_boundary c)) (ink t)

abbrev pub texts_of : List QueryEmbeddingInput → List Text
texts_of [] = []
texts_of (i ∷ is) = i.text ∷ texts_of is

-- The same of texts one after the other.
unfoldable pub letters_of : List Text → Text
unfolding all_ink
letters_of ts = keep (λ c. not (is_boundary c)) (all_ink ts)

length-pair_last :
    (views : List Text)
    → length (pair_last views) ≡ (if ltb 1 (length views) then length views - 1 else length views)
unfolding pair_last
length-pair_last [] = refl
length-pair_last (t ∷ []) = refl
length-pair_last (t ∷ u ∷ []) = refl
length-pair_last (t ∷ u ∷ v ∷ ts) = ground (arith, length-pair_last (u ∷ v ∷ ts))

length-capped :
    (fuel : ℕ) (views : List Text)
    → length views ≤ fuel + 12
    → 1 ≤ length views
    → (1 ≤ length (capped fuel views)) × (length (capped fuel views) ≤ 12)
unfolding capped
length-capped zero views h k = (k, ground arith)
length-capped (suc fuel) views h k =
    let n = length-pair_last views in
    elim (Bool-cases (ltb max_query_views (length views))) [
      | inl many ↦ rw many (length-capped fuel (pair_last views) (ground arith) (ground arith))
      | inr few ↦ rw few (k, ground arith)
    ]

ink-collapse : (spaced : Bool) (t : Text) → ink (collapse spaced t) ≡ ink t
unfolding ink collapse keep is_space
ink-collapse spaced [] = refl
ink-collapse spaced (c ∷ cs) = ground (arith, ink-collapse (is_space c) cs)

ink-compact : (t : Text) → ink (compact t) ≡ ink t
unfolding compact
ink-compact t = ink-trim (collapse false t) ∙ ink-collapse false t

ink-blank : (t : Text) → ink (32 ∷ t) ≡ ink t
unfolding ink keep is_space
ink-blank t = refl

ink-paired : (s t : Text) → ink (paired s t) ≡ ink s ++ ink t
ink-paired s t =
    ink-compact (s ++ 32 ∷ t) ∙ ink-append s (32 ∷ t) ∙ ap (λ u. ink s ++ u) (ink-blank t)

ink-compacted_parts : (ts : List Text) → all_ink (compacted_parts ts) ≡ all_ink ts
unfolding compacted_parts all_ink
ink-compacted_parts [] = refl
ink-compacted_parts (t ∷ ts) = elim (Bool-cases (is_empty (compact t))) [
  | inl blank ↦ rw blank (
      ink-compacted_parts ts
      ∙ ap (λ u. u ++ all_ink ts) (nothing (compact t) blank ∙ ink-compact t))
  | inr kept ↦ rw kept (rw (ink-compact t, ink-compacted_parts ts) refl)
]
  where
    nothing : (t : Text) → is_empty t ≡ true → [] ≡ ink t
    nothing [] h = unfold ink in unfold keep in refl
    nothing (c ∷ cs) h = ground arith

ink-merge_short :
    (previous : Text) (parts : List Text)
    → all_ink (merge_short previous parts) ≡ ink previous ++ all_ink parts
unfolding merge_short all_ink
ink-merge_short previous [] = refl
ink-merge_short previous (part ∷ parts) = elim (Bool-cases (is_short previous || is_short part)) [
  | inl merges ↦ rw merges (
      ink-merge_short (paired previous part) parts
      ∙ rw (ink-paired previous part) (append_assoc (ink previous) (ink part) (all_ink parts)))
  | inr apart ↦ rw apart (rw (ink-merge_short part parts) refl)
]

ink-merged_parts : (parts : List Text) → all_ink (merged_parts parts) ≡ all_ink parts
unfolding all_ink
ink-merged_parts [] = refl
ink-merged_parts (part ∷ parts) = ink-merge_short part parts

ink-pair_last : (views : List Text) → all_ink (pair_last views) ≡ all_ink views
unfolding pair_last all_ink
ink-pair_last [] = refl
ink-pair_last (t ∷ []) = refl
ink-pair_last (t ∷ u ∷ []) = rw (ink-paired t u) (append_assoc (ink t) (ink u) [])
ink-pair_last (t ∷ u ∷ v ∷ ts) = ap (λ x. ink t ++ x) (ink-pair_last (u ∷ v ∷ ts))

ink-capped : (fuel : ℕ) (views : List Text) → all_ink (capped fuel views) ≡ all_ink views
unfolding capped
ink-capped zero views = refl
ink-capped (suc fuel) views = elim (Bool-cases (ltb max_query_views (length views))) [
  | inl many ↦ rw many (ink-capped fuel (pair_last views) ∙ ink-pair_last views)
  | inr few ↦ rw few refl
]

letters-append : (s t : Text) → letters (s ++ t) ≡ letters s ++ letters t
unfolding letters
letters-append s t = rw (ink-append s t) (keep-append (λ c. not (is_boundary c)) (ink s) (ink t))

letters_of-cons : (t : Text) (ts : List Text) → letters_of (t ∷ ts) ≡ letters t ++ letters_of ts
unfolding letters_of letters all_ink
letters_of-cons t ts = keep-append (λ c. not (is_boundary c)) (ink t) (all_ink ts)

letters-one : (c : ℕ) (t : Text) → is_boundary c ≡ true → letters (c ∷ t) ≡ letters t
unfolding letters ink keep
letters-one c t h = ground arith

letters-onto_first :
    (c : ℕ) (ts : List Text) → letters_of (onto_first c ts) ≡ letters (c ∷ []) ++ letters_of ts
letters-onto_first c [] = letters_of-cons (c ∷ []) []
letters-onto_first c (t ∷ ts) =
    letters_of-cons (c ∷ t) ts
    ∙ rw (letters-append (c ∷ []) t, letters_of-cons t ts)
        (append_assoc (letters (c ∷ [])) (letters t) (letters_of ts))

letters-split : (t : Text) → letters_of (split_at_boundaries t) ≡ letters t
unfolding split_at_boundaries
letters-split [] =
    unfold letters_of in unfold letters in unfold all_ink in unfold ink in unfold keep in refl
letters-split (c ∷ cs) = elim (Bool-cases (is_boundary c)) [
  | inl cut ↦
      rw cut (blank_first (split_at_boundaries cs) ∙ letters-split cs ∙ sym (letters-one c cs cut))
  | inr inside ↦ rw inside (
      letters-onto_first c (split_at_boundaries cs)
      ∙ rw (letters-split cs) (sym (letters-append (c ∷ []) cs)))
]
  where
    blank_first : (ts : List Text) → letters_of ([] ∷ ts) ≡ letters_of ts
    blank_first ts = unfold letters_of in unfold all_ink in unfold ink in unfold keep in refl

texts-inputs_from : (ordinal : ℕ) (ts : List Text) → texts_of (inputs_from ordinal ts) ≡ ts
unfolding inputs_from
texts-inputs_from ordinal [] = refl
texts-inputs_from ordinal (t ∷ ts) = ap (λ x. t ∷ x) (texts-inputs_from (suc ordinal) ts)

length-inputs_from : (ordinal : ℕ) (ts : List Text) → length (inputs_from ordinal ts) ≡ length ts
unfolding inputs_from
length-inputs_from ordinal [] = refl
length-inputs_from ordinal (t ∷ ts) = ground (arith, length-inputs_from (suc ordinal) ts)

length-merge_short : (previous : Text) (parts : List Text) → 1 ≤ length (merge_short previous parts)
unfolding merge_short
length-merge_short previous [] = ground arith
length-merge_short previous (part ∷ parts) =
    elim (Bool-cases (is_short previous || is_short part)) [
      | inl merges ↦ rw merges (length-merge_short (paired previous part) parts)
      | inr apart ↦ rw apart (omega (arith, length-merge_short part parts))
    ]

length-merged_parts : (parts : List Text) → is_empty parts ≡ false → 1 ≤ length (merged_parts parts)
length-merged_parts [] h = ground arith
length-merged_parts (part ∷ parts) h = length-merge_short part parts

-- A query, of whatever text, has from one to twelve views, and the views one after the other are the
-- query, but for white space and the characters of clause boundaries.
pub project_multi_view_query_lem :
    (text : Text)
    → (1 ≤ length (project_multi_view_query text))
      × (length (project_multi_view_query text) ≤ 12)
      × (letters_of (texts_of (project_multi_view_query text)) ≡ letters text)
unfolding project_multi_view_query query_fragments keep letters_of letters
project_multi_view_query_lem text =
    rw (length-inputs_from 0 (query_fragments text), texts-inputs_from 0 (query_fragments text))
      (elim (Bool-cases (is_empty raw)) [
        | inl bare ↦ rw bare (ground arith, ground arith, whole text)
        | inr some_parts ↦
            let (low, high) =
              length-capped (length (merged_parts raw)) (merged_parts raw) (ground arith)
                (length-merged_parts raw some_parts) in
            rw some_parts (low, high, kept)
      ])
  where
    raw : List Text
    raw = compacted_parts (split_at_boundaries text)

    whole : (t : Text) → letters_of (compact t ∷ []) ≡ letters t
    whole t =
        letters_of-cons (compact t) []
        ∙ unfold letters_of in
          unfold letters in unfold all_ink in rw (ink-compact t) (append-nil (letters t))

    kept : letters_of (capped (length (merged_parts raw)) (merged_parts raw)) ≡ letters text
    kept =
        ap (λ t. keep (λ c. not (is_boundary c)) t)
          (ink-capped (length (merged_parts raw)) (merged_parts raw)
            ∙ ink-merged_parts raw
            ∙ ink-compacted_parts (split_at_boundaries text))
        ∙ letters-split text
