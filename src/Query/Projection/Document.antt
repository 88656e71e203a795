-- ===== src/Query/Projection/Document.antt =====
-- The texts of a whole practice: its task card, and its body, unit by unit. An input's key, which
-- projection-identity.ts derives by a hash, is left out.
use lorelum.Prelude.{
  ℕ, zero, suc, ◌-◌, ◌≡◌, refl, Bool, true, not, ◌||◌, Option, none, some, List, [], ◌∷◌, ◌++◌, map,
  ltb, ◌==◌, if◌then◌else◌, Text, units, is_space, is_empty, trim, trim_start, any, all,
  all_of_both, drop, arith,
}
use lorelum.LocalStore.Canonical.{Practice, AntiPattern, normalize_line_endings}
use lorelum.Query.Projection.{
  MarkdownUnit, unit_chunks, split_by_token_budget, semantic_view_max, onto_first,
}
use lorelum.Query.Projection.Budget.{fits, unit_chunks-fits, split_by_token_budget-fits}

-- `values.join(separator)`
abbrev pub join : Text → List Text → Text
join separator [] = []
join separator (t ∷ []) = t
join separator (t ∷ u ∷ ts) = t ++ separator ++ join separator (u ∷ ts)

abbrev pub blank_line : Text
blank_line = 10 ∷ 10 ∷ []

abbrev pub trimmed_non_empty : List Text → List Text
trimmed_non_empty [] = []
trimmed_non_empty (t ∷ ts) =
    let rest = trimmed_non_empty ts in if is_empty (trim t) then rest else trim t ∷ rest

abbrev pub join_non_empty : List Text → Text
join_non_empty values = join blank_line (trimmed_non_empty values)

abbrev pub anti_pattern_triggers : Option (List AntiPattern) → Text
anti_pattern_triggers none = []
anti_pattern_triggers (some patterns) =
    join blank_line (map (λ a. a.name ++ 10 ∷ a.description) patterns)

unfoldable pub task_card_text : Practice → Text
task_card_text p =
    join_non_empty (p.title ∷ p.applies_when ∷ p.stage ∷ anti_pattern_triggers p.anti_patterns ∷ [])

abbrev pub split_lines : Text → List Text
split_lines [] = [] ∷ []
split_lines (c ∷ cs) = let rest = split_lines cs in if c == 10 then [] ∷ rest else onto_first c rest

-- The number of `#`, and of white space, at the start.
abbrev pub hashes : Text → ℕ
hashes [] = 0
hashes (c ∷ cs) = if c == 35 then suc (hashes cs) else 0

abbrev pub spaces : Text → ℕ
spaces [] = 0
spaces (c ∷ cs) = if is_space c then suc (spaces cs) else 0

-- `\s*#*\s*$`
abbrev pub closes : Text → Bool
closes text = let inner = trim_start text in all is_space (drop (hashes inner) inner)

-- What `.` does not match.
abbrev pub is_line_terminator : ℕ → Bool
is_line_terminator c = c == 10 || c == 13 || c == 8232 || c == 8233

-- `(.+?)` before the closing: the shortest text that leaves one.
abbrev pub heading_text : Text → Option Text
heading_text [] = none
heading_text (c ∷ cs) =
    let rest = heading_text cs in
    if is_line_terminator c
    then none
    else if closes cs
    then some (c ∷ [])
    else elim rest [ none ↦ none | some t ↦ some (c ∷ t) ]

-- The heading regular expression: the level, and the trimmed text. Where only white space follows the
-- hashes, `\s+` gives the last of it back for the text.
unfoldable pub heading_of : Text → Option (ℕ × Text)
heading_of line =
    let level = hashes line in
    let after = drop level line in
    let rest = trim_start after in
    if level == 0 || ltb 6 level || spaces after == 0
    then none
    else if is_empty rest
    then if any (λ c. not (is_line_terminator c)) (drop 1 after) then some (level, []) else none
    else elim (heading_text rest) [ none ↦ none | some t ↦ some (level, trim t) ]

abbrev pub first_of : ℕ → List Text → List Text
first_of zero ts = []
first_of (suc n) [] = []
first_of (suc n) (t ∷ ts) = t ∷ first_of n ts

-- `flush`
abbrev pub flush : List Text → List Text → List MarkdownUnit
flush path current =
    let text = trim (join (10 ∷ []) current) in
    if is_empty text then [] else record { heading_path = path; text = text } ∷ []

-- The loop over the lines; `path` and `current` are its two arrays.
pub units_from : List Text → List Text → List Text → List MarkdownUnit
unfolding heading_of
units_from path current [] = flush path current
units_from path current (line ∷ lines) = elim (heading_of line) [
  | some (level, text) ↦
      flush path current ++ units_from (first_of (level - 1) path ++ text ∷ []) [] lines
  | none ↦
      let blank = is_empty (trim line) in
      let rest = units_from path (if blank then [] else current ++ line ∷ []) lines in
      if blank then flush path current ++ rest else rest
]

unfoldable pub markdown_units : Text → List MarkdownUnit
unfolding units_from
markdown_units body = units_from [] [] (split_lines (normalize_line_endings body))

unfoldable pub chunks_of : List MarkdownUnit → List Text
unfolding unit_chunks
chunks_of [] = []
chunks_of (unit ∷ units') = unit_chunks unit ++ chunks_of units'

unfoldable pub body_chunk_texts : Text → List Text
unfolding chunks_of markdown_units
body_chunk_texts body = chunks_of (markdown_units body)

pub record EmbeddingInput : Type 0 where
  pub channel : Text
  pub ordinal : ℕ
  pub text : Text

unfoldable pub inputs_of : Text → ℕ → List Text → List EmbeddingInput
inputs_of channel ordinal [] = []
inputs_of channel ordinal (t ∷ ts) =
    record { channel = channel; ordinal = ordinal; text = t } ∷ inputs_of channel (suc ordinal) ts

abbrev pub body_of : Option Text → Text
body_of none = []
body_of (some t) = t

unfoldable pub project_multi_view_document : Practice → List EmbeddingInput
unfolding inputs_of task_card_text body_chunk_texts split_by_token_budget
project_multi_view_document practice =
    inputs_of (units "task-card") 0
      (split_by_token_budget (task_card_text practice) semantic_view_max)
    ++ inputs_of (units "body") 0 (body_chunk_texts (body_of practice.body))

chunks_of-fits : (us : List MarkdownUnit) → all (fits semantic_view_max) (chunks_of us) ≡ true
unfolding chunks_of all
chunks_of-fits [] = refl
chunks_of-fits (u ∷ us) =
    all_of_both (fits semantic_view_max) (unit_chunks u) (chunks_of us) (unit_chunks-fits u)
      (chunks_of-fits us)

inputs_of-fits :
    (channel : Text) (ordinal : ℕ) (ts : List Text)
    → all (fits semantic_view_max) ts ≡ true
    → all (λ i. fits semantic_view_max i.text) (inputs_of channel ordinal ts) ≡ true
unfolding inputs_of all
inputs_of-fits channel ordinal [] h = refl
inputs_of-fits channel ordinal (t ∷ ts) h = ground (arith, inputs_of-fits channel (suc ordinal) ts)

-- Each text of a practice that `projectMultiViewDocument` has encoded, from the task card or from the
-- body with its headings, is not empty and is estimated at 384 tokens at most.
pub projection_within_budget :
    (practice : Practice)
    → all (λ i. fits semantic_view_max i.text) (project_multi_view_document practice) ≡ true
unfolding project_multi_view_document body_chunk_texts
projection_within_budget practice =
    let card = task_card_text practice in
    let us = markdown_units (body_of practice.body) in
    all_of_both (λ (i : EmbeddingInput). fits semantic_view_max i.text)
      (inputs_of (units "task-card") 0 (split_by_token_budget card semantic_view_max))
      (inputs_of (units "body") 0 (chunks_of us))
      (inputs_of-fits (units "task-card") 0 (split_by_token_budget card semantic_view_max)
        (split_by_token_budget-fits semantic_view_max card (omega arith)))
      (inputs_of-fits (units "body") 0 (chunks_of us) (chunks_of-fits us))
