-- ===== src/Query/Projection/Views.antt =====
-- packages/engine/src/query/semantic/methods/multi-view/query-views.ts: the clauses of a query that
-- are encoded. A carriage return before a line feed counts as white space of the clause before,
-- which `compact` takes off, in place of a part of the boundary.
use lorelum.Prelude.{
  ℕ, zero, suc, Bool, false, not, ◌||◌, List, [], ◌∷◌, ◌++◌, ltb, ◌==◌, if◌then◌else◌, Text,
  is_space, is_empty, trim, length,
}
use lorelum.Query.Projection.{onto_first}

abbrev pub max_query_views : ℕ
max_query_views = 12

abbrev pub min_query_view_code_points : ℕ
min_query_view_code_points = 4

-- `QUERY_VIEW_BOUNDARY`, one character of it.
unfoldable pub is_boundary : ℕ → Bool
is_boundary c =
    c == 46
    || c == 33
    || c == 63
    || c == 59
    || c == 12290
    || c == 65281
    || c == 65311
    || c == 65307
    || c == 44
    || c == 65292
    || c == 12289
    || c == 58
    || c == 65306
    || c == 10

-- `text.replace(/\s+/gu, " ")`; the flag says that the last character was white space.
unfoldable pub collapse : Bool → Text → Text
collapse spaced [] = []
collapse spaced (c ∷ cs) =
    let rest = collapse (is_space c) cs in
    if not (is_space c) then c ∷ rest else if spaced then rest else 32 ∷ rest

unfoldable pub compact : Text → Text
unfolding collapse
compact text = trim (collapse false text)

-- `text.split(QUERY_VIEW_BOUNDARY)`, with an empty part for each further character of a boundary.
unfoldable pub split_at_boundaries : Text → List Text
unfolding is_boundary
split_at_boundaries [] = [] ∷ []
split_at_boundaries (c ∷ cs) =
    let rest = split_at_boundaries cs in if is_boundary c then [] ∷ rest else onto_first c rest

unfoldable pub compacted_parts : List Text → List Text
unfolding compact
compacted_parts [] = []
compacted_parts (t ∷ ts) =
    let rest = compacted_parts ts in if is_empty (compact t) then rest else compact t ∷ rest

abbrev pub is_short : Text → Bool
is_short text = ltb (length text) min_query_view_code_points

abbrev pub paired : Text → Text → Text
paired previous part = compact (previous ++ 32 ∷ part)

-- The loop that merges short parts; `previous` is the last of `merged`.
unfoldable pub merge_short : Text → List Text → List Text
merge_short previous [] = previous ∷ []
merge_short previous (part ∷ parts) =
    let merges = is_short previous || is_short part in
    let rest = merge_short (if merges then paired previous part else part) parts in
    if merges then rest else previous ∷ rest

abbrev pub merged_parts : List Text → List Text
merged_parts [] = []
merged_parts (part ∷ parts) = merge_short part parts

-- One round of the loop that pairs the last two views.
unfoldable pub pair_last : List Text → List Text
pair_last [] = []
pair_last (t ∷ []) = t ∷ []
pair_last (t ∷ u ∷ []) = paired t u ∷ []
pair_last (t ∷ u ∷ v ∷ ts) = t ∷ pair_last (u ∷ v ∷ ts)

-- The loop: each round has one view less, so the number of views is fuel enough.
unfoldable pub capped : ℕ → List Text → List Text
unfolding pair_last
capped zero views = views
capped (suc fuel) views =
    let rest = capped fuel (pair_last views) in
    if ltb max_query_views (length views) then rest else views

unfoldable pub query_fragments : Text → List Text
unfolding capped compacted_parts split_at_boundaries merge_short
query_fragments text =
    let raw = compacted_parts (split_at_boundaries text) in
    if is_empty raw
    then compact text ∷ []
    else capped (length (merged_parts raw)) (merged_parts raw)

pub record QueryEmbeddingInput : Type 0 where
  pub ordinal : ℕ
  pub text : Text
  pub weight : ℕ

unfoldable pub inputs_from : ℕ → List Text → List QueryEmbeddingInput
inputs_from ordinal [] = []
inputs_from ordinal (t ∷ ts) =
    record { ordinal = ordinal; text = t; weight = 1 } ∷ inputs_from (suc ordinal) ts

unfoldable pub project_multi_view_query : Text → List QueryEmbeddingInput
unfolding inputs_from query_fragments
project_multi_view_query text = inputs_from 0 (query_fragments text)
