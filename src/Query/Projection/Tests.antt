-- ===== src/Query/Projection/Tests.antt =====
-- Runs of the projection, and its theorems at concrete texts.
use lorelum.Prelude.{
  ℕ, ◌≤◌, ◌≡◌, refl, true, none, some, List, [], ◌∷◌, ◌++◌, Text, units, length, all, map,
}
use lorelum.LocalStore.Canonical.{Practice, AntiPattern}
use lorelum.Query.Projection.{hard_split, split_by_token_budget, heading_prefix, semantic_view_max}
use lorelum.Query.Projection.Budget.{fits}
use lorelum.Query.Projection.Content.{ink, all_ink, split_by_token_budget_keeps}
use lorelum.Query.Projection.Document.{
  heading_of, body_chunk_texts, project_multi_view_document, projection_within_budget,
}
use lorelum.Query.Projection.Views.{query_fragments, project_multi_view_query}
use lorelum.Query.Projection.Clauses.{letters, letters_of, texts_of, project_multi_view_query_lem}

abbrev five : Text
five = 20320 ∷ 22909 ∷ 32 ∷ 20320 ∷ 22909 ∷ 20320 ∷ []

abbrev body : Text
body =
    units "# One" ++ 10 ∷ units "first" ++ 10 ∷ 10 ∷ units "## Two ##" ++ 10 ∷ units "second" ++ []

abbrev practice : Practice
practice = record {
  id = units "p";
  title = units "Title ";
  stage = units "review";
  tech_stack = [];
  applies_when = units "always";
  severity = none;
  body = some body;
  anti_patterns =
      some (
        record { id = units "a"; name = units "n"; description = units "d"; severity = none } ∷ []);
}

hard_splits : hard_split five 8 ≡ (20320 ∷ 22909 ∷ []) ∷ (20320 ∷ []) ∷ (22909 ∷ 20320 ∷ []) ∷ []
unfolding hard_split lorelum.Prelude.trim lorelum.Prelude.is_space
hard_splits = refl

splits_sentences :
    split_by_token_budget (units "One two. Three four! Five") 17
    ≡ units "One two." ∷ units "Three four! Five" ∷ []
unfolding split_by_token_budget lorelum.Prelude.trim lorelum.Prelude.is_space
splits_sentences = refl

headings :
    (heading_of (units "## Two ##") ≡ some (2, units "Two"))
    × (heading_of (units "#no") ≡ none)
    × (heading_of (units "####### x") ≡ none)
    × (heading_of (units "# ##") ≡ some (1, units "#"))
    × (heading_of (units "#  ") ≡ some (1, []))
unfolding heading_of lorelum.Prelude.is_space lorelum.Prelude.trim_start all lorelum.Prelude.trim
    lorelum.Prelude.any
headings = (refl, refl, refl, refl, refl)

drops_ancestors : heading_prefix (units "Long one" ∷ units "Two" ∷ []) 6 ≡ units "Two"
unfolding heading_prefix
drops_ancestors = refl

body_chunks :
    body_chunk_texts body
    ≡ (units "One" ++ 10 ∷ 10 ∷ units "first")
      ∷ (units "One > Two" ++ 10 ∷ 10 ∷ units "second")
      ∷ []
unfolding body_chunk_texts lorelum.LocalStore.Canonical.normalize_line_endings
    lorelum.Prelude.is_space lorelum.Prelude.trim_start all lorelum.Prelude.trim
body_chunks = refl

clauses :
    query_fragments (units "Review the diff: a, then merge.  Done?")
    ≡ units "Review the diff a" ∷ units "then merge" ∷ units "Done" ∷ []
unfolding query_fragments lorelum.Prelude.trim lorelum.Prelude.is_space
clauses = refl

only_boundaries : query_fragments (units " ?! ") ≡ units "?!" ∷ []
unfolding query_fragments lorelum.Prelude.trim lorelum.Prelude.is_space
only_boundaries = refl

projection_within_budget_example :
    all (λ i. fits semantic_view_max i.text) (project_multi_view_document practice) ≡ true
projection_within_budget_example = projection_within_budget practice

split_by_token_budget_keeps_example : all_ink (split_by_token_budget five 8) ≡ ink five
split_by_token_budget_keeps_example = split_by_token_budget_keeps five 8

project_multi_view_query_lem_example :
    (1 ≤ length (project_multi_view_query five))
    × (length (project_multi_view_query five) ≤ 12)
    × (letters_of (texts_of (project_multi_view_query five)) ≡ letters five)
project_multi_view_query_lem_example = project_multi_view_query_lem five
