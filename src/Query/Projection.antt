-- ===== src/Query/Projection.antt =====
-- packages/engine/src/query/semantic/methods/multi-view/projection.ts: the texts of a practice that
-- are encoded, each within a budget of estimated tokens. The estimate is counted in quarters of a
-- token, so that it is a whole number.
pub mod Budget
pub mod Content
pub mod Document
pub mod Views
pub mod Clauses
mod Tests
use lorelum.Prelude.{
  ℕ, zero, suc, ◌+◌, ◌-◌, ◌≡◌, Bool, true, false, not, ◌&&◌, ◌||◌, Option, none, some, List, [],
  ◌∷◌, ◌++◌, ltb, leb, ◌==◌, if◌then◌else◌, Text, is_space, is_empty, trim, keep,
}

abbrev pub quarters : ℕ
quarters = 4

-- `SEMANTIC_VIEW_MAX_ESTIMATED_TOKENS`, in quarters.
abbrev pub semantic_view_max : ℕ
semantic_view_max = 1536

abbrev pub within : ℕ → ℕ → ℕ → Bool
within a b c = leb a c && leb c b

-- `CJK.test(character)`
unfoldable pub is_cjk : ℕ → Bool
is_cjk c =
    within 12352 12543 c
    || within 13312 19903 c
    || within 19968 40959 c
    || within 63744 64255 c
    || within 44032 55215 c

unfoldable pub character_cost : ℕ → ℕ
unfolding is_cjk
character_cost c = if is_cjk c then 4 else 1

unfoldable pub estimated_tokens : Text → ℕ
unfolding character_cost
estimated_tokens [] = 0
estimated_tokens (c ∷ cs) = character_cost c + estimated_tokens cs

-- What a loop leaves in its buffer goes out trimmed, if anything is left of it.
unfoldable pub push : Text → List Text
push current = let value = trim current in if is_empty value then [] else value ∷ []

unfoldable pub hard_split_from : ℕ → Text → Text → List Text
unfolding push estimated_tokens
hard_split_from maximum buffer [] = push buffer
hard_split_from maximum buffer (c ∷ cs) =
    let grown = buffer ++ c ∷ [] in
    let full = not (is_empty (trim buffer)) && ltb maximum (estimated_tokens grown) in
    let rest = hard_split_from maximum (if full then c ∷ [] else grown) cs in
    if full then trim buffer ∷ rest else rest

unfoldable pub hard_split : Text → ℕ → List Text
unfolding hard_split_from
hard_split text maximum = hard_split_from maximum [] text

-- The full stops, exclamation and question marks, the ideographic ones included.
unfoldable pub ends_sentence : ℕ → Bool
ends_sentence c = c == 46 || c == 33 || c == 63 || c == 12290 || c == 65281 || c == 65311

abbrev pub onto_first : ℕ → List Text → List Text
onto_first c [] = (c ∷ []) ∷ []
onto_first c (t ∷ ts) = (c ∷ t) ∷ ts

-- `text.split` behind each end of a sentence; an empty last piece is dropped by what follows.
unfoldable pub split_sentences : Text → List Text
unfolding ends_sentence
split_sentences [] = [] ∷ []
split_sentences (c ∷ cs) =
    let rest = split_sentences cs in if ends_sentence c then (c ∷ []) ∷ rest else onto_first c rest

unfoldable pub trimmed_parts : List Text → List Text
unfolding push
trimmed_parts [] = []
trimmed_parts (t ∷ ts) = push t ++ trimmed_parts ts

abbrev pub joined : Text → Text → Text
joined current sentence = if is_empty current then sentence else current ++ 32 ∷ sentence

unfoldable pub fill : ℕ → Text → List Text → List Text
unfolding push hard_split estimated_tokens
fill maximum current [] = push current
fill maximum current (sentence ∷ sentences) =
    let long = ltb maximum (estimated_tokens sentence) in
    let next = joined current sentence in
    let over = ltb maximum (estimated_tokens next) in
    let kept = if long then [] else if over then sentence else next in
    let rest = fill maximum kept sentences in
    if long
    then push current ++ hard_split sentence maximum ++ rest
    else if over
    then push current ++ rest
    else rest

unfoldable pub split_by_token_budget : Text → ℕ → List Text
unfolding fill split_sentences trimmed_parts estimated_tokens push
split_by_token_budget text maximum =
    if leb (estimated_tokens (trim text)) maximum
    then push text
    else fill maximum [] (trimmed_parts (split_sentences text))

-- `segments.join(" > ")`
unfoldable pub join_headings : List Text → Text
join_headings [] = []
join_headings (t ∷ []) = t
join_headings (t ∷ u ∷ ts) = t ++ 32 ∷ 62 ∷ 32 ∷ join_headings (u ∷ ts)

-- The loop that drops ancestors while the headings are too long and more than one.
unfoldable pub shortened : ℕ → List Text → List Text
unfolding join_headings estimated_tokens
shortened maximum [] = []
shortened maximum (t ∷ []) = t ∷ []
shortened maximum (t ∷ u ∷ ts) =
    let rest = shortened maximum (u ∷ ts) in
    if ltb maximum (estimated_tokens (join_headings (t ∷ u ∷ ts))) then rest else t ∷ u ∷ ts

abbrev pub first_or_empty : List Text → Text
first_or_empty [] = []
first_or_empty (t ∷ ts) = t

unfoldable pub heading_prefix : List Text → ℕ → Text
unfolding shortened join_headings hard_split estimated_tokens
heading_prefix heading_path maximum =
    let heading = join_headings (shortened maximum heading_path) in
    if ltb maximum (estimated_tokens heading)
    then first_or_empty (hard_split heading maximum)
    else heading

pub record MarkdownUnit : Type 0 where
  pub heading_path : List Text
  pub text : Text

abbrev pub prefix_of : MarkdownUnit → Text
prefix_of unit =
    let heading = heading_prefix unit.heading_path 768 in
    if is_empty heading then [] else heading ++ 10 ∷ 10 ∷ []

abbrev pub prefixed : Text → List Text → List Text
prefixed prefix [] = []
prefixed prefix (part ∷ parts) = (prefix ++ part) ∷ prefixed prefix parts

-- The chunks of one unit of the body.
unfoldable pub unit_chunks : MarkdownUnit → List Text
unfolding heading_prefix split_by_token_budget estimated_tokens
unit_chunks unit =
    let prefix = prefix_of unit in
    prefixed prefix (split_by_token_budget unit.text (semantic_view_max - estimated_tokens prefix))
