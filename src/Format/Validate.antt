-- ===== src/Format/Validate.antt =====
-- packages/format/src/validate/validate.ts, the stages after the format gate, and report.ts.
-- An issue keeps its level, its code and its location; the text of its message is left out.
pub mod References
pub mod Rules
mod Tests
use mathlib.Core.Option
use lorelum.Prelude.{
  is_space, ℕ, suc, ◌+◌, ◌==◌, ltb, leb, List, [], ◌∷◌, ◌++◌, map, Bool, true, false, not, ◌||◌,
  ◌&&◌, Option, none, some, Text, text_eq, get, put, add, contains, length, keep, all,
  if◌then◌else◌,
}
use lorelum.Format.Cycle.{Edges, detect_cycles}

pub data Level : Type 0 where
  error warning info : Level

pub data Code : Type 0 where
  duplicate_id dangling_ref cycle depends_on_ignored missing_severity applies_when_too_short : Code
  empty_guidance similar_practice small_pack : Code

-- The dot paths that the stages write, with their indices.
pub data Location : Type 0 where
  practice_id decision_id severity applies_when body title : ℕ → Location
  recommend next : ℕ → ℕ → Location
  decisions depends_on practices : Location

pub record Issue : Type 0 where
  pub level : Level
  pub code : Code
  pub path : Location

abbrev pub issue : Level → Code → Location → Issue
issue l c p = record { level = l; code = c; path = p }

pub record Report : Type 0 where
  pub valid : Bool
  pub errors : List Issue
  pub warnings : List Issue
  pub infos : List Issue

abbrev pub is_level : Level → Level → Bool
is_level error error = true
is_level warning warning = true
is_level info info = true
is_level _ _ = false

pub build_report : List Issue → Report
build_report issues = record {
  valid = length (keep (λ i. is_level i.level error) issues) == 0;
  errors = keep (λ i. is_level i.level error) issues;
  warnings = keep (λ i. is_level i.level warning) issues;
  infos = keep (λ i. is_level i.level info) issues;
}

-- The fields of a Pack, a Practice and a Decision that the stages read. A severity is only
-- looked at for being there.
pub record Practice : Type 0 where
  pub id : Text
  pub title : Text
  pub applies_when : Text
  pub severity : Option Text
  pub body : Option Text

pub record Branch : Type 0 where
  pub recommend : List Text
  pub next : Option Text

pub record Decision : Type 0 where
  pub id : Text
  pub branches : List Branch

pub record PackInput : Type 0 where
  pub depends_on : Option (List Text)
  pub practices : List Practice
  pub decisions : List Decision

abbrev pub practice_ids : List Practice → List Text
practice_ids [] = []
practice_ids (p ∷ ps) = p.id ∷ practice_ids ps

abbrev pub decision_ids : List Decision → List Text
decision_ids [] = []
decision_ids (d ∷ ds) = d.id ∷ decision_ids ds

-- Stage 2: the loop over one kind of ids, with the set of those seen so far.
pub duplicates : (ℕ → Location) → ℕ → List Text → List Text → List Issue
duplicates at i seen [] = []
duplicates at i seen (id ∷ ids) =
    if contains id seen
    then issue error duplicate_id (at i) ∷ duplicates at (i + 1) seen ids
    else duplicates at (i + 1) (add id seen) ids

-- The set that the loop leaves.
pub id_set : List Text → List Text → List Text
id_set seen [] = seen
id_set seen (id ∷ ids) = id_set (if contains id seen then seen else add id seen) ids

pub recommend_issues : List Text → ℕ → ℕ → List Text → List Issue
recommend_issues known i bi [] = []
recommend_issues known i bi (r ∷ rs) =
    (if contains r known then [] else issue error dangling_ref (recommend i bi) ∷ [])
    ++ recommend_issues known i bi rs

pub next_issues : List Text → ℕ → ℕ → Option Text → List Issue
next_issues known i bi none = []
next_issues known i bi (some n) =
    if contains n known then [] else issue error dangling_ref (next i bi) ∷ []

pub branch_issues : List Text → List Text → ℕ → ℕ → List Branch → List Issue
branch_issues pids dids i bi [] = []
branch_issues pids dids i bi (b ∷ bs) =
    recommend_issues pids i bi b.recommend
    ++ (next_issues dids i bi b.next ++ branch_issues pids dids i (bi + 1) bs)

pub decision_issues : List Text → List Text → ℕ → List Decision → List Issue
decision_issues pids dids i [] = []
decision_issues pids dids i (d ∷ ds) =
    branch_issues pids dids i 0 d.branches ++ decision_issues pids dids (i + 1) ds

-- Stage 3: the `next` edges of the decisions that have some.
pub nexts : List Branch → List Text
nexts [] = []
nexts (b ∷ bs) = elim b.next [ none ↦ nexts bs | some n ↦ n ∷ nexts bs ]

pub next_edges : Edges → List Decision → Edges
next_edges edges [] = edges
next_edges edges (d ∷ ds) =
    next_edges
      (if ltb 0 (length (nexts d.branches)) then put d.id (nexts d.branches) edges else edges) ds

pub cycle_issues : List (List Text) → List Issue
cycle_issues [] = []
cycle_issues (c ∷ cs) = issue error cycle decisions ∷ cycle_issues cs

-- Stage 4: warnings.
pub depends_on_issues : Option (List Text) → List Issue
depends_on_issues none = []
depends_on_issues (some names) =
    if ltb 0 (length names) then issue warning depends_on_ignored depends_on ∷ [] else []

-- `body.trim() === ""`
pub is_blank : Option Text → Bool
is_blank none = true
is_blank (some text) = all is_space text

pub no_severity : Option Text → Bool
no_severity none = true
no_severity (some s) = false

pub warnings_for : ℕ → Practice → List Issue
warnings_for i p =
    (if no_severity p.severity then issue warning missing_severity (severity i) ∷ [] else [])
    ++ ((if ltb (length p.applies_when) 10
          then issue warning applies_when_too_short (applies_when i) ∷ []
          else [])
        ++ (if is_blank p.body then issue warning empty_guidance (body i) ∷ [] else []))

pub practice_warnings : ℕ → List Practice → List Issue
practice_warnings i [] = []
practice_warnings i (p ∷ ps) = warnings_for i p ++ practice_warnings (i + 1) ps

-- Stage 5: infos. The map keeps the first index of each title.
pub title_infos : ℕ → List (Text × ℕ) → List Practice → List Issue
title_infos i titles [] = []
title_infos i titles (p ∷ ps) = elim (get p.title titles) [
  | some prev ↦ issue info similar_practice (title i) ∷ title_infos (i + 1) titles ps
  | none ↦ title_infos (i + 1) (put p.title i titles) ps
]

pub small_pack_infos : List Practice → List Issue
small_pack_infos ps = if ltb (length ps) 3 then issue info small_pack practices ∷ [] else []

pub reference_stage : PackInput → List Issue
reference_stage input =
    duplicates practice_id 0 [] (practice_ids input.practices)
    ++ (duplicates decision_id 0 [] (decision_ids input.decisions)
        ++ decision_issues (id_set [] (practice_ids input.practices))
            (id_set [] (decision_ids input.decisions)) 0 input.decisions)

pub advice_stages : PackInput → List Issue
advice_stages input =
    depends_on_issues input.depends_on
    ++ (practice_warnings 0 input.practices
        ++ (title_infos 0 [] input.practices ++ small_pack_infos input.practices))

-- `none` would mean that the cycle detection ran out of fuel.
unfoldable pub validate_parsed_pack : PackInput → Option Report
unfolding build_report reference_stage advice_stages duplicates id_set decision_issues branch_issues
    recommend_issues next_issues next_edges nexts cycle_issues depends_on_issues practice_warnings
    warnings_for is_blank is_space no_severity title_infos small_pack_infos
validate_parsed_pack input =
    Option.map
      (λ cycles.
        build_report (reference_stage input ++ (cycle_issues cycles ++ advice_stages input)))
      (detect_cycles (next_edges [] input.decisions))
