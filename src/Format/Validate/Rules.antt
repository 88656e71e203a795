-- ===== src/Format/Validate/Rules.antt =====
-- What a valid Pack is, and that the validation decides it.
use lorelum.Prelude.{
  ◌==◌, ◌≡◌, ◌↔◌, refl, ◌∙◌, sym, ltb, List, [], ◌∷◌, ◌++◌, Bool, true, false, ◌||◌, ◌&&◌, Option,
  none, some, Text, text_eq, text_eq_iff, get, put, get-put, contains, length, keep, any,
  any-append, All, All-imp, arith, if◌then◌else◌, Bool-cases, inl, inr,
}
use lorelum.Format.Cycle.{Edges, targets, detect_cycles}
use lorelum.Format.Cycle.Graph.{Walk, one, more, IsAcyclic}
use lorelum.Format.Cycle.Total.{detect_cycles_total}
use lorelum.Format.Cycle.Complete.{detect_cycles_complete}
use lorelum.Format.Validate.{
  error, is_level, Issue, Report, Branch, Decision, PackInput, practice_ids, decision_ids, id_set,
  practice_id, decision_id, nexts, next_edges, cycle_issues, reference_stage, advice_stages,
  build_report, validate_parsed_pack,
}
use lorelum.Format.Validate.References.{
  faulty, Distinct, BranchResolves, Resolves, NextKnown, duplicates_iff, decisions_iff,
  contains-id_set, advice-faultless,
}

-- Some branch of the decision `x` goes on at the decision `y`.
abbrev goes_to : Text → Branch → Bool
goes_to y b = elim b.next [ none ↦ false | some n ↦ text_eq n y ]

abbrev leads_to : List Decision → Text → Text → Bool
leads_to [] x y = false
leads_to (d ∷ ds) x y = (text_eq d.id x && any (goes_to y) d.branches) || leads_to ds x y

-- Being led from one decision to another, along one or more branches.
pub data Leads (ds : List Decision) : Text → Text → Type 0 where
  direct : {x y : Text} → leads_to ds x y ≡ true → Leads ds x y
  onward : {x y z : Text} → leads_to ds x y ≡ true → Leads ds y z → Leads ds x z

-- The rules that an author must keep.
pub record IsWellFormed (input : PackInput) : Type 0 where
  pub practices_distinct : Distinct (practice_ids input.practices)
  pub decisions_distinct : Distinct (decision_ids input.decisions)
  pub resolved :
      All (Resolves (practice_ids input.practices) (decision_ids input.decisions)) input.decisions
  pub acyclic : (x : Text) → ¬ Leads input.decisions x x

contains-nexts : (y : Text) (bs : List Branch) → contains y (nexts bs) ≡ any (goes_to y) bs
unfolding contains nexts any
contains-nexts y [] = refl
contains-nexts y (b ∷ bs) = ground (arith, contains-nexts y bs)

leads_to_unlisted :
    (ds : List Decision) (x y : Text)
    → contains x (decision_ids ds) ≡ false
    → leads_to ds x y ≡ false
unfolding contains
leads_to_unlisted [] x y h = refl
leads_to_unlisted (d ∷ ds) x y h = ground (arith, leads_to_unlisted ds x y)

contains-targets-put :
    (k x y : Text) (ts : List Text) (m : Edges)
    → contains y (targets (put k ts m) x)
      ≡ (if text_eq k x then contains y ts else contains y (targets m x))
unfolding targets
contains-targets-put k x y ts m = ground (arith, get-put k x ts m)

contains_of_empty : (y : Text) (ts : List Text) → ltb 0 (length ts) ≡ false → contains y ts ≡ false
unfolding contains
contains_of_empty y [] h = refl
contains_of_empty y (t ∷ ts) h = ground arith

-- The map after one decision: no entry is written where it has no `next`.
abbrev with_decision : Decision → Edges → Edges
with_decision d m = if ltb 0 (length (nexts d.branches)) then put d.id (nexts d.branches) m else m

with_decision_edges :
    (d : Decision) (x y : Text) (m : Edges)
    → (text_eq d.id x ≡ true → contains y (targets m x) ≡ false)
    → contains y (targets (with_decision d m) x)
      ≡ ((text_eq d.id x && any (goes_to y) d.branches) || contains y (targets m x))
with_decision_edges d x y m h = elim (Bool-cases (ltb 0 (length (nexts d.branches)))) [
  | inl has ↦
      rw (has, contains-targets-put d.id x y (nexts d.branches) m, contains-nexts y d.branches)
        (ground (arith, h))
  | inr has_none ↦
      let e : any (goes_to y) d.branches ≡ false =
        sym (contains-nexts y d.branches) ∙ contains_of_empty y (nexts d.branches) has_none in
      rw has_none (ground (arith, e))
]

-- With distinct ids, the map that the loop fills has the edges of the decisions.
next_edges_from :
    (ds : List Decision) (m : Edges) (x y : Text)
    → Distinct (decision_ids ds)
    → (contains x (decision_ids ds) ≡ true → contains y (targets m x) ≡ false)
    → contains y (targets (next_edges m ds) x) ≡ (leads_to ds x y || contains y (targets m x))
unfolding next_edges contains
next_edges_from [] m x y dist h = refl
next_edges_from (d ∷ ds) m x y (new, dist) h =
    next_edges_from ds (with_decision d m) x y dist later ∙ joined
  where
    here :
        contains y (targets (with_decision d m) x)
        ≡ ((text_eq d.id x && any (goes_to y) d.branches) || contains y (targets m x))
    here = with_decision_edges d x y m (λ e. h (ground arith))

    later : contains x (decision_ids ds) ≡ true → contains y (targets (with_decision d m) x) ≡ false
    later k = ground (arith, here, text_eq_iff d.id x, h (ground arith))

    joined :
        (leads_to ds x y || contains y (targets (with_decision d m) x))
        ≡ (leads_to (d ∷ ds) x y || contains y (targets m x))
    joined = ground (arith, here)

edge-eq-leads_to :
    (ds : List Decision) (x y : Text)
    → Distinct (decision_ids ds)
    → contains y (targets (next_edges [] ds) x) ≡ leads_to ds x y
edge-eq-leads_to ds x y dist =
    next_edges_from ds [] x y dist (λ h. unfold targets get contains in refl)
    ∙ (unfold targets get contains in ground arith)

module _ (ds : List Decision) (dist : Distinct (decision_ids ds)) where
  Leads-Walk : {x y : Text} → Leads ds x y → Walk (next_edges [] ds) x y
  Leads-Walk (direct {x = x} {y = y} h) = one (edge-eq-leads_to ds x y dist ∙ h)
  Leads-Walk (onward {x = x} {y = y} h l) = more (edge-eq-leads_to ds x y dist ∙ h) (Leads-Walk l)

  Walk-Leads : {x y : Text} → Walk (next_edges [] ds) x y → Leads ds x y
  Walk-Leads (one {x = x} {y = y} e) = direct (sym (edge-eq-leads_to ds x y dist) ∙ e)
  Walk-Leads (more {x = x} {y = y} e w) =
      onward (sym (edge-eq-leads_to ds x y dist) ∙ e) (Walk-Leads w)

  acyclic_iff : IsAcyclic (next_edges [] ds) ↔ ((x : Text) → ¬ Leads ds x x)
  acyclic_iff = (λ h x l. h x (Leads-Walk l), λ h x w. h x (Walk-Leads w))

none_kept :
    (issues : List Issue)
    → ((length (keep (λ i. is_level i.level error) issues) == 0) ≡ true) ↔ (faulty issues ≡ false)
unfolding keep any
none_kept [] = (λ h. refl, λ h. refl)
none_kept (i ∷ issues) = ground (arith, none_kept issues)

-- A report is valid when no issue is an error.
valid-build_report :
    (issues : List Issue) → ((build_report issues).valid ≡ true) ↔ (faulty issues ≡ false)
unfolding build_report
valid-build_report issues = none_kept issues

cycle_issues_iff : (cs : List (List Text)) → (faulty (cycle_issues cs) ≡ false) ↔ (cs ≡ [])
unfolding cycle_issues any
cycle_issues_iff [] = (λ h. refl, λ h. refl)
cycle_issues_iff (c ∷ cs) = ground arith

-- More known ids resolve no less.
module _ (ps ps' ds ds' : List Text) (f : (x : Text) → contains x ps ≡ true → contains x ps' ≡ true)
    (g : (x : Text) → contains x ds ≡ true → contains x ds' ≡ true) where
  NextKnown-mono : (n : Option Text) → NextKnown ds n → NextKnown ds' n
  NextKnown-mono none h = tt
  NextKnown-mono (some n) h = g n h

  Resolves-mono : (rs : List Decision) → All (Resolves ps ds) rs → All (Resolves ps' ds') rs
  Resolves-mono = All-imp (Resolves ps ds) (Resolves ps' ds') λ d.
      All-imp (BranchResolves ps ds) (BranchResolves ps' ds')
        (λ b h. (All-imp _ _ f b.recommend h.0, NextKnown-mono b.next h.1)) d.branches

All-Resolves :
    (ps ds : List Text) (rs : List Decision)
    → All (Resolves (id_set [] ps) (id_set [] ds)) rs ↔ All (Resolves ps ds) rs
All-Resolves ps ds rs = (
  Resolves-mono (id_set [] ps) ps (id_set [] ds) ds (λ x h. sym (contains-id_set x ps) ∙ h)
      (λ x h. sym (contains-id_set x ds) ∙ h) rs,
  Resolves-mono ps (id_set [] ps) ds (id_set [] ds) (λ x h. contains-id_set x ps ∙ h)
      (λ x h. contains-id_set x ds ∙ h) rs,
)

reference_stage_iff :
    (input : PackInput)
    → (faulty (reference_stage input) ≡ false) ↔ (
        Distinct (practice_ids input.practices)
        × Distinct (decision_ids input.decisions)
        × All
            (Resolves (practice_ids input.practices) (decision_ids input.decisions))
            input.decisions)
unfolding reference_stage
reference_stage_iff input =
    rw (any-append, any-append)
      (ground (
        arith,
        duplicates_iff practice_id (practice_ids input.practices),
        duplicates_iff decision_id (decision_ids input.decisions),
        decisions_iff (id_set [] (practice_ids input.practices))
            (id_set [] (decision_ids input.decisions)) 0 input.decisions,
        All-Resolves (practice_ids input.practices) (decision_ids input.decisions) input.decisions,
      ))

report_iff :
    (input : PackInput) (cs : List (List Text))
    → detect_cycles (next_edges [] input.decisions) ≡ some cs
    → (faulty (reference_stage input ++ (cycle_issues cs ++ advice_stages input)) ≡ false)
      ↔ IsWellFormed input
report_iff input cs ran = rw (any-append, any-append) (to, from)
  where
    quiet : (detect_cycles (next_edges [] input.decisions) ≡ some []) ↔ (cs ≡ [])
    quiet = ground (arith, ran)

    to :
        (faulty (reference_stage input)
            || (faulty (cycle_issues cs) || faulty (advice_stages input)))
          ≡ false
        → IsWellFormed input
    to h =
        let refs = (reference_stage_iff input).0 (ground arith) in
        let no_cycle = quiet.1 ((cycle_issues_iff cs).0 (ground arith)) in
        record {
          practices_distinct = refs.0;
          decisions_distinct = refs.1;
          resolved = refs.2;
          acyclic = (acyclic_iff input.decisions refs.1).0 ((detect_cycles_complete _).0 no_cycle);
        }

    from :
        IsWellFormed input
        → (faulty (reference_stage input)
            || (faulty (cycle_issues cs) || faulty (advice_stages input)))
          ≡ false
    from w =
        let acyclic = (acyclic_iff input.decisions w.decisions_distinct).1 w.acyclic in
        let no_cycle = (cycle_issues_iff cs).1 (quiet.0 ((detect_cycles_complete _).1 acyclic)) in
        ground (
          arith,
          (reference_stage_iff input).1 (w.practices_distinct, w.decisions_distinct, w.resolved),
          no_cycle,
          advice-faultless input,
        )

-- Validation always ends with a report. The report is valid exactly when the practice ids are
-- distinct, the decision ids are distinct, every recommended practice and every next decision
-- exists, and no decision leads back to itself; nothing else, such as a warning, changes that.
pub validate_parsed_pack_decides :
    (input : PackInput)
    → (r : Report) × (validate_parsed_pack input ≡ some r) × ((r.valid ≡ true) ↔ IsWellFormed input)
unfolding validate_parsed_pack
validate_parsed_pack_decides input =
    let (cs, ran) = detect_cycles_total (next_edges [] input.decisions) in
    let issues = reference_stage input ++ (cycle_issues cs ++ advice_stages input) in
    let count = valid-build_report issues in
    let rules = report_iff input cs ran in
    (build_report issues, rw ran, (λ h. rules.0 (count.0 h), λ w. count.1 (rules.1 w)))
