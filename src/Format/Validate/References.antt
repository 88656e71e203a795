-- ===== src/Format/Validate/References.antt =====
-- Stage by stage: which inputs bring no error.
use lorelum.Prelude.{
  ℕ, ◌+◌, ◌≡◌, ◌↔◌, refl, List, [], ◌∷◌, Bool, true, false, ◌||◌, Option, none, some, Text,
  text_eq_iff, text_eq_refl, put, add, contains, contains-add, any, any-append, All, arith,
  Bool-cases, inl, inr,
}
use lorelum.Format.Validate.{
  error, is_level, Issue, Location, Practice, Branch, Decision, PackInput, duplicates, id_set,
  recommend_issues, next_issues, branch_issues, decision_issues, depends_on_issues,
  practice_warnings, warnings_for, title_infos, small_pack_infos, advice_stages,
}

-- Some issue is an error.
abbrev pub faulty : List Issue → Bool
faulty issues = any (λ i. is_level i.level error) issues

-- No text twice.
abbrev pub Distinct : List Text → Type 0
Distinct [] = Unit
Distinct (x ∷ xs) = (contains x xs ≡ false) × Distinct xs

abbrev Apart : List Text → List Text → Type 0
Apart seen ids = All (λ x. contains x seen ≡ false) ids

Apart-add :
    (x : Text) (seen ids : List Text)
    → contains x ids ≡ false
    → Apart seen ids
    → Apart (add x seen) ids
unfolding contains
Apart-add x seen [] h k = tt
Apart-add x seen (y ∷ ids) h (k, ks) = (
  ground (arith, contains-add x y seen, text_eq_iff x y, text_eq_refl y),
  Apart-add x seen ids (ground arith) ks,
)

Apart-of-add :
    (x : Text) (seen ids : List Text)
    → Apart (add x seen) ids
    → Apart seen ids × (contains x ids ≡ false)
unfolding contains
Apart-of-add x seen [] h = (tt, refl)
Apart-of-add x seen (y ∷ ids) (h, hs) =
    let (ks, n) = Apart-of-add x seen ids hs in
    (
      (ground (arith, contains-add x y seen), ks),
      ground (arith, contains-add x y seen, text_eq_iff x y, text_eq_iff y x),
    )

duplicates-none :
    (at : ℕ → Location) (i : ℕ) (seen ids : List Text)
    → Distinct ids
    → Apart seen ids
    → faulty (duplicates at i seen ids) ≡ false
unfolding duplicates any
duplicates-none at i seen [] d h = refl
duplicates-none at i seen (x ∷ ids) (new, d) (h, hs) =
    rw h (duplicates-none at (i + 1) (add x seen) ids d (Apart-add x seen ids new hs))

duplicates-Distinct :
    (at : ℕ → Location) (i : ℕ) (seen ids : List Text)
    → faulty (duplicates at i seen ids) ≡ false
    → Distinct ids × Apart seen ids
unfolding duplicates any
duplicates-Distinct at i seen [] h = (tt, tt)
duplicates-Distinct at i seen (x ∷ ids) h = elim (Bool-cases (contains x seen)) [
  | inl old ↦ absurd (ground arith)
  | inr new ↦
      let (d, apart) = duplicates-Distinct at (i + 1) (add x seen) ids (rw new at h) in
      let (apart', fresh) = Apart-of-add x seen ids apart in ((fresh, d), (new, apart'))
]

pub duplicates_iff :
    (at : ℕ → Location) (ids : List Text) → (faulty (duplicates at 0 [] ids) ≡ false) ↔ Distinct ids
duplicates_iff at ids = (
  λ h. (duplicates-Distinct at 0 [] ids h).0,
  λ d. duplicates-none at 0 [] ids d (nothing_seen ids),
)
  where
    nothing_seen : (ids : List Text) → Apart [] ids
    nothing_seen [] = tt
    nothing_seen (x ∷ xs) = (unfold contains in refl, nothing_seen xs)

contains-id_set_from :
    (x : Text) (seen ids : List Text)
    → contains x (id_set seen ids) ≡ (contains x seen || contains x ids)
unfolding id_set contains
contains-id_set_from x seen [] = ground arith
contains-id_set_from x seen (y ∷ ids) = elim (Bool-cases (contains y seen)) [
  | inl old ↦ rw old (ground (arith, contains-id_set_from x seen ids, text_eq_iff y x))
  | inr new ↦
      rw new (ground (arith, contains-id_set_from x (add y seen) ids, contains-add y x seen))
]

-- The set that a loop collects has exactly the listed ids.
pub contains-id_set : (x : Text) (ids : List Text) → contains x (id_set [] ids) ≡ contains x ids
contains-id_set x ids = unfold contains in contains-id_set_from x [] ids

-- Every id that a branch names is known.
abbrev pub NextKnown : List Text → Option Text → Type 0
NextKnown known none = Unit
NextKnown known (some n) = contains n known ≡ true

abbrev pub BranchResolves : List Text → List Text → Branch → Type 0
BranchResolves pids dids b = All (λ r. contains r pids ≡ true) b.recommend × NextKnown dids b.next

abbrev pub Resolves : List Text → List Text → Decision → Type 0
Resolves pids dids d = All (BranchResolves pids dids) d.branches

recommend_iff :
    (known : List Text) (i bi : ℕ) (rs : List Text)
    → (faulty (recommend_issues known i bi rs) ≡ false) ↔ All (λ r. contains r known ≡ true) rs
unfolding recommend_issues any
recommend_iff known i bi [] = (λ h. tt, λ h. refl)
recommend_iff known i bi (r ∷ rs) = ground (arith, recommend_iff known i bi rs)

next_iff :
    (known : List Text) (i bi : ℕ) (n : Option Text)
    → (faulty (next_issues known i bi n) ≡ false) ↔ NextKnown known n
unfolding next_issues any
next_iff known i bi none = (λ h. tt, λ h. refl)
next_iff known i bi (some n) = ground arith

branches_iff :
    (pids dids : List Text) (i bi : ℕ) (bs : List Branch)
    → (faulty (branch_issues pids dids i bi bs) ≡ false) ↔ All (BranchResolves pids dids) bs
unfolding branch_issues
branches_iff pids dids i bi [] = (λ h. tt, λ h. unfold any in refl)
branches_iff pids dids i bi (b ∷ bs) =
    rw (any-append, any-append)
      (ground (
        arith,
        recommend_iff pids i bi b.recommend,
        next_iff dids i bi b.next,
        branches_iff pids dids i (bi + 1) bs,
      ))

pub decisions_iff :
    (pids dids : List Text) (i : ℕ) (ds : List Decision)
    → (faulty (decision_issues pids dids i ds) ≡ false) ↔ All (Resolves pids dids) ds
unfolding decision_issues
decisions_iff pids dids i [] = (λ h. tt, λ h. unfold any in refl)
decisions_iff pids dids i (d ∷ ds) =
    rw any-append
      (ground (arith, branches_iff pids dids i 0 d.branches, decisions_iff pids dids (i + 1) ds))

-- Warnings and infos are no errors.
warnings_for-faultless : (i : ℕ) (p : Practice) → faulty (warnings_for i p) ≡ false
unfolding warnings_for any
warnings_for-faultless i p = ground arith

practice_warnings-faultless : (i : ℕ) (ps : List Practice) → faulty (practice_warnings i ps) ≡ false
unfolding practice_warnings any
practice_warnings-faultless i [] = refl
practice_warnings-faultless i (p ∷ ps) =
    rw (any-append, warnings_for-faultless i p) (practice_warnings-faultless (i + 1) ps)

title_infos-faultless :
    (i : ℕ) (titles : List (Text × ℕ)) (ps : List Practice)
    → faulty (title_infos i titles ps) ≡ false
unfolding title_infos any
title_infos-faultless i titles [] = refl
title_infos-faultless i titles (p ∷ ps) = ground (
  arith,
  title_infos-faultless (i + 1) titles ps,
  title_infos-faultless (i + 1) (put p.title i titles) ps,
)

pub advice-faultless : (input : PackInput) → faulty (advice_stages input) ≡ false
unfolding advice_stages
advice-faultless input =
    rw (any-append, any-append, any-append)
      (unfold depends_on_issues small_pack_infos any in
        ground (
          arith,
          practice_warnings-faultless 0 input.practices,
          title_infos-faultless 0 [] input.practices,
        ))
