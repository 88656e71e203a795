-- ===== src/LocalStore/Effective/Merge.antt =====
-- Installing and upgrading: what is in effect after a merge.
use lorelum.Prelude.{
  ok_inj, >>=-ok, ◌≡◌, refl, sym, ap, ◌∙◌, List, [], ◌∷◌, ◌++◌, true, Option, none, some, Text,
  text_eq_iff, text_eq_refl, keep, sort, any, any-append, any-sort, All, All-of-sort, if◌then◌else◌,
  arith, Bool-cases, inl, inr,
}
use lorelum.LocalStore.Effective.{
  PracticeSource, EffectivePractice, PackCandidate, ReconciledPractices, ok, Hashing, assert_all,
  source_before, not_from, check_candidate, build_effective_practices,
  reconcile_effective_practices, reconciled, refuse, replaces_other,
}
use lorelum.LocalStore.Effective.Delta.{digest_of}
use lorelum.LocalStore.Effective.Groups.{of_practice, source_digest, IsCoherent}
use lorelum.LocalStore.Effective.Build.{build_effective_practices_ok}

-- Every source claims the digest that `f` gives for its practice.
abbrev pub Claims : (Text → Option Text) → List PracticeSource → Type 0
Claims f ss = All (λ s. f s.practice_id ≡ some s.content_digest) ss

pub Claims-digest :
    (f : Text → Option Text) (id : Text) (ss : List PracticeSource)
    → Claims f ss
    → source_digest id ss ≡ (if any (of_practice id) ss then f id else none)
unfolding source_digest any
Claims-digest f id [] c = refl
Claims-digest f id (s ∷ ss) (e, c) = elim (Bool-cases (of_practice id s)) [
  | inl hit ↦ rw hit (sym e ∙ ap f ((text_eq_iff s.practice_id id).0 hit))
  | inr miss ↦ rw miss (Claims-digest f id ss c)
]

Claims-within :
    (f : Text → Option Text) (ss xs : List PracticeSource)
    → Claims f ss
    → Claims f xs
    → ((id : Text) → any (of_practice id) xs ≡ true → any (of_practice id) ss ≡ true)
    → All (λ s. source_digest s.practice_id ss ≡ some s.content_digest) xs
unfolding any
Claims-within f ss [] c cx inside = tt
Claims-within f ss (x ∷ xs) c (e, cx) inside = (
  Claims-digest f x.practice_id ss c
      ∙ rw (inside x.practice_id (rw (text_eq_refl x.practice_id))) e,
  Claims-within f ss xs c cx (λ id h. inside id (ground arith)),
)

-- So sources with such an `f` agree with one another.
pub Claims-IsCoherent :
    (f : Text → Option Text) (ss : List PracticeSource) → Claims f ss → IsCoherent ss
Claims-IsCoherent f ss c = Claims-within f ss ss c c (λ id h. h)

pub Claims-of-append :
    (f : Text → Option Text) (xs ys : List PracticeSource)
    → Claims f (xs ++ ys)
    → Claims f xs × Claims f ys
Claims-of-append f [] ys c = (tt, c)
Claims-of-append f (x ∷ xs) ys (e, c) = let (a, b) = Claims-of-append f xs ys c in ((e, a), b)

-- What the merged sources say, by the two parts that they come from.
source_digest-sort-append :
    (id : Text) (retained added : List PracticeSource)
    → IsCoherent (sort source_before (retained ++ added))
    → source_digest id (sort source_before (retained ++ added))
      ≡ (if any (of_practice id) added then source_digest id added else source_digest id retained)
source_digest-sort-append id retained added c =
    let f = λ (j : Text). source_digest j (sort source_before (retained ++ added)) in
    let both : Claims f (retained ++ added) =
      All-of-sort source_before (λ s. f s.practice_id ≡ some s.content_digest) (retained ++ added)
        c in
    let (in_retained, in_added) = Claims-of-append f retained added both in
    Claims-digest f id (sort source_before (retained ++ added)) c
    ∙ ground (
      arith,
      any-sort source_before (of_practice id) (retained ++ added),
      any-append (of_practice id) retained added,
      Claims-digest f id retained in_retained,
      Claims-digest f id added in_added,
    )

-- The steps of a merge that succeeded.
pub record Reconciling (h : Hashing) (existing : List PracticeSource) (candidate : PackCandidate)
    (replace : Option Text) (r : ReconciledPractices) : Type 0 where
  pub previous : List EffectivePractice
  pub next : List EffectivePractice
  pub candidate_valid : assert_all h candidate.sources (some candidate.name) ≡ ok tt
  pub existing_valid : assert_all h existing none ≡ ok tt
  pub built_before : build_effective_practices existing ≡ ok previous
  pub built_after :
      build_effective_practices
        (sort source_before (keep (not_from replace) existing ++ candidate.sources))
      ≡ ok next
  pub result :
      reconciled
        (sort source_before (keep (not_from replace) existing ++ candidate.sources))
        previous
        next
      ≡ r

pub reconcile-Reconciling :
    (h : Hashing) (existing : List PracticeSource) (candidate : PackCandidate)
    (replace : Option Text) (r : ReconciledPractices)
    → reconcile_effective_practices h existing candidate replace ≡ ok r
    → Reconciling h existing candidate replace r
unfolding reconcile_effective_practices
reconcile-Reconciling h existing candidate replace r e =
    let (_, _, e1) = >>=-ok (refuse (replaces_other replace candidate.name) _) _ e in
    let (_, valid, e2) = >>=-ok (assert_all h candidate.sources (some candidate.name)) _ e1 in
    let (_, old_valid, e3) = >>=-ok (assert_all h existing none) _ e2 in
    let (previous, before, e4) = >>=-ok (build_effective_practices existing) _ e3 in
    let (_, _, e5) =
      >>=-ok (check_candidate candidate.name (keep (not_from replace) existing) candidate.sources) _
        e4 in
    let (next, after, e6) =
      >>=-ok
        (build_effective_practices
          (sort source_before (keep (not_from replace) existing ++ candidate.sources)))
        _ e5 in
    record {
      previous = previous;
      next = next;
      candidate_valid = valid;
      existing_valid = old_valid;
      built_before = before;
      built_after = after;
      result = ok_inj e6;
    }

-- After a merge that succeeds, a practice that the candidate claims is in effect with the
-- candidate's digest, any other practice with the digest of the sources that were retained, and the
-- retained sources and the candidate's all agree.
pub reconcile_digests :
    (h : Hashing) (existing : List PracticeSource) (candidate : PackCandidate)
    (replace : Option Text) (r : ReconciledPractices)
    → reconcile_effective_practices h existing candidate replace ≡ ok r
    → IsCoherent r.sources
      × ((id : Text)
          → digest_of id r.effective_practices ≡ (
              if any (of_practice id) candidate.sources
              then source_digest id candidate.sources
              else source_digest id (keep (not_from replace) existing)))
reconcile_digests h existing candidate replace r e =
    let v = reconcile-Reconciling h existing candidate replace r e in
    let (coherent, digests) = build_effective_practices_ok _ v.next v.built_after in
    rw (← v.result) (
      coherent,
      λ id.
          digests id
          ∙ source_digest-sort-append id (keep (not_from replace) existing) candidate.sources
              coherent,
    )
