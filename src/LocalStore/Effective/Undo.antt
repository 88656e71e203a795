-- ===== src/LocalStore/Effective/Undo.antt =====
-- Uninstalling a Pack undoes its installation.
use mathlib.Core.List.{append-nil}
use lorelum.Prelude.{
  >>=-ok, ◌≡◌, refl, sym, ap, subst, ◌∙◌, List, [], ◌∷◌, ◌++◌, Bool, true, false, Option, none,
  some, Text, keep, keep-append, keep-sort, sort, any, any-sort, All, All-imp, All-append, All-sort,
  All-of-sort, sort_of_Sorted, sort-Sorted, if◌then◌else◌,
}
use lorelum.LocalStore.Effective.{
  MergeError, PracticeSource, PackCandidate, ReconciledPractices, ok, Hashing, assert_valid_source,
  assert_all, source_before, not_from, differs_from, reconcile_effective_practices,
  remove_pack_sources, refuse,
}
use lorelum.LocalStore.Effective.Delta.{digest_of}
use lorelum.LocalStore.Effective.Groups.{of_practice, source_digest}
use lorelum.LocalStore.Effective.Merge.{
  Claims, Claims-digest, Claims-of-append, Reconciling, reconcile-Reconciling, reconcile_digests,
}
use lorelum.LocalStore.Effective.Removal.{
  others, source_asym, source_ge_trans, remove_pack_sources_lem,
}

refuse-ok : (b : Bool) (e : MergeError) → refuse b e ≡ ok tt → b ≡ false
refuse-ok true e h = cc
refuse-ok false e h = refl

module _ (h : Hashing) where
  assert_all-All :
      (ss : List PracticeSource) (expected : Option Text)
      → assert_all h ss expected ≡ ok tt
      → All (λ s. assert_valid_source h s expected ≡ ok tt) ss
  unfolding assert_all
  assert_all-All [] expected e = tt
  assert_all-All (s ∷ ss) expected e =
      let (u, first, rest) = >>=-ok (assert_valid_source h s expected) _ e in
      (first, assert_all-All ss expected rest)

  All-assert_all :
      (ss : List PracticeSource) (expected : Option Text)
      → All (λ s. assert_valid_source h s expected ≡ ok tt) ss
      → assert_all h ss expected ≡ ok tt
  unfolding assert_all
  All-assert_all [] expected e = refl
  All-assert_all (s ∷ ss) expected (e, es) = rw e (All-assert_all ss expected es)

  -- A source of the expected Pack is valid wherever it stands.
  assert_valid_anywhere :
      (name : Text) (s : PracticeSource)
      → assert_valid_source h s (some name) ≡ ok tt
      → (assert_valid_source h s none ≡ ok tt) × (not_from (some name) s ≡ false)
  unfolding assert_valid_source
  assert_valid_anywhere name s e =
      let (u, same, rest) = >>=-ok (refuse (differs_from (some name) s) _) _ e in
      (rest, refuse-ok _ _ same)

  keep-none : (ss : List PracticeSource) → keep (not_from none) ss ≡ ss
  unfolding keep
  keep-none [] = refl
  keep-none (s ∷ ss) = ap (◌∷◌ s) (keep-none ss)

  others_of_pack :
      (name : Text) (ss : List PracticeSource)
      → All (λ s. assert_valid_source h s (some name) ≡ ok tt) ss
      → others name ss ≡ []
  unfolding keep
  others_of_pack name [] e = refl
  others_of_pack name (s ∷ ss) (e, es) =
      rw (assert_valid_anywhere name s e).1 (others_of_pack name ss es)

  -- What a removal keeps of the merged sources.
  others_of_merge :
      (existing : List PracticeSource) (candidate : PackCandidate)
      → All (λ s. assert_valid_source h s (some candidate.name) ≡ ok tt) candidate.sources
      → others candidate.name existing ≡ existing
      → others candidate.name
          (sort source_before (keep (not_from none) existing ++ candidate.sources))
        ≡ sort source_before existing
  others_of_merge existing candidate valid absent =
      keep-sort source_before source_asym source_ge_trans (not_from (some candidate.name))
        (keep (not_from none) existing ++ candidate.sources)
      ∙ ap (sort source_before) (
          rw (keep-none existing) (
            keep-append (not_from (some candidate.name)) existing candidate.sources
            ∙ rw (absent, others_of_pack candidate.name candidate.sources valid)
                (append-nil existing)))

-- Where the merge of a Pack that no existing source comes from succeeded, its removal succeeds, leaves
-- the sources that were there before, in order, and puts every practice in effect with the digest
-- that those sources claim.
pub remove-reconcile :
    (h : Hashing) (existing : List PracticeSource) (candidate : PackCandidate)
    (r : ReconciledPractices)
    → others candidate.name existing ≡ existing
    → reconcile_effective_practices h existing candidate none ≡ ok r
    → (r' : ReconciledPractices) × (remove_pack_sources h r.sources candidate.name ≡ ok r')
      × (r'.sources ≡ sort source_before existing)
      × ((id : Text) → digest_of id r'.effective_practices ≡ source_digest id existing)
remove-reconcile h existing candidate r absent e =
    let (r', removed, left, digests) =
      remove_pack_sources_lem h r.sources candidate.name all_valid
        (reconcile_digests h existing candidate none r e).0 in
    (
      r',
      removed,
      left
          ∙ ap (sort source_before) kept
          ∙ sort_of_Sorted source_before source_asym source_ge_trans (sort source_before existing)
              (sort-Sorted source_before source_asym source_ge_trans existing),
      λ id. digests id ∙ same id,
    )
  where
    v : Reconciling h existing candidate none r
    v = reconcile-Reconciling h existing candidate none r e

    merged : List PracticeSource
    merged = sort source_before (keep (not_from none) existing ++ candidate.sources)

    sources : r.sources ≡ merged
    sources = rw (← v.result) refl

    own : All (λ s. assert_valid_source h s (some candidate.name) ≡ ok tt) candidate.sources
    own = assert_all-All h candidate.sources (some candidate.name) v.candidate_valid

    kept : others candidate.name r.sources ≡ sort source_before existing
    kept = ap (others candidate.name) sources ∙ others_of_merge h existing candidate own absent

    all_valid : assert_all h r.sources none ≡ ok tt
    all_valid = rw sources (
        All-assert_all h merged none (
          All-sort source_before _ (keep (not_from none) existing ++ candidate.sources) (
            All-append _ (keep (not_from none) existing) candidate.sources
              (rw (keep-none h existing) (assert_all-All h existing none v.existing_valid))
              (All-imp _ _ (λ s k. (assert_valid_anywhere h candidate.name s k).0) candidate.sources
                own))))

    f : Text → Option Text
    f id = source_digest id r.sources

    agree : Claims f existing
    agree =
        rw (keep-none h existing) at
          (Claims-of-append f (keep (not_from none) existing) candidate.sources (
            All-of-sort source_before _ (keep (not_from none) existing ++ candidate.sources)
              (subst (Claims f) sources (reconcile_digests h existing candidate none r e).0))).0

    same :
        (id : Text)
        → (if any (of_practice id) (others candidate.name r.sources) then f id else none)
          ≡ source_digest id existing
    same id = rw kept (
        rw (any-sort source_before (of_practice id) existing)
          (sym (Claims-digest f id existing agree)))
