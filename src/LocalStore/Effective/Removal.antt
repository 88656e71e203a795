-- ===== src/LocalStore/Effective/Removal.antt =====
-- Uninstalling: what stays in effect, and that it undoes an installation.
use lorelum.Prelude.{
  ◌≡◌, refl, ap, ◌∙◌, List, [], ◌∷◌, Bool, true, false, none, some, Text, text_eq_iff, text_lt_asym,
  text_ge_trans, text_lt_irrefl, text_lt_total, keep, sort, any, any-sort, All, All-sort,
  if◌then◌else◌, arith, Bool-cases, inl, inr,
}
use lorelum.LocalStore.Effective.{
  PracticeSource, ReconciledPractices, ok, Hashing, assert_all, source_before, not_from,
  remove_pack_sources, reconciled,
}
use lorelum.LocalStore.Effective.Delta.{digest_of}
use lorelum.LocalStore.Effective.Groups.{of_practice, source_digest, IsCoherent}
use lorelum.LocalStore.Effective.Build.{build_effective_practices_ok, build_effective_practices_iff}
use lorelum.LocalStore.Effective.Merge.{Claims-digest, Claims-IsCoherent}

-- The order of the sources.
pub source_asym : (x y : PracticeSource) → source_before x y ≡ true → source_before y x ≡ false
unfolding source_before
source_asym x y h = ground (
  arith,
  text_lt_asym x.pack_name y.pack_name,
  text_lt_asym x.source_path y.source_path,
  text_eq_iff x.pack_name y.pack_name,
  text_eq_iff y.pack_name x.pack_name,
  text_lt_irrefl x.pack_name,
)

pub source_ge_trans :
    (x y z : PracticeSource)
    → source_before y x ≡ false
    → source_before z y ≡ false
    → source_before z x ≡ false
unfolding source_before
source_ge_trans x y z h k = ground (
  arith,
  text_ge_trans x.pack_name y.pack_name z.pack_name,
  text_ge_trans x.source_path y.source_path z.source_path,
  text_lt_total x.pack_name y.pack_name,
  text_lt_total y.pack_name z.pack_name,
  text_eq_iff y.pack_name x.pack_name,
  text_eq_iff z.pack_name y.pack_name,
  text_eq_iff z.pack_name x.pack_name,
)

-- The sources of the other packs.
abbrev pub others : Text → List PracticeSource → List PracticeSource
others name = keep (not_from (some name))

All-keep :
    (P : PracticeSource → Type 0) (p : PracticeSource → Bool) (xs : List PracticeSource)
    → All P xs
    → All P (keep p xs)
unfolding keep
All-keep P p [] h = tt
All-keep P p (x ∷ xs) (q, h) = elim (Bool-cases (p x)) [
  | inl e ↦ rw e (q, All-keep P p xs h)
  | inr e ↦ rw e (All-keep P p xs h)
]

remaining-IsCoherent :
    (name : Text) (ss : List PracticeSource)
    → IsCoherent ss
    → IsCoherent (sort source_before (others name ss))
remaining-IsCoherent name ss c =
    Claims-IsCoherent (λ id. source_digest id ss) (sort source_before (others name ss))
      (All-sort source_before _ (others name ss) (
        All-keep (λ s. source_digest s.practice_id ss ≡ some s.content_digest)
          (not_from (some name)) ss c))

-- The digest that the remaining sources claim.
remaining_digest :
    (name id : Text) (ss : List PracticeSource)
    → IsCoherent ss
    → source_digest id (sort source_before (others name ss))
      ≡ (if any (of_practice id) (others name ss) then source_digest id ss else none)
remaining_digest name id ss c =
    Claims-digest (λ j. source_digest j ss) id (sort source_before (others name ss))
      (All-sort source_before _ (others name ss) (
        All-keep (λ s. source_digest s.practice_id ss ≡ some s.content_digest)
          (not_from (some name)) ss c))
    ∙ ap (λ b. if b then source_digest id ss else none)
        (any-sort source_before (of_practice id) (others name ss))

-- Removing a Pack from valid sources that agree never fails. A practice is in effect afterwards
-- exactly when a source of another Pack claims it, and then with the digest that it had.
pub remove_pack_sources_lem :
    (h : Hashing) (existing : List PracticeSource) (name : Text)
    → assert_all h existing none ≡ ok tt
    → IsCoherent existing
    → (r : ReconciledPractices) × (remove_pack_sources h existing name ≡ ok r)
      × (r.sources ≡ sort source_before (others name existing))
      × ((id : Text)
          → digest_of id r.effective_practices ≡ (
              if any (of_practice id) (others name existing)
              then source_digest id existing
              else none))
unfolding remove_pack_sources
remove_pack_sources_lem h existing name valid c =
    let (previous, before) = (build_effective_practices_iff existing).1 c in
    let kept = remaining-IsCoherent name existing c in
    let (next, after) =
      (build_effective_practices_iff (sort source_before (others name existing))).1 kept in
    let (_, digests) = build_effective_practices_ok _ next after in
    (
      reconciled (sort source_before (others name existing)) previous next,
      rw (valid, before, after) refl,
      refl,
      λ id. digests id ∙ remaining_digest name id existing c,
    )
