-- ===== src/LocalStore/Effective/Build.antt =====
-- When sources can be merged, and what is then in effect.
use lorelum.Prelude.{
  ok_inj, >>=-ok, ◌≡◌, ◌↔◌, refl, sym, ap, ◌∙◌, List, [], ◌∷◌, Bool, true, false, Option, none,
  some, Text, text_eq, text_eq_iff, text_eq_refl, get, get_unlisted, keep, sort, All, All-imp,
  if◌then◌else◌, arith, Bool-cases, inl, inr, ◌⊎◌,
}
use lorelum.LocalStore.Effective.{
  PracticeSource, EffectivePractice, ok, practice_before, or_empty, group_sources, merge_groups,
  build_effective_practices,
}
use lorelum.LocalStore.Effective.Delta.{digest_of, Unique}
use lorelum.LocalStore.Effective.Groups.{
  of_practice, source_digest, IsCoherent, group_digest, Agrees, source_digest-keep,
  get-group_sources, group_sources-Unique, chosen, AllAgree,
}
use lorelum.LocalStore.Effective.MergeGroups.{
  Merged, merge_groups-ok, merge_groups-of-agree, digest_of-sort,
}

abbrev groups_of : List PracticeSource → List (Text × List PracticeSource)
groups_of ss = group_sources [] ss

group_of :
    (id : Text) (ss : List PracticeSource)
    → or_empty (get id (groups_of ss)) ≡ keep (of_practice id) ss
group_of id ss = get-group_sources id [] ss ∙ (unfold get in refl)

module _ (P : PracticeSource → Type 0) (p : PracticeSource → Bool) where
  All-of-keep : (xs : List PracticeSource) → All P (keep p xs) → All (λ x. p x ≡ true → P x) xs
  unfolding keep
  All-of-keep [] h = tt
  All-of-keep (x ∷ xs) h = elim (Bool-cases (p x)) [
    | inl e ↦ let k : P x × All P (keep p xs) = rw e at h in (λ t. k.0, All-of-keep xs k.1)
    | inr e ↦ (λ t. absurd (ground (arith, e)), All-of-keep xs (rw e at h))
  ]

  All-keep : (xs : List PracticeSource) → All (λ x. p x ≡ true → P x) xs → All P (keep p xs)
  unfolding keep
  All-keep [] h = tt
  All-keep (x ∷ xs) (k, h) = elim (Bool-cases (p x)) [
    | inl e ↦ rw e (k e, All-keep xs h)
    | inr e ↦ rw e (All-keep xs h)
  ]

each_own :
    (Q : Text → PracticeSource → Type 0) (xs : List PracticeSource)
    → ((id : Text) → All (λ s. of_practice id s ≡ true → Q id s) xs)
    → All (λ s. Q s.practice_id s) xs
each_own Q [] h = tt
each_own Q (s ∷ xs) h =
    ((h s.practice_id).0 (text_eq_refl s.practice_id), each_own Q xs (λ id. (h id).1))

agree_at :
    (id : Text) (groups : List (Text × List PracticeSource))
    → AllAgree groups
    → Agrees (or_empty (get id groups))
unfolding get
agree_at id [] a = tt
agree_at id ((j, g) ∷ groups) (a, as') = elim (Bool-cases (text_eq j id)) [
  | inl e ↦ rw e a
  | inr e ↦ rw e (agree_at id groups as')
]

agree_of_at :
    (groups : List (Text × List PracticeSource))
    → Unique groups
    → ((id : Text) → Agrees (or_empty (get id groups)))
    → AllAgree groups
unfolding get
agree_of_at [] u h = tt
agree_of_at ((j, g) ∷ groups) (new, u) h = (
  subst_refl (text_eq_refl j) (h j),
  agree_of_at groups u (λ id. tail_at id (Bool-cases (text_eq j id)) (h id)),
)
  where
    subst_refl :
        text_eq j j ≡ true
        → Agrees (or_empty (if text_eq j j then some g else get j groups))
        → Agrees g
    subst_refl e a = rw e at a

    tail_at :
        (id : Text)
        → (text_eq j id ≡ true) ⊎ (text_eq j id ≡ false)
        → Agrees (or_empty (if text_eq j id then some g else get id groups))
        → Agrees (or_empty (get id groups))
    tail_at id (inl e) a = rw (← (text_eq_iff j id).0 e, get_unlisted j groups new) tt
    tail_at id (inr e) a = rw e at a

agree-IsCoherent : (ss : List PracticeSource) → AllAgree (groups_of ss) → IsCoherent ss
agree-IsCoherent ss a = each_own (λ id s. source_digest id ss ≡ some s.content_digest) ss at_id
  where
    at_id :
        (id : Text)
        → All (λ s. of_practice id s ≡ true → source_digest id ss ≡ some s.content_digest) ss
    at_id id =
        All-of-keep (λ s. source_digest id ss ≡ some s.content_digest) (of_practice id) ss
          (rw (source_digest-keep id ss) at (rw (group_of id ss) at (agree_at id (groups_of ss) a)))

coherent_agree : (ss : List PracticeSource) → IsCoherent ss → AllAgree (groups_of ss)
coherent_agree ss c =
    agree_of_at (groups_of ss) (group_sources-Unique [] ss tt) λ id. rw (group_of id ss) (own id)
  where
    own : (id : Text) → Agrees (keep (of_practice id) ss)
    own id = rw (source_digest-keep id ss) (
        All-keep (λ s. source_digest id ss ≡ some s.content_digest) (of_practice id) ss
          (All-imp (λ s. source_digest s.practice_id ss ≡ some s.content_digest) _
            (λ s e k.
              ap (λ (j : Text). source_digest j ss) (sym ((text_eq_iff s.practice_id id).0 k)) ∙ e)
            ss c))

-- Where a merge of sources succeeded, no two of them claim different digests for one practice, and
-- each practice is in effect under the digest that its sources claim, and no other practice.
pub build_effective_practices_ok :
    (ss : List PracticeSource) (ps : List EffectivePractice)
    → build_effective_practices ss ≡ ok ps
    → IsCoherent ss × ((id : Text) → digest_of id ps ≡ source_digest id ss)
unfolding build_effective_practices
build_effective_practices_ok ss ps h =
    let (merged, ran, sorted) = >>=-ok (merge_groups (groups_of ss)) _ h in
    let m = merge_groups-ok (groups_of ss) merged (group_sources-Unique [] ss tt) ran in
    (agree-IsCoherent ss m.agree, λ id. rw (← ok_inj sorted) (digests merged m id))
  where
    digests :
        (merged : List EffectivePractice)
        → Merged (groups_of ss) merged
        → (id : Text) → digest_of id (sort practice_before merged) ≡ source_digest id ss
    digests merged m id =
        unfold digest_of in
        digest_of-sort none id merged m.once
        ∙ m.digests none id
        ∙ from_group (get id (groups_of ss))
        ∙ ap (λ (g : List PracticeSource). group_digest g none) (group_of id ss)
        ∙ source_digest-keep id ss
      where
        from_group :
            (o : Option (List PracticeSource)) → chosen o none ≡ group_digest (or_empty o) none
        from_group none = refl
        from_group (some g) = refl

-- Sources can be merged exactly when no two of them claim different digests for one practice.
pub build_effective_practices_iff :
    (ss : List PracticeSource)
    → ((ps : List EffectivePractice) × (build_effective_practices ss ≡ ok ps)) ↔ IsCoherent ss
build_effective_practices_iff ss = (λ (ps, h). (build_effective_practices_ok ss ps h).0, merge)
  where
    merge : IsCoherent ss → (ps : List EffectivePractice) × (build_effective_practices ss ≡ ok ps)
    merge c =
        let (merged, ran) = merge_groups-of-agree (groups_of ss) (coherent_agree ss c) in
        (sort practice_before merged, unfold build_effective_practices in rw ran refl)
