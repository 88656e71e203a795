-- ===== src/LocalStore/Effective/MergeGroups.antt =====
-- Merging all groups.
use lorelum.Prelude.{
  ok_inj, >>=-ok, ◌≡◌, refl, sym, ap, ◌∙◌, List, [], ◌∷◌, ◌++◌, Bool, true, false, Option, some,
  Text, text_eq, text_eq_iff, contains, get, keys, get_unlisted, sort, insert, any, any-append,
  any-sort, All, All-imp, if◌then◌else◌, arith, Bool-cases, inl, inr,
}
use lorelum.LocalStore.Effective.{
  PracticeSource, EffectivePractice, ok, source_before, practice_before, merge_group, merge_groups,
}
use lorelum.LocalStore.Effective.Delta.{digest_of_from, Unique}
use lorelum.LocalStore.Effective.Groups.{
  merge_group-ok, merge_group-of-agree, Agrees-sort, Agrees-of-sort, group_digest-sort, Once,
  digest_of-append, chosen, AllAgree,
}

abbrev pub same_id : Text → EffectivePractice → Bool
same_id x p = text_eq p.practice_id x

Once-append :
    (ps qs : List EffectivePractice)
    → Once ps
    → Once qs
    → All (λ p. any (same_id p.practice_id) qs ≡ false) ps
    → Once (ps ++ qs)
Once-append [] qs o k h = k
Once-append (p ∷ ps) qs (new, o) k (far, h) =
    (any-append (same_id p.practice_id) ps qs ∙ ground (arith, new, far), Once-append ps qs o k h)

all_same_id :
    (id x : Text) (ps : List EffectivePractice)
    → All (λ p. p.practice_id ≡ id) ps
    → any (same_id x) ps ≡ true
    → id ≡ x
unfolding any
all_same_id id x [] h k = absurd (ground arith)
all_same_id id x (p ∷ ps) (e, h) k = elim (Bool-cases (same_id x p)) [
  | inl hit ↦ sym e ∙ (text_eq_iff p.practice_id x).0 hit
  | inr miss ↦ all_same_id id x ps h (rw miss at k)
]

-- What merging all the groups gives.
pub record Merged (groups : List (Text × List PracticeSource)) (ps : List EffectivePractice)
    : Type 0 where
  pub agree : AllAgree groups
  pub digests :
      (found : Option Text) (x : Text) → digest_of_from found x ps ≡ chosen (get x groups) found
  pub once : Once ps
  pub listed : (x : Text) → any (same_id x) ps ≡ true → contains x (keys groups) ≡ true

abbrev sorted_groups : List (Text × List PracticeSource) → List (Text × List PracticeSource)
sorted_groups [] = []
sorted_groups ((id, g) ∷ groups) = (id, sort source_before g) ∷ sorted_groups groups

module _ (id : Text) (g : List PracticeSource) (groups : List (Text × List PracticeSource))
    (first rest : List EffectivePractice) (new : contains id (keys groups) ≡ false)
    (made : merge_group id (sort source_before g) ≡ ok first) (m : Merged groups rest) where
  merged_digest :
      (found : Option Text) (x : Text)
      → digest_of_from found x (first ++ rest) ≡ chosen (get x ((id, g) ∷ groups)) found
  unfolding get
  merged_digest found x =
      let (agrees, digest, ids, one) = merge_group-ok id (sort source_before g) first made in
      let g_agrees = Agrees-of-sort g agrees in
      digest_of-append found x first rest
      ∙ m.digests (digest_of_from found x first) x
      ∙ ground (
        arith,
        digest found x,
        group_digest-sort g found g_agrees,
        text_eq_iff id x,
        get_unlisted id groups new,
      )

  merged_listed :
      (x : Text)
      → any (same_id x) (first ++ rest) ≡ true
      → contains x (keys ((id, g) ∷ groups)) ≡ true
  unfolding contains
  merged_listed x h =
      let (agrees, digest, ids, one) = merge_group-ok id (sort source_before g) first made in
      elim (Bool-cases (any (same_id x) first)) [
        | inl e ↦ ground (arith, (text_eq_iff id x).1 (all_same_id id x first ids e))
        | inr e ↦ ground (arith, m.listed x, any-append (same_id x) first rest)
      ]

  apart : All (λ p. any (same_id p.practice_id) rest ≡ false) first
  apart =
      All-imp (λ p. p.practice_id ≡ id) (λ p. any (same_id p.practice_id) rest ≡ false)
        (λ p e. rw e not_in_rest) first (merge_group-ok id (sort source_before g) first made).2
    where
      not_in_rest : any (same_id id) rest ≡ false
      not_in_rest = ground (arith, m.listed id, new)

  Merged-cons : Merged ((id, g) ∷ groups) (first ++ rest)
  Merged-cons =
      let (agrees, digest, ids, one) = merge_group-ok id (sort source_before g) first made in
      record {
        agree = (Agrees-of-sort g agrees, m.agree);
        digests = merged_digest;
        once = Once-append first rest one m.once apart;
        listed = merged_listed;
      }

pub merge_groups-ok :
    (groups : List (Text × List PracticeSource)) (ps : List EffectivePractice)
    → Unique groups
    → merge_groups groups ≡ ok ps
    → Merged groups ps
unfolding merge_groups
merge_groups-ok [] ps u h = rw (← ok_inj h) (record {
  agree = tt;
  digests = λ found x. unfold digest_of_from get in refl;
  once = tt;
  listed = λ x k. absurd (unfold any in ground arith);
})
merge_groups-ok ((id, g) ∷ groups) ps (new, u) h =
    let (first, made, h1) = >>=-ok (merge_group id (sort source_before g)) _ h in
    let (rest, ran, h2) = >>=-ok (merge_groups groups) _ h1 in
    rw (← ok_inj h2)
      (Merged-cons id g groups first rest new made (merge_groups-ok groups rest u ran))

pub merge_groups-of-agree :
    (groups : List (Text × List PracticeSource))
    → AllAgree groups
    → (ps : List EffectivePractice) × (merge_groups groups ≡ ok ps)
unfolding merge_groups
merge_groups-of-agree [] a = ([], refl)
merge_groups-of-agree ((id, g) ∷ groups) (a, as') =
    let (first, e1) = merge_group-of-agree id (sort source_before g) (Agrees-sort g a) in
    let (rest, e2) = merge_groups-of-agree groups as' in (first ++ rest, rw (e1, e2) refl)

digest_of-insert :
    (found : Option Text) (x : Text) (p : EffectivePractice) (ps : List EffectivePractice)
    → any (same_id p.practice_id) ps ≡ false
    → digest_of_from found x (insert practice_before p ps) ≡ digest_of_from found x (p ∷ ps)
unfolding digest_of_from insert any
digest_of-insert found x p [] h = refl
digest_of-insert found x p (q ∷ ps) h = elim (Bool-cases (practice_before q p)) [
  | inl e ↦ rw e (
      digest_of-insert (if same_id x q then some q.content_digest else found) x p ps (ground arith)
      ∙ ap (λ (o : Option Text). digest_of_from o x ps) swapped)
  | inr e ↦ rw e refl
]
  where
    swapped :
        (if same_id x p
          then some p.content_digest
          else if same_id x q
          then some q.content_digest
          else found)
        ≡ (if same_id x q
            then some q.content_digest
            else if same_id x p
            then some p.content_digest
            else found)
    swapped = ground (
      arith,
      text_eq_iff p.practice_id x,
      text_eq_iff q.practice_id x,
      text_eq_iff q.practice_id p.practice_id,
    )

pub digest_of-sort :
    (found : Option Text) (x : Text) (ps : List EffectivePractice)
    → Once ps
    → digest_of_from found x (sort practice_before ps) ≡ digest_of_from found x ps
unfolding sort digest_of_from
digest_of-sort found x [] o = refl
digest_of-sort found x (p ∷ ps) (new, o) =
    digest_of-insert found x p (sort practice_before ps)
      (any-sort practice_before (same_id p.practice_id) ps ∙ new)
    ∙ digest_of-sort (if same_id x p then some p.content_digest else found) x ps o
