-- ===== src/LocalStore/Effective/Groups.antt =====
-- Grouping the sources by practice, and merging one group.
use mathlib.Core.List.{append-nil, append_assoc}
use lorelum.Prelude.{
  ok_inj, >>=-ok, ◌≡◌, refl, sym, ap, ◌∙◌, List, [], ◌∷◌, ◌++◌, Bool, true, false, Option, none,
  some, Text, text_eq, text_eq_iff, get, put, get-put, keep, sort, any, any-sort, All, All-imp,
  All-sort, All-of-sort, if◌then◌else◌, arith, Bool-cases, inl, inr, ◌⊎◌, some_inj,
}
use lorelum.LocalStore.Effective.{
  PracticeSource, EffectivePractice, ok, source_before, or_empty, group_sources, check_group,
  effective_of, merge_group,
}
use lorelum.LocalStore.Effective.Delta.{digest_of_from, Unique, put-Unique}

abbrev pub of_practice : Text → PracticeSource → Bool
of_practice id s = text_eq s.practice_id id

-- The digest that the first source of a practice claims.
unfoldable pub source_digest : Text → List PracticeSource → Option Text
source_digest id [] = none
source_digest id (s ∷ ss) = if of_practice id s then some s.content_digest else source_digest id ss

-- All sources of a practice claim one digest.
abbrev pub IsCoherent : List PracticeSource → Type 0
IsCoherent ss = All (λ s. source_digest s.practice_id ss ≡ some s.content_digest) ss

-- The digest of a group: that of its first source, or else `found`.
abbrev pub group_digest : List PracticeSource → Option Text → Option Text
group_digest [] found = found
group_digest (s ∷ ss) found = some s.content_digest

abbrev pub Agrees : List PracticeSource → Type 0
Agrees g = All (λ s. group_digest g none ≡ some s.content_digest) g

pub source_digest-keep :
    (id : Text) (ss : List PracticeSource)
    → group_digest (keep (of_practice id) ss) none ≡ source_digest id ss
unfolding source_digest keep
source_digest-keep id [] = refl
source_digest-keep id (s ∷ ss) = ground (arith, source_digest-keep id ss)

-- A group holds the sources of its practice.
pub get-group_sources :
    (id : Text) (groups : List (Text × List PracticeSource)) (ss : List PracticeSource)
    → or_empty (get id (group_sources groups ss))
      ≡ or_empty (get id groups) ++ keep (of_practice id) ss
unfolding group_sources keep
get-group_sources id groups [] = sym (append-nil _)
get-group_sources id groups (s ∷ ss) =
    get-group_sources id (put s.practice_id (or_empty (get s.practice_id groups) ++ s ∷ []) groups)
      ss
    ∙ here (Bool-cases (of_practice id s))
  where
    here :
        (of_practice id s ≡ true) ⊎ (of_practice id s ≡ false)
        → or_empty
              (get id (put s.practice_id (or_empty (get s.practice_id groups) ++ s ∷ []) groups))
            ++ keep (of_practice id) ss
          ≡ or_empty (get id groups)
            ++ (if of_practice id s then s ∷ keep (of_practice id) ss else keep (of_practice id) ss)
    here (inl e) =
        rw (get-put s.practice_id id (or_empty (get s.practice_id groups) ++ s ∷ []) groups, e)
          (append_assoc (or_empty (get s.practice_id groups)) (s ∷ []) (keep (of_practice id) ss)
            ∙ ap (λ (k : Text). or_empty (get k groups) ++ s ∷ keep (of_practice id) ss)
                ((text_eq_iff s.practice_id id).0 e))
    here (inr e) =
        rw (get-put s.practice_id id (or_empty (get s.practice_id groups) ++ s ∷ []) groups, e) refl

pub group_sources-Unique :
    (groups : List (Text × List PracticeSource)) (ss : List PracticeSource)
    → Unique groups
    → Unique (group_sources groups ss)
unfolding group_sources
group_sources-Unique groups [] u = u
group_sources-Unique groups (s ∷ ss) u =
    group_sources-Unique (put s.practice_id (or_empty (get s.practice_id groups) ++ s ∷ []) groups)
      ss (put-Unique s.practice_id _ groups u)

check_group-ok :
    (id : Text) (primary : PracticeSource) (ss : List PracticeSource)
    → check_group id primary ss ≡ ok tt
    → All (λ s. some primary.content_digest ≡ some s.content_digest) ss
unfolding check_group
check_group-ok id primary [] h = tt
check_group-ok id primary (s ∷ ss) h =
    elim (Bool-cases (text_eq s.content_digest primary.content_digest)) [
      | inl e ↦ (
        ap some (sym ((text_eq_iff s.content_digest primary.content_digest).0 e)),
        check_group-ok id primary ss (rw e at h),
      )
      | inr e ↦ absurd (ground arith)
    ]

check_group-of-agree :
    (id : Text) (primary : PracticeSource) (ss : List PracticeSource)
    → All (λ s. some primary.content_digest ≡ some s.content_digest) ss
    → check_group id primary ss ≡ ok tt
unfolding check_group
check_group-of-agree id primary [] h = refl
check_group-of-agree id primary (s ∷ ss) (e, h) =
    let same : text_eq s.content_digest primary.content_digest ≡ true =
      (text_eq_iff s.content_digest primary.content_digest).1 (sym (some_inj e)) in
    rw same (check_group-of-agree id primary ss h)

-- Agreement does not depend on the order.
pub Agrees-one :
    (d : Option Text) (g : List PracticeSource) → All (λ s. d ≡ some s.content_digest) g → Agrees g
Agrees-one d [] h = tt
Agrees-one d (s ∷ g) h =
    All-imp (λ t. d ≡ some t.content_digest) (λ t. some s.content_digest ≡ some t.content_digest)
      (λ t e. sym h.0 ∙ e) (s ∷ g) h

pub Agrees-sort : (g : List PracticeSource) → Agrees g → Agrees (sort source_before g)
Agrees-sort g a =
    Agrees-one (group_digest g none) (sort source_before g) (All-sort source_before _ g a)

pub Agrees-of-sort : (g : List PracticeSource) → Agrees (sort source_before g) → Agrees g
Agrees-of-sort g a =
    Agrees-one (group_digest (sort source_before g) none) g (All-of-sort source_before _ g a)

pub group_digest-sort :
    (g : List PracticeSource) (found : Option Text)
    → Agrees g
    → group_digest (sort source_before g) found ≡ group_digest g found
group_digest-sort [] found a = unfold sort in refl
group_digest-sort (s ∷ g) found a =
    first (sort source_before (s ∷ g)) (All-sort source_before _ (s ∷ g) a) has
  where
    has : any (λ t. true) (sort source_before (s ∷ g)) ≡ true
    has = any-sort source_before (λ t. true) (s ∷ g) ∙ (unfold any in refl)

    first :
        (xs : List PracticeSource)
        → All (λ t. some s.content_digest ≡ some t.content_digest) xs
        → any (λ t. true) xs ≡ true
        → group_digest xs found ≡ some s.content_digest
    first [] h k = absurd (unfold any in ground arith)
    first (t ∷ xs) (e, h) k = sym e

-- No practice id twice.
abbrev pub Once : List EffectivePractice → Type 0
Once [] = Unit
Once (p ∷ ps) = (any (λ q. text_eq q.practice_id p.practice_id) ps ≡ false) × Once ps

-- One group: it is merged exactly when it agrees, into at most one effective practice.
pub merge_group-ok :
    (id : Text) (xs : List PracticeSource) (ps : List EffectivePractice)
    → merge_group id xs ≡ ok ps
    → Agrees xs
      × ((found : Option Text) (x : Text)
          → digest_of_from found x ps ≡ (if text_eq id x then group_digest xs found else found))
      × All (λ p. p.practice_id ≡ id) ps
      × Once ps
unfolding merge_group digest_of_from any
merge_group-ok id [] ps h =
    (tt, λ found x. rw (← ok_inj h) (ground arith), rw (← ok_inj h) tt, rw (← ok_inj h) tt)
merge_group-ok id (s ∷ ss) ps h =
    let (u, checked, made) = >>=-ok (check_group id s ss) _ h in
    (
      (refl, check_group-ok id s ss checked),
      λ found x. rw (← ok_inj made) refl,
      rw (← ok_inj made) (refl, tt),
      rw (← ok_inj made) (refl, tt),
    )

pub merge_group-of-agree :
    (id : Text) (xs : List PracticeSource)
    → Agrees xs
    → (ps : List EffectivePractice) × (merge_group id xs ≡ ok ps)
unfolding merge_group
merge_group-of-agree id [] a = ([], refl)
merge_group-of-agree id (s ∷ ss) a =
    (effective_of id s (s ∷ ss) ∷ [], rw (check_group-of-agree id s ss a.1) refl)

pub digest_of-append :
    (found : Option Text) (x : Text) (ps qs : List EffectivePractice)
    → digest_of_from found x (ps ++ qs) ≡ digest_of_from (digest_of_from found x ps) x qs
unfolding digest_of_from
digest_of-append found x [] qs = refl
digest_of-append found x (p ∷ ps) qs =
    digest_of-append (if text_eq p.practice_id x then some p.content_digest else found) x ps qs

abbrev pub chosen : Option (List PracticeSource) → Option Text → Option Text
chosen none found = found
chosen (some g) found = group_digest g found

abbrev pub AllAgree : List (Text × List PracticeSource) → Type 0
AllAgree groups = All (λ e. Agrees e.1) groups
