-- ===== src/LocalStore/Effective/Delta.antt =====
-- What the difference of two sets of effective practices says.
use lorelum.Prelude.{
  ◌≡◌, ◌↔◌, refl, sym, ap, ◌∙◌, List, [], ◌∷◌, Bool, true, false, not, ◌&&◌, ◌||◌, Option, none,
  some, Text, text_eq, text_eq_iff, text_eq_refl, text_lt, contains, get, put, get-put, keys,
  get_listed, get_unlisted, sort, any, any-sort, if◌then◌else◌, arith, Bool-cases, inl, inr,
}
use lorelum.LocalStore.Effective.{
  EffectivePractice, RevisionDelta, effective_digest_map, digest_map_from, added_in, changed_in,
  invalidated_in, diff_effective_practices, non_empty, advances,
}

-- The digest under which a practice is in effect: that of the last entry with its id.
unfoldable pub digest_of_from : Option Text → Text → List EffectivePractice → Option Text
digest_of_from found id [] = found
digest_of_from found id (p ∷ ps) =
    digest_of_from (if text_eq p.practice_id id then some p.content_digest else found) id ps

unfoldable pub digest_of : Text → List EffectivePractice → Option Text
digest_of id ps = digest_of_from none id ps

get-digest_map :
    (id : Text) (m : List (Text × Text)) (ps : List EffectivePractice)
    → get id (digest_map_from m ps) ≡ digest_of_from (get id m) id ps
unfolding digest_map_from digest_of_from
get-digest_map id m [] = refl
get-digest_map id m (p ∷ ps) =
    get-digest_map id (put p.practice_id p.content_digest m) ps
    ∙ ap (λ (o : Option Text). digest_of_from o id ps) (get-put p.practice_id id p.content_digest m)

get-effective_digest_map :
    (id : Text) (ps : List EffectivePractice) → get id (effective_digest_map ps) ≡ digest_of id ps
unfolding effective_digest_map digest_of
get-effective_digest_map id ps = get-digest_map id [] ps ∙ (unfold get in refl)

contains-any : (x : Text) (xs : List Text) → contains x xs ≡ any (λ y. text_eq y x) xs
unfolding contains any
contains-any x [] = refl
contains-any x (y ∷ ys) = ap (λ b. text_eq y x || b) (contains-any x ys)

contains-sort : (x : Text) (xs : List Text) → contains x (sort text_lt xs) ≡ contains x xs
contains-sort x xs =
    contains-any x (sort text_lt xs)
    ∙ any-sort text_lt (λ y. text_eq y x) xs
    ∙ sym (contains-any x xs)

-- Keys that occur once, as in a map.
abbrev pub Unique {ℓ} : {V : Type ℓ} → List (Text × V) → Type 0
Unique [] = Unit
Unique ((k, v) ∷ m) = (contains k (keys m) ≡ false) × Unique m

contains-keys-put {ℓ} :
    {V : Type ℓ} (x k : Text) (v : V) (m : List (Text × V))
    → contains x (keys (put k v m)) ≡ (text_eq k x || contains x (keys m))
unfolding contains put
contains-keys-put x k v [] = refl
contains-keys-put x k v ((j, w) ∷ m) =
    ground (arith, contains-keys-put x k v m, text_eq_iff j k, text_eq_iff k x, text_eq_iff j x)

still_new {ℓ} :
    {V : Type ℓ} (j k : Text) (v : V) (m : List (Text × V))
    → text_eq j k ≡ false
    → contains j (keys m) ≡ false
    → contains j (keys (put k v m)) ≡ false
still_new j k v m e new =
    contains-keys-put j k v m ∙ ground (arith, text_eq_iff j k, text_eq_iff k j)

pub put-Unique {ℓ} :
    {V : Type ℓ} (k : Text) (v : V) (m : List (Text × V)) → Unique m → Unique (put k v m)
unfolding contains put
put-Unique k v [] u = (refl, tt)
put-Unique k v ((j, w) ∷ m) (new, u) = elim (Bool-cases (text_eq j k)) [
  | inl e ↦ rw e (new, u)
  | inr e ↦ rw e (still_new j k v m e new, put-Unique k v m u)
]

digest_map-Unique :
    (m : List (Text × Text)) (ps : List EffectivePractice)
    → Unique m
    → Unique (digest_map_from m ps)
unfolding digest_map_from
digest_map-Unique m [] u = u
digest_map-Unique m (p ∷ ps) u =
    digest_map-Unique (put p.practice_id p.content_digest m) ps
      (put-Unique p.practice_id p.content_digest m u)

abbrev pub is_some : Option Text → Bool
is_some none = false
is_some (some d) = true

contains-keys : (x : Text) (m : List (Text × Text)) → contains x (keys m) ≡ is_some (get x m)
contains-keys x m = elim (Bool-cases (contains x (keys m))) [
  | inl listed ↦ let (v, e) = get_listed x m listed in ground (arith, e)
  | inr missing ↦ ground (arith, get_unlisted x m missing)
]

-- The three ways in which the digest of a practice can change.
abbrev pub is_added : Option Text → Option Text → Bool
is_added none (some d) = true
is_added _ _ = false

abbrev pub is_changed : Option Text → Option Text → Bool
is_changed (some o) (some d) = not (text_eq o d)
is_changed _ _ = false

abbrev pub is_invalidated : Option Text → Option Text → Bool
is_invalidated (some o) none = true
is_invalidated _ _ = false

contains-added_in :
    (x : Text) (previous next : List (Text × Text))
    → contains x (added_in previous next) ≡ is_added (get x previous) (get x next)
unfolding added_in contains get
contains-added_in x previous [] = ground arith
contains-added_in x previous ((id, digest) ∷ next) =
    ground (arith, contains-added_in x previous next, text_eq_iff id x)

changed_in-unlisted :
    (x : Text) (previous next : List (Text × Text))
    → contains x (keys next) ≡ false
    → contains x (changed_in previous next) ≡ false
unfolding changed_in contains
changed_in-unlisted x previous [] h = refl
changed_in-unlisted x previous ((id, digest) ∷ next) h =
    ground (arith, changed_in-unlisted x previous next)

contains-changed_in :
    (x : Text) (previous next : List (Text × Text))
    → Unique next
    → contains x (changed_in previous next) ≡ is_changed (get x previous) (get x next)
unfolding changed_in contains get
contains-changed_in x previous [] u = ground arith
contains-changed_in x previous ((id, digest) ∷ next) (new, u) = ground (
  arith,
  contains-changed_in x previous next u,
  text_eq_iff id x,
  changed_in-unlisted x previous next,
)

contains-invalidated_in :
    (x : Text) (next : List (Text × Text)) (ids : List Text)
    → contains x (invalidated_in next ids) ≡ (contains x ids && not (contains x (keys next)))
unfolding invalidated_in contains
contains-invalidated_in x next [] = refl
contains-invalidated_in x next (id ∷ ids) =
    ground (arith, contains-invalidated_in x next ids, text_eq_iff id x)

module _ (previous next : List EffectivePractice) where
  added_lem :
      (x : Text)
      → contains x (diff_effective_practices previous next).added
        ≡ is_added (digest_of x previous) (digest_of x next)
  unfolding diff_effective_practices
  added_lem x =
      contains-sort x (added_in (effective_digest_map previous) (effective_digest_map next))
      ∙ contains-added_in x (effective_digest_map previous) (effective_digest_map next)
      ∙ rw (get-effective_digest_map x previous, get-effective_digest_map x next) refl

  changed_lem :
      (x : Text)
      → contains x (diff_effective_practices previous next).changed
        ≡ is_changed (digest_of x previous) (digest_of x next)
  unfolding diff_effective_practices
  changed_lem x =
      contains-sort x (changed_in (effective_digest_map previous) (effective_digest_map next))
      ∙ contains-changed_in x (effective_digest_map previous) (effective_digest_map next)
          (digest_map-Unique [] next tt)
      ∙ rw (get-effective_digest_map x previous, get-effective_digest_map x next) refl

  invalidated_lem :
      (x : Text)
      → contains x (diff_effective_practices previous next).invalidated
        ≡ is_invalidated (digest_of x previous) (digest_of x next)
  unfolding diff_effective_practices
  invalidated_lem x =
      contains-sort x
        (invalidated_in (effective_digest_map next) (keys (effective_digest_map previous)))
      ∙ contains-invalidated_in x (effective_digest_map next) (keys (effective_digest_map previous))
      ∙ rw
          (
            contains-keys x (effective_digest_map previous),
            contains-keys x (effective_digest_map next),
            get-effective_digest_map x previous,
            get-effective_digest_map x next,
          )
          (table (digest_of x previous) (digest_of x next))
    where
      table : (a b : Option Text) → (is_some a && not (is_some b)) ≡ is_invalidated a b
      table a b = ground arith

  -- The difference lists a practice as added when it had no digest and has one, as changed when
  -- both digests are there and differ, as invalidated when it had one and has none, and else nowhere.
  pub diff_effective_practices_lem :
      (x : Text)
      → let d = diff_effective_practices previous next in
        (contains x d.added ≡ is_added (digest_of x previous) (digest_of x next))
        × (contains x d.changed ≡ is_changed (digest_of x previous) (digest_of x next))
        × (contains x d.invalidated ≡ is_invalidated (digest_of x previous) (digest_of x next))
  diff_effective_practices_lem x = (added_lem x, changed_lem x, invalidated_lem x)

non_empty_none : (xs : List Text) → ((x : Text) → contains x xs ≡ false) → non_empty xs ≡ false
non_empty_none [] h = refl
non_empty_none (x ∷ xs) h = absurd (unfold contains in ground (arith, h x, text_eq_refl x))

empty_unlisted : (xs : List Text) (x : Text) → non_empty xs ≡ false → contains x xs ≡ false
unfolding contains
empty_unlisted [] x h = refl
empty_unlisted (y ∷ ys) x h = ground arith

same_digest :
    (a b : Option Text)
    → is_added a b ≡ false
    → is_changed a b ≡ false
    → is_invalidated a b ≡ false
    → a ≡ b
same_digest none none h k l = refl
same_digest none (some d) h k l = ground arith
same_digest (some o) none h k l = ground arith
same_digest (some o) (some d) h k l = ap some ((text_eq_iff o d).0 (ground arith))

no_difference :
    (a b : Option Text)
    → a ≡ b
    → (is_added a b ≡ false) × (is_changed a b ≡ false) × (is_invalidated a b ≡ false)
no_difference a none e = rw e (refl, refl, refl)
no_difference a (some d) e = rw e (refl, rw (text_eq_refl d), refl)

-- A difference does not advance the revision exactly when every practice id has the digest that it
-- had, or none as before.
pub diff_advances_iff :
    (previous next : List EffectivePractice)
    → (advances (diff_effective_practices previous next) ≡ false)
      ↔ ((x : Text) → digest_of x previous ≡ digest_of x next)
diff_advances_iff previous next = (to, from)
  where
    d : RevisionDelta
    d = diff_effective_practices previous next

    to : advances d ≡ false → (x : Text) → digest_of x previous ≡ digest_of x next
    to h x =
        let (a, c, i) = diff_effective_practices_lem previous next x in
        same_digest (digest_of x previous) (digest_of x next)
          (sym a ∙ empty_unlisted d.added x (ground arith))
          (sym c ∙ empty_unlisted d.changed x (ground arith))
          (sym i ∙ empty_unlisted d.invalidated x (ground arith))

    from : ((x : Text) → digest_of x previous ≡ digest_of x next) → advances d ≡ false
    from h = ground (
      arith,
      non_empty_none d.added (λ x. added_lem previous next x ∙ (no_difference _ _ (h x)).0),
      non_empty_none d.changed (λ x. changed_lem previous next x ∙ (no_difference _ _ (h x)).1),
      non_empty_none d.invalidated
          (λ x. invalidated_lem previous next x ∙ (no_difference _ _ (h x)).2),
    )
