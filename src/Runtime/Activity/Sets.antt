-- ===== src/Runtime/Activity/Sets.antt =====
-- The size and the members of the sets that the record's check and its update build.
use lorelum.Prelude.{
  suc, ◌≤◌, ◌<◌, ◌≡◌, refl, ap, ◌∙◌, Bool, true, false, not, ◌&&◌, ◌||◌, List, [], ◌∷◌, ◌++◌, inl,
  inr, Bool-cases, if◌then◌else◌, Text, text_eq, text_eq_iff, text_eq_refl, subst, text_lt,
  contains, contains-add, contains-append, add, keep, all, length, length-append, length-keep-le,
  insert, sort, arith,
}
use lorelum.Runtime.Activity.{new_set, unique, next_activities}

-- A list without repetition, by recursion.
unfoldable pub apart : List Text → Bool
apart [] = true
apart (x ∷ xs) = not (contains x xs) && apart xs

pub contains-new_set : (y : Text) (xs : List Text) → contains y (new_set xs) ≡ contains y xs
unfolding new_set contains
contains-new_set y [] = refl
contains-new_set y (x ∷ xs) = ground (arith, contains-add x y (new_set xs), contains-new_set y xs)

length-add :
    (x : Text) (xs : List Text)
    → length (add x xs) ≡ (if contains x xs then length xs else suc (length xs))
unfolding add
length-add x xs = ground (arith, length-append xs (x ∷ []))

length-new_set-le : (xs : List Text) → length (new_set xs) ≤ length xs
unfolding new_set
length-new_set-le [] = omega arith
length-new_set-le (x ∷ xs) = ground (arith, length-add x (new_set xs), length-new_set-le xs)

-- The size test finds exactly the lists without repetition.
pub unique-apart : (xs : List Text) → unique xs ≡ apart xs
unfolding unique apart new_set
unique-apart [] = refl
unique-apart (x ∷ xs) =
    ground (
      arith,
      length-add x (new_set xs),
      contains-new_set x xs,
      length-new_set-le xs,
      unique-apart xs,
    )

contains-insert :
    (y x : Text) (xs : List Text)
    → contains y (insert text_lt x xs) ≡ (text_eq x y || contains y xs)
unfolding insert contains
contains-insert y x [] = refl
contains-insert y x (z ∷ zs) = ground (arith, contains-insert y x zs)

pub contains-sort : (y : Text) (xs : List Text) → contains y (sort text_lt xs) ≡ contains y xs
unfolding sort contains
contains-sort y [] = refl
contains-sort y (x ∷ xs) =
    contains-insert y x (sort text_lt xs) ∙ ap (λ b. text_eq x y || b) (contains-sort y xs)

apart-insert :
    (x : Text) (xs : List Text) → apart (insert text_lt x xs) ≡ (not (contains x xs) && apart xs)
unfolding insert apart contains
apart-insert x [] = refl
apart-insert x (z ∷ zs) =
    ground (arith, contains-insert z x zs, apart-insert x zs, text_eq_iff x z, text_eq_iff z x)

apart-sort : (xs : List Text) → apart (sort text_lt xs) ≡ apart xs
unfolding sort apart
apart-sort [] = refl
apart-sort (x ∷ xs) =
    apart-insert x (sort text_lt xs) ∙ ground (arith, contains-sort x xs, apart-sort xs)

apart-append :
    (x : Text) (xs : List Text) → apart (xs ++ x ∷ []) ≡ (not (contains x xs) && apart xs)
unfolding apart contains
apart-append x [] = refl
apart-append x (z ∷ zs) =
    ground
      (arith, contains-append z zs (x ∷ []), apart-append x zs, text_eq_iff x z, text_eq_iff z x)

apart-add : (x : Text) (xs : List Text) → apart xs ≡ true → apart (add x xs) ≡ true
unfolding add
apart-add x xs h = ground (arith, apart-append x xs)

apart-new_set : (xs : List Text) → apart (new_set xs) ≡ true
unfolding new_set apart
apart-new_set [] = refl
apart-new_set (x ∷ xs) = apart-add x (new_set xs) (apart-new_set xs)

pub contains-keep :
    (p : Text → Bool) (y : Text) (xs : List Text) → contains y (keep p xs) ≡ (p y && contains y xs)
unfolding keep contains
contains-keep p y [] = ground arith
contains-keep p y (x ∷ xs) = elim (Bool-cases (text_eq x y)) [
  | inl e ↦ ground (arith, contains-keep p y xs, text_eq_iff x y, ap p ((text_eq_iff x y).0 e))
  | inr n ↦ ground (arith, contains-keep p y xs)
]

apart-keep : (p : Text → Bool) (xs : List Text) → apart xs ≡ true → apart (keep p xs) ≡ true
unfolding keep apart
apart-keep p [] h = refl
apart-keep p (x ∷ xs) h = ground (arith, apart-keep p xs, contains-keep p x xs)

-- The activities that are written do not repeat, whatever was read.
pub unique-next_activities :
    (ks : List Text) (kind : Text) (active : Bool) → unique (next_activities ks kind active) ≡ true
unfolding next_activities
unique-next_activities ks kind true =
    unique-apart _
    ∙ apart-sort (add kind (new_set ks))
    ∙ apart-add kind (new_set ks) (apart-new_set ks)
unique-next_activities ks kind false =
    unique-apart _
    ∙ apart-sort (keep (λ k. not (text_eq k kind)) (new_set ks))
    ∙ apart-keep (λ k. not (text_eq k kind)) (new_set ks) (apart-new_set ks)

-- Its members: the one that was set, and the others as they were.
pub contains-next_activities :
    (k : Text) (ks : List Text) (kind : Text) (active : Bool)
    → contains k (next_activities ks kind active)
      ≡ (if text_eq k kind then active else contains k ks)
unfolding next_activities
contains-next_activities k ks kind true =
    contains-sort k (add kind (new_set ks))
    ∙ ground (
      arith,
      contains-add kind k (new_set ks),
      contains-new_set k ks,
      text_eq_iff k kind,
      text_eq_iff kind k,
    )
contains-next_activities k ks kind false =
    contains-sort k (keep (λ j. not (text_eq j kind)) (new_set ks))
    ∙ ground
        (arith, contains-keep (λ j. not (text_eq j kind)) k (new_set ks), contains-new_set k ks)

-- A list without repetition whose members are all in `ks` is no longer than `ks`.
length-without :
    (x : Text) (ks : List Text)
    → contains x ks ≡ true
    → length (keep (λ k. not (text_eq k x)) ks) < length ks
unfolding contains keep
length-without x [] h = ground arith
length-without x (k ∷ ks) h = elim (Bool-cases (contains x ks)) [
  | inl e ↦ ground (arith, length-without x ks e)
  | inr n ↦ ground (arith, length-keep-le (λ j. not (text_eq j x)) ks)
]

all_without :
    (y : Text) (ys js : List Text)
    → contains y ys ≡ false
    → all (λ z. contains z js) ys ≡ true
    → all (λ z. contains z (keep (λ j. not (text_eq j y)) js)) ys ≡ true
unfolding all contains
all_without y [] js m a = refl
all_without y (z ∷ zs) js m a =
    ground (arith, contains-keep (λ j. not (text_eq j y)) z js, all_without y zs js)

pub length-apart-le :
    (xs ks : List Text)
    → apart xs ≡ true
    → all (λ x. contains x ks) xs ≡ true
    → length xs ≤ length ks
unfolding apart all
length-apart-le [] ks h k = omega arith
length-apart-le (x ∷ xs) ks h k = ground (
  arith,
  length-without x ks,
  length-apart-le xs (keep (λ j. not (text_eq j x)) ks),
  all_without x xs ks,
)

pub all-contains :
    (p : Text → Bool) (xs : List Text) (k : Text)
    → all p xs ≡ true
    → contains k xs ≡ true
    → p k ≡ true
unfolding all contains
all-contains p [] k h c = ground arith
all-contains p (x ∷ xs) k h c = elim (Bool-cases (text_eq x k)) [
  | inl e ↦ subst (λ y. p y ≡ true) ((text_eq_iff x k).0 e) (ground arith)
  | inr n ↦ all-contains p xs k (ground arith) (ground arith)
]

pub contains-all :
    (p : Text → Bool) (xs : List Text)
    → ((k : Text) → contains k xs ≡ true → p k ≡ true)
    → all p xs ≡ true
unfolding all contains
contains-all p [] h = refl
contains-all p (x ∷ xs) h =
    let here : p x ≡ true = h x (rw (text_eq_refl x) refl) in
    let rest = contains-all p xs (λ k c. h k (ground arith)) in ground arith
