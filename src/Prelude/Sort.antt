-- ===== src/Prelude/Sort.antt =====
-- `xs.sort(compare)`: the stable sort by a comparison, of which `before y x` is `compare(y, x) < 0`.
-- Insertion from the right computes the one stable sorted arrangement.
use mathlib.Core.Path.{◌≡◌, refl, ap, ◌∙◌}
use mathlib.Core.Bool.{Bool, true, false, ◌||◌}
use mathlib.Core.Logic.{inl, inr}
use mathlib.Core.List.{List, [], ◌∷◌, Perm}
use mathlib.Core.List.Perm
use native.Mathlib.Omega.{arith}
use lorelum.Prelude.Tests.{if◌then◌else◌, Bool-cases}
use lorelum.Prelude.Lists.{any, keep, All, All-imp}

module _ {ℓ} {A : Type ℓ} (before : A → A → Bool) where
  unfoldable pub insert : A → List A → List A
  insert x [] = x ∷ []
  insert x (y ∷ ys) = if before y x then y ∷ insert x ys else x ∷ y ∷ ys

  unfoldable pub sort : List A → List A
  unfolding insert
  sort [] = []
  sort (x ∷ xs) = insert x (sort xs)

  -- Nothing stands before what it follows.
  abbrev pub Sorted : List A → Type 0
  Sorted [] = Unit
  Sorted (x ∷ xs) = All (λ y. before y x ≡ false) xs × Sorted xs

  any-insert : (p : A → Bool) (x : A) (ys : List A) → any p (insert x ys) ≡ (p x || any p ys)
  unfolding any insert
  any-insert p x [] = refl
  any-insert p x (y ∷ ys) = ground (arith, any-insert p x ys)

  -- Sorting keeps the elements.
  pub any-sort : (p : A → Bool) (xs : List A) → any p (sort xs) ≡ any p xs
  unfolding sort any
  any-sort p [] = refl
  any-sort p (x ∷ xs) = any-insert p x (sort xs) ∙ ap (λ b. p x || b) (any-sort p xs)

  insert-perm : (x : A) (ys : List A) → Perm (insert x ys) (x ∷ ys)
  unfolding insert
  insert-perm x [] = Perm.refl _
  insert-perm x (y ∷ ys) = elim (Bool-cases (before y x)) [
    | inl e ↦ rw e (Perm.trans (Perm.cons y (insert-perm x ys)) (Perm.swap x y ys))
    | inr e ↦ rw e (Perm.refl _)
  ]

  pub sort-perm : (xs : List A) → Perm (sort xs) xs
  unfolding sort
  sort-perm [] = Perm.refl []
  sort-perm (x ∷ xs) = Perm.trans (insert-perm x (sort xs)) (Perm.cons x (sort-perm xs))

  module _ {κ} (P : A → Type κ) where
    All-insert : (x : A) (ys : List A) → P x → All P ys → All P (insert x ys)
    unfolding insert
    All-insert x [] p h = (p, tt)
    All-insert x (y ∷ ys) p (q, h) = elim (Bool-cases (before y x)) [
      | inl e ↦ rw e (q, All-insert x ys p h)
      | inr e ↦ rw e (p, (q, h))
    ]

    All-of-insert : (x : A) (ys : List A) → All P (insert x ys) → P x × All P ys
    unfolding insert
    All-of-insert x [] (p, h) = (p, tt)
    All-of-insert x (y ∷ ys) h = elim (Bool-cases (before y x)) [
      | inl e ↦
          let h' : All P (y ∷ insert x ys) = rw e at h in
          let (p, rest) = All-of-insert x ys h'.1 in (p, (h'.0, rest))
      | inr e ↦ let h' : All P (x ∷ y ∷ ys) = rw e at h in h'
    ]

    pub All-sort : (xs : List A) → All P xs → All P (sort xs)
    unfolding sort
    All-sort [] h = tt
    All-sort (x ∷ xs) (p, h) = All-insert x (sort xs) p (All-sort xs h)

    pub All-of-sort : (xs : List A) → All P (sort xs) → All P xs
    unfolding sort
    All-of-sort [] h = tt
    All-of-sort (x ∷ xs) h = let (p, rest) = All-of-insert x (sort xs) h in (p, All-of-sort xs rest)

  -- For a comparison that is asymmetric, with a transitive complement.
  module _ (asym : (x y : A) → before x y ≡ true → before y x ≡ false)
      (trans : (x y z : A) → before y x ≡ false → before z y ≡ false → before z x ≡ false) where
    insert-Sorted : (x : A) (ys : List A) → Sorted ys → Sorted (insert x ys)
    unfolding insert
    insert-Sorted x [] s = (tt, tt)
    insert-Sorted x (y ∷ ys) (low, s) = elim (Bool-cases (before y x)) [
      | inl e ↦
          rw e (All-insert (λ z. before z y ≡ false) x ys (asym y x e) low, insert-Sorted x ys s)
      | inr e ↦ rw e (
        (
          e,
          All-imp (λ z. before z y ≡ false) (λ z. before z x ≡ false) (λ z h. trans x y z e h) ys
              low,
        ),
        (low, s),
      )
    ]

    pub sort-Sorted : (xs : List A) → Sorted (sort xs)
    unfolding sort
    sort-Sorted [] = tt
    sort-Sorted (x ∷ xs) = insert-Sorted x (sort xs) (sort-Sorted xs)

    insert-least : (x : A) (ys : List A) → All (λ y. before y x ≡ false) ys → insert x ys ≡ x ∷ ys
    unfolding insert
    insert-least x [] h = refl
    insert-least x (y ∷ ys) (e, h) = rw e

    All-keep {κ} : (P : A → Type κ) (p : A → Bool) (xs : List A) → All P xs → All P (keep p xs)
    unfolding keep
    All-keep P p [] h = tt
    All-keep P p (x ∷ xs) (q, h) = elim (Bool-cases (p x)) [
      | inl e ↦ rw e (q, All-keep P p xs h)
      | inr e ↦ rw e (All-keep P p xs h)
    ]

    keep-insert :
        (p : A → Bool) (x : A) (ys : List A)
        → Sorted ys
        → keep p (insert x ys) ≡ (if p x then insert x (keep p ys) else keep p ys)
    unfolding keep insert
    keep-insert p x [] s = refl
    keep-insert p x (y ∷ ys) (low, s) = elim (Bool-cases (before y x)) [
      | inl e ↦ ground (arith, keep-insert p x ys s)
      | inr e ↦ ground (
        arith,
        insert-least x (keep p ys) (
            All-keep (λ z. before z x ≡ false) p ys
              (All-imp (λ z. before z y ≡ false) (λ z. before z x ≡ false) (λ z h. trans x y z e h)
                ys low)),
      )
    ]

    -- Filtering and sorting commute.
    pub keep-sort : (p : A → Bool) (xs : List A) → keep p (sort xs) ≡ sort (keep p xs)
    unfolding sort keep
    keep-sort p [] = refl
    keep-sort p (x ∷ xs) =
        keep-insert p x (sort xs) (sort-Sorted xs) ∙ keep_step (p x) x (sort xs) xs (keep-sort p xs)
      where
        keep_step :
            (b : Bool) (x : A) (ys xs : List A)
            → keep p ys ≡ sort (keep p xs)
            → (if b then insert x (keep p ys) else keep p ys)
              ≡ sort (if b then x ∷ keep p xs else keep p xs)
        keep_step true x ys xs e = ap (insert x) e
        keep_step false x ys xs e = e

    pub sort_of_Sorted : (xs : List A) → Sorted xs → sort xs ≡ xs
    unfolding sort
    sort_of_Sorted [] s = refl
    sort_of_Sorted (x ∷ xs) (low, s) = rw (sort_of_Sorted xs s) (insert-least x xs low)
