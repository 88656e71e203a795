-- ===== src/Lifecycle/Install/Ordering.antt =====
-- Entries with distinct names, sorted by name: what sorting, replacing and adding an entry keep.
use lorelum.Prelude.{
  all-append, ℕ, suc, ◌+◌, ◌≡◌, ◌≢◌, ◌⊎◌, inl, inr, refl, ap, sym, ◌∙◌, Bool, true, false, not,
  ◌&&◌, ◌||◌, Option, none, some, List, [], ◌∷◌, ◌++◌, leb, ◌==◌, if◌then◌else◌, Text, units,
  text_eq, text_eq_iff, text_eq_refl, text_lt, text_lt_asym, text_lt_total_cases, text_ge_trans,
  find, any, all, keep, sort, insert, Sorted, sort-Sorted, All, arith, Bool-cases,
}
use lorelum.Lifecycle.Store.{PackEntry, ordered, distinct_names, named, replace_entry, name_before}

module _ {ℓ} {A : Type ℓ} (before : A → A → Bool) (p : A → Bool) where
  pub all-insert : (x : A) (ys : List A) → all p (insert before x ys) ≡ (p x && all p ys)
  unfolding all insert
  all-insert x [] = refl
  all-insert x (y ∷ ys) = ground (arith, all-insert x ys)

  pub all-sort : (xs : List A) → all p (sort before xs) ≡ all p xs
  unfolding all sort
  all-sort [] = refl
  all-sort (x ∷ xs) = all-insert x (sort before xs) ∙ ap (λ b. p x && b) (all-sort xs)

  pub any-insert : (x : A) (ys : List A) → any p (insert before x ys) ≡ (p x || any p ys)
  unfolding any insert
  any-insert x [] = refl
  any-insert x (y ∷ ys) = ground (arith, any-insert x ys)

pub named_sym : (x y : PackEntry) → named x.pack_name y ≡ named y.pack_name x
named_sym x y =
    ground (arith, text_eq_iff x.pack_name y.pack_name, text_eq_iff y.pack_name x.pack_name)

pub distinct-insert :
    (x : PackEntry) (ys : List PackEntry)
    → distinct_names (insert name_before x ys)
      ≡ (not (any (named x.pack_name) ys) && distinct_names ys)
unfolding distinct_names insert any
distinct-insert x [] = refl
distinct-insert x (y ∷ ys) =
    ground
      (arith, distinct-insert x ys, any-insert name_before (named y.pack_name) x ys, named_sym x y)

pub any-sort-named :
    (name : Text) (xs : List PackEntry)
    → any (named name) (sort name_before xs) ≡ any (named name) xs
unfolding any sort
any-sort-named name [] = refl
any-sort-named name (x ∷ xs) =
    any-insert name_before (named name) x (sort name_before xs)
    ∙ ap (λ b. named name x || b) (any-sort-named name xs)

pub distinct-sort : (xs : List PackEntry) → distinct_names (sort name_before xs) ≡ distinct_names xs
unfolding distinct_names sort
distinct-sort [] = refl
distinct-sort (x ∷ xs) =
    distinct-insert x (sort name_before xs)
    ∙ rw (any-sort-named x.pack_name xs, distinct-sort xs) refl

-- Sorted by name, with no name twice: strictly ordered.
pub ordered_of_Sorted :
    (xs : List PackEntry) → Sorted name_before xs → distinct_names xs ≡ true → ordered xs ≡ true
unfolding ordered distinct_names any
ordered_of_Sorted [] s d = refl
ordered_of_Sorted (x ∷ []) s d = refl
ordered_of_Sorted (x ∷ y ∷ ys) ((b, bs), s) d = ground (
  arith,
  text_lt_total_cases x.pack_name y.pack_name b,
  text_eq_iff y.pack_name x.pack_name,
  ordered_of_Sorted (y ∷ ys) s,
)

pub any-replace :
    (e : PackEntry) (name : Text) (ps : List PackEntry)
    → any (named name) (replace_entry e ps) ≡ any (named name) ps
unfolding any
any-replace e name [] = refl
any-replace e name (p ∷ ps) =
    ground (arith, any-replace e name ps, text_eq_iff p.pack_name e.pack_name)

pub distinct-replace :
    (e : PackEntry) (ps : List PackEntry) → distinct_names (replace_entry e ps) ≡ distinct_names ps
unfolding distinct_names
distinct-replace e [] = refl
distinct-replace e (p ∷ ps) = elim (Bool-cases (named e.pack_name p)) [
  | inl y ↦
      rw (y, any-replace e e.pack_name ps, distinct-replace e ps)
        (ap (λ n. not (any (named n) ps) && distinct_names ps)
          (sym ((text_eq_iff p.pack_name e.pack_name).0 y)))
  | inr n ↦ rw (n, any-replace e p.pack_name ps, distinct-replace e ps) refl
]

pub all-replace :
    (q : PackEntry → Bool) (e : PackEntry) (ps : List PackEntry)
    → q e ≡ true
    → all q ps ≡ true
    → all q (replace_entry e ps) ≡ true
unfolding all
all-replace q e [] h a = refl
all-replace q e (p ∷ ps) h a = ground (arith, all-replace q e ps)

pub distinct-append :
    (e : PackEntry) (ps : List PackEntry)
    → any (named e.pack_name) ps ≡ false
    → distinct_names ps ≡ true
    → distinct_names (ps ++ e ∷ []) ≡ true
unfolding distinct_names any
distinct-append e [] h d = refl
distinct-append e (p ∷ ps) h d = ground (
  arith,
  distinct-append e ps,
  lorelum.Prelude.any-append (named p.pack_name) ps (e ∷ []),
  named_sym e p,
)
