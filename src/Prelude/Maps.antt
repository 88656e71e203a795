-- ===== src/Prelude/Maps.antt =====
-- JavaScript's `Set<string>` and `Map<string, V>` as lists in insertion order.
use mathlib.Core.Path.{◌≡◌, refl}
use mathlib.Core.Bool.{Bool, true, false, ◌||◌}
use mathlib.Core.Option.{Option, none, some}
use mathlib.Core.List.{List, [], ◌∷◌, ◌++◌}
use native.Mathlib.Omega.{arith}
use mathlib.Core.Logic.{inl, inr}
use lorelum.Prelude.Tests.{Bool-cases, if◌then◌else◌}
use lorelum.Prelude.CodeUnits.{Text, text_eq, text_eq_iff}

-- `set.has(x)`, `xs.includes(x)`
unfoldable pub contains : Text → List Text → Bool
contains x [] = false
contains x (y ∷ ys) = text_eq y x || contains x ys

pub contains-append :
    (x : Text) (xs ys : List Text) → contains x (xs ++ ys) ≡ (contains x xs || contains x ys)
unfolding contains
contains-append x [] ys = refl
contains-append x (y ∷ xs) ys = ground (arith, contains-append x xs ys)

-- `set.add(x)`: a new element goes to the end.
unfoldable pub add : Text → List Text → List Text
add x xs = if contains x xs then xs else xs ++ x ∷ []

pub contains-add :
    (x y : Text) (xs : List Text) → contains y (add x xs) ≡ (text_eq x y || contains y xs)
unfolding add
contains-add x y xs =
    unfold contains in ground (arith, contains-append y xs (x ∷ []), text_eq_iff x y)

module _ {ℓ} {V : Type ℓ} where
  -- `map.get(k)`
  unfoldable pub get : Text → List (Text × V) → Option V
  get k [] = none
  get k ((j, v) ∷ m) = if text_eq j k then some v else get k m

  -- `map.set(k, v)`: an old key keeps its place, a new one goes to the end.
  unfoldable pub put : Text → V → List (Text × V) → List (Text × V)
  put k v [] = (k, v) ∷ []
  put k v ((j, w) ∷ m) = if text_eq j k then (j, v) ∷ m else (j, w) ∷ put k v m

  -- `map.delete(k)`
  unfoldable pub delete : Text → List (Text × V) → List (Text × V)
  delete k [] = []
  delete k ((j, w) ∷ m) = if text_eq j k then delete k m else (j, w) ∷ delete k m

  abbrev pub keys : List (Text × V) → List Text
  keys [] = []
  keys ((k, v) ∷ m) = k ∷ keys m

  pub get-put :
      (k j : Text) (v : V) (m : List (Text × V))
      → get j (put k v m) ≡ (if text_eq k j then some v else get j m)
  unfolding get put
  get-put k j v [] = refl
  get-put k j v ((i, w) ∷ m) =
      ground (arith, text_eq_iff k j, text_eq_iff i k, text_eq_iff i j, get-put k j v m)

  pub get-delete :
      (k j : Text) (m : List (Text × V))
      → get j (delete k m) ≡ (if text_eq k j then none else get j m)
  unfolding get delete
  get-delete k j [] = ground arith
  get-delete k j ((i, w) ∷ m) =
      ground (arith, text_eq_iff k j, text_eq_iff i k, text_eq_iff i j, get-delete k j m)

  -- A key is listed exactly when it has a value.
  pub get_listed :
      (k : Text) (m : List (Text × V)) → contains k (keys m) ≡ true → (v : V) × (get k m ≡ some v)
  unfolding get contains
  get_listed k [] h = ground arith
  get_listed k ((j, w) ∷ m) h = elim (Bool-cases (text_eq j k)) [
    | inl e ↦ (w, rw e)
    | inr e ↦ let (v, p) = get_listed k m (rw e at h) in (v, rw e p)
  ]

  pub get_unlisted : (k : Text) (m : List (Text × V)) → contains k (keys m) ≡ false → get k m ≡ none
  unfolding get contains
  get_unlisted k [] h = refl
  get_unlisted k ((j, w) ∷ m) h = ground (arith, get_unlisted k m)
