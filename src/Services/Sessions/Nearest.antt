-- ===== src/Services/Sessions/Nearest.antt =====
-- Which session a command is attributed to.
use lorelum.Prelude.{
  ℕ, ◌≤◌, ◌≡◌, ◌⊎◌, refl, sym, ap, ◌∙◌, subst, Bool, Bool-cases, true, false, Option, none, some,
  List, [], ◌∷◌, ◌++◌, Text, keep, length, sort, insert, Sorted, sort-Sorted, All, All-imp,
  All-of-sort, inl, inr, arith,
}
use mathlib.Core.Path.{fun_ext}
use lorelum.Services.Sessions.{
  Platform, SessionRef, ActiveWindow, is_within, is_live, prune_windows, nearer, first_session,
  resolve_window, resolve,
}
use lorelum.Services.Sessions.Windows.{
  in_lifetime, IsCandidate, IsUnnamed, is_live_lem, is_within_sound, is_within_complete,
}

nearer_asym : (x y : ActiveWindow) → nearer x y ≡ true → nearer y x ≡ false
unfolding nearer
nearer_asym x y h = ground arith

nearer_trans : (x y z : ActiveWindow) → nearer y x ≡ false → nearer z y ≡ false → nearer z x ≡ false
unfolding nearer
nearer_trans x y z h k = ground arith

-- A list with `x` in it.
abbrev pub IsListed : ActiveWindow → List ActiveWindow → Type 0
IsListed x xs = (front : List ActiveWindow) × (back : List ActiveWindow) × (xs ≡ front ++ x ∷ back)

abbrev head_or : ActiveWindow → List ActiveWindow → ActiveWindow
head_or d [] = d
head_or d (x ∷ xs) = x

insert-head :
    (x w : ActiveWindow) (ys rest : List ActiveWindow)
    → insert nearer x ys ≡ w ∷ rest
    → (w ≡ x) ⊎ ((others : List ActiveWindow) × (ys ≡ w ∷ others))
unfolding insert
insert-head x w [] rest h = inl (ap (head_or w) (sym h))
insert-head x w (y ∷ ys) rest h = elim (Bool-cases (nearer y x)) [
  | inl first ↦ let same = ap (head_or w) (rw first at h) in inr (ys, ap (λ z. z ∷ ys) same)
  | inr second ↦ inl (ap (head_or w) (sym (rw second at h)))
]

sort-head :
    (w : ActiveWindow) (xs rest : List ActiveWindow) → sort nearer xs ≡ w ∷ rest → IsListed w xs
unfolding sort
sort-head w [] rest h = ground arith
sort-head w (x ∷ xs) rest h = elim (insert-head x w (sort nearer xs) rest h) [
  | inl same ↦ ([], xs, ap (λ z. z ∷ xs) (sym same))
  | inr (others, inner) ↦
      let (front, back, made) = sort-head w xs others inner in
      (x ∷ front, back, ap (λ zs. x ∷ zs) made)
]

insert-filled : (x : ActiveWindow) (ys : List ActiveWindow) → insert nearer x ys ≡ [] → ⊥
unfolding insert
insert-filled x [] h = ground arith
insert-filled x (y ∷ ys) h = ground arith

sort-empty : (xs : List ActiveWindow) → sort nearer xs ≡ [] → xs ≡ []
unfolding sort
sort-empty [] h = refl
sort-empty (x ∷ xs) h = let absurd : ⊥ = insert-filled x (sort nearer xs) h in elim absurd [ ]

-- No window of the list is a better one: a longer directory, or as long a one and a later start.
abbrev pub IsNearest : ActiveWindow → List ActiveWindow → Type 0
IsNearest w xs =
    All
      (λ v.
        (length v.cwd ≤ length w.cwd) × (length v.cwd ≡ length w.cwd → v.started_at ≤ w.started_at))
      xs

head-IsNearest :
    (w : ActiveWindow) (rest : List ActiveWindow)
    → Sorted nearer (w ∷ rest)
    → IsNearest w (w ∷ rest)
unfolding nearer
head-IsNearest w rest (low, sorted) = (
  (ground arith, λ same. ground arith),
  All-imp (λ v. nearer v w ≡ false)
      (λ v.
        (length v.cwd ≤ length w.cwd) × (length v.cwd ≡ length w.cwd → v.started_at ≤ w.started_at))
      (λ v h. (ground arith, λ same. ground arith)) rest low,
)

abbrev pub candidates : Platform → Text → ℕ → List ActiveWindow → List ActiveWindow
candidates p cwd time windows =
    keep (λ w. is_within p w.cwd (p.resolve_path cwd [])) (keep (is_live time) windows)

chosen :
    (xs sorted : List ActiveWindow)
    → sort nearer xs ≡ sorted
    → ((first_session sorted ≡ none) × (xs ≡ []))
      ⊎ ((w : ActiveWindow) × (first_session sorted
            ≡ some (record { host_key = w.host_key; session_id = w.session_id }))
          × IsListed w xs
          × IsNearest w xs)
chosen xs [] h = inl (refl, sort-empty xs h)
chosen xs (w ∷ rest) h = inr (
  w,
  refl,
  sort-head w xs rest h,
  All-of-sort nearer
      (λ v.
        (length v.cwd ≤ length w.cwd) × (length v.cwd ≡ length w.cwd → v.started_at ≤ w.started_at))
      xs
      (subst (IsNearest w) (sym h) (
        head-IsNearest w rest
          (subst (Sorted nearer) h (sort-Sorted nearer nearer_asym nearer_trans xs)))),
)

head_tail : {y z : ActiveWindow} {ys zs : List ActiveWindow} → y ∷ ys ≡ z ∷ zs → (y ≡ z) × (ys ≡ zs)
head_tail h = (ground arith, ground arith)

listed-keep :
    (f : ActiveWindow → Bool) (x : ActiveWindow) (front back xs : List ActiveWindow)
    → keep f xs ≡ front ++ x ∷ back
    → IsListed x xs × (f x ≡ true)
unfolding keep
listed-keep f x [] back [] made = let absurd : ⊥ = ground arith in elim absurd [ ]
listed-keep f x (z ∷ zs) back [] made = let absurd : ⊥ = ground arith in elim absurd [ ]
listed-keep f x [] back (y ∷ ys) made = elim (Bool-cases (f y)) [
  | inl e ↦
      let (same, rest) = head_tail (rw e at made) in
      (([], ys, ap (λ z. z ∷ ys) same), subst (λ z. f z ≡ true) same e)
  | inr e ↦
      let ((before, after, parts), holds) = listed-keep f x [] back ys (rw e at made) in
      ((y ∷ before, after, ap (λ zs. y ∷ zs) parts), holds)
]
listed-keep f x (z ∷ zs) back (y ∷ ys) made = elim (Bool-cases (f y)) [
  | inl e ↦
      let (same, rest) = head_tail (rw e at made) in
      let ((before, after, parts), holds) = listed-keep f x zs back ys rest in
      ((y ∷ before, after, ap (λ zs. y ∷ zs) parts), holds)
  | inr e ↦
      let ((before, after, parts), holds) = listed-keep f x (z ∷ zs) back ys (rw e at made) in
      ((y ∷ before, after, ap (λ zs. y ∷ zs) parts), holds)
]

keep-All :
    (P : ActiveWindow → Type 0) (f : ActiveWindow → Bool) (xs : List ActiveWindow)
    → All P (keep f xs)
    → All (λ x. f x ≡ true → P x) xs
unfolding keep
keep-All P f [] h = h
keep-All P f (x ∷ xs) h = elim (Bool-cases (f x)) [
  | inl e ↦ let (now, later) = (rw e at h) in (λ k. now, keep-All P f xs later)
  | inr e ↦
      let later : All P (keep f xs) = (rw e at h) in
      (λ k. let absurd : ⊥ = ground arith in elim absurd [ ], keep-All P f xs later)
]

-- `v` does not beat `w`: its directory is no longer, and where it is as long `v` began no later.
abbrev pub NotBetter : ActiveWindow → ActiveWindow → Type 0
NotBetter w v =
    (length v.cwd ≤ length w.cwd) × (length v.cwd ≡ length w.cwd → v.started_at ≤ w.started_at)

none-IsCandidate :
    (p : Platform) (cwd : Text) (time : ℕ) (windows : List ActiveWindow)
    → candidates p cwd time windows ≡ []
    → All (λ w. IsCandidate p cwd time w → ⊥) windows
none-IsCandidate p cwd time windows h =
    let contained = λ (w : ActiveWindow). is_within p w.cwd (p.resolve_path cwd []) in
    let inner =
      keep-All (λ w. ⊥) contained (keep (is_live time) windows) (subst (All (λ w. ⊥)) (sym h) tt) in
    let outer = keep-All (λ w. contained w ≡ true → ⊥) (is_live time) windows inner in
    All-imp (λ w. is_live time w ≡ true → contained w ≡ true → ⊥)
      (λ w. IsCandidate p cwd time w → ⊥)
      (λ w f (live, within).
        f (is_live_lem time w ∙ live) (is_within_complete p (p.resolve_path cwd []) w within))
      windows outer

candidates-no_better :
    (p : Platform) (cwd : Text) (time : ℕ) (windows : List ActiveWindow) (best : ActiveWindow)
    → IsNearest best (candidates p cwd time windows)
    → All (λ w. IsCandidate p cwd time w → NotBetter best w) windows
candidates-no_better p cwd time windows best h =
    let contained = λ (w : ActiveWindow). is_within p w.cwd (p.resolve_path cwd []) in
    let inner = keep-All (NotBetter best) contained (keep (is_live time) windows) h in
    let outer =
      keep-All (λ w. contained w ≡ true → NotBetter best w) (is_live time) windows inner in
    All-imp (λ w. is_live time w ≡ true → contained w ≡ true → NotBetter best w)
      (λ w. IsCandidate p cwd time w → NotBetter best w)
      (λ w f (live, within).
        f (is_live_lem time w ∙ live) (is_within_complete p (p.resolve_path cwd []) w within))
      windows outer

listed-IsCandidate :
    (p : Platform) (cwd : Text) (time : ℕ) (windows : List ActiveWindow) (w : ActiveWindow)
    → IsListed w (candidates p cwd time windows)
    → IsListed w windows × IsCandidate p cwd time w
listed-IsCandidate p cwd time windows w (front, back, made) =
    let contained = λ (v : ActiveWindow). is_within p v.cwd (p.resolve_path cwd []) in
    let ((before, after, parts), within) =
      listed-keep contained w front back (keep (is_live time) windows) made in
    let (there, live) = listed-keep (is_live time) w before after windows parts in
    (there, (sym (is_live_lem time w) ∙ live, is_within_sound p (p.resolve_path cwd []) w within))

-- What `resolve` gives where it looks at the windows, and the windows it leaves.
abbrev pub IsResolved :
    Platform → Text → ℕ → List ActiveWindow → Option SessionRef × List ActiveWindow → Type 0
IsResolved p cwd time windows (answer, left) =
    (left ≡ keep (in_lifetime time) windows)
    × (((answer ≡ none) × All (λ w. IsCandidate p cwd time w → ⊥) windows)
        ⊎ ((w : ActiveWindow) × (answer
              ≡ some (record { host_key = w.host_key; session_id = w.session_id }))
            × IsListed w windows
            × IsCandidate p cwd time w
            × All (λ v. IsCandidate p cwd time v → NotBetter w v) windows))

resolve_window-IsResolved :
    (p : Platform) (cwd : Text) (time : ℕ) (windows : List ActiveWindow)
    → IsResolved p cwd time windows (resolve_window p cwd time windows)
unfolding resolve_window prune_windows
resolve_window-IsResolved p cwd time windows = (
  ap (λ f. keep f windows) (fun_ext (is_live_lem time)),
  elim (chosen (candidates p cwd time windows) (sort nearer (candidates p cwd time windows)) refl) [
    | inl (missing, empty) ↦ inl (missing, none-IsCandidate p cwd time windows empty)
    | inr (w, found, listed, nearest) ↦
        let (there, fits) = listed-IsCandidate p cwd time windows w listed in
        inr (w, found, there, fits, candidates-no_better p cwd time windows w nearest)
  ],
)

-- Where no session is named, or one whose id is not valid: a window fits that began at most now and
-- less than 30 minutes ago, and from whose directory the way to the command's neither leads up nor to
-- another root. `resolve` gives none exactly where no window fits, and else the session of one that
-- fits and that no fitting one beats: none has a longer directory, and none with as long a one began
-- later. What stays is the windows that began at most now and less than 30 minutes ago.
pub resolve_nearest :
    (p : Platform) (cwd : Text) (named : Option SessionRef) (time : ℕ) (windows : List ActiveWindow)
    → IsUnnamed p named
    → IsResolved p cwd time windows (resolve p cwd named time windows)
unfolding resolve
resolve_nearest p cwd none time windows unnamed = resolve_window-IsResolved p cwd time windows
resolve_nearest p cwd (some s) time windows unnamed =
    rw unnamed (resolve_window-IsResolved p cwd time windows)
