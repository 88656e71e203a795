-- ===== src/Format/Cycle/Total.antt =====
-- The search never runs out of fuel: every visit colours one more node of the graph.
use lorelum.Prelude.{
  ℕ, zero, suc, ◌≤◌, ◌<◌, ◌≡◌, refl, List, [], ◌∷◌, Bool, true, false, Text, contains,
  contains-append, arith, inl, inr, text_eq_iff, text_eq_refl, Option, none, some, get, get-put,
  keys, keep, length, length-keep-le, Option-cases,
}
use lorelum.Format.Cycle.{
  Edges, Search, Color, gray, black, start, targets, enter, leave, close, follow, follow_all, visit,
  visit_all, nodes, all_targets, detect_cycles,
}

abbrev no_color : Option Color → Bool
no_color none = true
no_color (some c) = false

is_white : Text → Search → Bool
is_white x s = no_color (get x s.color)

length-keep_mono :
    (p q : Text → Bool) (xs : List Text)
    → ((x : Text) → q x ≡ true → p x ≡ true)
    → length (keep q xs) ≤ length (keep p xs)
unfolding keep
length-keep_mono p q [] h = omega arith
length-keep_mono p q (x ∷ xs) h = ground (arith, h x, length-keep_mono p q xs h)

length-keep-lt :
    (p q : Text → Bool) (a : Text) (xs : List Text)
    → ((x : Text) → q x ≡ true → p x ≡ true)
    → p a ≡ true
    → q a ≡ false
    → contains a xs ≡ true
    → length (keep q xs) < length (keep p xs)
unfolding keep contains
length-keep-lt p q a [] h pa qa m = ground arith
length-keep-lt p q a (x ∷ xs) h pa qa m =
    ground (arith, h x, text_eq_iff x a, length-keep_mono p q xs h, length-keep-lt p q a xs h)

-- Every coloured node stays coloured.
abbrev Darker : Search → Search → Type 0
Darker s s' = (x : Text) → is_white x s' ≡ true → is_white x s ≡ true

enter-Darker : (node : Text) (s : Search) → Darker s (enter node s)
unfolding enter is_white
enter-Darker node s x h = ground (arith, get-put node x gray s.color)

enter-ne-white : (node : Text) (s : Search) → is_white node (enter node s) ≡ false
unfolding enter is_white
enter-ne-white node s = ground (arith, get-put node node gray s.color, text_eq_refl node)

leave-Darker : (node : Text) (s : Search) → Darker s (leave node s)
unfolding leave is_white
leave-Darker node s x h = ground (arith, get-put node x black s.color)

contains-all_targets :
    (x node : Text) (m : Edges) (ts : List Text)
    → get node m ≡ some ts
    → contains x ts ≡ true
    → contains x (all_targets m) ≡ true
unfolding get all_targets
contains-all_targets x node [] ts e h = ground arith
contains-all_targets x node ((j, us) ∷ m) ts e h =
    ground (arith, contains-append x us (all_targets m), contains-all_targets x node m ts)

module _ (edges : Edges) where
  white : Search → ℕ
  white s = length (keep (λ x. is_white x s) (nodes edges))

  white-le : (s s' : Search) → Darker s s' → white s' ≤ white s
  unfolding white
  white-le s s' d = length-keep_mono (λ x. is_white x s) (λ x. is_white x s') (nodes edges) d

  target_listed :
      (node x : Text) → contains x (targets edges node) ≡ true → contains x (nodes edges) ≡ true
  unfolding targets nodes
  target_listed node x h = elim (Option-cases (get node edges)) [
    | inl e ↦ unfold contains in ground (arith, e)
    | inr (ts, e) ↦ ground (
      arith,
      contains-append x (keys edges) (all_targets edges),
      contains-all_targets x node edges ts e,
    )
  ]

  -- What a visit of a white node must do, if `k` bounds the white nodes that are left.
  abbrev Visits : ℕ → (Text → Search → Option Search) → Type 0
  Visits k v =
      (t : Text) (s : Search)
      → is_white t s ≡ true
      → contains t (nodes edges) ≡ true
      → white s < k
      → (s' : Search) × (v t s ≡ some s') × Darker s s'

  follow_total :
      (k : ℕ) (v : Text → Search → Option Search)
      → Visits k v
      → (t : Text) (s : Search) → contains t (nodes edges) ≡ true
      → white s < k
      → (c : Option Color) → get t s.color ≡ c
      → (s' : Search) × (follow v t s c ≡ some s') × Darker s s'
  unfolding follow close is_white
  follow_total k v hv t s m lt (some gray) e = (_, refl, λ x h. h)
  follow_total k v hv t s m lt (some black) e = (s, refl, λ x h. h)
  follow_total k v hv t s m lt none e = hv t s (rw e) m lt

  follow_all_total :
      (k : ℕ) (v : Text → Search → Option Search)
      → Visits k v
      → (ts : List Text) (s : Search)
      → ((t : Text) → contains t ts ≡ true → contains t (nodes edges) ≡ true)
      → white s < k
      → (s' : Search) × (follow_all v ts s ≡ some s') × Darker s s'
  unfolding follow_all contains
  follow_all_total k v hv [] s m lt = (s, refl, λ x h. h)
  follow_all_total k v hv (t ∷ ts) s m lt =
      let (s1, e1, d1) =
        follow_total k v hv t s (m t (rw (text_eq_refl t))) lt (get t s.color) refl in
      let (s2, e2, d2) =
        follow_all_total k v hv ts s1 (λ u h. m u (ground arith))
          (omega (arith, white-le s s1 d1)) in
      (s2, rw (e1, follow_all) e2, λ x h. d1 x (d2 x h))

  visit_total : (f : ℕ) → Visits f (visit edges f)
  unfolding visit
  visit_total zero t s w m lt = absurd (omega arith)
  visit_total (suc f) t s w m lt =
      let less : white (enter t s) < white s = entered in
      let (s1, e1, d1) =
        follow_all_total f (visit edges f) (visit_total f) (targets edges t) (enter t s)
          (target_listed t) (omega arith) in
      (leave t s1, rw e1, λ x h. enter-Darker t s x (d1 x (leave-Darker t s1 x h)))
    where
      entered : white (enter t s) < white s
      entered =
          unfold white in
          length-keep-lt (λ x. is_white x s) (λ x. is_white x (enter t s)) t (nodes edges)
            (enter-Darker t s) w (enter-ne-white t s) m

  visit_all_total :
      (f : ℕ) (ns : List Text) (s : Search)
      → ((n : Text) → contains n ns ≡ true → contains n (nodes edges) ≡ true)
      → white s < f
      → (s' : Search) × (visit_all edges f ns s ≡ some s')
  unfolding visit_all contains
  visit_all_total f [] s m lt = (s, refl)
  visit_all_total f (n ∷ ns) s m lt = elim (Option-cases (get n s.color)) [
    | inl e ↦
        let (s1, e1, d1) =
          visit_total f n s (unfold is_white in rw e) (m n (rw (text_eq_refl n))) lt in
        let (s2, e2) =
          visit_all_total f ns s1 (λ u h. m u (ground arith)) (omega (arith, white-le s s1 d1)) in
        (s2, rw (e, visit_all) (rw (e1, visit_all) e2))
    | inr (c, e) ↦
        let (s2, e2) = visit_all_total f ns s (λ u h. m u (ground arith)) lt in
        (s2, rw (e, visit_all) e2)
  ]

  white-start : white start ≤ length (nodes edges)
  unfolding white
  white-start = length-keep-le (λ x. is_white x start) (nodes edges)

  pub search_total :
      (s : Search) × (visit_all edges (suc (length (nodes edges))) (keys edges) start ≡ some s)
  search_total =
      visit_all_total (suc (length (nodes edges))) (keys edges) start
        (λ n h. unfold nodes in ground (arith, contains-append n (keys edges) (all_targets edges)))
        (omega (arith, white-start))

-- Cycle detection ends on every graph: the number of nodes is fuel enough.
pub detect_cycles_total :
    (edges : Edges) → (cs : List (List Text)) × (detect_cycles edges ≡ some cs)
unfolding detect_cycles
detect_cycles_total edges = let (s, e) = search_total edges in (s.cycles, rw e)
