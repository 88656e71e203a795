-- ===== src/Format/Cycle/Complete.antt =====
-- What the search leaves out: where it reports nothing, the finished nodes stand in an order in
-- which every edge leads to an earlier one, so that the graph has no cycle.
use mathlib.Core.Option
use lorelum.Prelude.{
  ℕ, zero, suc, ◌≡◌, ◌≢◌, ◌↔◌, refl, ap, ◌∙◌, List, [], ◌∷◌, ◌++◌, true, Text, contains, arith, inl,
  inr, text_eq, text_eq_iff, text_eq_refl, Option, none, some, get, get-put, get_unlisted, keys,
  length, Bool-cases, Option-cases, none-ne-some, some_inj, if◌then◌else◌, ◌||◌, All,
}
use lorelum.Format.Cycle.{
  Edges, Search, Color, gray, black, start, targets, enter, leave, close, follow, follow_all, visit,
  visit_all, detect_cycles, nodes,
}
use lorelum.Format.Cycle.Graph.{Edge, Walk, one, more, IsAcyclic, IsCycle, IsCycle-Walk}
use lorelum.Format.Cycle.Sound.{Inv, start-Inv, visit-Inv, detect_cycles_sound}
use lorelum.Format.Cycle.Total.{detect_cycles_total}

append-ne-nil {ℓ} : {A : Type ℓ} (xs : List A) (y : A) → (xs ++ y ∷ []) ≢ []
append-ne-nil [] y e = cc
append-ne-nil (x ∷ xs) y e = cc

module _ (edges : Edges) where
  -- The nodes in the order in which they were finished, the last one first.
  abbrev IsOrdered : List Text → Type 0
  IsOrdered [] = Unit
  IsOrdered (n ∷ done) =
      ((t : Text) → contains t (targets edges n) ≡ true → contains t done ≡ true) × IsOrdered done

  step_ordered :
      (done : List Text) (x y : Text)
      → IsOrdered done
      → contains x done ≡ true
      → Edge edges x y
      → contains y done ≡ true
  unfolding contains
  step_ordered [] x y o h e = ground arith
  step_ordered (n ∷ done) x y (all_in, o) h e = elim (Bool-cases (text_eq n x)) [
    | inl same ↦ ground (arith, all_in y (rw ((text_eq_iff n x).0 same) e))
    | inr other ↦ ground (arith, step_ordered done x y o (rw other at h) e)
  ]

  Walk-ordered :
      (done : List Text) (x y : Text)
      → IsOrdered done
      → contains x done ≡ true
      → Walk edges x y
      → contains y done ≡ true
  Walk-ordered done x y o h (one e) = step_ordered done x y o h e
  Walk-ordered done x y o h (more {y = z} e w) =
      Walk-ordered done z y o (step_ordered done x z o h e) w

  -- A closed walk from the first node comes back to a later one.
  Walk-below :
      (done : List Text) (n x : Text)
      → IsOrdered (n ∷ done)
      → Walk edges n x
      → contains x done ≡ true
  Walk-below done n x (all_in, o) (one e) = all_in x e
  Walk-below done n x (all_in, o) (more {y = z} e w) = Walk-ordered done z x o (all_in z e) w

  ordered_acyclic :
      (done : List Text) (x : Text) → IsOrdered done → contains x done ≡ true → ¬ Walk edges x x
  unfolding contains
  ordered_acyclic [] x o h w = ground arith
  ordered_acyclic (n ∷ done) x o h w = elim (Bool-cases (text_eq n x)) [
    | inl same ↦
        let e : n ≡ x = (text_eq_iff n x).0 same in
        ordered_acyclic done x o.1 (Walk-below done x x (rw (← e) o) w) w
    | inr other ↦ ordered_acyclic done x o.1 (rw other at h) w
  ]

  -- The finished nodes are the black ones.
  record Done (s : Search) (done : List Text) : Type 0 where
    black_done : (x : Text) → get x s.color ≡ some black → contains x done ≡ true
    done_black : (x : Text) → contains x done ≡ true → get x s.color ≡ some black
    ordered : IsOrdered done

  start-Done : Done start []
  unfolding get contains
  start-Done = record { black_done = λ x h. cc; done_black = λ x h. cc; ordered = tt }

  abbrev Within : List Text → List Text → Type 0
  Within d d' = (x : Text) → contains x d ≡ true → contains x d' ≡ true

  -- What holds after a run from `s` to `s'` that reports nothing.
  abbrev Grows : List Text → Search → (List Text → Type 0) → Type 0
  Grows d s' P = (d' : List Text) × Done s' d' × Within d d' × P d'

  -- Reports are never taken back.
  abbrev Keeps : Search → Search → Type 0
  Keeps s s' = s'.cycles ≡ [] → s.cycles ≡ []

  enter-Done :
      (n : Text) (s : Search) (d : List Text) → get n s.color ≡ none → Done s d → Done (enter n s) d
  unfolding enter
  enter-Done n s d w v = record {
    black_done = λ x h. b_d x (rw get-put at h);
    done_black = λ x h. rw get-put (d_b x h);
    ordered = v.ordered;
  }
    where
      b_d :
          (x : Text)
          → (if text_eq n x then some gray else get x s.color) ≡ some black
          → contains x d ≡ true
      b_d x h = ground (arith, v.black_done x)

      d_b :
          (x : Text)
          → contains x d ≡ true
          → (if text_eq n x then some gray else get x s.color) ≡ some black
      d_b x h = ground (arith, v.done_black x h, text_eq_iff n x)

  leave-Done :
      (n : Text) (s : Search) (d : List Text)
      → ((t : Text) → contains t (targets edges n) ≡ true → contains t d ≡ true)
      → Done s d
      → Done (leave n s) (n ∷ d)
  unfolding leave contains
  leave-Done n s d all_in v = record {
    black_done = λ x h. b_d x (rw get-put at h);
    done_black = λ x h. rw get-put (d_b x h);
    ordered = (all_in, v.ordered);
  }
    where
      b_d :
          (x : Text)
          → (if text_eq n x then some black else get x s.color) ≡ some black
          → (text_eq n x || contains x d) ≡ true
      b_d x h = ground (arith, v.black_done x)

      d_b :
          (x : Text)
          → (text_eq n x || contains x d) ≡ true
          → (if text_eq n x then some black else get x s.color) ≡ some black
      d_b x h = ground (arith, v.done_black x)

  -- A run from `s` to `s'`, after which each of the nodes `ts` is finished if nothing is reported.
  abbrev Run : Search → Search → List Text → Type 0
  Run s s' ts =
      Keeps s s'
      × ((d : List Text)
          → s'.cycles ≡ []
          → Done s d
          → Grows d s' (λ d'. (t : Text) → contains t ts ≡ true → contains t d' ≡ true))

  -- The same for one node.
  abbrev RunOne : Search → Search → Text → Type 0
  RunOne s s' t =
      Keeps s s'
      × ((d : List Text) → s'.cycles ≡ [] → Done s d → Grows d s' (λ d'. contains t d' ≡ true))

  Run-none : (s s' : Search) → s ≡ s' → Run s s' []
  unfolding contains
  Run-none s s' same =
      (λ e. rw same e, λ d e i. (d, rw (← same) i, λ x h. h, λ t h. absurd (ground arith)))

  Run-cons :
      (s s1 s2 : Search) (t : Text) (ts : List Text)
      → RunOne s s1 t
      → Run s1 s2 ts
      → Run s s2 (t ∷ ts)
  unfolding contains
  Run-cons s s1 s2 t ts (k1, g1) (k2, g2) = (
    λ z. k1 (k2 z),
    λ d z i.
        let (d1, i1, sub1, in1) = g1 d (k2 z) i in
        let (d2, i2, sub2, in2) = g2 d1 z i1 in
        (d2, i2, λ x h. sub2 x (sub1 x h), λ u h. listed d2 (sub2 t in1) in2 u h),
  )
    where
      listed :
          (d2 : List Text)
          → contains t d2 ≡ true
          → ((u : Text) → contains u ts ≡ true → contains u d2 ≡ true)
          → (u : Text) → (text_eq t u || contains u ts) ≡ true
          → contains u d2 ≡ true
      listed d2 here later u h = elim (Bool-cases (text_eq t u)) [
        | inl e ↦ rw (← (text_eq_iff t u).0 e) here
        | inr e ↦ later u (rw e at h)
      ]

  abbrev Visits : (Text → Search → Option Search) → Type 0
  Visits v = (t : Text) (s s' : Search) → get t s.color ≡ none → v t s ≡ some s' → RunOne s s' t

  follow_done :
      (v : Text → Search → Option Search)
      → Visits v
      → (t : Text) (s s' : Search) (c : Option Color) → get t s.color ≡ c
      → follow v t s c ≡ some s'
      → RunOne s s' t
  unfolding follow close
  follow_done v hv t s s' (some gray) w r =
      let same : close t s ≡ s' = some_inj r in
      let never : s'.cycles ≢ [] = rw (← same) (append-ne-nil s.cycles _) in
      (λ e. absurd (never e), λ d e i. absurd (never e))
  follow_done v hv t s s' (some black) w r =
      let same : s ≡ s' = some_inj r in
      (λ e. rw same e, λ d e i. (d, rw (← same) i, λ x h. h, i.black_done t w))
  follow_done v hv t s s' none w r = hv t s s' w r

  follow_all_done :
      (v : Text → Search → Option Search)
      → Visits v
      → (ts : List Text) (s s' : Search) → follow_all v ts s ≡ some s'
      → Run s s' ts
  unfolding follow_all
  follow_all_done v hv [] s s' r = Run-none s s' (some_inj r)
  follow_all_done v hv (t ∷ ts) s s' r = elim (Option-cases (follow v t s (get t s.color))) [
    | inl e ↦ absurd (none-ne-some refl (rw (e, follow_all) at r))
    | inr (s1, e) ↦
        Run-cons s s1 s' t ts (follow_done v hv t s s1 (get t s.color) refl e)
          (follow_all_done v hv ts s1 s' (rw (e, follow_all) at r))
  ]

  finish :
      (t : Text) (s s1 : Search)
      → get t s.color ≡ none
      → Run (enter t s) s1 (targets edges t)
      → RunOne s (leave t s1) t
  unfolding contains
  finish t s s1 w (k, g) = (
    λ e. unfold enter in k (unfold leave in e),
    λ d e i.
        let (d1, i1, sub, all_in) = g d (same_cycles e) (enter-Done t s d w i) in
        (t ∷ d1, leave-Done t s1 d1 all_in i1, λ x h. ground (arith, sub x h), rw (text_eq_refl t)),
  )
    where
      same_cycles : (leave t s1).cycles ≡ [] → s1.cycles ≡ []
      same_cycles e = unfold leave in e

  visit_done : (f : ℕ) → Visits (visit edges f)
  unfolding visit
  visit_done zero t s s' w r = absurd (none-ne-some refl r)
  visit_done (suc f) t s s' w r =
      let (s1, ran, left) = (Option.map-eq-some_iff _ _).0 r in
      let inner =
        follow_all_done (visit edges f) (visit_done f) (targets edges t) (enter t s) s1 ran in
      rw (← left) (finish t s s1 w inner)

  -- At the top level the path is empty, so no node is gray.
  colored_done :
      (n : Text) (s : Search) (c : Color)
      → Inv edges s
      → s.path ≡ []
      → get n s.color ≡ some c
      → RunOne s s n
  unfolding contains
  colored_done n s gray v top w = absurd (ground (arith, v.gray_path n w, ap (contains n) top))
  colored_done n s black v top w = (λ e. e, λ d e i. (d, i, λ x h. h, i.black_done n w))

  visit_all_done :
      (f : ℕ) (ns : List Text) (s s' : Search)
      → visit_all edges f ns s ≡ some s'
      → Inv edges s
      → s.path ≡ []
      → Run s s' ns
  unfolding visit_all
  visit_all_done f [] s s' r v top = Run-none s s' (some_inj r)
  visit_all_done f (n ∷ ns) s s' r v top = elim (Option-cases (get n s.color)) [
    | inl e ↦ elim (Option-cases (visit edges f n s)) [
      | inl e1 ↦ absurd (none-ne-some refl (rw (e1, visit_all) at (rw (e, visit_all) at r)))
      | inr (s1, e1) ↦
          let (v1, p1) = visit-Inv edges f n s s1 v (rw top tt) e1 in
          Run-cons s s1 s' n ns (visit_done f n s s1 e e1) (
            visit_all_done f ns s1 s' (rw (e1, visit_all) at (rw (e, visit_all) at r)) v1
              (p1 ∙ top))
    ]
    | inr (c, e) ↦
        Run-cons s s s' n ns (colored_done n s c v top e)
          (visit_all_done f ns s s' (rw (e, visit_all) at r) v top)
  ]

  -- A node with an edge is a key.
  Edge-from_key : (x y : Text) → Edge edges x y → contains x (keys edges) ≡ true
  unfolding targets
  Edge-from_key x y e = elim (Bool-cases (contains x (keys edges))) [
    | inl listed ↦ listed
    | inr missing ↦ absurd (unfold contains in ground (arith, get_unlisted x edges missing))
  ]

  Walk-from_key : (x y : Text) → Walk edges x y → contains x (keys edges) ≡ true
  Walk-from_key x y (one e) = Edge-from_key x y e
  Walk-from_key x y (more {y = z} e w) = Edge-from_key x z e

  nothing_reported : detect_cycles edges ≡ some [] → IsAcyclic edges
  unfolding detect_cycles
  nothing_reported r x w =
      let (s, ran, found) = (Option.map-eq-some_iff _ _).0 r in
      let (k, g) =
        visit_all_done (suc (length (nodes edges))) (keys edges) start s ran (start-Inv edges)
          refl in
      let (d, v, sub, all_in) = g [] found start-Done in
      ordered_acyclic d x v.ordered (all_in x (Walk-from_key x x w)) w

  nothing_to_report : IsAcyclic edges → detect_cycles edges ≡ some []
  nothing_to_report acyclic =
      let (cs, r) = detect_cycles_total edges in only cs r (detect_cycles_sound edges cs r)
    where
      only :
          (cs : List (List Text))
          → detect_cycles edges ≡ some cs
          → All (IsCycle edges) cs
          → detect_cycles edges ≡ some []
      only [] r h = r
      only (c ∷ cs) r h = let (x, w) = IsCycle-Walk edges h.0 in absurd (acyclic x w)

-- Cycle detection reports no cycle exactly when the graph has none: no way along edges leads from
-- a node back to itself.
pub detect_cycles_complete : (edges : Edges) → (detect_cycles edges ≡ some []) ↔ IsAcyclic edges
detect_cycles_complete edges = (nothing_reported edges, nothing_to_report edges)
