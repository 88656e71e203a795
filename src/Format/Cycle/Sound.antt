-- ===== src/Format/Cycle/Sound.antt =====
-- What the search reports: every list is a cycle of the graph.
use mathlib.Core.Option
use mathlib.Core.List.{append_assoc}
use lorelum.Prelude.{
  ℕ, zero, suc, ◌≡◌, refl, ap, List, [], ◌∷◌, ◌++◌, true, Text, contains, contains-append, arith,
  inl, inr, text_eq, text_eq_iff, text_eq_refl, Option, none, some, get, get-put, drop, Bool-cases,
  Option-cases, All, All-append, none-ne-some, some_inj, length, ◌∙◌, if◌then◌else◌,
}
use lorelum.Format.Cycle.{
  Edges, Search, Color, gray, black, start, targets, enter, leave, close, pop, slice, index_of,
  follow, follow_all, visit, visit_all, detect_cycles, nodes,
}
use lorelum.Format.Cycle.Graph.{Edge, Steps, IsCycle, Steps-suffix, Steps-prefix, Steps-extend}

pop-append : (xs : List Text) (y : Text) → pop (xs ++ y ∷ []) ≡ xs
unfolding pop
pop-append [] y = refl
pop-append (x ∷ []) y = refl
pop-append (x ∷ z ∷ xs) y = ap (◌∷◌ x) (pop-append (z ∷ xs) y)

-- From a listed node on, `index_of` and `drop` cut off what stands before it.
index_of_listed :
    (t : Text) (p : List Text)
    → contains t p ≡ true
    → (i : ℕ) × (pre : List Text) × (rest : List Text) × (index_of t p ≡ some i)
      × (p ≡ pre ++ t ∷ rest)
      × (drop i p ≡ t ∷ rest)
unfolding contains index_of
index_of_listed t [] h = absurd (ground arith)
index_of_listed t (x ∷ p) h = elim (Bool-cases (text_eq x t)) [
  | inl e ↦
      let same : x ∷ p ≡ t ∷ p = ap (λ (z : Text). z ∷ p) ((text_eq_iff x t).0 e) in
      (0, [], p, rw e, same, same)
  | inr e ↦
      let (i, pre, rest, at_i, split, cut) = index_of_listed t p (rw e at h) in
      (suc i, x ∷ pre, rest, rw (e, at_i), ap (◌∷◌ x) split, cut)
]

module _ (edges : Edges) where
  -- Closing a path at a node of it gives a cycle.
  close-IsCycle :
      (t : Text) (p : List Text)
      → contains t p ≡ true
      → Steps edges (p ++ t ∷ [])
      → IsCycle edges (slice p (index_of t p) ++ t ∷ [])
  unfolding slice
  close-IsCycle t p h steps =
      let (i, pre, rest, at_i, split, cut) = index_of_listed t p h in
      record {
        first = t;
        others = rest;
        closed = rw (at_i, slice) (ap (λ (z : List Text). z ++ t ∷ []) cut);
        steps = rw (at_i, slice) (rw cut (suffix pre rest (rw split at steps)));
      }
    where
      suffix :
          (pre rest : List Text)
          → Steps edges ((pre ++ t ∷ rest) ++ t ∷ [])
          → Steps edges (t ∷ (rest ++ t ∷ []))
      suffix pre rest s = Steps-suffix edges pre (t ∷ (rest ++ t ∷ [])) (rw append_assoc at s)

  -- The gray nodes are those of the path, which goes along edges.
  pub record Inv (s : Search) : Type 0 where
    pub gray_path : (x : Text) → get x s.color ≡ some gray → contains x s.path ≡ true
    pub steps : Steps edges s.path
    pub found : All (IsCycle edges) s.cycles

  pub start-Inv : Inv start
  unfolding get
  start-Inv = record { gray_path = λ x h. cc; steps = tt; found = tt }

  close-Inv :
      (t : Text) (s : Search)
      → Inv s
      → contains t s.path ≡ true
      → Steps edges (s.path ++ t ∷ [])
      → Inv (close t s)
  unfolding close
  close-Inv t s v h steps = record {
    gray_path = v.gray_path;
    steps = v.steps;
    found = All-append (IsCycle edges) s.cycles _ v.found (close-IsCycle t s.path h steps, tt);
  }

  enter-Inv : (n : Text) (s : Search) → Inv s → Steps edges (s.path ++ n ∷ []) → Inv (enter n s)
  unfolding enter
  enter-Inv n s v steps = record {
    gray_path = λ x h. in_path x (rw get-put at h);
    steps = steps;
    found = v.found;
  }
    where
      in_path :
          (x : Text)
          → (if text_eq n x then some gray else get x s.color) ≡ some gray
          → contains x (s.path ++ n ∷ []) ≡ true
      in_path x h =
          unfold contains in ground (arith, contains-append x s.path (n ∷ []), v.gray_path x)

  leave-Inv :
      (n : Text) (p : List Text) (s : Search)
      → Inv s
      → s.path ≡ p ++ n ∷ []
      → Inv (leave n s) × ((leave n s).path ≡ p)
  unfolding leave
  leave-Inv n p s v e = (
    record {
      gray_path = λ x h. in_path x (rw get-put at h);
      steps = rw popped (Steps-prefix edges p n (rw e at v.steps));
      found = v.found;
    },
    popped,
  )
    where
      popped : pop s.path ≡ p
      popped = rw e (pop-append p n)

      in_path :
          (x : Text)
          → (if text_eq n x then some black else get x s.color) ≡ some gray
          → contains x (pop s.path) ≡ true
      in_path x h = rw popped (
          unfold contains in
          ground (arith, contains-append x p (n ∷ []), v.gray_path x, ap (contains x) e))

  -- What a run from a node must do, if the node can be added to the path.
  abbrev pub Visits : (Text → Search → Option Search) → Type 0
  Visits v =
      (t : Text) (s s' : Search)
      → Inv s
      → Steps edges (s.path ++ t ∷ [])
      → v t s ≡ some s'
      → Inv s' × (s'.path ≡ s.path)

  follow-Inv :
      (v : Text → Search → Option Search)
      → Visits v
      → (t : Text) (s s' : Search) → Inv s
      → Steps edges (s.path ++ t ∷ [])
      → (c : Option Color) → get t s.color ≡ c
      → follow v t s c ≡ some s'
      → Inv s' × (s'.path ≡ s.path)
  unfolding follow
  follow-Inv v hv t s s' i steps (some gray) e r =
      let same : close t s ≡ s' = some_inj r in
      rw (← same) (close-Inv t s i (i.gray_path t e) steps, unfold close in refl)
  follow-Inv v hv t s s' i steps (some black) e r =
      let same : s ≡ s' = some_inj r in rw (← same) (i, refl)
  follow-Inv v hv t s s' i steps none e r = hv t s s' i steps r

  follow_all-Inv :
      (v : Text → Search → Option Search)
      → Visits v
      → (n : Text) (p ts : List Text) (s s' : Search) → Inv s
      → s.path ≡ p ++ n ∷ []
      → ((t : Text) → contains t ts ≡ true → Edge edges n t)
      → follow_all v ts s ≡ some s'
      → Inv s' × (s'.path ≡ p ++ n ∷ [])
  unfolding follow_all contains
  follow_all-Inv v hv n p [] s s' i at_n link r =
      let same : s ≡ s' = some_inj r in rw (← same) (i, at_n)
  follow_all-Inv v hv n p (t ∷ ts) s s' i at_n link r =
      elim (Option-cases (follow v t s (get t s.color))) [
        | inl e ↦ absurd (none-ne-some refl (rw (e, follow_all) at r))
        | inr (s1, e) ↦
            let (i1, p1) = follow-Inv v hv t s s1 i next (get t s.color) refl e in
            follow_all-Inv v hv n p ts s1 s' i1 (p1 ∙ at_n) (λ u h. link u (ground arith))
              (rw (e, follow_all) at r)
      ]
    where
      next : Steps edges (s.path ++ t ∷ [])
      next = rw at_n (Steps-extend edges p n t (rw at_n at i.steps) (link t (rw (text_eq_refl t))))

  pub visit-Inv : (f : ℕ) → Visits (visit edges f)
  unfolding visit
  visit-Inv zero t s s' i steps r = absurd (none-ne-some refl r)
  visit-Inv (suc f) t s s' i steps r =
      let (s1, ran, left) = (Option.map-eq-some_iff _ _).0 r in
      let (i1, p1) =
        follow_all-Inv (visit edges f) (visit-Inv f) t s.path (targets edges t) (enter t s) s1
          (enter-Inv t s i steps) (unfold enter in refl) (λ u h. h) ran in
      rw (← left) (leave-Inv t s.path s1 i1 p1)

  pub visit_all-Inv :
      (f : ℕ) (ns : List Text) (s s' : Search)
      → Inv s
      → s.path ≡ []
      → visit_all edges f ns s ≡ some s'
      → Inv s' × (s'.path ≡ [])
  unfolding visit_all
  visit_all-Inv f [] s s' i e r = let same : s ≡ s' = some_inj r in rw (← same) (i, e)
  visit_all-Inv f (n ∷ ns) s s' i top r = elim (Option-cases (get n s.color)) [
    | inl e ↦ elim (Option-cases (visit edges f n s)) [
      | inl e1 ↦ absurd (none-ne-some refl (rw (e1, visit_all) at (rw (e, visit_all) at r)))
      | inr (s1, e1) ↦
          let (i1, p1) = visit-Inv f n s s1 i (rw top tt) e1 in
          visit_all-Inv f ns s1 s' i1 (p1 ∙ top) (rw (e1, visit_all) at (rw (e, visit_all) at r))
    ]
    | inr (c, e) ↦ visit_all-Inv f ns s s' i top (rw (e, visit_all) at r)
  ]

-- Every list that cycle detection reports begins and ends with one node and goes from each node to
-- the next along an edge of the graph.
pub detect_cycles_sound :
    (edges : Edges) (cs : List (List Text)) → detect_cycles edges ≡ some cs → All (IsCycle edges) cs
unfolding detect_cycles
detect_cycles_sound edges cs r =
    let (s, ran, found) = (Option.map-eq-some_iff _ _).0 r in
    rw (← found) (
      (visit_all-Inv edges (suc (length (nodes edges))) _ start s (start-Inv edges) refl
        ran).0.found)
