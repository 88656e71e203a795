-- ===== src/Format/Cycle/Graph.antt =====
-- Edges, walks and cycles of the graph, described without the search.
use lorelum.Prelude.{◌≡◌, List, [], ◌∷◌, ◌++◌, true, Text, contains}
use lorelum.Format.Cycle.{Edges, targets}

module _ (edges : Edges) where
  abbrev pub Edge : Text → Text → Type 0
  Edge x y = contains y (targets edges x) ≡ true

  -- A way along one or more edges.
  pub data Walk : Text → Text → Type 0 where
    one : {x y : Text} → Edge x y → Walk x y
    more : {x y z : Text} → Edge x y → Walk y z → Walk x z

  abbrev pub IsAcyclic : Type 0
  IsAcyclic = (x : Text) → ¬ Walk x x

  -- Each node of the list has an edge to the next.
  abbrev pub Steps : List Text → Type 0
  Steps [] = Unit
  Steps (x ∷ []) = Unit
  Steps (x ∷ y ∷ ys) = Edge x y × Steps (y ∷ ys)

  -- A node, others, and the same node again, each with an edge to the next.
  pub record IsCycle (c : List Text) : Type 0 where
    pub first : Text
    pub others : List Text
    pub closed : c ≡ first ∷ (others ++ first ∷ [])
    pub steps : Steps c

  pub Steps-suffix : (pre xs : List Text) → Steps (pre ++ xs) → Steps xs
  Steps-suffix [] xs h = h
  Steps-suffix (x ∷ []) [] h = tt
  Steps-suffix (x ∷ []) (y ∷ ys) h = h.1
  Steps-suffix (x ∷ y ∷ pre) xs h = Steps-suffix (y ∷ pre) xs h.1

  pub Steps-prefix : (xs : List Text) (y : Text) → Steps (xs ++ y ∷ []) → Steps xs
  Steps-prefix [] y h = tt
  Steps-prefix (x ∷ []) y h = tt
  Steps-prefix (x ∷ z ∷ xs) y h = (h.0, Steps-prefix (z ∷ xs) y h.1)

  -- A list of steps goes on along an edge from its last node.
  pub Steps-extend :
      (xs : List Text) (y z : Text)
      → Steps (xs ++ y ∷ [])
      → Edge y z
      → Steps ((xs ++ y ∷ []) ++ z ∷ [])
  Steps-extend [] y z h e = (e, tt)
  Steps-extend (x ∷ []) y z h e = (h.0, (e, tt))
  Steps-extend (x ∷ w ∷ xs) y z h e = (h.0, Steps-extend (w ∷ xs) y z h.1 e)

  pub Steps-Walk : (x : Text) (ys : List Text) (z : Text) → Steps (x ∷ (ys ++ z ∷ [])) → Walk x z
  Steps-Walk x [] z h = one h.0
  Steps-Walk x (y ∷ ys) z h = more h.0 (Steps-Walk y ys z h.1)

  pub IsCycle-Walk : {c : List Text} → IsCycle c → (x : Text) × Walk x x
  IsCycle-Walk v =
      let s : Steps (v.first ∷ (v.others ++ v.first ∷ [])) = subst_steps v.closed v.steps in
      (v.first, Steps-Walk v.first v.others v.first s)
    where
      subst_steps : {a b : List Text} → a ≡ b → Steps a → Steps b
      subst_steps e h = rw e at h
