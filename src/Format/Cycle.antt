-- ===== src/Format/Cycle.antt =====
-- packages/format/src/validate/cycle.ts: three-colour depth-first search for cycles.
-- A node with no colour is white. `visit` takes fuel; `none` means that it ran out.
pub mod Graph
pub mod Total
pub mod Sound
pub mod Complete
mod Tests
use mathlib.Core.Option
use lorelum.Prelude.{
  ℕ, zero, suc, ◌+◌, List, [], ◌∷◌, ◌++◌, Option, none, some, Text, text_eq, get, put, keys, length,
  drop, map, if◌then◌else◌,
}

pub data Color : Type 0 where
  gray black : Color

-- `edges`: node id → the ids that it points to.
abbrev pub Edges : Type 0
Edges = List (Text × List Text)

-- The variables that `visit` closes over.
pub record Search : Type 0 where
  pub color : List (Text × Color)
  pub path : List Text
  pub cycles : List (List Text)

abbrev pub start : Search
start = record { color = []; path = []; cycles = [] }

-- A missing key is a leaf.
unfoldable pub targets : Edges → Text → List Text
targets edges node = elim (get node edges) [ none ↦ [] | some ts ↦ ts ]

-- `path.indexOf(target)`; `none` stands for -1.
pub index_of : Text → List Text → Option ℕ
index_of t [] = none
index_of t (x ∷ xs) = if text_eq x t then some 0 else Option.map suc (index_of t xs)

pub last : List Text → List Text
last [] = []
last (x ∷ []) = x ∷ []
last (x ∷ y ∷ ys) = last (y ∷ ys)

-- `path.slice(start)`; a start of -1 keeps the last element only.
pub slice : List Text → Option ℕ → List Text
slice path none = last path
slice path (some i) = drop i path

-- `path.pop()`
pub pop : List Text → List Text
pop [] = []
pop (x ∷ []) = []
pop (x ∷ y ∷ ys) = x ∷ pop (y ∷ ys)

pub enter : Text → Search → Search
enter node s = record s { color = put node gray s.color; path = s.path ++ node ∷ [] }

pub leave : Text → Search → Search
leave node s = record s { path = pop s.path; color = put node black s.color }

pub close : Text → Search → Search
close target s = record s {
  cycles = s.cycles ++ (slice s.path (index_of target s.path) ++ target ∷ []) ∷ [];
}

-- The body of the loop over the targets, by the target's colour.
pub follow : (Text → Search → Option Search) → Text → Search → Option Color → Option Search
follow visit target s (some gray) = some (close target s)
follow visit target s none = visit target s
follow visit target s (some black) = some s

pub follow_all : (Text → Search → Option Search) → List Text → Search → Option Search
follow_all visit [] s = some s
follow_all visit (t ∷ ts) s = elim (follow visit t s (get t s.color)) [
  | none ↦ none
  | some s' ↦ follow_all visit ts s'
]

pub visit : Edges → ℕ → Text → Search → Option Search
visit edges zero node s = none
visit edges (suc f) node s =
    Option.map (leave node) (follow_all (visit edges f) (targets edges node) (enter node s))

-- The loop over `edges.keys()`.
pub visit_all : Edges → ℕ → List Text → Search → Option Search
visit_all edges f [] s = some s
visit_all edges f (n ∷ ns) s = elim (get n s.color) [
  | some c ↦ visit_all edges f ns s
  | none ↦ elim (visit edges f n s) [ none ↦ none | some s' ↦ visit_all edges f ns s' ]
]

pub all_targets : Edges → List Text
all_targets [] = []
all_targets ((node, ts) ∷ edges) = ts ++ all_targets edges

-- Every node that the search can meet.
pub nodes : Edges → List Text
nodes edges = keys edges ++ all_targets edges

-- The nodes are fuel enough: no two nested visits are of one node.
unfoldable pub detect_cycles : Edges → Option (List (List Text))
unfolding visit_all visit follow_all follow close leave enter pop slice last index_of targets nodes
    all_targets
detect_cycles edges =
    Option.map (λ s. s.cycles) (visit_all edges (suc (length (nodes edges))) (keys edges) start)
