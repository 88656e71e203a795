-- ===== src/Format/Cycle/Tests.antt =====
-- Runs of the cycle detection, and its theorems at concrete graphs.
use lorelum.Prelude.{◌≡◌, refl, ◌↔◌, List, [], ◌∷◌, Text, units, some, text_eq, get, put, All}
use lorelum.Format.Cycle.{Edges, detect_cycles}
use lorelum.Format.Cycle.Graph.{IsAcyclic, IsCycle}
use lorelum.Format.Cycle.Total.{detect_cycles_total}
use lorelum.Format.Cycle.Sound.{detect_cycles_sound}
use lorelum.Format.Cycle.Complete.{detect_cycles_complete}

abbrev a : Text
a = units "a"

abbrev b : Text
b = units "b"

abbrev c : Text
c = units "c"

-- a → b → c → b, and c → a.
abbrev looped : Edges
looped = (a, b ∷ []) ∷ (b, c ∷ []) ∷ (c, b ∷ a ∷ []) ∷ []

-- a → b, a → c, b → c.
abbrev layered : Edges
layered = (a, b ∷ c ∷ []) ∷ (b, c ∷ []) ∷ []

run : Unit {0}
unfolding detect_cycles text_eq get put
run = tt

looped_cycles : detect_cycles looped ≡ some ((b ∷ c ∷ b ∷ []) ∷ (a ∷ b ∷ c ∷ a ∷ []) ∷ [])
unfolding run
looped_cycles = refl

layered_cycles : detect_cycles layered ≡ some []
unfolding run
layered_cycles = refl

detect_cycles_total_example : (cs : List (List Text)) × (detect_cycles looped ≡ some cs)
detect_cycles_total_example = detect_cycles_total looped

detect_cycles_sound_example : All (IsCycle looped) ((b ∷ c ∷ b ∷ []) ∷ (a ∷ b ∷ c ∷ a ∷ []) ∷ [])
detect_cycles_sound_example = detect_cycles_sound looped _ looped_cycles

detect_cycles_complete_example : (detect_cycles layered ≡ some []) ↔ IsAcyclic layered
detect_cycles_complete_example = detect_cycles_complete layered
