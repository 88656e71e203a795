-- ===== src/Prelude/Numbered.antt =====
-- Processes and files that are told by numbers: lists of the numbers, and maps from all of them.
use Prim.Native.Nat.{ℕ}
use mathlib.Core.Bool.{Bool}
use mathlib.Core.List.{List}
use lorelum.Prelude.Tests.{◌==◌, if◌then◌else◌}
use lorelum.Prelude.Lists.{any}

unfoldable pub listed : ℕ → List ℕ → Bool
listed n ns = any (λ k. k == n) ns

abbrev pub set {ℓ} : {A : Type ℓ} → ℕ → A → (ℕ → A) → ℕ → A
set n v f k = if k == n then v else f k
