-- ===== src/Prelude/Counts.antt =====
-- How often a number stands on a list.
use Prim.Native.Nat.{ℕ, ◌+◌}
use mathlib.Core.Bool.{Bool}
use mathlib.Core.List.{List, [], ◌∷◌}
use opensips_ng.Prelude.Tests.{◌==◌, if◌then◌else◌}

abbrev pub bit : Bool → ℕ
bit b = if b then 1 else 0

abbrev pub count : ℕ → List ℕ → ℕ
count a [] = 0
count a (b ∷ bs) = bit (b == a) + count a bs
