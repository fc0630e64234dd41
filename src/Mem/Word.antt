-- ===== src/Mem/Word.antt =====
-- unsigned long of the allocators of src/core/mem, on a machine with 64 bits.
use opensips_ng.Prelude.{ℕ, ◌+◌, ◌-◌, ◌*◌, ◌/◌, ◌%◌, ◌^◌}

abbrev pub u64_mod : ℕ
u64_mod = 2 ^ 64

abbrev pub add64 : ℕ → ℕ → ℕ
add64 a b = (a + b) % u64_mod

abbrev pub sub64 : ℕ → ℕ → ℕ
sub64 a b = (a + u64_mod - b) % u64_mod

-- ROUNDTO.
abbrev pub round_to : ℕ
round_to = 8

-- ROUNDUP: `((s)+(ROUNDTO-1)) & ROUNDTO_MASK`.
abbrev pub round_up : ℕ → ℕ
round_up s = add64 s 7 / round_to * round_to

-- ROUNDDOWN.
abbrev pub round_down : ℕ → ℕ
round_down s = s / round_to * round_to
