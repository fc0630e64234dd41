-- ===== src/Parser/Memory.antt =====
-- Memory as the parsers see it: a byte at each address, and strings as addresses and lengths.
use opensips_ng.Prelude.{ℕ, ◌≤◌, ◌<◌, ◌≡◌, Bool, ◌||◌, ◌==◌}

-- The byte at an address.
abbrev pub Memory : Type 0
Memory = ℕ → ℕ

-- `str` of src/core/str.h.
pub record Text : Type 0 where
  pub s : ℕ
  pub len : ℕ

-- ' ', '\t', '\r', '\n'.
abbrev pub is_white : ℕ → Bool
is_white c = c == 32 || (c == 9 || (c == 13 || c == 10))

-- Two memories hold the same bytes from `s` up to `e`.
abbrev pub SameOn : ℕ → ℕ → Memory → Memory → Type 0
SameOn s e mem mem' = (i : ℕ) → s ≤ i → i < e → mem i ≡ mem' i
