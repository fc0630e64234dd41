-- ===== src/Map/Key.antt =====
-- src/core/map.c: `str_cmp`, the order of the keys.
use Prim.Native.Nat.{compare, Ordering}
use Prim.Native.Nat.Ordering.{lt, eq, gt}
use opensips_ng.Prelude.{
  ℕ, zero, suc, ◌<◌, ◌≡◌, refl, sym, ◌∙◌, List, [], ◌∷◌, arith, ltb, ◌==◌, if◌then◌else◌, length,
}

-- The bytes of a `str`, as unsigned char.
abbrev pub Str : Type 0
Str = List ℕ

-- The C library's strncmp: at most `n` bytes, up to a NUL in both.
strncmp : ℕ → Str → Str → Ordering
strncmp zero s t = eq
strncmp (suc n) (a ∷ s) (b ∷ t) =
    if a == b then (if a == 0 then eq else strncmp n s t) else compare a b
strncmp (suc n) s t = eq

-- The macro `min`.
abbrev min : ℕ → ℕ → ℕ
min a b = if ltb a b then a else b

-- The sign of the result.
unfoldable pub str_cmp : Str → Str → Ordering
unfolding strncmp
str_cmp s t = elim (strncmp (min (length s) (length t)) s t) [
  | eq ↦ compare (length s) (length t)
  | lt ↦ lt
  | gt ↦ gt
]

min-suc : (a b : ℕ) → min (suc a) (suc b) ≡ suc (min a b)
min-suc a b = ground arith

str_cmp-nil : (t : Str) → str_cmp [] t ≡ compare 0 (length t)
unfolding str_cmp
str_cmp-nil [] = refl
str_cmp-nil (x ∷ t) = ground arith

str_cmp_of_nil : (t : Str) → str_cmp t [] ≡ compare (length t) 0
unfolding str_cmp
str_cmp_of_nil [] = refl
str_cmp_of_nil (x ∷ t) = ground arith

str_cmp-cons :
    (a b : ℕ) (s t : Str)
    → str_cmp (a ∷ s) (b ∷ t) ≡ (
        if a == b
        then (if a == 0 then compare (length s) (length t) else str_cmp s t)
        else compare a b)
unfolding str_cmp
str_cmp-cons a b s t = rw (min-suc (length s) (length t), str_cmp) (ground arith)

-- Equal keys have one length.
length_of_cmp : (s t : Str) → str_cmp s t ≡ eq → length s ≡ length t
unfolding str_cmp
length_of_cmp s t h = ground arith

pub cmp_refl : (s : Str) → str_cmp s s ≡ eq
cmp_refl [] = rw str_cmp-nil (ground arith)
cmp_refl (a ∷ s) = ground (arith, str_cmp-cons a a s s, cmp_refl s)

-- Exchanging the arguments turns the sign round.
pub gt_of_lt : (s t : Str) → str_cmp s t ≡ lt → str_cmp t s ≡ gt
gt_of_lt [] t h = ground (arith, str_cmp-nil t, str_cmp_of_nil t)
gt_of_lt (a ∷ s) [] h = ground (arith, str_cmp-nil (a ∷ s), str_cmp_of_nil (a ∷ s))
gt_of_lt (a ∷ s) (b ∷ t) h =
    ground (arith, str_cmp-cons a b s t, str_cmp-cons b a t s, gt_of_lt s t)

pub lt_of_gt : (s t : Str) → str_cmp s t ≡ gt → str_cmp t s ≡ lt
lt_of_gt [] t h = ground (arith, str_cmp-nil t, str_cmp_of_nil t)
lt_of_gt (a ∷ s) [] h = ground (arith, str_cmp-nil (a ∷ s), str_cmp_of_nil (a ∷ s))
lt_of_gt (a ∷ s) (b ∷ t) h =
    ground (arith, str_cmp-cons a b s t, str_cmp-cons b a t s, lt_of_gt s t)

-- The order is transitive, also where keys hold NUL bytes.
pub lt_trans : (r s t : Str) → str_cmp r s ≡ lt → str_cmp s t ≡ lt → str_cmp r t ≡ lt
lt_trans [] s t h k = ground (arith, str_cmp-nil s, str_cmp-nil t, str_cmp_of_nil s, nil_lt s t)
  where
    nil_lt : (s t : Str) → str_cmp s t ≡ lt → 0 < length s → 0 < length t
    nil_lt s [] h p = ground (arith, str_cmp_of_nil s)
    nil_lt s (b ∷ t) h p = ground arith
lt_trans (a ∷ r) [] t h k = ground (arith, str_cmp_of_nil (a ∷ r))
lt_trans (a ∷ r) (b ∷ s) [] h k = ground (arith, str_cmp_of_nil (b ∷ s))
lt_trans (a ∷ r) (b ∷ s) (c ∷ t) h k =
    ground (arith, str_cmp-cons a b r s, str_cmp-cons b c s t, str_cmp-cons a c r t, lt_trans r s t)

-- Keys that compare equal compare alike with every key.
pub cmp_congr : (r s t : Str) → str_cmp r s ≡ eq → str_cmp r t ≡ str_cmp s t
cmp_congr [] [] t h = refl
cmp_congr [] (b ∷ s) t h = ground (arith, length_of_cmp [] (b ∷ s))
cmp_congr (a ∷ r) [] t h = ground (arith, length_of_cmp (a ∷ r) [])
cmp_congr (a ∷ r) (b ∷ s) [] h =
    ground (arith, length_of_cmp (a ∷ r) (b ∷ s), str_cmp_of_nil (a ∷ r), str_cmp_of_nil (b ∷ s))
cmp_congr (a ∷ r) (b ∷ s) (c ∷ t) h = ground (
  arith,
  str_cmp-cons a b r s,
  str_cmp-cons b c s t,
  str_cmp-cons a c r t,
  length_of_cmp r s,
  cmp_congr r s t,
)

pub eq_symm : (s t : Str) → str_cmp s t ≡ eq → str_cmp t s ≡ eq
eq_symm s t h = sym (cmp_congr s t s h) ∙ cmp_refl s
