-- ===== src/Parser/Trim.antt =====
-- src/core/trim.h: `trim_leading`, `trim_trailing`, `trim`.
use mathlib.Core.Path.{subst}
use opensips_ng.Prelude.{
  ℕ, zero, suc, ◌+◌, ◌-◌, ◌≤◌, ◌<◌, ◌≡◌, refl, true, false, inl, inr, arith, ◌==◌, ==_iff,
  if◌then◌else◌, Bool-cases,
}
use opensips_ng.Parser.Memory.{Memory, Text, is_white}

-- The loops run while `len` is positive.
unfoldable pub trim_leading_from : Memory → ℕ → ℕ → Text
trim_leading_from mem s zero = record { s = s; len = 0 }
trim_leading_from mem s (suc n) =
    let rest = trim_leading_from mem (s + 1) n in
    if is_white (mem s) then rest else record { s = s; len = suc n }

unfoldable pub trim_leading : Memory → Text → Text
unfolding trim_leading_from
trim_leading mem t = trim_leading_from mem t.s t.len

unfoldable pub trim_trailing_len : Memory → ℕ → ℕ → ℕ
trim_trailing_len mem s zero = 0
trim_trailing_len mem s (suc n) =
    let rest = trim_trailing_len mem s n in if is_white (mem (s + n)) then rest else suc n

unfoldable pub trim_trailing : Memory → Text → Text
unfolding trim_trailing_len
trim_trailing mem t = record t { len = trim_trailing_len mem t.s t.len }

unfoldable pub trim : Memory → Text → Text
unfolding trim_leading trim_trailing
trim mem t = trim_trailing mem (trim_leading mem t)

-- `u` is `t` without white space at its start.
pub record LeadTrimmed (mem : Memory) (s len : ℕ) (u : Text) : Type 0 where
  pub later : s ≤ u.s
  pub same_end : u.s + u.len ≡ s + len
  pub skipped : (i : ℕ) → s ≤ i → i < u.s → is_white (mem i) ≡ true
  pub starts : 0 < u.len → is_white (mem u.s) ≡ false

white_from :
    (mem : Memory) (s i : ℕ)
    → is_white (mem s) ≡ true
    → s ≤ i
    → (s + 1 ≤ i → is_white (mem i) ≡ true)
    → is_white (mem i) ≡ true
white_from mem s i e a later = elim (Bool-cases (s == i)) [
  | inl same ↦ subst (λ j. is_white (mem j) ≡ true) ((==_iff s i).0 same) e
  | inr other ↦ later (ground arith)
]

pub trim_leading_from-LeadTrimmed :
    (mem : Memory) (s n : ℕ) → LeadTrimmed mem s n (trim_leading_from mem s n)
unfolding trim_leading_from
trim_leading_from-LeadTrimmed mem s zero = record {
  later = omega arith;
  same_end = refl;
  skipped = λ i a b. absurd (omega arith);
  starts = λ h. elim h [ ];
}
trim_leading_from-LeadTrimmed mem s (suc n) = elim (Bool-cases (is_white (mem s))) [
  | inl e ↦
      let r = trim_leading_from-LeadTrimmed mem (s + 1) n in
      rw e (record {
        later = omega (arith, r.later);
        same_end = omega (arith, r.same_end);
        skipped = λ i a b. white_from mem s i e a (λ c. r.skipped i c b);
        starts = r.starts;
      })
  | inr e ↦ rw e (record {
    later = omega arith;
    same_end = refl;
    skipped = λ i a b. absurd (omega arith);
    starts = λ h. e;
  })
]

-- `len` is what is left of `n` bytes from `s` without white space at their end.
pub record TailTrimmed (mem : Memory) (s n len : ℕ) : Type 0 where
  pub shorter : len ≤ n
  pub skipped : (i : ℕ) → s + len ≤ i → i < s + n → is_white (mem i) ≡ true
  pub ends : 0 < len → is_white (mem (s + len - 1)) ≡ false

trim_trailing_len-TailTrimmed :
    (mem : Memory) (s n : ℕ) → TailTrimmed mem s n (trim_trailing_len mem s n)
unfolding trim_trailing_len
trim_trailing_len-TailTrimmed mem s zero = record {
  shorter = omega arith;
  skipped = λ i a b. absurd (omega arith);
  ends = λ h. elim h [ ];
}
trim_trailing_len-TailTrimmed mem s (suc n) = elim (Bool-cases (is_white (mem (s + n)))) [
  | inl e ↦
      let r = trim_trailing_len-TailTrimmed mem s n in
      rw e (record {
        shorter = omega (arith, r.shorter);
        skipped = λ i a b. elim (Bool-cases ((s + n) == i)) [
          | inl same ↦ subst (λ j. is_white (mem j) ≡ true) ((==_iff (s + n) i).0 same) e
          | inr other ↦ r.skipped i a (ground arith)
        ];
        ends = r.ends;
      })
  | inr e ↦ rw e (record {
    shorter = omega arith;
    skipped = λ i a b. absurd (omega arith);
    ends = λ h. subst (λ j. is_white (mem j) ≡ false) (omega arith) e;
  })
]

-- `u` is `t` without white space at both ends.
pub record IsTrimmed (mem : Memory) (t u : Text) : Type 0 where
  pub starts_in : t.s ≤ u.s
  pub ends_in : u.s + u.len ≤ t.s + t.len
  pub before : (i : ℕ) → t.s ≤ i → i < u.s → is_white (mem i) ≡ true
  pub behind : (i : ℕ) → u.s + u.len ≤ i → i < t.s + t.len → is_white (mem i) ≡ true
  pub first : 0 < u.len → is_white (mem u.s) ≡ false
  pub last : 0 < u.len → is_white (mem (u.s + u.len - 1)) ≡ false

-- `trim` removes exactly the white space at the two ends: what it leaves lies in the string, what it
-- removes is white, and if anything is left its first and last bytes are not.
pub trim-IsTrimmed : (mem : Memory) (t : Text) → IsTrimmed mem t (trim mem t)
unfolding trim trim_leading trim_trailing
trim-IsTrimmed mem t =
    let u = trim_leading_from mem t.s t.len in
    let l = trim_leading_from-LeadTrimmed mem t.s t.len in
    let r = trim_trailing_len-TailTrimmed mem u.s u.len in
    record {
      starts_in = l.later;
      ends_in = omega (arith, l.same_end, r.shorter);
      before = l.skipped;
      behind = λ i a b. r.skipped i a (omega (arith, l.same_end));
      first = λ h. l.starts (omega (arith, r.shorter));
      last = r.ends;
    }
