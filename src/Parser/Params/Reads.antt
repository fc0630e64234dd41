-- ===== src/Parser/Params/Reads.antt =====
-- src/core/parser/parse_param.c: how `parse_params` reads a name and a token as a whole.
use mathlib.Core.Path.{subst}
use opensips_ng.Prelude.{
  ℕ, zero, suc, ◌+◌, ◌-◌, ◌≡◌, ◌⊎◌, ap, inl, inr, refl, Bool, true, false, ◌==◌, some, arith,
  if◌then◌else◌,
}
use opensips_ng.Parser.Memory.{Memory, Text, is_white}
use opensips_ng.Parser.Trim.{trim_leading, trim_leading_from}
use opensips_ng.Parser.Params.Types.{ParamNode}
use opensips_ng.Parser.Params.Rounds.{
  ends_name, ends_token, skip_name, token_len, parse_token_param, parse_param_body, last, separator,
  behind_body, with_body,
}

-- None of `n` bytes is one that `stop` looks for.
abbrev pub Free : (ℕ → Bool) → Memory → ℕ → ℕ → Type 0
Free stop mem a zero = Unit
Free stop mem a (suc n) = (stop (mem a) ≡ false) × Free stop mem (a + 1) n

pub skip_name-Free :
    (mem : Memory) (s n m k : ℕ)
    → m ≡ n + suc k
    → Free ends_name mem s n
    → ends_name (mem (s + n)) ≡ true
    → skip_name mem s m ≡ record { s = s + n; len = suc k }
unfolding skip_name
skip_name-Free mem s zero m k l h e =
    let m_eq : m ≡ suc k = omega (arith, l) in
    let s_eq : s + 0 ≡ s = omega arith in
    let here : ends_name (mem s) ≡ true = subst (λ x. ends_name (mem x) ≡ true) s_eq e in
    rw (m_eq, s_eq, here) refl
skip_name-Free mem s (suc n) m k l h e =
    let m_eq : m ≡ suc (n + suc k) = omega (arith, l) in
    let s_eq : s + suc n ≡ s + 1 + n = omega arith in
    let further : ends_name (mem (s + 1 + n)) ≡ true =
      subst (λ x. ends_name (mem x) ≡ true) s_eq e in
    rw (m_eq, s_eq, h.0) (skip_name-Free mem (s + 1) n (n + suc k) k refl h.1 further)

token_len-Free :
    (mem : Memory) (s n m k : ℕ)
    → m ≡ n + k
    → Free ends_token mem s n
    → (k ≡ 0) ⊎ (ends_token (mem (s + n)) ≡ true)
    → token_len mem s m ≡ n
unfolding token_len
token_len-Free mem s zero m zero l h e = let m_eq : m ≡ 0 = omega (arith, l) in rw m_eq refl
token_len-Free mem s zero m (suc k) l h (inl e) = absurd (omega (arith, e))
token_len-Free mem s zero m (suc k) l h (inr e) =
    let m_eq : m ≡ suc k = omega (arith, l) in
    let s_eq : s + 0 ≡ s = omega arith in
    let here : ends_token (mem s) ≡ true = subst (λ x. ends_token (mem x) ≡ true) s_eq e in
    rw (m_eq, here) refl
token_len-Free mem s (suc n) m k l h e =
    let m_eq : m ≡ suc (n + k) = omega (arith, l) in
    let s_eq : s + suc n ≡ s + 1 + n = omega arith in
    rw (m_eq, h.0)
      (ap suc (
        token_len-Free mem (s + 1) n (n + k) k refl h.1
          (subst (λ x. (k ≡ 0) ⊎ (ends_token (mem x) ≡ true)) s_eq e)))

-- `trim_leading` where no white space stands.
pub trim_leading-same :
    (mem : Memory) (t : Text) → (t.len ≡ 0) ⊎ (is_white (mem t.s) ≡ false) → trim_leading mem t ≡ t
unfolding trim_leading
trim_leading-same mem t h = go t.s t.len h
  where
    go :
        (s n : ℕ)
        → (n ≡ 0) ⊎ (is_white (mem s) ≡ false)
        → trim_leading_from mem s n ≡ record { s = s; len = n }
    go s zero h = refl
    go s (suc n) (inl h) = absurd (omega (arith, h))
    go s (suc n) (inr h) = rw h refl

parse_param_body-token :
    (mem : Memory) (b token n k : ℕ)
    → n ≡ suc token + k
    → Free ends_token mem b (suc token)
    → (mem b == 34) ≡ false
    → (k ≡ 0) ⊎ (mem (b + suc token) ≡ b';')
    → parse_param_body mem (record { s = b; len = n })
      ≡ (some (record { s = b; len = suc token }), record { s = b + suc token; len = k })
unfolding parse_param_body parse_token_param
parse_param_body-token mem b token n k l h q e =
    let behind : (k ≡ 0) ⊎ (ends_token (mem (b + suc token)) ≡ true) = elim e [
      | inl x ↦ inl x
      | inr x ↦ inr (ground (arith, x))
    ] in
    let i = token_len-Free mem b (suc token) n k l h behind in
    let left : n - suc token ≡ k = omega (arith, l) in
    let found : (suc token == 0) ≡ false = ground arith in rw (q, i, left, found) refl

behind_body-token :
    (mem : Memory) (p : ParamNode) (b u : Text)
    → (u.len ≡ 0) ⊎ (mem u.s ≡ b';')
    → behind_body mem p (some b, u) ≡ (
        let p' = record p { body = b; len = u.s - p.name.s } in
        if u.len == 0 then last p' u else separator mem p' u)
unfolding behind_body
behind_body-token mem p b u h =
    let stays =
      trim_leading-same mem u (elim h [ inl x ↦ inl x | inr x ↦ inr (ground (arith, x)) ]) in
    rw stays refl

pub with_body-token :
    (mem : Memory) (p : ParamNode) (b token n k : ℕ)
    → n ≡ suc token + k
    → Free ends_token mem b (suc token)
    → (mem b == 34) ≡ false
    → (k ≡ 0) ⊎ (mem (b + suc token) ≡ b';')
    → with_body mem p (record { s = b; len = n }) ≡ (
        let p' = record p {
          body = record { s = b; len = suc token };
          len = b + suc token - p.name.s;
        } in
        if k == 0
        then last p' (record { s = b + suc token; len = k })
        else separator mem p' (record { s = b + suc token; len = k }))
unfolding with_body
with_body-token mem p b token n k l h q e =
    let some_left : (n == 0) ≡ false = ground (arith, l) in
    let body = parse_param_body-token mem b token n k l h q e in
    rw (some_left, body)
      (behind_body-token mem p (record { s = b; len = suc token })
        (record { s = b + suc token; len = k }) e)
