-- ===== src/Parser/Uri/Reads.antt =====
-- src/core/parser/parse_uri.c: how the loop of `parse_uri` reads a part of the URI as a whole.
use mathlib.Core.Path.{subst}
use opensips_ng.Prelude.{
  ℕ, zero, suc, ◌+◌, ◌-◌, ◌*◌, ◌≡◌, ◌∙◌, sym, refl, Bool, true, false, not, ◌⊎◌, ◌||◌, ◌==◌, arith,
  Bool-cases, inl, inr,
}
use opensips_ng.Parser.Memory.{Memory}
use opensips_ng.Parser.Uri.State.{
  State, Run, Outcome, uri_password, uri_password_alpha, uri_port, ok,
}
use opensips_ng.Parser.Uri.Cases.{check_host_end, is_digit}
use opensips_ng.Parser.Uri.Step.{step, step_user, step_password, step_password_alpha, step_port}
use opensips_ng.Parser.Uri.Parse.{loop}

-- None of `n` bytes is one that `stop` looks for.
abbrev pub Plain : (ℕ → Bool) → Memory → ℕ → ℕ → Type 0
Plain stop mem a zero = Unit
Plain stop mem a (suc n) = (stop (mem a) ≡ false) × Plain stop mem (a + 1) n

-- What ends or does not belong in a user or a password, and a host.
abbrev pub ends_user : ℕ → Bool
ends_user c = c == b'@' || c == b':' || c == b';' || c == b'?' || c == b'[' || c == b']'

abbrev pub ends_host : ℕ → Bool
ends_host c = c == b':' || c == b';' || c == b'?' || c == b'&' || c == b'@' || c == b'['

-- The value of `n` digits behind `acc`.
unfoldable pub number : Memory → ℕ → ℕ → ℕ → ℕ
number mem a zero acc = acc
number mem a (suc n) acc = number mem (a + 1) n (acc * 10 + (mem a - b'0'))

-- `n` bytes behind an address.
loop-here :
    (n n' : ℕ) (mem : Memory) (p p' : ℕ) (r : Run)
    → n ≡ n'
    → p ≡ p'
    → loop n mem p r ≡ loop n' mem p' r
loop-here n n' mem p p' r e k = rw (e, k) refl

pub loop-next :
    (n n' : ℕ) (mem : Memory) (p : ℕ) (r r' : Run)
    → n ≡ suc n'
    → step r.state (mem p) p r ≡ ok r'
    → loop n mem p r ≡ loop n' mem (p + 1) r'
unfolding loop
loop-next n n' mem p r r' e k = rw e (rw k refl)

-- A state that goes on at every other byte reads a part as a whole.
pub loop-part :
    (stop : ℕ → Bool) (n m k : ℕ) (mem : Memory) (p : ℕ) (r : Run)
    → ((c q : ℕ) → stop c ≡ false → step r.state c q r ≡ ok r)
    → Plain stop mem p n
    → m ≡ n + k
    → loop m mem p r ≡ loop k mem (p + n) r
loop-part stop zero m k mem p r keeps h e =
    loop-here m k mem p (p + 0) r (omega (arith, e)) (omega arith)
loop-part stop (suc n) m k mem p r keeps h e =
    loop-next m (n + k) mem p r r (omega (arith, e)) (keeps (mem p) p h.0)
    ∙ loop-part stop n (n + k) k mem (p + 1) r keeps h.1 refl
    ∙ loop-here k k mem (p + 1 + n) (p + suc n) r refl (omega arith)

pub keeps_user : (r : Run) (c q : ℕ) → ends_user c ≡ false → step_user c q r ≡ ok r
unfolding step_user
keeps_user r c q h = ground arith

pub keeps_host : (r : Run) (c q : ℕ) → ends_host c ≡ false → check_host_end (ok r) c q r ≡ ok r
unfolding check_host_end
keeps_host r c q h = ground arith

keeps_alpha : (r : Run) (c q : ℕ) → ends_user c ≡ false → step_password_alpha c q r ≡ ok r
unfolding step_password_alpha
keeps_alpha r c q h = ground arith

step-at :
    (st : State) (r : Run) (c q : ℕ) (o : Outcome Run)
    → r.state ≡ st
    → step st c q r ≡ o
    → step r.state c q r ≡ o
step-at st r c q o e h = subst (λ x. step x c q r ≡ o) (sym e) h

digit :
    (r : Run) (c q : ℕ)
    → r.state ≡ uri_port
    → not (is_digit c) ≡ false
    → step r.state c q r ≡ ok (record r { port_no = r.port_no * 10 + (c - b'0') })
unfolding step step_port
digit r c q e h = step-at uri_port r c q _ e (go (ground arith) (ground (arith, h)))
  where
    go :
        (c == b';') ≡ false
        → is_digit c ≡ true
        → step_port c q r ≡ ok (record r { port_no = r.port_no * 10 + (c - b'0') })
    go a b = ground (arith, h)

password_digit :
    (r : Run) (c q : ℕ)
    → is_digit c ≡ true
    → step_password c q (record r { state = uri_password })
      ≡ ok (record r { state = uri_password; port_no = r.port_no * 10 + (c - b'0') })
unfolding step_password
password_digit r c q h = ground arith

password_alpha :
    (r : Run) (c q : ℕ)
    → is_digit c ≡ false
    → ends_user c ≡ false
    → step_password c q (record r { state = uri_password })
      ≡ ok (record r { state = uri_password_alpha; port_no = 0 })
unfolding step_password
password_alpha r c q d h = ground arith

pub loop-digits :
    (n m k : ℕ) (mem : Memory) (p : ℕ) (r : Run)
    → r.state ≡ uri_port
    → Plain (λ c. not (is_digit c)) mem p n
    → m ≡ n + k
    → loop m mem p r ≡ loop k mem (p + n) (record r { port_no = number mem p n r.port_no })
unfolding number step
loop-digits zero m k mem p r s h e = loop-here m k mem p (p + 0) r (omega (arith, e)) (omega arith)
loop-digits (suc n) m k mem p r s h e =
    loop-next m (n + k) mem p r _ (omega (arith, e)) (digit r (mem p) p s h.0)
    ∙ loop-digits n (n + k) k mem (p + 1) (record r { port_no = r.port_no * 10 + (mem p - b'0') }) s
        h.1 refl
    ∙ loop-here k k mem (p + 1 + n) (p + suc n) _ refl (omega arith)

-- A password, of digits or not.
pub loop-password :
    (n m k : ℕ) (mem : Memory) (p : ℕ) (r : Run)
    → Plain ends_user mem p n
    → m ≡ n + k
    → (v : ℕ) × ((loop m mem p (record r { state = uri_password })
          ≡ loop k mem (p + n) (record r { state = uri_password; port_no = v }))
        ⊎ (loop m mem p (record r { state = uri_password })
            ≡ loop k mem (p + n) (record r { state = uri_password_alpha; port_no = 0 })))
unfolding step
loop-password zero m k mem p r h e =
    (r.port_no, inl (loop-here m k mem p (p + 0) _ (omega (arith, e)) (omega arith)))
loop-password (suc n) m k mem p r h e = elim (Bool-cases (is_digit (mem p))) [
  | inl d ↦
      let next =
        loop-next m (n + k) mem p (record r { state = uri_password })
          (record r { state = uri_password; port_no = r.port_no * 10 + (mem p - b'0') })
          (omega (arith, e)) (password_digit r (mem p) p d) in
      let (v, rest) =
        loop-password n (n + k) k mem (p + 1)
          (record r { port_no = r.port_no * 10 + (mem p - b'0') }) h.1 refl in
      (
        v,
        elim rest [
          | inl x ↦ inl (next ∙ x ∙ loop-here k k mem (p + 1 + n) (p + suc n) _ refl (omega arith))
          | inr x ↦ inr (next ∙ x ∙ loop-here k k mem (p + 1 + n) (p + suc n) _ refl (omega arith))
        ],
      )
  | inr d ↦
      let next =
        loop-next m (n + k) mem p (record r { state = uri_password })
          (record r { state = uri_password_alpha; port_no = 0 }) (omega (arith, e))
          (password_alpha r (mem p) p d h.0) in
      (
        0,
        inr (
            next
            ∙ loop-part ends_user n (n + k) k mem (p + 1)
                (record r { state = uri_password_alpha; port_no = 0 })
                (λ c q x. keeps_alpha _ c q x) h.1 refl
            ∙ loop-here k k mem (p + 1 + n) (p + suc n) _ refl (omega arith)),
      )
]
