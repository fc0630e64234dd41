-- ===== src/Parser/Params/Inside.antt =====
-- src/core/parser/parse_param.c: where the parameters lie, and the end of the loop of `parse_params`.
use opensips_ng.Prelude.{
  ℕ, zero, suc, ◌+◌, ◌-◌, ◌≤◌, ◌<◌, ◌≡◌, inl, inr, refl, Bool, true, false, not, ◌==◌, ltb, Option,
  none, some, Each, arith, Bool-cases, if◌then◌else◌,
}
use opensips_ng.Parser.Memory.{Memory, Text}
use opensips_ng.Parser.Trim.{trim_leading, trim_leading_from-LeadTrimmed}
use opensips_ng.Parser.Uri.Inside.{TextIn}
use opensips_ng.Parser.Uri.Inside.Safe.{q_memchr-Each}
use opensips_ng.Parser.Uri.Parse.{q_memchr}
use opensips_ng.Parser.Params.Types.{ParamClass, ParamNode}
use opensips_ng.Parser.Params.Rounds.{
  skip_byte, quoted_to, parse_quoted_param, ends_token, token_len, parse_token_param,
  parse_param_body, ends_name, skip_name, parse_param_name, Round, last, next, fail, separator,
  behind_body, with_body, behind_name, parse_param,
}

-- A string from `lo` on that ends at `e`.
abbrev pub Tail : ℕ → ℕ → Text → Type 0
Tail lo e t = (lo ≤ t.s) × (t.s + t.len ≡ e)

-- A parameter from `lo` on whose name, body and whole end by `hi`.
pub record ParamIn (lo hi : ℕ) (p : ParamNode) : Type 0 where
  pub from : lo ≤ p.name.s
  pub name : p.name.s + p.name.len ≤ hi
  pub body : TextIn lo hi p.body
  pub whole : p.name.s + p.len ≤ hi

trim_leading-Tail :
    (mem : Memory) (e : ℕ) (t : Text) → t.s + t.len ≡ e → Tail t.s e (trim_leading mem t)
unfolding trim_leading
trim_leading-Tail mem e t h =
    let l = trim_leading_from-LeadTrimmed mem t.s t.len in (l.later, omega (arith, l.same_end, h))

skip_name-Tail : (mem : Memory) (s n : ℕ) → Tail s (s + n) (skip_name mem s n)
unfolding skip_name
skip_name-Tail mem s zero = (omega arith, refl)
skip_name-Tail mem s (suc n) =
    let rest = skip_name-Tail mem (s + 1) n in
    elim (Bool-cases (ends_name (mem s))) [
      | inl h ↦ rw h (omega arith, refl)
      | inr h ↦ rw h (omega (arith, rest.0), omega (arith, rest.1))
    ]

token_len-le : (mem : Memory) (s n : ℕ) → token_len mem s n ≤ n
unfolding token_len
token_len-le mem s zero = omega arith
token_len-le mem s (suc n) =
    let rest = token_len-le mem (s + 1) n in
    elim (Bool-cases (ends_token (mem s))) [
      | inl h ↦ rw h (omega arith)
      | inr h ↦ rw h (omega (arith, rest))
    ]

-- What the parsers of a body return: a string in the text, if any, and the rest behind it.
abbrev BodyIn : ℕ → ℕ → Option Text × Text → Type 0
BodyIn lo e (o, u) = Each (λ b. (lo ≤ b.s) × (b.s + b.len ≤ u.s)) o × Tail lo e u

quoted_to-BodyIn :
    (lo e : ℕ) (t : Text) (o : Option ℕ)
    → Tail lo e t
    → Each (λ q. (t.s ≤ q) × (q < t.s + t.len)) o
    → BodyIn lo e (quoted_to t o)
unfolding quoted_to
quoted_to-BodyIn lo e t none h k = (tt, h)
quoted_to-BodyIn lo e t (some q) h k =
    ((h.0, omega (arith, k)), (omega (arith, h, k), omega (arith, h, k)))

parse_quoted_param-BodyIn :
    (mem : Memory) (e : ℕ) (t : Text) → t.s + t.len ≡ e → BodyIn t.s e (parse_quoted_param mem t)
unfolding parse_quoted_param
parse_quoted_param-BodyIn mem e t h = elim (Bool-cases (ltb t.len 2)) [
  | inl k ↦ rw k (tt, (omega arith, h))
  | inr k ↦ rw k (
      quoted_to-BodyIn t.s e (skip_byte t) (q_memchr (t.len - 1) mem (t.s + 1) 34)
        (ground (arith, h, k), ground (arith, h, k)) (q_memchr-Each (t.len - 1) mem (t.s + 1) 34))
]

parse_token_param-BodyIn :
    (mem : Memory) (e : ℕ) (t : Text) → t.s + t.len ≡ e → BodyIn t.s e (parse_token_param mem t)
unfolding parse_token_param
parse_token_param-BodyIn mem e t h = elim (Bool-cases (token_len mem t.s t.len == 0)) [
  | inl k ↦ rw k (tt, (omega arith, h))
  | inr k ↦
      let l = token_len-le mem t.s t.len in
      rw k ((omega arith, omega arith), (omega arith, omega (arith, h, l)))
]

parse_param_body-BodyIn :
    (mem : Memory) (e : ℕ) (t : Text) → t.s + t.len ≡ e → BodyIn t.s e (parse_param_body mem t)
unfolding parse_param_body
parse_param_body-BodyIn mem e t h = elim (Bool-cases (mem t.s == 34)) [
  | inl k ↦ rw k (parse_quoted_param-BodyIn mem e t h)
  | inr k ↦ rw k (parse_token_param-BodyIn mem e t h)
]

-- Where a round from `t` on leaves the parameter and the rest; another round has less to read.
abbrev pub RoundIn : ℕ → ℕ → Text → Round → Type 0
RoundIn lo e t (last p u) = ParamIn lo e p × Tail t.s e u
RoundIn lo e t (next p u) = ParamIn lo e p × (Tail t.s e u × (t.s < u.s))
RoundIn lo e t (fail p u) = Tail t.s e u

RoundIn-if :
    (lo e : ℕ) (t : Text) (b : Bool) (x y : Round)
    → RoundIn lo e t x
    → RoundIn lo e t y
    → RoundIn lo e t (if b then x else y)
RoundIn-if lo e t true x y g h = g
RoundIn-if lo e t false x y g h = h

RoundIn-earlier :
    (lo e : ℕ) (t t' : Text) (r : Round) → t.s ≤ t'.s → RoundIn lo e t' r → RoundIn lo e t r
RoundIn-earlier lo e t t' (last p u) l h = (h.0, (omega (arith, l, h.1.0), h.1.1))
RoundIn-earlier lo e t t' (next p u) l h =
    (h.0, ((omega (arith, l, h.1.0.0), h.1.0.1), omega (arith, l, h.1.1)))
RoundIn-earlier lo e t t' (fail p u) l h = (omega (arith, l, h.0), h.1)

separator-RoundIn :
    (mem : Memory) (lo e : ℕ) (p : ParamNode) (t : Text)
    → 0 < t.len
    → t.s + t.len ≡ e
    → ParamIn lo e p
    → RoundIn lo e t (separator mem p t)
unfolding separator
separator-RoundIn mem lo e p t k h i =
    let u = trim_leading mem (skip_byte t) in
    let v : Tail (t.s + 1) e u = trim_leading-Tail mem e (skip_byte t) (omega (arith, k, h)) in
    let w : Tail t.s e u = (omega (arith, v.0), v.1) in
    let here : RoundIn lo e t (last p t) = (i, (omega arith, h)) in
    RoundIn-if lo e t (mem t.s == b',') _ _ here (
      RoundIn-if lo e t (mem t.s == b'>') _ _ here (
        RoundIn-if lo e t (not (mem t.s == b';')) _ _ (omega arith, h)
          (RoundIn-if lo e t (u.len == 0) (fail p u) (next p u) w (i, (w, omega (arith, v.0))))))

last-RoundIn :
    (mem : Memory) (lo e : ℕ) (p : ParamNode) (t u : Text)
    → ParamIn lo e p
    → Tail t.s e u
    → RoundIn lo e t (if u.len == 0 then last p u else separator mem p u)
last-RoundIn mem lo e p t u i h = elim (Bool-cases (u.len == 0)) [
  | inl k ↦ rw k (i, h)
  | inr k ↦ rw k (
      RoundIn-earlier lo e t u (separator mem p u) h.0
        (separator-RoundIn mem lo e p u (ground (arith, k)) h.1 i))
]

behind_body-RoundIn :
    (mem : Memory) (lo e : ℕ) (p : ParamNode) (t : Text) (x : Option Text × Text)
    → lo ≤ t.s
    → ParamIn lo e p
    → p.name.s ≤ t.s
    → BodyIn t.s e x
    → RoundIn lo e t (behind_body mem p x)
unfolding behind_body
behind_body-RoundIn mem lo e p t (none, u) l i n h = h.1
behind_body-RoundIn mem lo e p t (some b, u) l i n h =
    let v = trim_leading-Tail mem e u h.1.1 in
    last-RoundIn mem lo e (record p { body = b; len = u.s - p.name.s }) t (trim_leading mem u)
      (record {
        from = i.from;
        name = i.name;
        body = inr (omega (arith, l, h.0), omega (arith, h));
        whole = omega (arith, n, h);
      })
      (omega (arith, h, v), v.1)

with_body-RoundIn :
    (mem : Memory) (lo e : ℕ) (p : ParamNode) (t : Text)
    → lo ≤ t.s
    → t.s + t.len ≡ e
    → ParamIn lo e p
    → p.name.s ≤ t.s
    → RoundIn lo e t (with_body mem p t)
unfolding with_body
with_body-RoundIn mem lo e p t l h i n =
    RoundIn-if lo e t (t.len == 0) _ _ (omega arith, h)
      (behind_body-RoundIn mem lo e p t (parse_param_body mem t) l i n
        (parse_param_body-BodyIn mem e t h))

behind_name-RoundIn :
    (mem : Memory) (lo e : ℕ) (p : ParamNode) (t : Text)
    → lo ≤ t.s
    → t.s + t.len ≡ e
    → ParamIn lo e p
    → p.name.s ≤ t.s
    → RoundIn lo e t (behind_name mem p t)
unfolding behind_name
behind_name-RoundIn mem lo e p t l h i n =
    let q : ParamIn lo e (record p { len = p.name.len }) = record {
      from = i.from;
      name = i.name;
      body = i.body;
      whole = i.name;
    } in
    elim (Bool-cases (t.len == 0)) [
      | inl k ↦ rw k (q, (omega arith, h))
      | inr k ↦
          let u = trim_leading mem (skip_byte t) in
          let v : Tail (t.s + 1) e u =
            trim_leading-Tail mem e (skip_byte t) (ground (arith, k, h)) in
          rw k (
            RoundIn-if lo e t (mem t.s == b'=') _ _
              (RoundIn-earlier lo e t u _ (omega (arith, v.0)) (
                with_body-RoundIn mem lo e p u (omega (arith, l, v.0)) v.1 i
                  (omega (arith, n, v.0))))
              (separator-RoundIn mem lo e (record p { len = p.name.len }) t (ground (arith, k)) h
                q))
    ]

pub parse_param-RoundIn :
    (mem : Memory) (c : ParamClass) (at lo e : ℕ) (t : Text)
    → Tail lo e t
    → RoundIn lo e t (parse_param mem c at t)
unfolding parse_param parse_param_name
parse_param-RoundIn mem c at lo e t h =
    let (p, u) = parse_param_name mem c at t in
    let n = skip_name-Tail mem t.s t.len in
    let v = trim_leading-Tail mem e (skip_name mem t.s t.len) (omega (arith, n, h)) in
    RoundIn-earlier lo e t (trim_leading mem u) _ (omega (arith, n, v)) (
      behind_name-RoundIn mem lo e p (trim_leading mem u) (omega (arith, h, n, v)) v.1
        (record {
          from = h.0;
          name = omega (arith, h, n, v);
          body = inl (refl, refl);
          whole = omega (arith, h, n, v);
        })
        (omega (arith, n, v)))
