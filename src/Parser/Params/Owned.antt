-- ===== src/Parser/Params/Owned.antt =====
-- src/core/parser/parse_param.c: what `parse_params` returns, its memory and its hooks.
use opensips_ng.Prelude.{
  ℕ, zero, suc, ◌+◌, ◌-◌, ◌<◌, ◌≡◌, ◌⊎◌, ◌∙◌, inl, inr, refl, Bool, true, false, not, ◌==◌, ltb,
  List, [], ◌∷◌, ◌++◌, Option, none, some, Each, Yields, All, All-append, bit, count, arith,
  Bool-cases, if◌then◌else◌,
}
use opensips_ng.Parser.Memory.{Memory, Text}
use opensips_ng.Parser.Trim.{trim_leading}
use opensips_ng.Parser.Params.Types.{
  ParamType, type_no, ParamClass, ParamNode, Hooks, no_hooks, hook,
}
use opensips_ng.Parser.Params.Lists.{blocks, Params, failed, params_loop, parse_params}
use opensips_ng.Parser.Params.Rounds.{
  skip_byte, parse_param_body, parse_param_name, Round, last, next, fail, separator, behind_body,
  with_body, behind_name, parse_param,
}
use opensips_ng.Parser.Params.Inside.{Tail, ParamIn, RoundIn, parse_param-RoundIn}

-- The parameter of a round is `p`, but for its body and length.
abbrev pub SameNode : ParamNode → ParamNode → Type 0
SameNode p q = (q.at ≡ p.at) × ((q.type ≡ p.type) × (q.name ≡ p.name))

abbrev pub Keeps : ParamNode → Round → Type 0
Keeps p (last q u) = SameNode p q
Keeps p (next q u) = SameNode p q
Keeps p (fail q u) = SameNode p q

Keeps-if :
    (p : ParamNode) (b : Bool) (x y : Round) → Keeps p x → Keeps p y → Keeps p (if b then x else y)
Keeps-if p true x y g h = g
Keeps-if p false x y g h = h

separator-Keeps :
    (mem : Memory) (p q : ParamNode) (t : Text) → SameNode p q → Keeps p (separator mem q t)
unfolding separator
separator-Keeps mem p q t s = Keeps-if p (mem t.s == b',') _ _ s (
    Keeps-if p (mem t.s == b'>') _ _ s (
      Keeps-if p (not (mem t.s == b';')) _ _ s
        (Keeps-if p ((trim_leading mem (skip_byte t)).len == 0) _ _ s s)))

behind_body-Keeps :
    (mem : Memory) (p : ParamNode) (x : Option Text × Text) → Keeps p (behind_body mem p x)
unfolding behind_body
behind_body-Keeps mem p (none, u) = (refl, (refl, refl))
behind_body-Keeps mem p (some b, u) =
    let q = record p { body = b; len = u.s - p.name.s } in
    Keeps-if p ((trim_leading mem u).len == 0) _ _ (refl, (refl, refl))
      (separator-Keeps mem p q (trim_leading mem u) (refl, (refl, refl)))

behind_name-Keeps : (mem : Memory) (p : ParamNode) (t : Text) → Keeps p (behind_name mem p t)
unfolding behind_name with_body
behind_name-Keeps mem p t =
    let u = trim_leading mem (skip_byte t) in
    Keeps-if p (t.len == 0) _ _ (refl, (refl, refl))
      (Keeps-if p (mem t.s == b'=') _ _
        (Keeps-if p (u.len == 0) _ _ (refl, (refl, refl))
          (behind_body-Keeps mem p (parse_param_body mem u)))
        (separator-Keeps mem p (record p { len = p.name.len }) t (refl, (refl, refl))))

pub parse_param-Keeps :
    (mem : Memory) (c : ParamClass) (at : ℕ) (t : Text)
    → Keeps (parse_param_name mem c at t).0 (parse_param mem c at t)
unfolding parse_param
parse_param-Keeps mem c at t =
    let (p, u) = parse_param_name mem c at t in behind_name-Keeps mem p (trim_leading mem u)

-- The parameter in the block `a` is on the list, with the type `x`.
abbrev pub Hooked : ParamType → ℕ → List ParamNode → Type 0
Hooked x a [] = ⊥
Hooked x a (p ∷ ps) = ((p.at ≡ a) × (type_no p.type ≡ type_no x)) ⊎ Hooked x a ps

Hooked-append :
    (x : ParamType) (a : ℕ) (ps qs : List ParamNode) → Hooked x a ps → Hooked x a (ps ++ qs)
Hooked-append x a [] qs h = elim h [ ]
Hooked-append x a (p ∷ ps) qs (inl h) = inl h
Hooked-append x a (p ∷ ps) qs (inr h) = inr (Hooked-append x a ps qs h)

Hooked-last :
    (x : ParamType) (p : ParamNode) (ps : List ParamNode)
    → type_no p.type ≡ type_no x
    → Hooked x p.at (ps ++ (p ∷ []))
Hooked-last x p [] h = inl (refl, h)
Hooked-last x p (q ∷ ps) h = inr (Hooked-last x p ps h)

hook-Hooked :
    (p : ParamNode) (h : Hooks) (ps : List ParamNode)
    → ((x : ParamType) → Each (λ a. Hooked x a ps) (h x))
    → (x : ParamType) → Each (λ a. Hooked x a (ps ++ (p ∷ []))) (hook p h x)
unfolding hook
hook-Hooked p h ps k x = elim (Bool-cases (type_no p.type == 0)) [
  | inl e ↦ rw e (old (h x) (k x))
  | inr e ↦ rw e (elim (Bool-cases (type_no x == type_no p.type)) [
    | inl g ↦ rw g (Hooked-last x p ps (ground (arith, g)))
    | inr g ↦ rw g (old (h x) (k x))
  ])
]
  where
    old : (o : Option ℕ) → Each (λ a. Hooked x a ps) o → Each (λ a. Hooked x a (ps ++ (p ∷ []))) o
    old none j = tt
    old (some a) j = Hooked-append x a ps (p ∷ []) j

pub count-blocks :
    (b : ℕ) (ps : List ParamNode) (p : ParamNode)
    → count b (blocks (ps ++ (p ∷ []))) ≡ count b (blocks ps) + bit (p.at == b)
count-blocks b [] p = omega arith
count-blocks b (q ∷ ps) p = omega (arith, count-blocks b ps p)

pub bit-next : (b calls : ℕ) → bit (ltb b (calls + 1)) ≡ bit (ltb b calls) + bit (calls == b)
bit-next b calls = ground arith

-- Before a round.
record Before (lo e calls : ℕ) (ps : List ParamNode) (h : Hooks) : Type 0 where
  list : All (ParamIn lo e) ps
  once : (b : ℕ) → count b (blocks ps) ≡ bit (ltb b calls)
  hooks : (x : ParamType) → Each (λ a. Hooked x a ps) (h x)

Before-next :
    (lo e calls : ℕ) (ps : List ParamNode) (h : Hooks) (p : ParamNode)
    → Before lo e calls ps h
    → ParamIn lo e p
    → p.at ≡ calls
    → Before lo e (calls + 1) (ps ++ (p ∷ [])) (hook p h)
Before-next lo e calls ps h p i k a = record {
  list = All-append (ParamIn lo e) ps (p ∷ []) i.list (k, tt);
  once = λ b. count-blocks b ps p ∙ rw a (omega (arith, i.once b, bit-next b calls));
  hooks = hook-Hooked p h ps i.hooks;
}

-- What is returned: parameters in the text and the rest of it, every block once on the list or freed, the list or
-- nothing, and hooks that point to parameters of the list with their type.
pub record Returned (lo e : ℕ) (r : Params) : Type 0 where
  pub list : All (ParamIn lo e) r.list
  pub rest : Tail lo e r.rest
  pub once : (b : ℕ) → count b r.freed + count b (blocks r.list) ≡ bit (ltb b r.calls)
  pub kept : r.is_ok ≡ true → r.freed ≡ []
  pub dropped : r.is_ok ≡ false → r.list ≡ []
  pub hooks : r.is_ok ≡ true → (x : ParamType) → Each (λ a. Hooked x a r.list) (r.hooks x)

fail-Returned :
    (lo e calls : ℕ) (ps : List ParamNode) (h h' : Hooks) (t : Text)
    → Before lo e calls ps h
    → Tail lo e t
    → Returned lo e (failed ps h' t (calls + 1) (calls ∷ []))
fail-Returned lo e calls ps h h' t i k = record {
  list = tt;
  rest = k;
  once = λ b. omega (arith, i.once b, bit-next b calls);
  kept = λ x. ground (arith, x);
  dropped = λ x. refl;
  hooks = λ x. ground (arith, x);
}

full-Returned :
    (lo e calls : ℕ) (ps : List ParamNode) (h : Hooks) (t : Text)
    → Before lo e calls ps h
    → Tail lo e t
    → Returned lo e (failed ps h t calls [])
full-Returned lo e calls ps h t i k = record {
  list = tt;
  rest = k;
  once = λ b. omega (arith, i.once b);
  kept = λ x. ground (arith, x);
  dropped = λ x. refl;
  hooks = λ x. ground (arith, x);
}

last-Returned :
    (lo e calls : ℕ) (ps : List ParamNode) (h : Hooks) (t : Text)
    → Before lo e calls ps h
    → Tail lo e t
    → Returned lo e
        (record { is_ok = true; list = ps; hooks = h; rest = t; calls = calls; freed = [] })
last-Returned lo e calls ps h t i k = record {
  list = i.list;
  rest = k;
  once = λ b. omega (arith, i.once b);
  kept = λ x. refl;
  dropped = λ x. ground (arith, x);
  hooks = λ x. i.hooks;
}

params_loop-Returned :
    (n : ℕ) (mem : Memory) (alloc : ℕ → Bool) (c : ParamClass) (lo e calls : ℕ)
    (ps : List ParamNode) (h : Hooks) (t : Text)
    → t.len < n
    → Tail lo e t
    → Before lo e calls ps h
    → Yields (Returned lo e) (params_loop n mem alloc c ps h calls t)
unfolding params_loop parse_param_name
params_loop-Returned zero mem alloc c lo e calls ps h t k w i = absurd (omega (arith, k))
params_loop-Returned (suc n) mem alloc c lo e calls ps h t k w i = elim (Bool-cases (alloc calls)) [
  | inl a ↦
      rw (a, params_loop)
        (go (parse_param mem c calls t) (parse_param-Keeps mem c calls t)
          (parse_param-RoundIn mem c calls lo e t w)
          λ p u b l.
            params_loop-Returned n mem alloc c lo e (calls + 1) (ps ++ (p ∷ [])) (hook p h) u
              (omega (arith, k, w, l)) l.0 b)
  | inr a ↦ rw (a, params_loop) (full-Returned lo e calls ps h t i w)
]
  where
    go :
        (r : Round)
        → Keeps (parse_param_name mem c calls t).0 r
        → RoundIn lo e t r
        → ((p : ParamNode) (u : Text)
            → Before lo e (calls + 1) (ps ++ (p ∷ [])) (hook p h)
            → Tail lo e u × (t.s < u.s)
            → Yields
                (Returned lo e)
                (params_loop n mem alloc c (ps ++ (p ∷ [])) (hook p h) (calls + 1) u))
        → Yields (Returned lo e) (elim r [
          | last p u ↦ some (record {
            is_ok = true;
            list = ps ++ (p ∷ []);
            hooks = hook p h;
            rest = u;
            calls = calls + 1;
            freed = [];
          })
          | next p u ↦ params_loop n mem alloc c (ps ++ (p ∷ [])) (hook p h) (calls + 1) u
          | fail p u ↦ some (failed ps (hook p h) u (calls + 1) (calls ∷ []))
        ])
    go (last p u) s r f =
        last-Returned lo e (calls + 1) _ _ u (Before-next lo e calls ps h p i r.0 s.0)
          (omega (arith, w, r), r.1.1)
    go (next p u) s r f =
        f p u (Before-next lo e calls ps h p i r.0 s.0) ((omega (arith, w, r), r.1.0.1), r.1.1)
    go (fail p u) s r f = fail-Returned lo e calls ps h (hook p h) u i (omega (arith, w, r), r.1)

-- With more fuel than the text has bytes, whatever the bytes are and whichever allocations succeed, `parse_params`
-- returns. Either it succeeds: the names and bodies of the parameters lie in the text, so does the rest, each block
-- allocated is one parameter of the list, and each hook that is set points to a parameter of the list of its type.
-- Or it fails: the list is empty, and each block that was allocated is freed exactly once.
pub parse_params-Returned :
    (fuel : ℕ) (mem : Memory) (alloc : ℕ → Bool) (c : ParamClass) (t : Text)
    → t.len < fuel
    → Yields (Returned t.s (t.s + t.len)) (parse_params fuel mem alloc c t)
unfolding parse_params
parse_params-Returned fuel mem alloc c t k = elim (Bool-cases (t.s == 0)) [
  | inl a ↦
      rw (a, parse_params)
        (last-Returned t.s (t.s + t.len) 0 [] no_hooks t start (omega arith, refl))
  | inr a ↦
      rw (a, parse_params)
        (params_loop-Returned fuel mem alloc c t.s (t.s + t.len) 0 [] no_hooks t k
          (omega arith, refl) start)
]
  where
    start : Before t.s (t.s + t.len) 0 [] no_hooks
    start = record { list = tt; once = λ b. ground arith; hooks = λ x. tt }
