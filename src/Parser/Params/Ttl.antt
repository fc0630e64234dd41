-- ===== src/Parser/Params/Ttl.antt =====
-- src/core/parser/parse_param.c: `parse_params` does not recognise the parameter `ttl`.
use opensips_ng.Prelude.{
  ℕ, zero, suc, ◌+◌, ◌-◌, ◌<◌, ◌≡◌, ◌⊎◌, inl, inr, refl, Bool, true, false, ◌&&◌, ◌||◌, ◌==◌, List,
  [], ◌∷◌, ◌++◌, Option, none, some, Each, Yields, All, All-append, arith, Bool-cases,
  if◌then◌else◌,
}
use opensips_ng.Parser.Memory.{Memory, Text}
use opensips_ng.Parser.Methods.{word}
use opensips_ng.Parser.Params.Types.{
  ParamType, type_no, ParamClass, class_any, class_contact, class_uri, ParamNode, Hooks, no_hooks,
  contact_type, uri_type, hook,
}
use opensips_ng.Parser.Params.Lists.{Params, failed, params_loop, parse_params}
use opensips_ng.Parser.Params.Rounds.{
  type_of, ends_name, skip_name, parse_param_name, Round, last, next, fail, parse_param,
}
use opensips_ng.Parser.Params.Inside.{RoundIn, parse_param-RoundIn}
use opensips_ng.Parser.Params.Owned.{Keeps, parse_param-Keeps, parse_params-Returned, Returned}

-- The type is another one than `p_ttl`.
abbrev pub NotTtl : ParamType → Type 0
NotTtl x = (type_no x == 9) ≡ false

NotTtl-if : (b : Bool) (x y : ParamType) → NotTtl x → NotTtl y → NotTtl (if b then x else y)
NotTtl-if true x y g h = g
NotTtl-if false x y g h = h

abbrev pub is_l : ℕ → Bool
is_l c = c == b'l' || c == b'L'

contact_type-NotTtl : (mem : Memory) (name : Text) → NotTtl (contact_type mem name)
unfolding contact_type type_no
contact_type-NotTtl mem name = ground arith

-- The test for `ttl` looks at the byte behind a name of two bytes.
ttl_test :
    (mem : Memory) (name : Text)
    → (name.len ≡ 2 → is_l (mem (name.s + 2)) ≡ false)
    → (name.len == 2 && word mem (name.s + 1) ((b't', b'T') ∷ (b'l', b'L') ∷ [])) ≡ false
unfolding word
ttl_test mem name h = ground arith

uri_type-NotTtl :
    (mem : Memory) (name : Text)
    → (name.len ≡ 2 → is_l (mem (name.s + 2)) ≡ false)
    → NotTtl (uri_type mem name)
unfolding uri_type type_no
uri_type-NotTtl mem name h = ground (arith, ttl_test mem name h)

skip_name-ends :
    (mem : Memory) (s n : ℕ)
    → ((skip_name mem s n).s ≡ s + n) ⊎ (ends_name (mem (skip_name mem s n).s) ≡ true)
unfolding skip_name
skip_name-ends mem s zero = inl (omega arith)
skip_name-ends mem s (suc n) =
    let rest = skip_name-ends mem (s + 1) n in
    elim (Bool-cases (ends_name (mem s))) [
      | inl h ↦ rw h (inr h)
      | inr h ↦ rw h (elim rest [ inl a ↦ inl (omega (arith, a)) | inr a ↦ inr a ])
    ]

-- Behind a name stands a byte that ends it, or the end of the text.
name-NotTtl :
    (mem : Memory) (c : ParamClass) (at e : ℕ) (t : Text)
    → t.s + t.len ≡ e
    → is_l (mem e) ≡ false
    → NotTtl (parse_param_name mem c at t).0.type
unfolding parse_param_name type_of type_no
name-NotTtl mem class_any at e t h k = refl
name-NotTtl mem class_contact at e t h k = contact_type-NotTtl mem _
name-NotTtl mem class_uri at e t h k =
    let u = skip_name mem t.s t.len in
    uri_type-NotTtl mem (record { s = t.s; len = u.s - t.s })
      λ two.
        let behind : t.s + 2 ≡ u.s = omega (arith, two) in
        rw behind
          (elim (skip_name-ends mem t.s t.len) [ inl a ↦ rw (a, h) k | inr a ↦ ground (arith, a) ])

-- Of a type that is not `ttl`.
abbrev pub Other : ParamNode → Type 0
Other p = NotTtl p.type

Other-append :
    (ps : List ParamNode) (p q : ParamNode)
    → All Other ps
    → Other p
    → q.type ≡ p.type
    → All Other (ps ++ (q ∷ []))
Other-append ps p q h k e = All-append Other ps (q ∷ []) h (rw e k, tt)

-- No parameter of the list is of the type.
abbrev pub Others : Params → Type 0
Others r = All Other r.list

params_loop-Other :
    (n : ℕ) (mem : Memory) (alloc : ℕ → Bool) (c : ParamClass) (e calls : ℕ) (ps : List ParamNode)
    (h : Hooks) (t : Text)
    → t.s + t.len ≡ e
    → is_l (mem e) ≡ false
    → All Other ps
    → Each Others (params_loop n mem alloc c ps h calls t)
unfolding params_loop
params_loop-Other zero mem alloc c e calls ps h t w k i = tt
params_loop-Other (suc n) mem alloc c e calls ps h t w k i = elim (Bool-cases (alloc calls)) [
  | inl a ↦
      rw (a, params_loop)
        (go (parse_param mem c calls t) (parse_param-Keeps mem c calls t)
          (parse_param-RoundIn mem c calls t.s e t (omega arith, w))
          λ p u l b.
            params_loop-Other n mem alloc c e (calls + 1) (ps ++ (p ∷ [])) (hook p h) u l k b)
  | inr a ↦ rw (a, params_loop) tt
]
  where
    named : Other (parse_param_name mem c calls t).0
    named = name-NotTtl mem c calls e t w k

    go :
        (r : Round)
        → Keeps (parse_param_name mem c calls t).0 r
        → RoundIn t.s e t r
        → ((p : ParamNode) (u : Text)
            → u.s + u.len ≡ e
            → All Other (ps ++ (p ∷ []))
            → Each Others (params_loop n mem alloc c (ps ++ (p ∷ [])) (hook p h) (calls + 1) u))
        → Each Others (elim r [
          | last p u ↦ some (record {
            is_ok = true;
            list = ps ++ (p ∷ []);
            hooks = hook p h;
            rest = u;
            calls = calls + 1;
            freed = [];
          })
          | next p u ↦ params_loop n mem alloc c (ps ++ (p ∷ [])) (hook p h) (calls + 1) u
          | fail p u ↦ some (failed ps (hook p h) u (calls + 1) (calls ∷ []))
        ])
    go (last p u) s r f = Other-append ps (parse_param_name mem c calls t).0 p i named s.1.0
    go (next p u) s r f =
        f p u r.1.0.1 (Other-append ps (parse_param_name mem c calls t).0 p i named s.1.0)
    go (fail p u) s r f = tt

-- With more fuel than the text has bytes, unless the byte behind the end of the text is 'l' or 'L', `parse_params`
-- returns, and no parameter on its list has the type of `ttl`.
pub parse_params-Other :
    (fuel : ℕ) (mem : Memory) (alloc : ℕ → Bool) (c : ParamClass) (t : Text)
    → t.len < fuel
    → is_l (mem (t.s + t.len)) ≡ false
    → Yields Others (parse_params fuel mem alloc c t)
unfolding parse_params
parse_params-Other fuel mem alloc c t l k =
    both (parse_params fuel mem alloc c t) (parse_params-Returned fuel mem alloc c t l)
      (elim (Bool-cases (t.s == 0)) [
        | inl a ↦ rw (a, parse_params) tt
        | inr a ↦
            rw (a, parse_params)
              (params_loop-Other fuel mem alloc c (t.s + t.len) 0 [] no_hooks t refl k tt)
      ])
  where
    both :
        (o : Option Params)
        → Yields (Returned t.s (t.s + t.len)) o
        → Each Others o
        → Yields Others o
    both (some r) p q = q
    both none p q = p
