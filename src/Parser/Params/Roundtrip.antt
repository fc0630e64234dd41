-- ===== src/Parser/Params/Roundtrip.antt =====
-- src/core/parser/parse_param.c: lists of parameters put together from names and tokens.
use mathlib.Core.Path.{subst}
use opensips_ng.Prelude.{
  ℕ, zero, suc, ◌+◌, ◌-◌, ◌≤◌, ◌<◌, ◌≡◌, ◌⊎◌, ◌∙◌, ap, sym, inl, inr, refl, Bool, true, false, ◌==◌,
  List, [], ◌∷◌, ◌++◌, length, some, arith, if◌then◌else◌,
}
use opensips_ng.Parser.Memory.{Memory, is_white}
use opensips_ng.Parser.Params.Types.{ParamClass, ParamNode, Hooks, no_hooks, hook}
use opensips_ng.Parser.Params.Lists.{Params, params_loop, parse_params}
use opensips_ng.Parser.Params.Hooked.{hook_all, last_typed, hook_all-last_typed, last_or-none}
use opensips_ng.Parser.Params.Rounds.{
  type_of, ends_name, ends_token, parse_param_name, last, next, separator, behind_name, parse_param,
}
use opensips_ng.Parser.Params.Reads.{Free, skip_name-Free, trim_leading-same, with_body-token}

-- `name=token` from `s` on, by the lengths of the two; the token has a byte more, and is not a quoted string.
pub record IsPair (mem : Memory) (s name token : ℕ) : Type 0 where
  pub name_bytes : Free ends_name mem s name
  pub equal : mem (s + name) ≡ b'='
  pub token_bytes : Free ends_token mem (s + name + 1) (suc token)
  pub plain : (mem (s + name + 1) == 34) ≡ false

-- The length of a pair.
abbrev pub size : ℕ × ℕ → ℕ
size (name, token) = name + 2 + token

-- `name=token;name=token...` from `s` on, with the length `len`.
abbrev pub IsPairs : Memory → ℕ → ℕ → ℕ × ℕ → List (ℕ × ℕ) → Type 0
IsPairs mem s len x [] = IsPair mem s x.0 x.1 × (len ≡ size x)
IsPairs mem s len x (y ∷ ys) =
    IsPair mem s x.0 x.1
    × ((mem (s + size x) ≡ b';')
        × ((is_white (mem (s + size x + 1)) ≡ false)
            × (IsPairs mem (s + size x + 1) (len - (size x + 1)) y ys × (size x + 1 + 1 ≤ len))))

-- The parameter of a pair.
abbrev pub pair_node : Memory → ParamClass → ℕ → ℕ → ℕ × ℕ → ParamNode
pair_node mem c at s x = record {
  at = at;
  type = type_of c mem (record { s = s; len = x.0 });
  name = record { s = s; len = x.0 };
  body = record { s = s + x.0 + 1; len = suc x.1 };
  len = size x;
}

abbrev pub pair_nodes : Memory → ParamClass → ℕ → ℕ → ℕ × ℕ → List (ℕ × ℕ) → List ParamNode
pair_nodes mem c at s x [] = pair_node mem c at s x ∷ []
pair_nodes mem c at s x (y ∷ ys) =
    pair_node mem c at s x ∷ pair_nodes mem c (at + 1) (s + size x + 1) y ys

-- The round of a pair, up to what follows its body.
parse_param-pair :
    (mem : Memory) (c : ParamClass) (at s name token len k : ℕ)
    → IsPair mem s name token
    → len ≡ size (name, token) + k
    → (k ≡ 0) ⊎ (mem (s + size (name, token)) ≡ b';')
    → parse_param mem c at (record { s = s; len = len }) ≡ (
        if k == 0
        then last
            (pair_node mem c at s (name, token))
            (record { s = s + size (name, token); len = k })
        else separator mem
            (pair_node mem c at s (name, token))
            (record { s = s + size (name, token); len = k }))
unfolding parse_param parse_param_name behind_name
parse_param-pair mem c at s name token len k i l h =
    let b = s + name + 1 in
    let skipped =
      skip_name-Free mem s name len (token + 1 + k) (omega (arith, l)) i.name_bytes
        (ground (arith, i.equal)) in
    let stays =
      trim_leading-same mem (record { s = s + name; len = suc (token + 1 + k) })
        (inr (ground (arith, i.equal))) in
    let named : s + name - s ≡ name = omega arith in
    let left : suc (token + 1 + k) - 1 ≡ token + 1 + k = omega arith in
    let body_stays =
      trim_leading-same mem (record { s = b; len = token + 1 + k })
        (inr (ground (arith, i.token_bytes.0))) in
    let body_end : b + suc token ≡ s + size (name, token) = omega arith in
    let whole : s + size (name, token) - s ≡ size (name, token) = omega arith in
    let at_end : (k ≡ 0) ⊎ (mem (b + suc token) ≡ b';') =
      subst (λ x. (k ≡ 0) ⊎ (mem x ≡ b';')) (sym body_end) h in
    let p : ParamNode = record {
      at = at;
      type = type_of c mem (record { s = s; len = name });
      name = record { s = s; len = name };
      body = record { s = 0; len = 0 };
      len = 0;
    } in
    let read =
      with_body-token mem p b token (token + 1 + k) k (omega arith) i.token_bytes i.plain at_end in
    let longer : (suc (token + 1 + k) == 0) ≡ false = ground arith in
    rw (skipped, stays, longer, i.equal, named, left, body_stays, read, body_end, whole) refl

-- The round of a pair with another one behind it.
parse_param-next :
    (mem : Memory) (c : ParamClass) (at s len : ℕ) (x : ℕ × ℕ)
    → IsPair mem s x.0 x.1
    → mem (s + size x) ≡ b';'
    → is_white (mem (s + size x + 1)) ≡ false
    → size x + 1 + 1 ≤ len
    → parse_param mem c at (record { s = s; len = len })
      ≡ next (pair_node mem c at s x) (record { s = s + size x + 1; len = len - (size x + 1) })
unfolding separator
parse_param-next mem c at s len (name, token) i e w l =
    let n = size (name, token) in
    let k = len - n in
    let pair = parse_param-pair mem c at s name token len k i (omega (arith, l)) (inr e) in
    let more : (k == 0) ≡ false = ground (arith, l) in
    let less : k - 1 ≡ len - (n + 1) = omega (arith, l) in
    let rest : (len - (n + 1) == 0) ≡ false = ground (arith, l) in
    let stays = trim_leading-same mem (record { s = s + n + 1; len = len - (n + 1) }) (inr w) in
    rw (pair, more, e, less, stays, rest) refl

parse_param-last :
    (mem : Memory) (c : ParamClass) (at s len : ℕ) (x : ℕ × ℕ)
    → IsPair mem s x.0 x.1
    → len ≡ size x
    → parse_param mem c at (record { s = s; len = len })
      ≡ last (pair_node mem c at s x) (record { s = s + size x; len = 0 })
parse_param-last mem c at s len (name, token) i l =
    parse_param-pair mem c at s name token len 0 i (omega (arith, l)) (inl refl)

append_assoc : (ps qs : List ParamNode) (p : ParamNode) → (ps ++ (p ∷ [])) ++ qs ≡ ps ++ (p ∷ qs)
append_assoc [] qs p = refl
append_assoc (q ∷ ps) qs p = ap (λ l. q ∷ l) (append_assoc ps qs p)

-- What is returned for the parameters `ps`, with the string used up.
abbrev read : List ParamNode → List ParamNode → Hooks → ℕ → ℕ → Params
read before ps h calls e = record {
  is_ok = true;
  list = before ++ ps;
  hooks = hook_all ps h;
  rest = record { s = e; len = 0 };
  calls = calls;
  freed = [];
}

-- What is returned for a list of parameters that uses up the string: no error, these parameters, for each type the last
-- parameter of it, the address of the end, the number of allocations, and no block freed.
abbrev pub all_read : List ParamNode → ℕ → ℕ → Params
all_read ps calls e = record {
  is_ok = true;
  list = ps;
  hooks = last_typed ps;
  rest = record { s = e; len = 0 };
  calls = calls;
  freed = [];
}

params_loop-pairs :
    (n : ℕ) (mem : Memory) (alloc : ℕ → Bool) (c : ParamClass) (before : List ParamNode) (h : Hooks)
    (at s len e calls : ℕ) (x : ℕ × ℕ) (ys : List (ℕ × ℕ))
    → ((i : ℕ) → alloc i ≡ true)
    → length ys < n
    → e ≡ s + len
    → calls ≡ at + 1 + length ys
    → IsPairs mem s len x ys
    → params_loop n mem alloc c before h at (record { s = s; len = len })
      ≡ some (read before (pair_nodes mem c at s x ys) h calls e)
unfolding params_loop
params_loop-pairs zero mem alloc c before h at s len e calls x ys a l f g i =
    absurd (omega (arith, l))
params_loop-pairs (suc n) mem alloc c before h at s len e calls x [] a l f g i =
    let round = parse_param-last mem c at s len x i.0 i.1 in
    let ends : e ≡ s + size x = omega (arith, f, i.1) in
    let once : calls ≡ at + 1 = omega (arith, g) in rw (params_loop, a at, round, ends, once) refl
params_loop-pairs (suc n) mem alloc c before h at s len e calls x (y ∷ ys) a l f g
      (i, (semi, (white, (rest, long)))) =
    let round = parse_param-next mem c at s len x i semi white long in
    let p = pair_node mem c at s x in
    rw (params_loop, a at, round)
      (params_loop-pairs n mem alloc c (before ++ (p ∷ [])) (hook p h) (at + 1) (s + size x + 1)
          (len - (size x + 1)) e calls y ys a (omega (arith, l)) (omega (arith, f, long))
          (omega (arith, g)) rest
        ∙ ap
            (λ l. some (record {
              is_ok = true;
              list = l;
              hooks = hook_all (pair_nodes mem c (at + 1) (s + size x + 1) y ys) (hook p h);
              rest = record { s = e; len = 0 };
              calls = calls;
              freed = [];
            }))
            (append_assoc before (pair_nodes mem c (at + 1) (s + size x + 1) y ys) p))

-- Of `name=token;name=token...` at an address other than NULL, where no name has white space or ';', ',' or '=', no
-- token has white space, ';' or ',' or begins with a quote, and no allocation fails, `parse_params` with a round for
-- each pair makes exactly these parameters, in this order, and sets the hooks to the last ones of their types.
pub parse_params-pairs :
    (fuel : ℕ) (mem : Memory) (alloc : ℕ → Bool) (c : ParamClass) (s len : ℕ) (x : ℕ × ℕ)
    (ys : List (ℕ × ℕ))
    → 0 < s
    → ((i : ℕ) → alloc i ≡ true)
    → length ys < fuel
    → IsPairs mem s len x ys
    → parse_params fuel mem alloc c (record { s = s; len = len })
      ≡ some (all_read (pair_nodes mem c 0 s x ys) (1 + length ys) (s + len))
unfolding parse_params
parse_params-pairs fuel mem alloc c s len x ys k a l i =
    let there : (s == 0) ≡ false = ground (arith, k) in
    let ps = pair_nodes mem c 0 s x ys in
    rw there (
      params_loop-pairs fuel mem alloc c [] no_hooks 0 s len (s + len) (1 + length ys) x ys a l refl
        (omega arith) i
      ∙ ap (λ h. some (record (all_read ps (1 + length ys) (s + len)) { hooks = h }))
          (λ i y. (hook_all-last_typed ps no_hooks y ∙ last_or-none (last_typed ps y)) i))
