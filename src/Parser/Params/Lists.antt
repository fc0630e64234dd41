-- ===== src/Parser/Params/Lists.antt =====
-- src/core/parser/parse_param.c: `parse_params` and `do_duplicate_params`. Whether an allocation succeeds is an
-- oracle on the number of the call.
use opensips_ng.Prelude.{
  ℕ, zero, suc, ◌+◌, Bool, true, false, Option, none, some, List, [], ◌∷◌, ◌++◌, map, ◌==◌,
  if◌then◌else◌,
}
use opensips_ng.Parser.Memory.{Memory, Text}
use opensips_ng.Parser.Params.Types.{ParamClass, ParamNode, Hooks, no_hooks, hook}
use opensips_ng.Parser.Params.Rounds.{parse_param, last, next, fail}

-- The blocks of a list of parameters.
abbrev pub blocks : List ParamNode → List ℕ
blocks = map (λ p. p.at)

-- What `parse_params` leaves: 0 or -2, the list, the hooks, `_s`, the calls of `pkg_malloc` and the blocks freed.
pub record Params : Type 0 where
  pub is_ok : Bool
  pub list : List ParamNode
  pub hooks : Hooks
  pub rest : Text
  pub calls : ℕ
  pub freed : List ℕ

-- The label `error`, with a parameter of its own or without.
abbrev pub failed : List ParamNode → Hooks → Text → ℕ → List ℕ → Params
failed before h t calls own = record {
  is_ok = false;
  list = [];
  hooks = h;
  rest = t;
  calls = calls;
  freed = own ++ blocks before;
}

-- The rounds, with the parameters before; `none` when the fuel is used up.
unfoldable pub params_loop :
    ℕ → Memory → (ℕ → Bool) → ParamClass → List ParamNode → Hooks → ℕ → Text → Option Params
params_loop zero mem alloc c before h calls t = none
params_loop (suc n) mem alloc c before h calls t = elim (alloc calls) [
  | true ↦ elim (parse_param mem c calls t) [
    | last p u ↦ some (record {
      is_ok = true;
      list = before ++ (p ∷ []);
      hooks = hook p h;
      rest = u;
      calls = calls + 1;
      freed = [];
    })
    | next p u ↦ params_loop n mem alloc c (before ++ (p ∷ [])) (hook p h) (calls + 1) u
    | fail p u ↦ some (failed before (hook p h) u (calls + 1) (calls ∷ []))
  ]
  | false ↦ some (failed before h t calls [])
]

-- `parse_params`.
unfoldable pub parse_params : ℕ → Memory → (ℕ → Bool) → ParamClass → Text → Option Params
parse_params fuel mem alloc c t =
    if t.s == 0
    then some
        (record { is_ok = true; list = []; hooks = no_hooks; rest = t; calls = 0; freed = [] })
    else params_loop fuel mem alloc c [] no_hooks 0 t

-- What `do_duplicate_params` leaves: 0 or -2, what `*_n` points to, the calls of the allocator and the blocks freed.
pub record Copied : Type 0 where
  pub is_ok : Bool
  pub list : List ParamNode
  pub calls : ℕ
  pub freed : List ℕ

-- Its loop, with the copies before. `*_n` still points to them where they are freed.
unfoldable pub duplicate_from : (ℕ → Bool) → List ParamNode → ℕ → List ParamNode → Copied
duplicate_from alloc copies calls [] = record {
  is_ok = true;
  list = copies;
  calls = calls;
  freed = [];
}
duplicate_from alloc copies calls (p ∷ ps) =
    let rest = duplicate_from alloc (copies ++ (record p { at = calls } ∷ [])) (calls + 1) ps in
    if alloc calls
    then rest
    else record { is_ok = false; list = copies; calls = calls; freed = blocks copies }

-- `do_duplicate_params`.
unfoldable pub do_duplicate_params : (ℕ → Bool) → List ParamNode → Copied
unfolding duplicate_from
do_duplicate_params alloc ps = duplicate_from alloc [] 0 ps
