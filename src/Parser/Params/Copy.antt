-- ===== src/Parser/Params/Copy.antt =====
-- src/core/parser/parse_param.c: `duplicate_params` and `shm_duplicate_params`.
use opensips_ng.Prelude.{
  ℕ, ◌+◌, ◌≡◌, ◌∙◌, ap, refl, Bool, true, false, ltb, List, [], ◌∷◌, ◌++◌, map, bit, count, arith,
  Bool-cases, inl, inr,
}
use opensips_ng.Parser.Params.Types.{ParamNode}
use opensips_ng.Parser.Params.Lists.{blocks, Copied, duplicate_from, do_duplicate_params}
use opensips_ng.Parser.Params.Owned.{count-blocks, bit-next}

-- A parameter without its address.
abbrev pub content : ParamNode → ParamNode
content p = record p { at = 0 }

-- A copy of `ps`, or the copies made before the memory was used up, all of which are freed.
pub record CopyOf (alloc : ℕ → Bool) (ps : List ParamNode) (r : Copied) : Type 0 where
  pub succeeds : ((n : ℕ) → alloc n ≡ true) → r.is_ok ≡ true
  pub once : (b : ℕ) → count b (blocks r.list) ≡ bit (ltb b r.calls)
  pub same : r.is_ok ≡ true → map content r.list ≡ map content ps
  pub kept : r.is_ok ≡ true → r.freed ≡ []
  pub dangling : r.is_ok ≡ false → r.freed ≡ blocks r.list

content-copy :
    (cs ps : List ParamNode) (p : ParamNode) (n : ℕ)
    → map content ((cs ++ (record p { at = n } ∷ [])) ++ ps) ≡ map content (cs ++ (p ∷ ps))
content-copy [] ps p n = refl
content-copy (c ∷ cs) ps p n = ap (λ l. content c ∷ l) (content-copy cs ps p n)

append_nil : (cs : List ParamNode) → map content cs ≡ map content (cs ++ [])
append_nil [] = refl
append_nil (c ∷ cs) = ap (λ l. content c ∷ l) (append_nil cs)

duplicate_from-CopyOf :
    (alloc : ℕ → Bool) (cs : List ParamNode) (calls : ℕ) (ps : List ParamNode)
    → ((b : ℕ) → count b (blocks cs) ≡ bit (ltb b calls))
    → CopyOf alloc (cs ++ ps) (duplicate_from alloc cs calls ps)
unfolding duplicate_from
duplicate_from-CopyOf alloc cs calls [] h = record {
  succeeds = λ e. refl;
  once = h;
  same = λ e. append_nil cs;
  kept = λ e. refl;
  dangling = λ e. ground (arith, e);
}
duplicate_from-CopyOf alloc cs calls (p ∷ ps) h = elim (Bool-cases (alloc calls)) [
  | inl e ↦
      let r =
        duplicate_from-CopyOf alloc (cs ++ (record p { at = calls } ∷ [])) (calls + 1) ps (λ b.
          count-blocks b cs (record p { at = calls }) ∙ omega (arith, h b, bit-next b calls)) in
      rw e (record {
        succeeds = r.succeeds;
        once = r.once;
        same = λ k. r.same k ∙ content-copy cs ps p calls;
        kept = r.kept;
        dangling = r.dangling;
      })
  | inr e ↦ rw e (record {
    succeeds = λ k. ground (arith, k calls, e);
    once = h;
    same = λ k. ground (arith, k);
    kept = λ k. ground (arith, k);
    dangling = λ k. refl;
  })
]

-- `do_duplicate_params` succeeds with a copy of the list in blocks of its own, none of which is freed, or fails and
-- frees every block that it has allocated, which are those of the list that the caller is left with;
-- it succeeds if no allocation fails.
pub do_duplicate_params-CopyOf :
    (alloc : ℕ → Bool) (ps : List ParamNode) → CopyOf alloc ps (do_duplicate_params alloc ps)
unfolding do_duplicate_params
do_duplicate_params-CopyOf alloc ps = duplicate_from-CopyOf alloc [] 0 ps (λ b. ground arith)
