-- ===== src/Parser/Params/Hooked.antt =====
-- src/core/parser/parse_param.c: the hooks that a list of parameters leaves, each the last parameter of its type.
use opensips_ng.Prelude.{
  ℕ, suc, ◌≡◌, ◌∙◌, ap, sym, inl, inr, refl, true, false, ◌==◌, List, [], ◌∷◌, Option, none, some,
  arith, Bool-cases, if◌then◌else◌,
}
use opensips_ng.Parser.Params.Types.{
  ParamType, p_other, p_q, p_expires, p_methods, p_received, p_transport, p_lr, p_r2, p_maddr,
  p_ttl, p_dstip, p_dstport, type_no, ParamNode, Hooks, hook,
}

-- The hooks after the parameters of a list, the last of a type set last.
abbrev pub hook_all : List ParamNode → Hooks → Hooks
hook_all [] h = h
hook_all (p ∷ ps) h = hook_all ps (hook p h)

-- The block of the last parameter of a list that has a type other than `p_other`; `none` where no parameter has it.
abbrev last_or : Option ℕ → Option ℕ → Option ℕ
last_or none o = o
last_or (some a) o = some a

pub ParamType-discrete : Discrete ParamType
ParamType-discrete = hlevel

abbrev if_equal : {x y : ParamType} → Dec (x ≡ y) → ℕ → Option ℕ
if_equal (yes e) a = some a
if_equal (no e) a = none

abbrev typed : ParamNode → ParamType → Option ℕ
typed p p_other = none
typed p x = if_equal (ParamType-discrete p.type x) p.at

abbrev pub last_typed : List ParamNode → ParamType → Option ℕ
last_typed [] x = none
last_typed (p ∷ ps) x = last_or (last_typed ps x) (typed p x)

-- The type of a number.
abbrev of_no : ℕ → ParamType
of_no n =
    if n == 1
    then p_q
    else if n == 2
    then p_expires
    else if n == 3
    then p_methods
    else if n == 4
    then p_received
    else if n == 5
    then p_transport
    else if n == 6
    then p_lr
    else if n == 7
    then p_r2
    else if n == 8
    then p_maddr
    else if n == 9
    then p_ttl
    else if n == 10
    then p_dstip
    else if n == 11
    then p_dstport
    else p_other

of_no-type_no : (x : ParamType) → of_no (type_no x) ≡ x
unfolding type_no
of_no-type_no p_other = refl
of_no-type_no p_q = refl
of_no-type_no p_expires = refl
of_no-type_no p_methods = refl
of_no-type_no p_received = refl
of_no-type_no p_transport = refl
of_no-type_no p_lr = refl
of_no-type_no p_r2 = refl
of_no-type_no p_maddr = refl
of_no-type_no p_ttl = refl
of_no-type_no p_dstip = refl
of_no-type_no p_dstport = refl

numbered :
    (x y : ParamType) (n a : ℕ) (o : Option ℕ) (d : Dec (x ≡ y))
    → type_no y ≡ suc n
    → (if type_no x == 0 then o else if suc n == type_no x then some a else o)
      ≡ last_or (if_equal d a) o
numbered x y n a o (yes e) f =
    let k : type_no x ≡ suc n = ap type_no e ∙ f in
    let same : (suc n == suc n) ≡ true = ground arith in
    let positive : (suc n == 0) ≡ false = ground arith in rw (k, same, positive) refl
numbered x y n a o (no e) f = elim (Bool-cases (suc n == type_no x)) [
  | inl g ↦
      let k : type_no x ≡ type_no y = ground (arith, f, g) in
      absurd (e (sym (of_no-type_no x) ∙ ap of_no k ∙ of_no-type_no y))
  | inr g ↦ rw g (ground arith)
]

hook-typed : (p : ParamNode) (h : Hooks) (x : ParamType) → hook p h x ≡ last_or (typed p x) (h x)
unfolding hook type_no
hook-typed p h p_other = elim (Bool-cases (type_no p.type == 0)) [
  | inl e ↦ rw e refl
  | inr e ↦ let other : (0 == type_no p.type) ≡ false = ground (arith, e) in rw (e, other) refl
]
hook-typed p h p_q = numbered p.type p_q 0 p.at (h p_q) (ParamType-discrete p.type p_q) refl
hook-typed p h p_expires =
    numbered p.type p_expires 1 p.at (h p_expires) (ParamType-discrete p.type p_expires) refl
hook-typed p h p_methods =
    numbered p.type p_methods 2 p.at (h p_methods) (ParamType-discrete p.type p_methods) refl
hook-typed p h p_received =
    numbered p.type p_received 3 p.at (h p_received) (ParamType-discrete p.type p_received) refl
hook-typed p h p_transport =
    numbered p.type p_transport 4 p.at (h p_transport) (ParamType-discrete p.type p_transport) refl
hook-typed p h p_lr = numbered p.type p_lr 5 p.at (h p_lr) (ParamType-discrete p.type p_lr) refl
hook-typed p h p_r2 = numbered p.type p_r2 6 p.at (h p_r2) (ParamType-discrete p.type p_r2) refl
hook-typed p h p_maddr =
    numbered p.type p_maddr 7 p.at (h p_maddr) (ParamType-discrete p.type p_maddr) refl
hook-typed p h p_ttl = numbered p.type p_ttl 8 p.at (h p_ttl) (ParamType-discrete p.type p_ttl) refl
hook-typed p h p_dstip =
    numbered p.type p_dstip 9 p.at (h p_dstip) (ParamType-discrete p.type p_dstip) refl
hook-typed p h p_dstport =
    numbered p.type p_dstport 10 p.at (h p_dstport) (ParamType-discrete p.type p_dstport) refl

last_or_assoc : (o q r : Option ℕ) → last_or o (last_or q r) ≡ last_or (last_or o q) r
last_or_assoc none q r = refl
last_or_assoc (some a) q r = refl

pub hook_all-last_typed :
    (ps : List ParamNode) (h : Hooks) (x : ParamType)
    → hook_all ps h x ≡ last_or (last_typed ps x) (h x)
hook_all-last_typed [] h x = refl
hook_all-last_typed (p ∷ ps) h x =
    rw (hook_all-last_typed ps (hook p h) x, hook-typed p h x)
      (last_or_assoc (last_typed ps x) (typed p x) (h x))

pub last_or-none : (o : Option ℕ) → last_or o none ≡ o
last_or-none none = refl
last_or-none (some a) = refl
