-- ===== src/Mem/Frag.antt =====
-- src/core/mem/q_malloc.h: the fragments that the memory of a block is divided into, in the order of
-- their addresses. `FRAG_NEXT` and `FRAG_PREV` are the neighbours in this order.
use mathlib.Core.Path.{subst}
use mathlib.Core.Option.{some-injective}
use opensips_ng.Prelude.{
  ℕ, ◌+◌, ◌≤◌, ◌<◌, ◌≡◌, refl, Bool, Option, none, some, List, [], ◌∷◌, arith, ◌==◌, if◌then◌else◌,
  Bool-cases, inl, inr, ==_iff, ◌≢◌,
}

-- `struct qm_frag` at the address `at`, with the test of `u.is_free`. Its `struct qm_frag_end` holds the
-- same size.
pub record Frag : Type 0 where
  pub at : ℕ
  pub size : ℕ
  pub is_free : Bool

-- sizeof(struct qm_frag), and FRAG_OVERHEAD.
abbrev pub frag_header : ℕ
frag_header = 48

abbrev pub frag_overhead : ℕ
frag_overhead = 96

-- Where the next fragment starts.
abbrev pub frag_next : Frag → ℕ
frag_next f = f.at + f.size + frag_overhead

-- A fragment, with those before it, the nearest first, and those behind it.
pub record Place : Type 0 where
  pub before : List Frag
  pub frag : Frag
  pub behind : List Frag

-- `(struct qm_frag*)` of an address; `none` is an address where no fragment starts.
unfoldable pub locate : ℕ → List Frag → List Frag → Option Place
locate a before [] = none
locate a before (f ∷ behind) =
    let rest = locate a (f ∷ before) behind in
    if f.at == a then some (record { before = before; frag = f; behind = behind }) else rest

-- The fragments before a place, put in front of others.
unfoldable pub rebuild : List Frag → List Frag → List Frag
rebuild [] behind = behind
rebuild (f ∷ before) behind = rebuild before (f ∷ behind)

-- `f->size` of the fragment at an address.
unfoldable pub size_at : List Frag → ℕ → ℕ
size_at [] a = 0
size_at (f ∷ fs) a = let rest = size_at fs a in if f.at == a then f.size else rest

-- A sum over the fragments.
unfoldable pub sum : (Frag → ℕ) → List Frag → ℕ
sum w [] = 0
sum w (f ∷ fs) = w f + sum w fs

pub sum-rebuild :
    (w : Frag → ℕ) (before behind : List Frag)
    → sum w (rebuild before behind) ≡ sum w before + sum w behind
unfolding sum rebuild
sum-rebuild w [] behind = omega arith
sum-rebuild w (f ∷ before) behind = omega (arith, sum-rebuild w before (f ∷ behind))

-- The fragments fill the memory from `start` to `end`.
unfoldable pub Tiles : ℕ → List Frag → ℕ → Type 0
Tiles start [] end = start ≡ end
Tiles start (f ∷ fs) end = (f.at ≡ start) × Tiles (frag_next f) fs end

-- The same for the fragments before a place.
unfoldable pub TilesBack : ℕ → List Frag → ℕ → Type 0
TilesBack start [] end = start ≡ end
TilesBack start (f ∷ fs) end = (frag_next f ≡ end) × TilesBack start fs f.at

-- The fragments before and behind an address in the middle.
abbrev pub Cut : ℕ → List Frag → List Frag → ℕ → ℕ → Type 0
Cut start before behind end middle = TilesBack start before middle × Tiles middle behind end

pub Tiles-rebuild :
    (start end middle : ℕ) (before behind : List Frag)
    → Cut start before behind end middle
    → Tiles start (rebuild before behind) end
unfolding Tiles TilesBack rebuild
Tiles-rebuild start end middle [] behind (l, r) = rw l r
Tiles-rebuild start end middle (f ∷ before) behind (l, r) =
    Tiles-rebuild start end f.at before (f ∷ behind) (l.1, (refl, rw l.0 r))

pub Tiles-of_rebuild :
    (start end : ℕ) (before behind : List Frag)
    → Tiles start (rebuild before behind) end
    → (middle : ℕ) × Cut start before behind end middle
unfolding Tiles TilesBack rebuild
Tiles-of_rebuild start end [] behind t = (start, (refl, t))
Tiles-of_rebuild start end (f ∷ before) behind t =
    let (m, c) = Tiles-of_rebuild start end before (f ∷ behind) t in
    (frag_next f, ((refl, rw (c.1.0) (c.0)), c.1.1))

-- No fragment of a run starts outside it.
pub sum-above :
    (w : Frag → ℕ) (a start end : ℕ) (fs : List Frag)
    → ((f : Frag) → a < f.at → w f ≡ 0)
    → a < start
    → Tiles start fs end
    → sum w fs ≡ 0
unfolding sum Tiles
sum-above w a start end [] z h t = refl
sum-above w a start end (f ∷ fs) z h (e, t) =
    omega (arith, z f (omega arith), sum-above w a (frag_next f) end fs z (omega arith) t)

pub TilesBack-le : (start end : ℕ) (fs : List Frag) → TilesBack start fs end → start ≤ end
unfolding TilesBack
TilesBack-le start end [] t = omega arith
TilesBack-le start end (f ∷ fs) (e, t) = omega (arith, TilesBack-le start f.at fs t)

pub sum-below :
    (w : Frag → ℕ) (a start end : ℕ) (fs : List Frag)
    → ((f : Frag) → f.at < a → w f ≡ 0)
    → end ≤ a
    → TilesBack start fs end
    → sum w fs ≡ 0
unfolding sum TilesBack
sum-below w a start end [] z h t = refl
sum-below w a start end (f ∷ fs) z h (e, t) =
    omega (arith, z f (omega arith), sum-below w a start f.at fs z (omega arith) t)

-- What `locate` finds stands in the list, at the address.
pub data Located (a : ℕ) (all : List Frag) : Option Place → Type 0 where
  nowhere : Located a all none
  found :
      {p : Place}
      → p.frag.at ≡ a
      → rebuild p.before (p.frag ∷ p.behind) ≡ all
      → Located a all (some p)

pub locate-Located :
    (a : ℕ) (before fs : List Frag) → Located a (rebuild before fs) (locate a before fs)
unfolding locate rebuild
locate-Located a before [] = nowhere
locate-Located a before (f ∷ fs) = elim (Bool-cases (f.at == a)) [
  | inl e ↦ rw e (found ((==_iff f.at a).0 e) refl)
  | inr e ↦ rw e (locate-Located a (f ∷ before) fs)
]

-- It finds a fragment where a sum that only counts those at the address is not 0.
pub locate-some :
    (w : Frag → ℕ) (a : ℕ) (before fs : List Frag)
    → ((f : Frag) → f.at ≢ a → w f ≡ 0)
    → 0 < sum w fs
    → (p : Place) × (locate a before fs ≡ some p)
unfolding locate sum
locate-some w a before [] z h = absurd (omega arith)
locate-some w a before (f ∷ fs) z h = elim (Bool-cases (f.at == a)) [
  | inl e ↦ rw e (record { before = before; frag = f; behind = fs }, refl)
  | inr e ↦ rw e (locate-some w a (f ∷ before) fs z (omega (arith, z f (λ x. ground (arith, x)))))
]

pub located :
    (a : ℕ) (before fs : List Frag) {p : Place}
    → locate a before fs ≡ some p
    → (p.frag.at ≡ a) × (rebuild p.before (p.frag ∷ p.behind) ≡ rebuild before fs)
located a before fs e = go (locate-Located a before fs) e
  where
    go :
        {o : Option Place} {p : Place}
        → Located a (rebuild before fs) o
        → o ≡ some p
        → (p.frag.at ≡ a) × (rebuild p.before (p.frag ∷ p.behind) ≡ rebuild before fs)
    go nowhere e = cc
    go (found x y) e =
        subst (λ p. (p.frag.at ≡ a) × (rebuild p.before (p.frag ∷ p.behind) ≡ rebuild before fs))
          (some-injective _ _ e) (x, y)
