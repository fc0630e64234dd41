-- ===== src/Mem/Qm/Malloc.antt =====
-- src/core/mem/q_malloc.c: `qm_malloc`.
use opensips_ng.Prelude.{
  bit, count, ℕ, zero, suc, ◌+◌, ◌-◌, ◌≤◌, ◌<◌, ◌≡◌, refl, sym, ◌∙◌, ap, Bool, true, false, List,
  [], ◌∷◌, arith, ltb, leb, ◌==◌, Option, none, some, Bool-cases, inl, inr, Yields,
}
use opensips_ng.Mem.Word.{sub64, round_up}
use opensips_ng.Mem.Frag.{
  Frag, frag_header, Place, locate, located, locate-some, size_at, sum, rebuild, sum-rebuild,
}
use opensips_ng.Mem.Free.{
  FreeHash, get_hash, first_fit, find_from, find_free, detach_free, count_down, hash_size,
}
use opensips_ng.Mem.Free.Listed.{listed, listed_off, detach-Listed}
use opensips_ng.Mem.Qm.{Block, split_frag, after_split, split_size, raise_max, take, qm_malloc}
use opensips_ng.Mem.Qm.Split.{
  SplitAt, split_frag-SplitAt, Open, charge, charge-IsHeap, charge_content, split_size_enough,
  held_free,
}
use opensips_ng.Mem.Qm.Heap.{held, cost, extent, in_use, IsHeap, Around, IsHeap-Around}

-- What `qm_find_free` finds stands on the list it names, and is large enough.
pub data Fits (memory : List Frag) (q : FreeHash) (s : ℕ) : Option (ℕ × ℕ) → Type 0 where
  nothing : Fits memory q s none
  fits : {a h : ℕ} → s ≤ size_at memory a → 0 < count a (q.heads h) → Fits memory q s (some (a, h))

data FitsList (size : ℕ → ℕ) (s : ℕ) (bs : List ℕ) : Option ℕ → Type 0 where
  none_fits : FitsList size s bs none
  one_fits : {a : ℕ} → s ≤ size a → 0 < count a bs → FitsList size s bs (some a)

further :
    {size : ℕ → ℕ} {s b : ℕ} {bs : List ℕ} {o : Option ℕ}
    → FitsList size s bs o
    → FitsList size s (b ∷ bs) o
further none_fits = none_fits
further (one_fits e c) = one_fits e (omega (arith, c))

first_fit-FitsList : (size : ℕ → ℕ) (s : ℕ) (bs : List ℕ) → FitsList size s bs (first_fit size s bs)
unfolding first_fit
first_fit-FitsList size s [] = none_fits
first_fit-FitsList size s (b ∷ bs) = elim (Bool-cases (leb s (size b))) [
  | inl e ↦ rw e (one_fits (ground arith) (ground arith))
  | inr e ↦ rw e (further (first_fit-FitsList size s bs))
]

list_found :
    (memory : List Frag) (q : FreeHash) (s hash : ℕ) (rest : Option (ℕ × ℕ)) (o : Option ℕ)
    → FitsList (size_at memory) s (q.heads hash) o
    → Fits memory q s rest
    → Fits memory q s (elim o [ some a ↦ some (a, hash) | none ↦ rest ])
list_found memory q s hash rest none l r = r
list_found memory q s hash rest (some a) (one_fits e c) r = fits e c

pub find_from-Fits :
    (n : ℕ) (memory : List Frag) (q : FreeHash) (s hash : ℕ)
    → Fits memory q s (find_from n memory q s hash)
unfolding find_from
find_from-Fits zero memory q s hash = nothing
find_from-Fits (suc n) memory q s hash =
    list_found memory q s hash (find_from n memory q s (hash + 1))
      (first_fit (size_at memory) s (q.heads hash))
      (first_fit-FitsList (size_at memory) s (q.heads hash))
      (find_from-Fits n memory q s (hash + 1))

pub size_at-locate :
    (a : ℕ) (before fs : List Frag) {p : Place}
    → locate a before fs ≡ some p
    → size_at fs a ≡ p.frag.size
unfolding locate size_at
size_at-locate a before [] e = cc
size_at-locate a before (f ∷ fs) e = elim (Bool-cases (f.at == a)) [
  | inl h ↦ rw h (let e' = rw h at e in cc)
  | inr h ↦ rw h (let e' = rw h at e in size_at-locate a (f ∷ before) fs e')
]

-- What a call of the allocator that returns `p` gives: `n` bytes more are held, behind the header at `p`.
pub record Served (q : Block) (size : ℕ) (r : ℕ × Block) : Type 0 where
  pub valid : IsHeap r.1
  pub at : ℕ
  pub length : ℕ
  pub pointer : r.0 ≡ at + frag_header
  pub enough : size ≤ length
  pub content :
      (p : ℕ → ℕ → Bool) → sum (in_use p) r.1.frags ≡ sum (in_use p) q.frags + bit (p at length)

raise-IsHeap : (q : Block) → IsHeap q → IsHeap (raise_max q)
unfolding raise_max
raise-IsHeap q v = elim (Bool-cases (ltb q.max_real_used q.real_used)) [
  | inl e ↦ rw e (record {
    small = v.small;
    whole = v.whole;
    used = v.used;
    real_used = v.real_used;
    end = v.end;
    tiles = v.tiles;
    lists = v.lists;
  })
  | inr e ↦ rw e v
]

raise-frags : (q : Block) → (raise_max q).frags ≡ q.frags
unfolding raise_max
raise-frags q = ground arith

-- The fragment that is found, with its list left and marked as in use.
opened :
    (q : Block) (p : Place)
    → IsHeap q
    → Around q p.before p.frag p.behind
    → p.frag.is_free ≡ true
    → Open
        (record q {
          free_hash = count_down (get_hash p.frag.size) (detach_free p.frag.at q.free_hash);
        })
        p.before
        (record p.frag { is_free = false })
        p.behind
        0
opened q p v a free =
    let f = p.frag in
    let rest = rebuild p.before p.behind in
    let l =
      detach-Listed q.free_hash q.frags rest f v.lists free
        (λ h x. omega (arith, a.sums (listed h x), sum-rebuild (listed h x) p.before p.behind))
        (λ h. omega (
          arith,
          a.alone (listed h f.at) (λ g ne. listed_off h f.at g ne),
          sum-rebuild (listed h f.at) p.before p.behind,
        )) in
    record {
      small = v.small;
      whole = omega (arith, v.whole, a.sums extent);
      used = omega (arith, v.used, a.sums held, held_free f free);
      real_used = omega (arith, v.real_used, a.sums cost, held_free f free);
      end = a.end;
      left = a.left;
      right = a.right;
      each = λ h x. l.each h x ∙ sum-rebuild (listed h x) p.before p.behind;
      counted = l.counted;
      busy = refl;
    }

in_use_free : (t : ℕ → ℕ → Bool) (f : Frag) → f.is_free ≡ true → in_use t f ≡ 0
in_use_free t f e = ground arith

take-Served :
    (q : Block) (size hash : ℕ) (p : Place)
    → IsHeap q
    → Around q p.before p.frag p.behind
    → p.frag.is_free ≡ true
    → hash ≡ get_hash p.frag.size
    → size ≤ p.frag.size
    → Served q size (take q size hash p)
unfolding take
take-Served q size hash p v a free h enough =
    let f : Frag = record p.frag { is_free = false } in
    let parts = split_frag f size in
    let s : SplitAt f size parts = split_frag-SplitAt f size enough in
    let q0 : Block = record q {
      free_hash = count_down (get_hash p.frag.size) (detach_free p.frag.at q.free_hash);
    } in
    let o = opened q p v a free in
    let taken = split_size f parts in
    let closed = charge taken (after_split q0 p.before p.behind f parts) in
    rw h (record {
      valid =
          raise-IsHeap closed
            (charge-IsHeap q0 p.before f p.behind 0 taken o size parts s (omega arith));
      at = f.at;
      length = taken;
      pointer = refl;
      enough = split_size_enough f size parts s enough;
      content = λ t.
          ap (sum (in_use t)) (raise-frags closed)
          ∙ omega (
            arith,
            charge_content q0 p.before f p.behind 0 taken o size parts t s,
            a.sums (in_use t),
            in_use_free t p.frag free,
          );
    })

is_free_of_listed : (h a : ℕ) (f : Frag) → 0 < listed h a f → f.is_free ≡ true
is_free_of_listed h a f p = ground arith

hash_of_listed : (h a : ℕ) (f : Frag) → 0 < listed h a f → h ≡ get_hash f.size
hash_of_listed h a f p = ground arith

-- The fragment on a list is found in memory.
listed_fragment :
    (q : Block) (a h : ℕ)
    → IsHeap q
    → 0 < count a (q.free_hash.heads h)
    → (p : Place) × (locate a [] q.frags ≡ some p)
      × Around q p.before p.frag p.behind
      × (p.frag.is_free ≡ true)
      × (h ≡ get_hash p.frag.size)
unfolding rebuild
listed_fragment q a h v c =
    let (p, e) =
      locate-some (listed h a) a [] q.frags (λ f ne. listed_off h a f ne)
        (omega (arith, c, v.lists.each h a)) in
    let (at_a, whole) = located a [] q.frags e in
    let w = IsHeap-Around q p.before p.frag p.behind v whole in
    let here : 0 < listed h a p.frag = omega (
      arith,
      c,
      v.lists.each h a,
      w.sums (listed h a),
      w.alone (listed h a) (λ g ne. listed_off h a g (λ x. ne (x ∙ sym at_a))),
    ) in
    (p, e, w, is_free_of_listed h a p.frag here, hash_of_listed h a p.frag here)

-- What `qm_malloc` can come to: NULL and the block as it was, or a fragment.
pub data Answer (q : Block) (size : ℕ) : Option (ℕ × Block) → Type 0 where
  refused : Answer q size (some (0, q))
  served : {r : ℕ × Block} → Served q size r → Answer q size (some r)

-- What `qm_find_free` can find is served.
pub found-Served :
    (q : Block) (size a h : ℕ)
    → IsHeap q
    → size ≤ size_at q.frags a
    → 0 < count a (q.free_hash.heads h)
    → Yields
        (Served q size)
        (elim (locate a [] q.frags) [ none ↦ none | some p ↦ some (take q size h p) ])
found-Served q size a h v enough c =
    let (p, e, w, free, hash) = listed_fragment q a h v c in
    rw e
      (take-Served q size h p v w free hash (omega (arith, enough, size_at-locate a [] q.frags e)))

Served-Answer :
    (q : Block) (size : ℕ) (o : Option (ℕ × Block)) → Yields (Served q size) o → Answer q size o
Served-Answer q size none y = absurd y
Served-Answer q size (some r) y = served y

find-Answer :
    (q : Block) (size : ℕ) (o : Option (ℕ × ℕ))
    → IsHeap q
    → Fits q.frags q.free_hash size o
    → Answer q size (elim o [
      | none ↦ some (0, q)
      | some (a, hash) ↦ elim (locate a [] q.frags) [
        | none ↦ none
        | some p ↦ some (take q size hash p)
      ]
    ])
find-Answer q size none v nothing = refused
find-Answer q size (some (a, h)) v (fits enough c) =
    Served-Answer q size _ (found-Served q size a h v enough c)

-- `qm_malloc` on a heap does not abort: it returns NULL and changes nothing, or it keeps the heap and gives out one
-- fragment more, which is as large as the rounded size at least.
pub qm_malloc-Answer :
    (q : Block) (size : ℕ) → IsHeap q → Answer q (round_up size) (qm_malloc q size)
unfolding qm_malloc find_free
qm_malloc-Answer q size v = elim (Bool-cases (ltb (sub64 q.size q.real_used) (round_up size))) [
  | inl e ↦ rw e refused
  | inr e ↦ rw e (
      find-Answer q (round_up size) (find_free q.frags q.free_hash (round_up size)) v (
        find_from-Fits (hash_size - get_hash (round_up size)) q.frags q.free_hash (round_up size)
          (get_hash (round_up size))))
]
