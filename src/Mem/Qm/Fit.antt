-- ===== src/Mem/Qm/Fit.antt =====
-- src/core/mem/q_malloc.c: when `qm_malloc` finds memory.
use opensips_ng.Prelude.{
  bit, count, ℕ, zero, suc, ◌+◌, ◌-◌, ◌≤◌, ◌<◌, ◌≡◌, ◌≢◌, refl, sym, ◌∙◌, true, false, ◌&&◌, List,
  [], ◌∷◌, arith, ltb, leb, ◌==◌, if◌then◌else◌, Option, none, some, Bool-cases, inl, inr, Yields,
  ==_iff,
}
use opensips_ng.Mem.Word.{u64_mod, sub64, round_up}
use opensips_ng.Mem.Frag.{Frag, locate, located, locate-some, size_at, sum, rebuild}
use opensips_ng.Mem.Free.{FreeHash, get_hash, first_fit, find_from, find_free, hash_size}
use opensips_ng.Mem.Free.Listed.{listed}
use opensips_ng.Mem.Free.Classes.{get_hash_mono, get_hash-lt}
use opensips_ng.Mem.Qm.{Block, take, qm_malloc}
use opensips_ng.Mem.Qm.Heap.{cost, extent, IsHeap, IsHeap-Around}
use opensips_ng.Mem.Qm.Malloc.{
  Served, Fits, nothing, fits, find_from-Fits, found-Served, size_at-locate,
}

-- Whether a fragment is free and has a size.
abbrev pub has_room : ℕ → Frag → ℕ
has_room s f = bit (f.is_free && leb s f.size)

-- A list that a fragment of the size stands on yields one.
first_fit_finds :
    (size : ℕ → ℕ) (s a : ℕ) (bs : List ℕ)
    → 0 < count a bs
    → s ≤ size a
    → Yields (λ b. Unit) (first_fit size s bs)
unfolding first_fit
first_fit_finds size s a [] c h = absurd (omega arith)
first_fit_finds size s a (b ∷ bs) c h = elim (Bool-cases (leb s (size b))) [
  | inl e ↦ rw e tt
  | inr e ↦ rw e (first_fit_finds size s a bs (ground arith) h)
]

either_finds :
    (hash : ℕ) (rest : Option (ℕ × ℕ)) (o : Option ℕ)
    → Yields (λ b. Unit) rest
    → Yields (λ b. Unit) (elim o [ some a ↦ some (a, hash) | none ↦ rest ])
either_finds hash rest none y = y
either_finds hash rest (some a) y = tt

here_finds :
    (hash : ℕ) (rest : Option (ℕ × ℕ)) (o : Option ℕ)
    → Yields (λ b. Unit) o
    → Yields (λ b. Unit) (elim o [ some a ↦ some (a, hash) | none ↦ rest ])
here_finds hash rest none y = absurd y
here_finds hash rest (some a) y = tt

-- So do the lists from one before it on.
find_from_finds :
    (n : ℕ) (memory : List Frag) (q : FreeHash) (s hash h a : ℕ)
    → hash ≤ h
    → h < hash + n
    → 0 < count a (q.heads h)
    → s ≤ size_at memory a
    → Yields (λ b. Unit) (find_from n memory q s hash)
unfolding find_from
find_from_finds zero memory q s hash h a l u c e = absurd (omega arith)
find_from_finds (suc n) memory q s hash h a l u c e = elim (Bool-cases (h == hash)) [
  | inl k ↦
      here_finds hash (find_from n memory q s (hash + 1))
        (first_fit (size_at memory) s (q.heads hash))
        (first_fit_finds (size_at memory) s a (q.heads hash) (rw (← (==_iff h hash).0 k) c) e)
  | inr k ↦
      either_finds hash (find_from n memory q s (hash + 1))
        (first_fit (size_at memory) s (q.heads hash))
        (find_from_finds n memory q s (hash + 1) h a (ground arith) (omega arith) c e)
]

-- A sum that is not 0 comes from one of the fragments.
sum_witness :
    (w : Frag → ℕ) (fs : List Frag)
    → 0 < sum w fs
    → (f : Frag) × (0 < w f) × ((v : Frag → ℕ) → v f ≤ sum v fs)
unfolding sum
sum_witness w [] h = absurd (omega arith)
sum_witness w (f ∷ fs) h = elim (Bool-cases (ltb 0 (w f))) [
  | inl e ↦ (f, ground arith, λ v. omega arith)
  | inr e ↦ let (g, p, u) = sum_witness w fs (ground arith) in (g, p, λ v. omega (arith, u v))
]

-- The memory of the free fragments is what the counters leave.
abbrev pub spare : Frag → ℕ
spare f = if f.is_free then f.size else 0

sum-spare : (fs : List Frag) → sum extent fs ≡ sum cost fs + sum spare fs
unfolding sum
sum-spare [] = refl
sum-spare (f ∷ fs) = ground (arith, sum-spare fs)

room-le :
    (q : Block) (f : Frag)
    → IsHeap q
    → f.is_free ≡ true
    → spare f ≤ sum spare q.frags
    → f.size ≤ sub64 q.size q.real_used
room-le q f v free u =
    let size_f : spare f ≡ f.size = rw free refl in
    omega (arith, size_f, u, v.whole, v.real_used, v.small, sum-spare q.frags)

abbrev pub stands : ℕ → ℕ → Frag → ℕ
stands at size f = bit (f.at == at && f.size == size)

stands_off : (at size : ℕ) (f : Frag) → f.at ≢ at → stands at size f ≡ 0
stands_off at size f ne = ground arith

stands_self : (f : Frag) → stands f.at f.size f ≡ 1
stands_self f = ground arith

stands_size : (at size : ℕ) (f : Frag) → 0 < stands at size f → f.size ≡ size
stands_size at size f h = ground arith

-- A fragment of the memory is where its address says.
size_at_witness :
    (q : Block) (f : Frag)
    → IsHeap q
    → stands f.at f.size f ≤ sum (stands f.at f.size) q.frags
    → size_at q.frags f.at ≡ f.size
unfolding rebuild
size_at_witness q f v u =
    let (p, e) =
      locate-some (stands f.at f.size) f.at [] q.frags (λ g ne. stands_off f.at f.size g ne)
        (omega (arith, u, stands_self f)) in
    let (at_p, whole) = located f.at [] q.frags e in
    let w = IsHeap-Around q p.before p.frag p.behind v whole in
    let here = stands_size f.at f.size p.frag (
      omega (
        arith,
        u,
        stands_self f,
        w.sums (stands f.at f.size),
        w.alone (stands f.at f.size) (λ g ne. stands_off f.at f.size g (λ x. ne (x ∙ sym at_p))),
      )) in
    omega (arith, size_at-locate f.at [] q.frags e, here)

has_room_free : (s : ℕ) (f : Frag) → 0 < has_room s f → (f.is_free ≡ true) × (s ≤ f.size)
has_room_free s f h = ground arith

listed_self : (f : Frag) → f.is_free ≡ true → listed (get_hash f.size) f.at f ≡ 1
listed_self f h = ground arith

found-Yields :
    (q : Block) (s : ℕ) (o : Option (ℕ × ℕ))
    → IsHeap q
    → Fits q.frags q.free_hash s o
    → Yields (λ x. Unit) o
    → Yields (Served q s) (elim o [
      | none ↦ some (0, q)
      | some (a, hash) ↦ elim (locate a [] q.frags) [
        | none ↦ none
        | some p ↦ some (take q s hash p)
      ]
    ])
found-Yields q s none v nothing y = absurd y
found-Yields q s (some (a, h)) v (fits enough c) y = found-Served q s a h v enough c

-- Where a free fragment of a heap is as large as the rounded size, `qm_malloc` does not return NULL: it gives out
-- a fragment.
pub qm_malloc_serves :
    (q : Block) (size : ℕ)
    → IsHeap q
    → 0 < sum (has_room (round_up size)) q.frags
    → Yields (Served q (round_up size)) (qm_malloc q size)
unfolding qm_malloc find_free
qm_malloc_serves q size v h =
    let s = round_up size in
    let (f, room, u) = sum_witness (has_room s) q.frags h in
    let (free, enough) = has_room_free s f room in
    let test : ltb (sub64 q.size q.real_used) s ≡ false =
      ground (arith, room-le q f v free (u spare), enough) in
    let small : f.size < u64_mod = omega (arith, u extent, v.whole, v.small) in
    let finds =
      find_from_finds (hash_size - get_hash s) q.frags q.free_hash s (get_hash s) (get_hash f.size)
        f.at (get_hash_mono s f.size enough small)
        (omega (arith, get_hash-lt s, get_hash-lt f.size))
        (omega (
          arith,
          u (listed (get_hash f.size) f.at),
          listed_self f free,
          v.lists.each (get_hash f.size) f.at,
        ))
        (omega (arith, size_at_witness q f v (u (stands f.at f.size)), enough)) in
    rw test (
      found-Yields q s (find_from (hash_size - get_hash s) q.frags q.free_hash s (get_hash s)) v
        (find_from-Fits (hash_size - get_hash s) q.frags q.free_hash s (get_hash s)) finds)
