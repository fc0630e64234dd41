-- ===== src/Mem/Free/Listed.antt =====
-- src/core/mem/q_malloc.c: the lists of free fragments against the memory.
use opensips_ng.Prelude.{
  ℕ, suc, ◌+◌, ◌≡◌, ◌≢◌, refl, true, ◌&&◌, List, [], ◌∷◌, arith, ◌==◌, if◌then◌else◌, Bool-cases,
  inl, inr, ==_iff, length, bit, count,
}
use opensips_ng.Mem.Frag.{Frag, sum, size_at}
use opensips_ng.Mem.Free.{
  FreeHash, get_hash, insert_sorted, insert_free, remove, detach_free, count_down,
}

-- Whether a fragment is a free one of the list `h` at the address `a`.
abbrev pub listed : ℕ → ℕ → Frag → ℕ
listed h a f = bit (f.is_free && (get_hash f.size == h && f.at == a))

-- The lists hold exactly the free fragments, each once and on the list of its size.
pub record Listed (q : FreeHash) (fs : List Frag) : Type 0 where
  pub each : (h a : ℕ) → count a (q.heads h) ≡ sum (listed h a) fs
  pub counted : (h : ℕ) → q.no h ≡ length (q.heads h)

count-insert_sorted :
    (size : ℕ → ℕ) (a s b : ℕ) (bs : List ℕ)
    → count b (insert_sorted size a s bs) ≡ bit (a == b) + count b bs
unfolding insert_sorted
count-insert_sorted size a s b [] = refl
count-insert_sorted size a s b (c ∷ bs) = ground (arith, count-insert_sorted size a s b bs)

length-insert_sorted :
    (size : ℕ → ℕ) (a s : ℕ) (bs : List ℕ) → length (insert_sorted size a s bs) ≡ suc (length bs)
unfolding insert_sorted
length-insert_sorted size a s [] = refl
length-insert_sorted size a s (c ∷ bs) = ground (arith, length-insert_sorted size a s bs)

count-remove : (a b : ℕ) (bs : List ℕ) → count b (remove a bs) ≡ (if b == a then 0 else count b bs)
unfolding remove
count-remove a b [] = ground arith
count-remove a b (c ∷ bs) = ground (arith, count-remove a b bs)

length-remove : (a : ℕ) (bs : List ℕ) → length (remove a bs) + count a bs ≡ length bs
unfolding remove
length-remove a [] = refl
length-remove a (c ∷ bs) = ground (arith, length-remove a bs)

pub listed_off : (h a : ℕ) (f : Frag) → f.at ≢ a → listed h a f ≡ 0
listed_off h a f ne = ground arith

listed_self : (h : ℕ) (f : Frag) → f.is_free ≡ true → listed h f.at f ≡ bit (get_hash f.size == h)
listed_self h f e = ground arith

-- The fragment `f` is taken out of its list, and out of memory or use.
pub detach-Listed :
    (q : FreeHash) (fs rest : List Frag) (f : Frag)
    → Listed q fs
    → f.is_free ≡ true
    → ((h a : ℕ) → sum (listed h a) fs ≡ listed h a f + sum (listed h a) rest)
    → ((h : ℕ) → sum (listed h f.at) rest ≡ 0)
    → Listed (count_down (get_hash f.size) (detach_free f.at q)) rest
unfolding count_down detach_free
detach-Listed q fs rest f l free split alone = record {
  each = λ h a. elim (Bool-cases (a == f.at)) [
    | inl e ↦
        let same : a ≡ f.at = (==_iff a f.at).0 e in
        rw same (ground (arith, count-remove f.at f.at (q.heads h), alone h))
    | inr e ↦
        ground (arith, count-remove f.at a (q.heads h), l.each h a, split h a, listed_off h a f)
  ];
  counted = λ h. ground (
    arith,
    l.counted h,
    length-remove f.at (q.heads h),
    l.each h f.at,
    split h f.at,
    alone h,
    listed_self h f free,
  );
}

-- The free fragment `n` is put on its list.
pub insert-Listed :
    (q : FreeHash) (memory fs rest : List Frag) (n : Frag)
    → Listed q rest
    → n.is_free ≡ true
    → ((h a : ℕ) → sum (listed h a) fs ≡ listed h a n + sum (listed h a) rest)
    → Listed (insert_free memory n.at n.size q) fs
unfolding insert_free
insert-Listed q memory fs rest n l free split = record {
  each = λ h a. ground (
    arith,
    l.each h a,
    split h a,
    free,
    count-insert_sorted (size_at memory) n.at n.size a (q.heads h),
  );
  counted = λ h.
      ground (arith, l.counted h, length-insert_sorted (size_at memory) n.at n.size (q.heads h));
}
