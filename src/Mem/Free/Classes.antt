-- ===== src/Mem/Free/Classes.antt =====
-- src/core/mem/q_malloc.c: GET_HASH orders the lists by the sizes of their fragments.
use opensips_ng.Prelude.{
  ℕ, zero, suc, ◌-◌, ◌*◌, ◌%◌, ◌^◌, ◌≤◌, ◌<◌, ◌≡◌, refl, false, arith, leb, Bool-cases, inl, inr,
}
use opensips_ng.Mem.Word.{u64_mod}
use opensips_ng.Mem.Free.{big_hash_loop, big_hash_idx, malloc_optimize, hash_size, get_hash}

big_hash_loop-le : (n s idx : ℕ) → big_hash_loop n s idx ≤ idx
unfolding big_hash_loop
big_hash_loop-le zero s idx = omega arith
big_hash_loop-le (suc n) s idx = elim (Bool-cases (leb (2 ^ 63) s)) [
  | inl e ↦ rw e (omega arith)
  | inr e ↦ rw e (omega (arith, big_hash_loop-le n (s * 2 % u64_mod) (idx - 1)))
]

doubled : (s : ℕ) → s < 2 ^ 63 → s * 2 % u64_mod ≡ s * 2
doubled s h = omega arith

big_hash_loop_mono :
    (n s t idx : ℕ) → s ≤ t → t < u64_mod → big_hash_loop n s idx ≤ big_hash_loop n t idx
unfolding big_hash_loop
big_hash_loop_mono zero s t idx h b = omega arith
big_hash_loop_mono (suc n) s t idx h b = elim (Bool-cases (leb (2 ^ 63) t)) [
  | inl e ↦ rw e (big_hash_loop-le (suc n) s idx)
  | inr e ↦
      let low : t < 2 ^ 63 = ground arith in
      let off : leb (2 ^ 63) s ≡ false = ground arith in
      rw (e, off, doubled s (omega arith), doubled t low)
        (big_hash_loop_mono n (s * 2) (t * 2) (idx - 1) (omega arith) (omega arith))
]

big_hash_idx_mono : (s t : ℕ) → s ≤ t → t < u64_mod → big_hash_idx s ≤ big_hash_idx t
unfolding big_hash_idx
big_hash_idx_mono s t h b = big_hash_loop_mono 64 s t 63 h b

big_hash_idx-le : (s : ℕ) → big_hash_idx s ≤ 63
unfolding big_hash_idx
big_hash_idx-le s = big_hash_loop-le 64 s 63

big_hash_optimize : big_hash_idx malloc_optimize ≡ 14
unfolding big_hash_idx
big_hash_optimize = refl

-- A size that is not smaller is not on an earlier list.
pub get_hash_mono : (s t : ℕ) → s ≤ t → t < u64_mod → get_hash s ≤ get_hash t
unfolding get_hash
get_hash_mono s t h b = elim (Bool-cases (leb s malloc_optimize)) [
  | inl e ↦ elim (Bool-cases (leb t malloc_optimize)) [
    | inl k ↦ rw (e, k) (omega arith)
    | inr k ↦
        rw (e, k)
          (ground (arith, big_hash_idx_mono malloc_optimize t (ground arith) b, big_hash_optimize))
  ]
  | inr e ↦
      let k : leb t malloc_optimize ≡ false = ground arith in
      rw (e, k) (omega (arith, big_hash_idx_mono s t h b))
]

pub get_hash-lt : (s : ℕ) → get_hash s < hash_size
unfolding get_hash
get_hash-lt s = elim (Bool-cases (leb s malloc_optimize)) [
  | inl e ↦ rw e (ground arith)
  | inr e ↦ rw e (omega (arith, big_hash_idx-le s))
]
