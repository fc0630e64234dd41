-- ===== src/Mem/Free.antt =====
-- src/core/mem/q_malloc.c: the lists of free fragments, `GET_HASH` with `big_hash_idx`, `qm_insert_free`,
-- `qm_detach_free`, and the two loops of `qm_find_free`.
pub mod Listed
pub mod Classes
use opensips_ng.Prelude.{
  ℕ, zero, suc, ◌+◌, ◌-◌, ◌*◌, ◌/◌, ◌^◌, ◌%◌, ◌≤◌, ◌<◌, ◌≡◌, refl, Bool, true, false, ◌&&◌, Option,
  none, some, List, [], ◌∷◌, arith, ltb, leb, ◌==◌, if◌then◌else◌, Bool-cases, inl, inr, ==_iff,
  length,
}
use opensips_ng.Mem.Word.{u64_mod, round_to}
use opensips_ng.Mem.Frag.{Frag, sum, size_at}

-- The loop of `big_hash_idx`, with a round for each bit: `s<<=1, idx--` up to a set top bit.
unfoldable pub big_hash_loop : ℕ → ℕ → ℕ → ℕ
big_hash_loop zero s idx = idx
big_hash_loop (suc n) s idx =
    let rest = big_hash_loop n (s * 2 % u64_mod) (idx - 1) in if leb (2 ^ 63) s then idx else rest

unfoldable pub big_hash_idx : ℕ → ℕ
unfolding big_hash_loop
big_hash_idx s = big_hash_loop 64 s 63

-- QM_MALLOC_OPTIMIZE, with QM_MALLOC_OPTIMIZE_FACTOR = 14.
abbrev pub malloc_optimize : ℕ
malloc_optimize = 16384

-- QM_HASH_SIZE.
abbrev pub hash_size : ℕ
hash_size = malloc_optimize / round_to + (64 - 14) + 1

-- GET_HASH.
unfoldable pub get_hash : ℕ → ℕ
get_hash s =
    if leb s malloc_optimize
    then s / round_to
    else malloc_optimize / round_to + big_hash_idx s - 14 + 1

-- `free_hash`: the addresses on each list in order, and its `no`.
pub record FreeHash : Type 0 where
  pub heads : ℕ → List ℕ
  pub no : ℕ → ℕ

-- The loop of `qm_insert_free`: before the first fragment that is not smaller.
unfoldable pub insert_sorted : (ℕ → ℕ) → ℕ → ℕ → List ℕ → List ℕ
insert_sorted size a s [] = a ∷ []
insert_sorted size a s (b ∷ bs) =
    let rest = insert_sorted size a s bs in if leb s (size b) then a ∷ (b ∷ bs) else b ∷ rest

-- `qm_insert_free` of the fragment at `a` with size `s`, with the sizes of the others in memory.
unfoldable pub insert_free : List Frag → ℕ → ℕ → FreeHash → FreeHash
unfolding insert_sorted size_at
insert_free memory a s q =
    let hash = get_hash s in
    record {
      heads = λ h. if h == hash then insert_sorted (size_at memory) a s (q.heads h) else q.heads h;
      no = λ h. if h == hash then q.no h + 1 else q.no h;
    }

unfoldable pub remove : ℕ → List ℕ → List ℕ
remove a [] = []
remove a (b ∷ bs) = let rest = remove a bs in if b == a then rest else b ∷ rest

-- `qm_detach_free`: the fragment is taken out of the list that it stands in.
unfoldable pub detach_free : ℕ → FreeHash → FreeHash
unfolding remove
detach_free a q = record q { heads = λ h. remove a (q.heads h) }

-- `free_hash[hash].no--`, for a list that counts one fragment at least.
unfoldable pub count_down : ℕ → FreeHash → FreeHash
count_down hash q = record q { no = λ h. if h == hash then q.no h - 1 else q.no h }

-- The inner loop of `qm_find_free`.
unfoldable pub first_fit : (ℕ → ℕ) → ℕ → List ℕ → Option ℕ
first_fit size s [] = none
first_fit size s (a ∷ bs) =
    let rest = first_fit size s bs in if leb s (size a) then some a else rest

-- The outer loop, with `n` lists left: the fragment's address, and its list.
unfoldable pub find_from : ℕ → List Frag → FreeHash → ℕ → ℕ → Option (ℕ × ℕ)
unfolding first_fit size_at
find_from zero memory q s hash = none
find_from (suc n) memory q s hash = elim (first_fit (size_at memory) s (q.heads hash)) [
  | some a ↦ some (a, hash)
  | none ↦ find_from n memory q s (hash + 1)
]

unfoldable pub find_free : List Frag → FreeHash → ℕ → Option (ℕ × ℕ)
unfolding find_from
find_free memory q s = find_from (hash_size - get_hash s) memory q s (get_hash s)
