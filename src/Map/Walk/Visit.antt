-- ===== src/Map/Walk/Visit.antt =====
-- `map_for_each` of src/core/map.c against the entries.
use Prim.Native.Nat.{max, digits, bit_or, bit_or-bitwise}
use opensips_ng.Prelude.{
  ℕ, zero, suc, ◌/◌, ◌%◌, ◌<◌, ◌≤◌, ◌≡◌, ◌==◌, refl, sym, ap, ◌∙◌, ◌⊎◌, List, [], ◌∷◌, ◌++◌, false,
  arith, All, Bool-cases, inl, inr, All-of_append,
}
use opensips_ng.Map.Key.{Str}
use opensips_ng.Map.Tree.{Ptr, Tree, null, node, Map}
use opensips_ng.Map.Entries.{Entry, entries}
use opensips_ng.Map.Walk.{process_all, map_for_each}

digits_or : (n a b : ℕ) → 0 < a → a ≤ n → 0 < digits (λ x. x) max n a b
digits_or zero a b p l = absurd (omega (arith, p, l))
digits_or (suc n) zero b p l = absurd (omega (arith, p))
digits_or (suc n) (suc a) b p l = elim (Bool-cases (suc a % 2 == 1)) [
  | inl e ↦ let odd : suc a % 2 ≡ 1 = ground (arith, e) in rw odd (omega arith)
  | inr e ↦
      let even : suc a % 2 ≡ 0 = ground (arith, e) in
      let half : 0 < suc a / 2 = omega (arith, even) in
      omega (arith, digits_or n (suc a / 2) (b / 2) half (omega (arith, l)))
]

-- A code that is not 0 stays so when others are OR-ed to it.
bit_or-lt : (a b : ℕ) → 0 < a → 0 < bit_or a b
bit_or-lt a b p = rw bit_or-bitwise (digits_or a a b p (omega arith))

or_lt : (a b : ℕ) → 0 < b → 0 < bit_or a b
or_lt zero b p = rw bit_or-bitwise p
or_lt (suc a) b p = bit_or-lt (suc a) b (omega arith)

-- The entries from the first one up to the root.
abbrev pub left_spine : Tree → List Entry
left_spine null = []
left_spine (node l k v b r) = left_spine l ++ ((k, v) ∷ [])

module _ {S : Type 0} (f : S → Str → Ptr → S × ℕ) where
  -- The callback on a list of entries, one after the other.
  abbrev pub run_over : List Entry → S → S
  run_over [] s = s
  run_over ((k, v) ∷ es) s = run_over es (f s k v).0

  -- The callback returns 0 at this entry.
  abbrev pub Accepts : Entry → Type 0
  Accepts e = (s : S) → (f s e.0 e.1).1 ≡ 0

  run_over-append :
      (xs ys : List Entry) (s : S) → run_over (xs ++ ys) s ≡ run_over ys (run_over xs s)
  run_over-append [] ys s = refl
  run_over-append ((k, v) ∷ xs) ys s = run_over-append xs ys (f s k v).0

  process_all-run_over :
      (t : Tree) (s : S)
      → All Accepts (entries t)
      → process_all f t (s, 0) ≡ (run_over (entries t) s, 0)
  unfolding process_all entries
  process_all-run_over null s a = refl
  process_all-run_over (node l k v b r) s a =
      let (al, ar) = All-of_append Accepts (entries l) ((k, v) ∷ entries r) a in
      rw (process_all-run_over l s al, ar.0, run_over-append)
        (process_all-run_over r (f (run_over (entries l) s) k v).0 ar.1)

  -- If the callback, whatever its state, returns 0 at every entry, it is called once for each, in the order of the
  -- keys, and the code is 0.
  pub map_for_each-run_over :
      (s : S) (m : Map)
      → All Accepts (entries m.root)
      → map_for_each f s m ≡ (run_over (entries m.root) s, record m { ret_code = 0 })
  unfolding map_for_each
  map_for_each-run_over s m a = rw (process_all-run_over m.root s a)

  -- The callback returns another code than 0 at this entry.
  abbrev pub Fails : Entry → Type 0
  Fails e = (s : S) → 0 < (f s e.0 e.1).1

  process_all_skips : (t : Tree) (s : S) (c : ℕ) → 0 < c → process_all f t (s, c) ≡ (s, c)
  unfolding process_all
  process_all_skips null s c p = refl
  process_all_skips (node l k v b r) s c p =
      let e : (c == 0) ≡ false = ground (arith, p) in rw e refl

  -- The state, and a code that is not 0 unless there is no entry.
  abbrev pub Spined : Tree → S → S × ℕ → Type 0
  Spined t s x = (x.0 ≡ run_over (left_spine t) s) × ((left_spine t ≡ []) ⊎ (0 < x.1))

  process_all-Spined :
      (t : Tree) (s : S) → All Fails (left_spine t) → Spined t s (process_all f t (s, 0))
  unfolding process_all
  process_all-Spined null s a = (refl, inl refl)
  process_all-Spined (node l k v b r) s a =
      let (al, ak) = All-of_append Fails (left_spine l) ((k, v) ∷ []) a in
      let (x, c) = process_all f l (s, 0) in
      let i = process_all-Spined l s al in
      let code : 0 < bit_or c (f x k v).1 = or_lt c (f x k v).1 (ak.0 x) in
      rw (process_all_skips r (f x k v).0 (bit_or c (f x k v).1) code)
        (ap (λ y. (f y k v).0) i.0 ∙ sym (run_over-append (left_spine l) ((k, v) ∷ []) s), inr code)

  -- If the callback, whatever its state, fails at every entry on the way from the root to the first one, it is still
  -- called at each of these, from the first entry up to the root, and at no other, and `map_for_each` leaves a code
  -- that is not 0, unless the map is empty.
  pub map_for_each-left_spine :
      (s : S) (m : Map)
      → All Fails (left_spine m.root)
      → Spined m.root s ((map_for_each f s m).0, (map_for_each f s m).1.ret_code)
  unfolding map_for_each
  map_for_each-left_spine s m a = process_all-Spined m.root s a
