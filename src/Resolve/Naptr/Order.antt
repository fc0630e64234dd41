-- ===== src/Resolve/Naptr/Order.antt =====
-- src/core/resolve/parsers.c: the two lists that `filter_and_sort_naptr` makes.
use opensips_ng.Prelude.{
  ℕ, ◌+◌, ◌≤◌, ◌≡◌, refl, Bool, true, false, List, [], ◌∷◌, ◌++◌, leb, if◌then◌else◌, arith,
  Bool-cases, inl, inr, ◌∙◌, ap,
}
use opensips_ng.Resolve.Records.{NaptrRdata}
use opensips_ng.Resolve.Naptr.{
  Rdata, naptr, null_naptr, other, is_supported, naptr_prio, last_of, insert_middle, insert_naptr,
  sort_naptr_from, filter_and_sort_naptr,
}

-- No record comes before the priority `b`, and each comes before those behind it.
unfoldable pub Above : ℕ → List NaptrRdata → Type 0
Above b [] = Unit
Above b (n ∷ ns) = (b ≤ naptr_prio n) × Above b ns

unfoldable pub IsSorted : List NaptrRdata → Type 0
IsSorted [] = Unit
IsSorted (n ∷ ns) = Above (naptr_prio n) ns × IsSorted ns

-- A sum over a list.
unfoldable pub total : {A : Type 0} → (A → ℕ) → List A → ℕ
total w [] = 0
total w (x ∷ xs) = w x + total w xs

Above-le : (a b : ℕ) (ns : List NaptrRdata) → a ≤ b → Above b ns → Above a ns
unfolding Above
Above-le a b [] h u = tt
Above-le a b (n ∷ ns) h (x, u) = (omega arith, Above-le a b ns h u)

Above-last :
    (b : ℕ) (h : NaptrRdata) (ns : List NaptrRdata)
    → Above b (h ∷ ns)
    → b ≤ naptr_prio (last_of h ns)
unfolding Above last_of
Above-last b h [] u = u.0
Above-last b h (n ∷ ns) u = Above-last b n ns u.1

Above-append :
    (b : ℕ) (l : NaptrRdata) (ns : List NaptrRdata)
    → Above b ns
    → b ≤ naptr_prio l
    → Above b (ns ++ l ∷ [])
unfolding Above
Above-append b l [] u h = (h, tt)
Above-append b l (n ∷ ns) u h = (u.0, Above-append b l ns u.1 h)

append-IsSorted :
    (l h : NaptrRdata) (ns : List NaptrRdata)
    → IsSorted (h ∷ ns)
    → naptr_prio (last_of h ns) ≤ naptr_prio l
    → IsSorted ((h ∷ ns) ++ l ∷ [])
unfolding IsSorted Above last_of
append-IsSorted l h [] s e = ((e, tt), (tt, tt))
append-IsSorted l h (n ∷ ns) s e = (
  Above-append (naptr_prio h) l (n ∷ ns) s.0 (omega (arith, e, Above-last (naptr_prio h) n ns s.0)),
  append-IsSorted l n ns s.1 e,
)

Above-middle :
    (b : ℕ) (l : NaptrRdata) (ns : List NaptrRdata)
    → Above b ns
    → b ≤ naptr_prio l
    → Above b (insert_middle l ns)
unfolding Above insert_middle
Above-middle b l [] u h = (h, tt)
Above-middle b l (n ∷ []) u h = (h, u)
Above-middle b l (n ∷ (m ∷ ns)) u h = elim (Bool-cases (leb (naptr_prio l) (naptr_prio n))) [
  | inl e ↦ rw e (h, u)
  | inr e ↦ rw e (u.0, Above-middle b l (m ∷ ns) u.1 h)
]

middle-IsSorted :
    (l h : NaptrRdata) (ns : List NaptrRdata)
    → IsSorted (h ∷ ns)
    → naptr_prio l ≤ naptr_prio (last_of h ns)
    → IsSorted (insert_middle l (h ∷ ns))
unfolding IsSorted Above insert_middle last_of
middle-IsSorted l h [] s e = ((e, tt), s)
middle-IsSorted l h (n ∷ ns) s e = elim (Bool-cases (leb (naptr_prio l) (naptr_prio h))) [
  | inl k ↦
      rw k ((ground arith, Above-le (naptr_prio l) (naptr_prio h) (n ∷ ns) (ground arith) s.0), s)
  | inr k ↦
      rw k (Above-middle (naptr_prio h) l (n ∷ ns) s.0 (ground arith), middle-IsSorted l n ns s.1 e)
]

tail-IsSorted :
    (l h : NaptrRdata) (ns : List NaptrRdata)
    → IsSorted (h ∷ ns)
    → naptr_prio l ≤ naptr_prio (last_of h ns)
    → IsSorted (insert_middle l ns)
unfolding insert_middle IsSorted Above last_of
tail-IsSorted l h [] s e = (tt, tt)
tail-IsSorted l h (n ∷ ns) s e = middle-IsSorted l n ns s.1 e

insert-IsSorted :
    (l : NaptrRdata) (ns : List NaptrRdata) → IsSorted ns → IsSorted (insert_naptr l ns)
unfolding insert_naptr IsSorted Above last_of
insert-IsSorted l [] s = (tt, tt)
insert-IsSorted l (h ∷ ns) s = elim (Bool-cases (leb (naptr_prio l) (naptr_prio h))) [
  | inl e ↦ rw e ((ground arith, Above-le (naptr_prio l) (naptr_prio h) ns (ground arith) s.0), s)
  | inr e ↦ rw e (elim (Bool-cases (leb (naptr_prio (last_of h ns)) (naptr_prio l))) [
    | inl k ↦ rw k (append-IsSorted l h ns s (ground arith))
    | inr k ↦
        rw k (
          Above-middle (naptr_prio h) l ns s.0 (ground arith),
          tail-IsSorted l h ns s (ground arith),
        )
  ])
]

total-append :
    {A : Type 0} (w : A → ℕ) (x : A) (xs : List A) → total w (xs ++ x ∷ []) ≡ w x + total w xs
unfolding total
total-append w x [] = refl
total-append w x (y ∷ ys) = omega (arith, total-append w x ys)

total-middle :
    (w : NaptrRdata → ℕ) (l : NaptrRdata) (ns : List NaptrRdata)
    → total w (insert_middle l ns) ≡ w l + total w ns
unfolding total insert_middle
total-middle w l [] = refl
total-middle w l (n ∷ []) = refl
total-middle w l (n ∷ (m ∷ ns)) = elim (Bool-cases (leb (naptr_prio l) (naptr_prio n))) [
  | inl e ↦ rw e refl
  | inr e ↦ rw e (omega (arith, total-middle w l (m ∷ ns)))
]

total-insert :
    (w : NaptrRdata → ℕ) (l : NaptrRdata) (ns : List NaptrRdata)
    → total w (insert_naptr l ns) ≡ w l + total w ns
unfolding total insert_naptr
total-insert w l [] = refl
total-insert w l (h ∷ ns) = elim (Bool-cases (leb (naptr_prio l) (naptr_prio h))) [
  | inl e ↦ rw e refl
  | inr e ↦ rw e (elim (Bool-cases (leb (naptr_prio (last_of h ns)) (naptr_prio l))) [
    | inl k ↦ rw k (omega (arith, total-append w l ns))
    | inr k ↦ rw k (omega (arith, total-middle w l ns))
  ])
]

-- Whether a record is a NAPTR record that passes a test.
unfoldable pub passes : (NaptrRdata → Bool) → Rdata → Bool
passes keep (naptr n) = keep n
passes keep null_naptr = false
passes keep (other t) = false

-- The records of `ls` are divided by a test into the two lists, of which the first is sorted by priority: a
-- sum over each list, with any weights, is that over the records that belong there.
pub record Divided (keep : NaptrRdata → Bool) (ls : List Rdata) (r : List NaptrRdata × List Rdata)
    : Type 0 where
  pub sorted : IsSorted r.0
  pub kept :
      (w : Rdata → ℕ)
      → total (λ n. w (naptr n)) r.0 ≡ total (λ l. if passes keep l then w l else 0) ls
  pub filtered : (w : Rdata → ℕ) → total w r.1 ≡ total (λ l. if passes keep l then 0 else w l) ls

Divided-kept :
    (keep : NaptrRdata → Bool) (n : NaptrRdata) (done : List Rdata) (head : List NaptrRdata)
    (out : List Rdata)
    → keep n ≡ true
    → Divided keep done (head, out)
    → Divided keep (naptr n ∷ done) (insert_naptr n head, out)
unfolding total passes
Divided-kept keep n done head out k d = record {
  sorted = insert-IsSorted n head d.sorted;
  kept = λ w. rw k (total-insert (λ n. w (naptr n)) n head ∙ ap (λ x. w (naptr n) + x) (d.kept w));
  filtered = λ w. rw k (omega (arith, d.filtered w));
}

Divided-filtered :
    (keep : NaptrRdata → Bool) (l : Rdata) (done : List Rdata) (head : List NaptrRdata)
    (out : List Rdata)
    → passes keep l ≡ false
    → Divided keep done (head, out)
    → Divided keep (l ∷ done) (head, l ∷ out)
unfolding total
Divided-filtered keep l done head out k d = record {
  sorted = d.sorted;
  kept = λ w. rw k (omega (arith, d.kept w));
  filtered = λ w. rw k (ap (λ x. w l + x) (d.filtered w));
}

sort_from-Divided :
    (keep : NaptrRdata → Bool) (ls done all : List Rdata) (head : List NaptrRdata)
    (out : List Rdata)
    → Divided keep done (head, out)
    → ((w : Rdata → ℕ) → total w all ≡ total w ls + total w done)
    → Divided keep all (sort_naptr_from keep ls head out)
unfolding sort_naptr_from total passes
sort_from-Divided keep [] done all head out d e = record {
  sorted = d.sorted;
  kept = λ w. omega (arith, d.kept w, e (λ l. if passes keep l then w l else 0));
  filtered = λ w. omega (arith, d.filtered w, e (λ l. if passes keep l then 0 else w l));
}
sort_from-Divided keep (naptr n ∷ ls) done all head out d e = elim (Bool-cases (keep n)) [
  | inl k ↦ rw k (
      sort_from-Divided keep ls (naptr n ∷ done) all (insert_naptr n head) out
        (Divided-kept keep n done head out k d) (λ w. omega (arith, e w)))
  | inr k ↦ rw k (
      sort_from-Divided keep ls (naptr n ∷ done) all head (naptr n ∷ out)
        (Divided-filtered keep (naptr n) done head out k d) (λ w. omega (arith, e w)))
]
sort_from-Divided keep (null_naptr ∷ ls) done all head out d e =
    sort_from-Divided keep ls (null_naptr ∷ done) all head (null_naptr ∷ out)
      (Divided-filtered keep null_naptr done head out refl d) (λ w. omega (arith, e w))
sort_from-Divided keep (other t ∷ ls) done all head out d e =
    sort_from-Divided keep ls (other t ∷ done) all head (other t ∷ out)
      (Divided-filtered keep (other t) done head out refl d) (λ w. omega (arith, e w))

-- `filter_and_sort_naptr` divides the records, however often each occurs, by `is_supported`, into the list
-- `*head_p`, sorted by `naptr_prio`, and the list `*filtered_p`; it loses and makes none.
pub filter_and_sort-Divided :
    (tcp sctp is_sips : Bool) (ls : List Rdata)
    → Divided (is_supported tcp sctp is_sips) ls (filter_and_sort_naptr tcp sctp is_sips ls)
unfolding filter_and_sort_naptr total IsSorted
filter_and_sort-Divided tcp sctp is_sips ls =
    sort_from-Divided (is_supported tcp sctp is_sips) ls [] ls [] []
      (record { sorted = tt; kept = λ w. refl; filtered = λ w. refl }) (λ w. omega arith)
