-- ===== src/Parser/Methods/Bounds.antt =====
-- src/core/parser/parse_methods.c: how far `parse_method` and `parse_methods` go.
use opensips_ng.Prelude.{
  ℕ, zero, suc, ◌+◌, ◌-◌, ◌≤◌, ◌<◌, ◌≡◌, Bool, true, false, ◌||◌, inl, inr, arith, ◌==◌, ltb, leb,
  if◌then◌else◌, Bool-cases, Option, none, some, List,
}
use opensips_ng.Parser.Memory.{Memory, Text, is_white}
use Prim.Native.Nat.{bit_or}
use opensips_ng.Prelude.Int.{ℤ, pos, negsuc}
use opensips_ng.Parser.Trim.{trim_leading_from, trim_leading}
use opensips_ng.Parser.Methods.{
  is_delimiter, method_char, single, known_i, known_p, known_r, known_from, known, Parsed, moved,
  invalid, scan, done, parse_method, skip_white, Next, leave, again, separator, methods_loop,
  parse_methods,
}

-- A recognised method is no longer than what is left before the end.
data Fits (max : ℕ) : Option (ℕ × ℕ) → Type 0 where
  unknown : Fits max none
  found : {m n : ℕ} → n ≤ max → Fits max (some (m, n))

Fits-if :
    {max : ℕ} (b : Bool) {x y : Option (ℕ × ℕ)}
    → Fits max x
    → Fits max y
    → Fits max (if b then x else y)
Fits-if true p q = p
Fits-if false p q = q

Fits-guard :
    (max n : ℕ) {x : Option (ℕ × ℕ)}
    → (n ≤ max → Fits max x)
    → Fits max (if ltb max n then none else x)
Fits-guard max n p = elim (Bool-cases (ltb max n)) [
  | inl e ↦ rw e unknown
  | inr e ↦ rw e (p (ground arith))
]

single-Fits :
    (mem : Memory) (start max n : ℕ) (w : List (ℕ × ℕ)) (m : ℕ)
    → Fits max (single mem start (some max) n w m)
unfolding single
single-Fits mem start max n w m = Fits-guard max n (λ h. Fits-if _ (found h) unknown)

known_i-Fits : (mem : Memory) (start max : ℕ) → Fits max (known_i mem start (some max))
unfolding known_i
known_i-Fits mem start max = Fits-guard max 4 (λ h.
    Fits-if _ unknown (Fits-if _ (found h) (Fits-guard max 6 (λ k. Fits-if _ (found k) unknown))))

known_p-Fits : (mem : Memory) (start max : ℕ) → Fits max (known_p mem start (some max))
unfolding known_p
known_p-Fits mem start max =
    Fits-guard max 5
      (λ h. Fits-if _ (found h) (Fits-guard max 7 (λ k. Fits-if _ (found k) unknown)))

known_r-Fits : (mem : Memory) (start max : ℕ) → Fits max (known_r mem start (some max))
unfolding known_r
known_r-Fits mem start max = Fits-guard max 5 (λ h.
    Fits-if _ unknown (Fits-if _ (found h) (Fits-guard max 8 (λ k. Fits-if _ (found k) unknown))))

known_from-Fits :
    (c : ℕ) (mem : Memory) (start max : ℕ) → Fits max (known_from c mem start (some max))
unfolding known_from
known_from-Fits c mem start max =
    Fits-if (c == b'A' || c == b'a') (single-Fits mem start max _ _ _) (
      Fits-if (c == b'B' || c == b'b') (single-Fits mem start max _ _ _) (
        Fits-if (c == b'C' || c == b'c') (single-Fits mem start max _ _ _) (
          Fits-if (c == b'I' || c == b'i') (known_i-Fits mem start max) (
            Fits-if (c == b'M' || c == b'm') (single-Fits mem start max _ _ _) (
              Fits-if (c == b'N' || c == b'n') (single-Fits mem start max _ _ _) (
                Fits-if (c == b'O' || c == b'o') (single-Fits mem start max _ _ _) (
                  Fits-if (c == b'P' || c == b'p') (known_p-Fits mem start max) (
                    Fits-if (c == b'R' || c == b'r') (known_r-Fits mem start max) (
                      Fits-if (c == b'S' || c == b's') (single-Fits mem start max _ _ _) (
                        Fits-if (c == b'U' || c == b'u') (single-Fits mem start max _ _ _)
                          (unknown)))))))))))

known-Fits : (mem : Memory) (start max : ℕ) → Fits max (known mem start (some max))
unfolding known
known-Fits mem start max = known_from-Fits (mem start) mem start max

-- The pointer that comes back stands between `a` and `end`, on a delimiter or on `end`.
pub data Lands (mem : Memory) (a end : ℕ) : Parsed → Type 0 where
  lands :
      {p : ℕ}
      → a ≤ p
      → p ≤ end
      → (p < end → is_delimiter (mem p) ≡ true)
      → Lands mem a end (moved p)
  refused : Lands mem a end invalid

sooner : {mem : Memory} {a b end : ℕ} {x : Parsed} → a ≤ b → Lands mem b end x → Lands mem a end x
sooner h (lands p q d) = lands (omega (arith, h, p)) q d
sooner h refused = refused

scan-Lands : (mem : Memory) (end a n : ℕ) → a + n ≡ end → Lands mem a end (scan mem end a n)
unfolding scan
scan-Lands mem end a zero h = lands (omega arith) (omega arith) (λ k. absurd (omega arith))
scan-Lands mem end a (suc n) h = elim (Bool-cases (is_delimiter (mem a))) [
  | inl e ↦ rw e (lands (omega arith) (omega arith) (λ k. e))
  | inr e ↦ rw e (elim (Bool-cases (method_char (mem a))) [
    | inl d ↦ rw d (sooner (omega arith) (scan-Lands mem end (a + 1) n (omega arith)))
    | inr d ↦ rw d refused
  ])
]

done-Lands :
    (mem : Memory) (start end : ℕ) (o : Option (ℕ × ℕ))
    → start ≤ end
    → Fits (end - start) o
    → Lands mem start end (done mem start end o).0
unfolding done
done-Lands mem start end none h f = scan-Lands mem end start (end - start) (omega arith)
done-Lands mem start end (some (m, n)) h (found k) = elim (Bool-cases (ltb n (end - start))) [
  | inl e ↦ rw e (elim (Bool-cases (is_delimiter (mem (start + n)))) [
    | inl d ↦ rw d (lands (omega arith) (omega arith) (λ l. d))
    | inr d ↦
        rw d
          (sooner (omega arith) (scan-Lands mem end (start + n) (end - start - n) (ground arith)))
  ])
  | inr e ↦ rw e (lands (omega arith) (omega arith) (λ l. absurd (ground arith)))
]

-- `parse_method` on a non-empty range reports an error, or a pointer inside the range that has not
-- moved back and stands on a delimiter or at the end.
pub parse_method-Lands :
    (mem : Memory) (start end : ℕ)
    → start ≤ end
    → Lands mem start end (parse_method mem start end).0
unfolding parse_method
parse_method-Lands mem start end h =
    done-Lands mem start end (known mem start (some (end - start))) h
      (known-Fits mem start (end - start))

skip_white_from : (mem : Memory) (p n : ℕ) → p ≤ skip_white mem p n
unfolding skip_white
skip_white_from mem p zero = omega arith
skip_white_from mem p (suc n) = elim (Bool-cases (is_white (mem p))) [
  | inl e ↦ rw e (omega (arith, skip_white_from mem (p + 1) n))
  | inr e ↦ rw e (omega arith)
]

-- The loop leaves with 0 or -1, or goes on further to the right.
data Moves (p : ℕ) : Next → Type 0 where
  succeeds : Moves p (leave (pos 0))
  fails : Moves p (leave (negsuc 0))
  goes_on : {q : ℕ} → p < q → Moves p (again q)

separator-Moves : (mem : Memory) (p end : ℕ) → Moves p (separator mem p end)
unfolding separator
separator-Moves mem p end =
    let p1 = skip_white mem p (end - p) in
    let p2 = skip_white mem (p1 + 1) (end - (p1 + 1)) in
    let further = skip_white_from mem p (end - p) in
    let further' = skip_white_from mem (p1 + 1) (end - (p1 + 1)) in
    elim (Bool-cases (leb end p1 || mem p1 == 0)) [
      | inl e ↦ rw e succeeds
      | inr e ↦ rw e (elim (Bool-cases (mem p1 == b',')) [
        | inl c ↦ rw c (elim (Bool-cases (leb end p2)) [
          | inl d ↦ rw d succeeds
          | inr d ↦ rw d (goes_on (omega (arith, further, further')))
        ])
        | inr c ↦ rw c fails
      ])
    ]

-- There is a result, and the code is 0 or -1.
pub data Ends : Option (ℤ × ℕ) → Type 0 where
  success : {m : ℕ} → Ends (some (pos 0, m))
  failure : {m : ℕ} → Ends (some (negsuc 0, m))

next-Ends :
    (f : ℕ → Option (ℤ × ℕ)) (m p : ℕ) (x : Next)
    → ((q : ℕ) → p < q → Ends (f q))
    → Moves p x
    → Ends (elim x [ leave code ↦ some (code, m) | again q ↦ f q ])
next-Ends f m p (leave _) h succeeds = success
next-Ends f m p (leave _) h fails = failure
next-Ends f m p (again q) h (goes_on k) = h q k

methods_step-Ends :
    (f : ℕ → ℕ → Option (ℤ × ℕ)) (mem : Memory) (p end methods method : ℕ) (x : Parsed)
    → ((q m : ℕ) → p < q → Ends (f q m))
    → Lands mem p end x
    → Ends (elim x [
      | invalid ↦ some (negsuc 0, methods)
      | moved p0 ↦ elim (separator mem p0 end) [
        | leave code ↦ some (code, method)
        | again p2 ↦ f p2 method
      ]
    ])
methods_step-Ends f mem p end methods method invalid h refused = failure
methods_step-Ends f mem p end methods method (moved p0) h (lands a b c) =
    next-Ends (λ q. f q method) method p0 (separator mem p0 end) (λ q k. h q method (omega arith))
      (separator-Moves mem p0 end)

methods_loop-Ends :
    (fuel : ℕ) (mem : Memory) (p end methods : ℕ)
    → end - p < fuel
    → Ends (methods_loop fuel mem p end methods)
unfolding methods_loop
methods_loop-Ends zero mem p end methods h = absurd (omega arith)
methods_loop-Ends (suc fuel) mem p end methods h = elim (Bool-cases (ltb p end)) [
  | inl e ↦ rw e (
      methods_step-Ends (λ q m. methods_loop fuel mem q end m) mem p end methods
        (bit_or methods (parse_method mem p end).1) (parse_method mem p end).0
        (λ q m k. methods_loop-Ends fuel mem q end m (ground arith))
        (parse_method-Lands mem p end (ground arith)))
  | inr e ↦ rw e success
]

trim_leading-len_le : (mem : Memory) (s n : ℕ) → (trim_leading_from mem s n).len ≤ n
unfolding trim_leading_from
trim_leading-len_le mem s zero = omega arith
trim_leading-len_le mem s (suc n) = elim (Bool-cases (is_white (mem s))) [
  | inl e ↦ rw e (omega (arith, trim_leading-len_le mem (s + 1) n))
  | inr e ↦ rw e (omega arith)
]

-- With more fuel than the body has bytes, `parse_methods` returns, with the code 0 or -1.
pub parse_methods-Ends :
    (fuel : ℕ) (mem : Memory) (body : Text) → body.len < fuel → Ends (parse_methods fuel mem body)
unfolding parse_methods trim_leading
parse_methods-Ends fuel mem body h =
    let next = trim_leading_from mem body.s body.len in
    elim (Bool-cases (next.len == 0)) [
      | inl e ↦ rw e success
      | inr e ↦ rw e (
          methods_loop-Ends fuel mem next.s (next.s + next.len) 0
            (omega (arith, trim_leading-len_le mem body.s body.len)))
    ]
