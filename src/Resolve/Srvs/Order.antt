-- ===== src/Resolve/Srvs/Order.antt =====
-- src/core/resolve/parsers.c: what `sort_srvs` keeps.
use opensips_ng.Prelude.{
  ℕ, zero, suc, ◌+◌, ◌-◌, ◌%◌, ◌^◌, ◌≤◌, ◌<◌, ◌≡◌, refl, ◌∙◌, ap, Bool, true, false, Option, none,
  some, List, [], ◌∷◌, ◌++◌, length, leb, ◌==◌, ◌>>=◌, arith, Bool-cases, inl, inr, ==_iff, Yields,
}
use opensips_ng.Resolve.Records.{SrvRdata}
use opensips_ng.Resolve.Srvs.{
  Entry, running_sums, lower, find_entry, select, order_run, is_alone, next_run, sort_entry,
  sort_from, sort_srvs,
}

-- A sum over the records of a list, with any weights.
unfoldable pub total : (SrvRdata → ℕ) → List Entry → ℕ
total w [] = 0
total w (e ∷ es) = w e.srv + total w es

-- Whether the records of a list all have a priority, and are all SRV records.
unfoldable pub AllAt : ℕ → List Entry → Type 0
AllAt p [] = Unit
AllAt p (e ∷ es) = (e.srv.priority ≡ p) × AllAt p es

unfoldable pub AllSrv : List Entry → Type 0
AllSrv [] = Unit
AllSrv (e ∷ es) = (e.is_srv ≡ true) × AllSrv es

unfoldable pub priorities : List Entry → List ℕ
priorities [] = []
priorities (e ∷ es) = e.srv.priority ∷ priorities es

-- Two lists have the same records, however often each occurs.
record Same (xs ys : List Entry) : Type 0 where
  long : length xs ≡ length ys
  totals : (w : SrvRdata → ℕ) → total w xs ≡ total w ys

lower-Same : (a : ℕ) (es : List Entry) → Same (lower a es) es
unfolding lower total
lower-Same a [] = record { long = refl; totals = λ w. refl }
lower-Same a (e ∷ es) =
    let s = lower-Same a es in
    record { long = omega (arith, s.long); totals = λ w. omega (arith, s.totals w) }

lower-AllAt : (p a : ℕ) (es : List Entry) → AllAt p es → AllAt p (lower a es)
unfolding lower AllAt
lower-AllAt p a [] h = tt
lower-AllAt p a (e ∷ es) h = (h.0, lower-AllAt p a es h.1)

-- An entry taken out of a list of one priority.
record Taken (p : ℕ) (es : List Entry) (r : Entry × List Entry) : Type 0 where
  same : Same (r.0 ∷ r.1) es
  first : r.0.srv.priority ≡ p
  others : AllAt p r.1

Taken-lower :
    (p : ℕ) (e : Entry) (es : List Entry)
    → AllAt p (e ∷ es)
    → Taken p (e ∷ es) (e, lower e.srv.weight es)
unfolding total AllAt
Taken-lower p e es h =
    let s = lower-Same e.srv.weight es in
    record {
      same = record { long = omega (arith, s.long); totals = λ w. omega (arith, s.totals w) };
      first = h.0;
      others = lower-AllAt p e.srv.weight es h.1;
    }

data Found (p : ℕ) (es : List Entry) : Option (Entry × List Entry) → Type 0 where
  missing : Found p es none
  found : {r : Entry × List Entry} → Taken p es r → Found p es (some r)

find_entry-Found : (p n : ℕ) (es : List Entry) → AllAt p es → Found p es (find_entry n es)
unfolding find_entry total AllAt
find_entry-Found p n [] h = missing
find_entry-Found p n (e ∷ es) h = elim (Bool-cases (leb n e.running_sum)) [
  | inl t ↦ rw t (found (Taken-lower p e es h))
  | inr t ↦ rw t (go (find_entry n es) (find_entry-Found p n es h.1))
]
  where
    go :
        (o : Option (Entry × List Entry))
        → Found p es o
        → Found p (e ∷ es) (elim o [ none ↦ none | some (c, others) ↦ some (c, e ∷ others) ])
    go _ missing = missing
    go (some (c, others)) (found t) = found (record {
      same = record {
        long = omega (arith, t.same.long);
        totals = λ w. omega (arith, t.same.totals w);
      };
      first = t.first;
      others = (h.0, t.others);
    })

select-Taken :
    (p n : ℕ) (e : Entry) (es : List Entry) → AllAt p (e ∷ es) → Taken p (e ∷ es) (select n e es)
unfolding select
select-Taken p n e es h = go (find_entry n (e ∷ es)) (find_entry-Found p n (e ∷ es) h)
  where
    go :
        (o : Option (Entry × List Entry))
        → Found p (e ∷ es) o
        → Taken p (e ∷ es) (elim o [ none ↦ (e, lower e.srv.weight es) | some r ↦ r ])
    go _ missing = Taken-lower p e es h
    go (some r) (found t) = t

-- A list of one priority in another order.
record Ordered (p : ℕ) (es out : List Entry) : Type 0 where
  same : Same out es
  all : AllAt p out

cons-Ordered :
    (p : ℕ) (es : List Entry) (c : Entry) (others : List Entry) (o : Option (List Entry))
    → Taken p es (c, others)
    → Yields (Ordered p others) o
    → Yields (Ordered p es) (o >>= λ rest. some (c ∷ rest))
unfolding total AllAt
cons-Ordered p es c others none t y = y
cons-Ordered p es c others (some rest) t y = record {
  same = record {
    long = omega (arith, t.same.long, y.same.long);
    totals = λ w. omega (arith, t.same.totals w, y.same.totals w);
  };
  all = (t.first, y.all);
}

order_run-Ordered :
    (n : ℕ) (draw : ℕ → ℕ → ℕ) (k weight_sum p : ℕ) (e : Entry) (es : List Entry)
    → AllAt p (e ∷ es)
    → length es ≤ n
    → Yields (Ordered p (e ∷ es)) (order_run n draw k weight_sum e es)
unfolding order_run
order_run-Ordered n draw k weight_sum p e [] h b = record {
  same = record { long = refl; totals = λ w. refl };
  all = h;
}
order_run-Ordered zero draw k weight_sum p e (f ∷ es) h b = absurd (omega arith)
order_run-Ordered (suc n) draw k weight_sum p e (f ∷ es) h b =
    go (λ weight_sum g gs. order_run-Ordered n draw (k + 1) weight_sum p g gs)
      (select (draw k weight_sum) e (f ∷ es)) (select-Taken p (draw k weight_sum) e (f ∷ es) h)
  where
    go :
        ((weight_sum : ℕ) (g : Entry) (gs : List Entry)
          → AllAt p (g ∷ gs)
          → length gs ≤ n
          → Yields (Ordered p (g ∷ gs)) (order_run n draw (k + 1) weight_sum g gs))
        → (r : Entry × List Entry) → Taken p (e ∷ (f ∷ es)) r
        → Yields (Ordered p (e ∷ (f ∷ es))) (elim r.1 [
          | [] ↦ some (r.0 ∷ [])
          | g ∷ gs ↦ do
            rest ← order_run n draw (k + 1) ((weight_sum + 2 ^ 32 - r.0.srv.weight) % 2 ^ 32) g gs
            some (r.0 ∷ rest)
        ])
    go run (c, []) t = absurd (omega (arith, t.same.long))
    go run (c, g ∷ gs) t = cons-Ordered p (e ∷ (f ∷ es)) c (g ∷ gs) _ t (
        run ((weight_sum + 2 ^ 32 - c.srv.weight) % 2 ^ 32) g gs t.others
          (omega (arith, t.same.long)))

-- The head of a list that has one priority, and the rest.
record Run (p : ℕ) (es : List Entry) (r : List Entry × List Entry × ℕ) : Type 0 where
  all : AllAt p r.0
  long : length r.0 + length r.1 ≡ length es
  totals : (w : SrvRdata → ℕ) → total w r.0 + total w r.1 ≡ total w es
  order : priorities r.0 ++ priorities r.1 ≡ priorities es
  srv : AllSrv es → AllSrv r.1

running_sums-Run : (p weight_sum : ℕ) (es : List Entry) → Run p es (running_sums p weight_sum es)
unfolding running_sums total AllAt priorities AllSrv
running_sums-Run p weight_sum [] = record {
  all = tt;
  long = refl;
  totals = λ w. refl;
  order = refl;
  srv = λ h. h;
}
running_sums-Run p weight_sum (e ∷ es) = elim (Bool-cases (e.srv.priority == p)) [
  | inl t ↦
      let r = running_sums-Run p ((weight_sum + e.srv.weight) % 2 ^ 32) es in
      rw t (record {
        all = ((==_iff e.srv.priority p).0 t, r.all);
        long = omega (arith, r.long);
        totals = λ w. omega (arith, r.totals w);
        order = ap (λ x. e.srv.priority ∷ x) r.order;
        srv = λ h. r.srv h.1;
      })
  | inr t ↦ rw t (record {
    all = tt;
    long = omega arith;
    totals = λ w. omega arith;
    order = refl;
    srv = λ h. h;
  })
]

priorities-eq :
    (p : ℕ) (xs ys : List Entry)
    → AllAt p xs
    → AllAt p ys
    → length xs ≡ length ys
    → priorities xs ≡ priorities ys
unfolding AllAt priorities
priorities-eq p [] [] h k l = refl
priorities-eq p [] (y ∷ ys) h k l = absurd (omega (arith, l))
priorities-eq p (x ∷ xs) [] h k l = absurd (omega (arith, l))
priorities-eq p (x ∷ xs) (y ∷ ys) h k l =
    rw (h.0, k.0, priorities-eq p xs ys h.1 k.1 (omega (arith, l))) refl

priorities-append : (xs ys : List Entry) → priorities (xs ++ ys) ≡ priorities xs ++ priorities ys
unfolding priorities
priorities-append [] ys = refl
priorities-append (x ∷ xs) ys = ap (λ l. x.srv.priority ∷ l) (priorities-append xs ys)

total-append :
    (w : SrvRdata → ℕ) (xs ys : List Entry) → total w (xs ++ ys) ≡ total w xs + total w ys
unfolding total
total-append w [] ys = omega arith
total-append w (x ∷ xs) ys = omega (arith, total-append w xs ys)

-- A list with the same records, however often each occurs, in an order with the same priorities.
pub record Rearranged (ls out : List Entry) : Type 0 where
  pub totals : (w : SrvRdata → ℕ) → total w out ≡ total w ls
  pub order : priorities out ≡ priorities ls

-- The run in its new order, and the rest of the list.
record NextRun (ls : List Entry) (r : Option (List Entry) × List Entry) : Type 0 where
  run :
      Yields
        (λ first.
          ((w : SrvRdata → ℕ) → total w first + total w r.1 ≡ total w ls)
          × (priorities first ++ priorities r.1 ≡ priorities ls))
        r.0
  shorter : length r.1 < length ls
  srv : AllSrv r.1

next_run-NextRun :
    (draw : ℕ → ℕ → ℕ) (k : ℕ) (e : Entry) (es : List Entry)
    → AllSrv es
    → NextRun (e ∷ es) (next_run draw k e es)
unfolding next_run total priorities AllAt
next_run-NextRun draw k e es h =
    let p = e.srv.priority in
    let r = running_sums p e.srv.weight es in
    let u = running_sums-Run p e.srv.weight es in
    let first : Entry = record e { running_sum = e.srv.weight } in
    record {
      run =
          go first refl r u (order_run (length r.0) draw k r.2 first r.0)
            (order_run-Ordered (length r.0) draw k r.2 p first r.0 (refl, u.all) (omega arith));
      shorter = omega (arith, u.long);
      srv = u.srv h;
    }
  where
    go :
        (first : Entry)
        → first.srv ≡ e.srv
        → (r : List Entry × List Entry × ℕ) → Run e.srv.priority es r
        → (o : Option (List Entry)) → Yields (Ordered e.srv.priority (first ∷ r.0)) o
        → Yields
            (λ out.
              ((w : SrvRdata → ℕ) → total w out + total w r.1 ≡ total w (e ∷ es))
              × (priorities out ++ priorities r.1 ≡ priorities (e ∷ es)))
            o
    go first same r u none y = y
    go first same r u (some out) y = (
      (λ w. omega (arith, y.same.totals w, u.totals w, ap w same)),
      ap (λ l. l ++ priorities r.1)
            (priorities-eq e.srv.priority out (first ∷ r.0) y.all (ap (λ s. s.priority) same, u.all)
              y.same.long)
          ∙ rw (same, u.order) refl,
    )

alone-Rearranged :
    (e : Entry) (es : List Entry) (o : Option (List Entry))
    → Yields (Rearranged es) o
    → Yields (Rearranged (e ∷ es)) (o >>= λ rest. some (e ∷ rest))
unfolding total priorities
alone-Rearranged e es none y = y
alone-Rearranged e es (some out) y = record {
  totals = λ w. omega (arith, y.totals w);
  order = ap (λ l. e.srv.priority ∷ l) y.order;
}

run-Rearranged :
    (ls others : List Entry) (run o : Option (List Entry))
    → NextRun ls (run, others)
    → Yields (Rearranged others) o
    → Yields (Rearranged ls) (do first ← run; rest ← o; some (first ++ rest))
run-Rearranged ls others none o r y = r.run
run-Rearranged ls others (some first) none r y = y
run-Rearranged ls others (some first) (some rest) r y = record {
  totals = λ w. omega (arith, total-append w first rest, y.totals w, r.run.0 w);
  order = priorities-append first rest ∙ ap (λ l. priorities first ++ l) y.order ∙ r.run.1;
}

entry-Rearranged :
    (keep alone : Bool) (e : Entry) (es others : List Entry)
    (run behind_entry behind_run : Option (List Entry))
    → keep ≡ true
    → NextRun (e ∷ es) (run, others)
    → Yields (Rearranged es) behind_entry
    → Yields (Rearranged others) behind_run
    → Yields (Rearranged (e ∷ es)) (sort_entry keep alone e run behind_entry behind_run)
unfolding sort_entry
entry-Rearranged false alone e es others run o o' h r y y' = absurd (ground arith)
entry-Rearranged true true e es others run o o' h r y y' = alone-Rearranged e es o y
entry-Rearranged true false e es others run o o' h r y y' =
    run-Rearranged (e ∷ es) others run o' r y'

sort_from-Rearranged :
    (n : ℕ) (draw : ℕ → ℕ → ℕ) (k : ℕ) (ls : List Entry)
    → AllSrv ls
    → length ls ≤ n
    → Yields (Rearranged ls) (sort_from n draw k ls)
unfolding sort_from AllSrv
sort_from-Rearranged n draw k [] h b = record { totals = λ w. refl; order = refl }
sort_from-Rearranged zero draw k (e ∷ es) h b = absurd (omega arith)
sort_from-Rearranged (suc n) draw k (e ∷ es) h b =
    let next = next_run draw k e es in
    let r = next_run-NextRun draw k e es h.1 in
    entry-Rearranged e.is_srv (is_alone e es) e es next.1 next.0 _ _ h.0 r
      (sort_from-Rearranged n draw k es h.1 (omega (arith, b)))
      (sort_from-Rearranged n draw (k + (length es - length next.1)) next.1 r.srv
        (omega (arith, b, r.shorter)))

-- Of a list of SRV records, whatever the random numbers are and also where the running sums overflow, `sort_srvs`
-- makes a list of the same records, however often each occurs, in which the priorities stand as before.
pub sort_srvs-Rearranged :
    (draw : ℕ → ℕ → ℕ) (ls : List Entry) → AllSrv ls → Yields (Rearranged ls) (sort_srvs draw ls)
unfolding sort_srvs
sort_srvs-Rearranged draw ls h = sort_from-Rearranged (length ls) draw 0 ls h (omega arith)
