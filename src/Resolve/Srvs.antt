-- ===== src/Resolve/Srvs.antt =====
-- src/core/resolve/parsers.c: `sort_srvs`. `draw` is the C library's rand: `rand_no` by the number of the call and
-- `weight_sum`. The loops run on fuel; `none` is no fuel left, and the length of the list is enough.
pub mod Order
use opensips_ng.Prelude.{
  ℕ, zero, suc, ◌+◌, ◌-◌, ◌%◌, ◌^◌, Bool, true, false, not, Option, none, some, List, [], ◌∷◌, ◌++◌,
  length, leb, ◌==◌, if◌then◌else◌, ◌>>=◌,
}
use opensips_ng.Resolve.Records.{SrvRdata}

-- `struct rdata` whose data is read as a `struct srv_rdata`, also where the type is not T_SRV.
pub record Entry : Type 0 where
  pub is_srv : Bool
  pub srv : SrvRdata
  pub running_sum : ℕ

-- The running sums, which are unsigned shorts, of the entries with the priority `p` at the head of a list;
-- `weight_sum` is an unsigned int. What is left of the list stands second.
unfoldable pub running_sums : ℕ → ℕ → List Entry → List Entry × List Entry × ℕ
running_sums p weight_sum [] = ([], [], weight_sum)
running_sums p weight_sum (e ∷ es) =
    let sum = (weight_sum + e.srv.weight) % 2 ^ 32 in
    let (run, rest, total) = running_sums p sum es in
    if e.srv.priority == p
    then (record e { running_sum = sum % 2 ^ 16 } ∷ run, rest, total)
    else ([], e ∷ es, weight_sum)

-- `running_sum -= weight` for the entries behind the one that is removed.
unfoldable pub lower : ℕ → List Entry → List Entry
lower weight [] = []
lower weight (e ∷ es) =
    record e { running_sum = (e.running_sum + 2 ^ 16 - weight) % 2 ^ 16 } ∷ lower weight es

-- The entry that is linked into the new list, and the others: the first one whose running sum is not below `rand_no`.
unfoldable pub find_entry : ℕ → List Entry → Option (Entry × List Entry)
unfolding lower
find_entry rand_no [] = none
find_entry rand_no (e ∷ es) =
    let rest = find_entry rand_no es in
    if leb rand_no e.running_sum
    then some (e, lower e.srv.weight es)
    else elim rest [ none ↦ none | some (c, others) ↦ some (c, e ∷ others) ]

-- `rand>sum` takes the first entry.
unfoldable pub select : ℕ → Entry → List Entry → Entry × List Entry
unfolding find_entry lower
select rand_no e es = elim (find_entry rand_no (e ∷ es)) [
  | none ↦ (e, lower e.srv.weight es)
  | some r ↦ r
]

-- `while (rd->next)`, and the last entry behind it.
unfoldable pub order_run : ℕ → (ℕ → ℕ → ℕ) → ℕ → ℕ → Entry → List Entry → Option (List Entry)
unfolding select
order_run n draw k weight_sum e [] = some (e ∷ [])
order_run zero draw k weight_sum e (f ∷ es) = none
order_run (suc n) draw k weight_sum e (f ∷ es) =
    let (c, others) = select (draw k weight_sum) e (f ∷ es) in
    elim others [
      | [] ↦ some (c ∷ [])
      | g ∷ gs ↦ do
        rest ← order_run n draw (k + 1) ((weight_sum + 2 ^ 32 - c.srv.weight) % 2 ^ 32) g gs
        some (c ∷ rest)
    ]

-- Whether the next entry starts another priority, or there is none.
unfoldable pub is_alone : Entry → List Entry → Bool
is_alone e [] = true
is_alone e (f ∷ es) = not (e.srv.priority == f.srv.priority)

-- The entries with the priority of the first one in a new order, and the rest of the list.
unfoldable pub next_run : (ℕ → ℕ → ℕ) → ℕ → Entry → List Entry → Option (List Entry) × List Entry
unfolding running_sums order_run
next_run draw k e es =
    let (run, rest, weight_sum) = running_sums e.srv.priority e.srv.weight es in
    (order_run (length run) draw k weight_sum (record e { running_sum = e.srv.weight }) run, rest)

-- A round of the `while (rd)`, by whether the type is T_SRV and whether the entry is alone, with the result of the
-- rounds behind it: a record of another type is freed.
unfoldable pub sort_entry :
    Bool
    → Bool
    → Entry
    → Option (List Entry)
    → Option (List Entry)
    → Option (List Entry)
    → Option (List Entry)
sort_entry false alone e run behind_entry behind_run = behind_entry
sort_entry true true e run behind_entry behind_run = do rest ← behind_entry; some (e ∷ rest)
sort_entry true false e run behind_entry behind_run = do
  first ← run
  rest ← behind_run
  some (first ++ rest)

unfoldable pub sort_from : ℕ → (ℕ → ℕ → ℕ) → ℕ → List Entry → Option (List Entry)
sort_from n draw k [] = some []
sort_from zero draw k (e ∷ es) = none
sort_from (suc n) draw k (e ∷ es) =
    let (run, others) = next_run draw k e es in
    let behind_entry = sort_from n draw k es in
    let behind_run = sort_from n draw (k + (length es - length others)) others in
    sort_entry e.is_srv (is_alone e es) e run behind_entry behind_run

unfoldable pub sort_srvs : (ℕ → ℕ → ℕ) → List Entry → Option (List Entry)
unfolding sort_from
sort_srvs draw ls = sort_from (length ls) draw 0 ls
