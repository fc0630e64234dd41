-- ===== src/Resolve/Records/Safe.antt =====
-- src/core/resolve/parsers.c: the parsers stay inside the message.
use opensips_ng.Prelude.{
  ℕ, zero, suc, ◌+◌, ◌-◌, ◌*◌, ◌≤◌, ◌<◌, ◌≡◌, refl, Bool, true, false, Option, none, some, List, [],
  ◌∷◌, ltb, leb, ◌==◌, if◌then◌else◌, ◌⊎◌, arith, Bool-cases, Option-cases, inl, inr, Yields,
}
use opensips_ng.Parser.Memory.{Memory}
use opensips_ng.Resolve.Records.{
  read, read16, copy, Expand, srv_name, dns_srv_parser, counted_text, then_parse, naptr_repl,
  dns_naptr_parser, dns_a_parser, dns_aaaa_parser, txt_of, dns_txt_parser, ebl_apex, ebl_separator,
  ebl_from, dns_ebl_parser, skip_loop, dns_skipname,
}

-- Inside the message a read gives the byte.
read_inside : (mem : Memory) (end p : ℕ) → p < end → read mem end p ≡ some (mem p)
unfolding read
read_inside mem end p h = ground arith

read16_inside :
    (mem : Memory) (end p : ℕ) → p + 1 < end → read16 mem end p ≡ some (mem p * 256 + mem (p + 1))
unfolding read16
read16_inside mem end p h = ground arith

-- `n` bytes of memory.
unfoldable pub bytes : Memory → ℕ → ℕ → List ℕ
bytes mem p zero = []
bytes mem p (suc n) = mem p ∷ bytes mem (p + 1) n

copy_inside : (mem : Memory) (end p n : ℕ) → p + n ≤ end → copy mem end p n ≡ some (bytes mem p n)
unfolding copy bytes
copy_inside mem end p zero h = refl
copy_inside mem end p (suc n) h =
    rw (read_inside mem end p (omega arith), copy_inside mem end (p + 1) n (omega arith)) refl

-- The parser has not read behind the end of the message.
abbrev pub Inside : {A : Type 0} → Option A → Type 0
Inside o = Yields (λ r. Unit) o

srv_name-Inside : (expand : Expand) (p a b c : ℕ) → Inside (srv_name expand p a b c)
unfolding srv_name
srv_name-Inside expand p a b c = elim (Option-cases (expand p)) [
  | inl e ↦ rw (e, srv_name) tt
  | inr (r, e) ↦ rw (e, srv_name) tt
]

naptr_repl-Inside :
    (expand : Expand) (p a b : ℕ) (f s r : ℕ × List ℕ) → Inside (naptr_repl expand p a b f s r)
unfolding naptr_repl
naptr_repl-Inside expand p a b f s r = elim (Option-cases (expand p)) [
  | inl e ↦ rw (e, naptr_repl) tt
  | inr (x, e) ↦ rw (e, naptr_repl) tt
]

srv-Inside :
    (ok : Bool) (expand : Expand) (mem : Memory) (end rdata : ℕ)
    → Inside (dns_srv_parser ok expand mem end rdata)
unfolding dns_srv_parser
srv-Inside ok expand mem end rdata = elim (Bool-cases (leb end (rdata + 6))) [
  | inl e ↦ rw e tt
  | inr e ↦ rw e (elim (Bool-cases ok) [
    | inl o ↦
        rw
          (
            o,
            read16_inside mem end rdata (ground arith),
            read16_inside mem end (rdata + 2) (ground arith),
            read16_inside mem end (rdata + 4) (ground arith),
          )
          (srv_name-Inside expand (rdata + 6) _ _ _)
    | inr o ↦ rw o tt
  ])
]

address-Inside :
    (ok : Bool) (mem : Memory) (end rdata : ℕ)
    → Inside (dns_a_parser ok mem end rdata) × Inside (dns_aaaa_parser ok mem end rdata)
unfolding dns_a_parser dns_aaaa_parser
address-Inside ok mem end rdata = (
  elim (Bool-cases (leb end (rdata + 4))) [
    | inl e ↦ rw e tt
    | inr e ↦ rw e (elim (Bool-cases ok) [
      | inl o ↦ rw (o, copy_inside mem end rdata 4 (ground arith)) tt
      | inr o ↦ rw o tt
    ])
  ],
  elim (Bool-cases (leb end (rdata + 16))) [
    | inl e ↦ rw e tt
    | inr e ↦ rw e (elim (Bool-cases ok) [
      | inl o ↦ rw (o, copy_inside mem end rdata 16 (ground arith)) tt
      | inr o ↦ rw o tt
    ])
  ],
)

txt-Inside :
    (ok : Bool) (mem : Memory) (end rdata : ℕ)
    → rdata < end
    → Inside (dns_txt_parser ok mem end rdata)
unfolding dns_txt_parser txt_of
txt-Inside false mem end rdata h = tt
txt-Inside true mem end rdata h =
    rw (read_inside mem end rdata h) (elim (Bool-cases (leb end (rdata + 1 + mem rdata))) [
      | inl e ↦ rw e tt
      | inr e ↦ rw e (elim (Bool-cases (leb 256 (mem rdata))) [
        | inl k ↦ rw k tt
        | inr k ↦ rw (k, copy_inside mem end (rdata + 1) (mem rdata) (ground arith)) tt
      ])
    ])

-- A counted text ends before the end of the message, with the room asked for behind it.
data Counted (end at room : ℕ) : Option (Option (ℕ × List ℕ)) → Type 0 where
  fails : Counted end at room (some none)
  holds : {t : ℕ × List ℕ} → at + room + t.0 < end → Counted end at room (some (some t))

counted_text-Counted :
    (mem : Memory) (end at room : ℕ)
    → at + room < end
    → 0 < room
    → Counted end at room (counted_text mem end at room)
unfolding counted_text
counted_text-Counted mem end at room h r =
    rw (read_inside mem end at (omega arith)) (elim (Bool-cases (leb end (at + room + mem at))) [
      | inl e ↦ rw e fails
      | inr e ↦ rw (e, copy_inside mem end (at + 1) (mem at) (ground arith)) (holds (ground arith))
    ])

then-Inside :
    {B : Type 0} (end at room : ℕ) (o : Option (Option (ℕ × List ℕ)))
    (k : ℕ × List ℕ → Option (Option B))
    → Counted end at room o
    → ((t : ℕ × List ℕ) → at + room + t.0 < end → Inside (k t))
    → Inside (then_parse o k)
then-Inside end at room none k x h = elim x [ ]
then-Inside end at room (some none) k fails h = tt
then-Inside end at room (some (some t)) k (holds e) h = h t e

naptr-Inside :
    (ok : Bool) (expand : Expand) (mem : Memory) (end rdata : ℕ)
    → Inside (dns_naptr_parser ok expand mem end rdata)
unfolding dns_naptr_parser
naptr-Inside ok expand mem end rdata = elim (Bool-cases (leb end (rdata + 7))) [
  | inl e ↦ rw e tt
  | inr e ↦ rw e (elim (Bool-cases ok) [
    | inl o ↦
        rw
          (
            o,
            read16_inside mem end rdata (ground arith),
            read16_inside mem end (rdata + 2) (ground arith),
          )
          (then-Inside end (rdata + 4) 3 _ _
            (counted_text-Counted mem end (rdata + 4) 3 (ground arith) (omega arith))
            λ flags h1.
              then-Inside end (rdata + 5 + flags.0) 2 _ _
                (counted_text-Counted mem end (rdata + 5 + flags.0) 2 (omega arith) (omega arith))
                λ services h2.
                  then-Inside end (rdata + 6 + flags.0 + services.0) 1 _ _
                    (counted_text-Counted mem end (rdata + 6 + flags.0 + services.0) 1 (omega arith)
                      (omega arith))
                    λ regexp h3.
                      naptr_repl-Inside expand (rdata + 7 + flags.0 + services.0 + regexp.0) _ _ _ _
                        _)
    | inr o ↦ rw o tt
  ])
]

ebl_apex-Inside : (expand : Expand) (p a b : ℕ) (s : List ℕ) → Inside (ebl_apex expand p a b s)
unfolding ebl_apex
ebl_apex-Inside expand p a b s = elim (Option-cases (expand p)) [
  | inl e ↦ rw (e, ebl_apex) tt
  | inr (x, e) ↦ rw (e, ebl_apex) tt
]

ebl_separator-Inside :
    (expand : Expand) (mem : Memory) (end rdata position len : ℕ)
    → Inside (ebl_separator expand mem end rdata position len)
unfolding ebl_separator
ebl_separator-Inside expand mem end rdata position len =
    elim (Bool-cases (leb end (rdata + 2 + len))) [
      | inl e ↦ rw (ebl_separator, e) tt
      | inr e ↦
          rw (ebl_separator, e, copy_inside mem end (rdata + 1) len (ground arith))
            (ebl_apex-Inside expand (rdata + 1 + len) _ _ _)
    ]

ebl-Inside :
    (ok : Bool) (expand : Expand) (mem : Memory) (end rdata : ℕ)
    → rdata < end
    → Inside (dns_ebl_parser ok expand mem end rdata)
unfolding dns_ebl_parser ebl_from
ebl-Inside false expand mem end rdata h = tt
ebl-Inside true expand mem end rdata h =
    rw (read_inside mem end rdata h) (elim (Bool-cases (leb end (rdata + 1 + mem rdata))) [
      | inl e ↦ rw e tt
      | inr e ↦ rw e (elim (Bool-cases (ltb 15 (mem rdata))) [
        | inl k ↦ rw k tt
        | inr k ↦
            rw (k, read_inside mem end (rdata + 1) (ground arith))
              (ebl_separator-Inside expand mem end (rdata + 1) _ _)
      ])
    ])

-- Of a record whose data starts before the end of the message, whatever its bytes and whether or not memory is
-- left, none of the six parsers reads at or behind the end.
pub records-Inside :
    (ok : Bool) (expand : Expand) (mem : Memory) (end rdata : ℕ)
    → rdata < end
    → Inside (dns_srv_parser ok expand mem end rdata)
      × Inside (dns_naptr_parser ok expand mem end rdata)
      × Inside (dns_a_parser ok mem end rdata)
      × Inside (dns_aaaa_parser ok mem end rdata)
      × Inside (dns_txt_parser ok mem end rdata)
      × Inside (dns_ebl_parser ok expand mem end rdata)
records-Inside ok expand mem end rdata h = (
  srv-Inside ok expand mem end rdata,
  naptr-Inside ok expand mem end rdata,
  (address-Inside ok mem end rdata).0,
  (address-Inside ok mem end rdata).1,
  txt-Inside ok mem end rdata h,
  ebl-Inside ok expand mem end rdata h,
)

further : (a b : ℕ) (o : Option ℕ) → a ≤ b → Yields (λ q. b ≤ q) o → Yields (λ q. a ≤ q) o
further a b none h y = y
further a b (some q) h y = omega arith

skip_loop_lem :
    (n : ℕ) (mem : Memory) (p end : ℕ) → end - p < n → Yields (λ q. p ≤ q) (skip_loop n mem p end)
unfolding skip_loop
skip_loop_lem zero mem p end h = absurd (omega arith)
skip_loop_lem (suc n) mem p end h = elim (Bool-cases (ltb p end)) [
  | inl e ↦ rw e (elim (Bool-cases (mem p == 0)) [
    | inl z ↦ rw z (omega arith)
    | inr z ↦ rw z (elim (Bool-cases (leb 192 (mem p))) [
      | inl k ↦ rw k (omega arith)
      | inr k ↦ rw k (
          further p (p + mem p + 1) (skip_loop n mem (p + mem p + 1) end) (omega arith)
            (skip_loop_lem n mem (p + mem p + 1) end (ground arith)))
    ])
  ])
  | inr e ↦ rw e (omega arith)
]

-- What `dns_skipname` returns for a name before the end: NULL, or a pointer behind the start of the name
-- and before the end.
pub dns_skipname-Yields :
    (mem : Memory) (p end : ℕ)
    → p < end
    → Yields (λ q. (q ≡ 0) ⊎ (p ≤ q) × (q < end)) (dns_skipname mem p end)
unfolding dns_skipname
dns_skipname-Yields mem p end h =
    go (skip_loop (end - p + 1) mem p end) (skip_loop_lem (end - p + 1) mem p end (omega arith))
  where
    go :
        (o : Option ℕ)
        → Yields (λ q. p ≤ q) o
        → Yields
            (λ q. (q ≡ 0) ⊎ (p ≤ q) × (q < end))
            (elim o [ none ↦ none | some q ↦ if leb end q then some 0 else some q ])
    go none y = y
    go (some q) y = elim (Bool-cases (leb end q)) [
      | inl e ↦ rw e (inl refl)
      | inr e ↦ rw e (inr (y, ground arith))
    ]
