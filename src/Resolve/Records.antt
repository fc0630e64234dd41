-- ===== src/Resolve/Records.antt =====
-- src/core/resolve/parsers.c: the parsers of the record types, and `dns_skipname`. The message ends at the
-- address `end`; `none` is a read at or behind it, `some none` is the return of 0. `expand` is the C
-- library's dn_expand of the message, at an address: the length and the name, or none for -1.
pub mod Safe
use opensips_ng.Prelude.{
  ℕ, zero, suc, ◌+◌, ◌-◌, ◌*◌, ◌/◌, ◌≤◌, ◌<◌, Bool, true, false, Option, none, some, List, [], ◌∷◌,
  ltb, leb, ◌==◌, if◌then◌else◌, ◌>>=◌, take,
}
use opensips_ng.Parser.Memory.{Memory}

unfoldable pub read : Memory → ℕ → ℕ → Option ℕ
read mem end p = if ltb p end then some (mem p) else none

-- `ntohs` of the two bytes.
unfoldable pub read16 : Memory → ℕ → ℕ → Option ℕ
unfolding read
read16 mem end p = do hi ← read mem end p; lo ← read mem end (p + 1); some (hi * 256 + lo)

-- `memcpy(..., p, n)`.
unfoldable pub copy : Memory → ℕ → ℕ → ℕ → Option (List ℕ)
unfolding read
copy mem end p zero = some []
copy mem end p (suc n) = do c ← read mem end p; s ← copy mem end (p + 1) n; some (c ∷ s)

abbrev pub Expand : Type 0
Expand = ℕ → Option (ℕ × List ℕ)

-- `struct srv_rdata`, the fields that are set.
pub record SrvRdata : Type 0 where
  pub priority : ℕ
  pub weight : ℕ
  pub port : ℕ
  pub name_len : ℕ
  pub name : List ℕ

unfoldable pub srv_name : Expand → ℕ → ℕ → ℕ → ℕ → Option (Option SrvRdata)
srv_name expand rdata priority weight port = elim (expand rdata) [
  | none ↦ some none
  | some (len, name) ↦ some (
      some
        (record { priority = priority; weight = weight; port = port; name_len = len; name = name }))
]

unfoldable pub dns_srv_parser : Bool → Expand → Memory → ℕ → ℕ → Option (Option SrvRdata)
unfolding srv_name
dns_srv_parser alloc_ok expand mem end rdata =
    if leb end (rdata + 6)
    then some none
    else if alloc_ok
    then (do
      priority ← read16 mem end rdata
      weight ← read16 mem end (rdata + 2)
      port ← read16 mem end (rdata + 4)
      srv_name expand (rdata + 6) priority weight port)
    else some none

-- `struct naptr_rdata`.
pub record NaptrRdata : Type 0 where
  pub order : ℕ
  pub pref : ℕ
  pub flags_len : ℕ
  pub flags : List ℕ
  pub services_len : ℕ
  pub services : List ℕ
  pub regexp_len : ℕ
  pub regexp : List ℕ
  pub repl_len : ℕ
  pub repl : List ℕ

-- A length byte at `at`, and the text behind it, if `room` bytes more than that lie before the end.
unfoldable pub counted_text : Memory → ℕ → ℕ → ℕ → Option (Option (ℕ × List ℕ))
unfolding read copy
counted_text mem end at room = do
  len ← read mem end at
  (if leb end (at + room + len)
      then some none
      else copy mem end (at + 1) len >>= λ s. some (some (len, s)))

-- The call behind a result that is not NULL.
abbrev pub then_parse :
    {A B : Type 0} → Option (Option A) → (A → Option (Option B)) → Option (Option B)
then_parse none k = none
then_parse (some none) k = some none
then_parse (some (some a)) k = k a

unfoldable pub naptr_repl :
    Expand → ℕ → ℕ → ℕ → ℕ × List ℕ → ℕ × List ℕ → ℕ × List ℕ → Option (Option NaptrRdata)
naptr_repl expand rdata order pref flags services regexp = elim (expand rdata) [
  | none ↦ some none
  | some (len, name) ↦ some (
      some (record {
        order = order;
        pref = pref;
        flags_len = flags.0;
        flags = flags.1;
        services_len = services.0;
        services = services.1;
        regexp_len = regexp.0;
        regexp = regexp.1;
        repl_len = len;
        repl = name;
      }))
]

unfoldable pub dns_naptr_parser : Bool → Expand → Memory → ℕ → ℕ → Option (Option NaptrRdata)
unfolding read16 counted_text naptr_repl
dns_naptr_parser alloc_ok expand mem end rdata =
    if leb end (rdata + 7)
    then some none
    else if alloc_ok
    then (do
      order ← read16 mem end rdata
      pref ← read16 mem end (rdata + 2)
      then_parse (counted_text mem end (rdata + 4) 3) λ flags.
          then_parse (counted_text mem end (rdata + 5 + flags.0) 2) λ services.
            then_parse (counted_text mem end (rdata + 6 + flags.0 + services.0) 1) λ regexp.
              naptr_repl expand (rdata + 7 + flags.0 + services.0 + regexp.0) order pref flags
                services regexp)
    else some none

-- The name of a `struct cname_rdata`.
unfoldable pub dns_cname_parser : Bool → Expand → ℕ → Option (List ℕ)
dns_cname_parser alloc_ok expand rdata =
    if alloc_ok then (elim (expand rdata) [ none ↦ none | some (len, name) ↦ some name ]) else none

-- The address of a `struct a_rdata`, and of a `struct aaaa_rdata`.
unfoldable pub dns_a_parser : Bool → Memory → ℕ → ℕ → Option (Option (List ℕ))
unfolding copy
dns_a_parser alloc_ok mem end rdata =
    if leb end (rdata + 4)
    then some none
    else if alloc_ok
    then (do ip ← copy mem end rdata 4; some (some ip))
    else some none

unfoldable pub dns_aaaa_parser : Bool → Memory → ℕ → ℕ → Option (Option (List ℕ))
unfolding copy
dns_aaaa_parser alloc_ok mem end rdata =
    if leb end (rdata + 16)
    then some none
    else if alloc_ok
    then (do ip ← copy mem end rdata 16; some (some ip))
    else some none

-- `struct txt_rdata`: the text, which with its final 0 is put into MAX_DNS_NAME bytes.
unfoldable pub txt_of : Memory → ℕ → ℕ → ℕ → Option (Option (List ℕ))
unfolding copy
txt_of mem end rdata len =
    if leb end (rdata + 1 + len)
    then some none
    else if leb 256 len
    then some none
    else (do txt ← copy mem end (rdata + 1) len; some (some txt))

unfoldable pub dns_txt_parser : Bool → Memory → ℕ → ℕ → Option (Option (List ℕ))
unfolding read txt_of
dns_txt_parser alloc_ok mem end rdata =
    if alloc_ok then (do len ← read mem end rdata; txt_of mem end rdata len) else some none

-- `struct ebl_rdata`; `apex` is the C string.
pub record EblRdata : Type 0 where
  pub position : ℕ
  pub separator_len : ℕ
  pub separator : List ℕ
  pub apex_len : ℕ
  pub apex : List ℕ

-- `apex[apex_len] = 0` ends the expanded name after as many bytes as the compressed one takes.
unfoldable pub ebl_apex : Expand → ℕ → ℕ → ℕ → List ℕ → Option (Option EblRdata)
ebl_apex expand rdata position separator_len separator = elim (expand rdata) [
  | none ↦ some none
  | some (len, name) ↦ some (
      some (record {
        position = position;
        separator_len = separator_len;
        separator = separator;
        apex_len = len;
        apex = take len name;
      }))
]

-- The separator, of which `rdata` is the length byte, and the apex.
unfoldable pub ebl_separator : Expand → Memory → ℕ → ℕ → ℕ → ℕ → Option (Option EblRdata)
unfolding copy ebl_apex
ebl_separator expand mem end rdata position len =
    if leb end (rdata + 2 + len)
    then some none
    else (do s ← copy mem end (rdata + 1) len; ebl_apex expand (rdata + 1 + len) position len s)

-- The first byte is taken for a length, and then for the position.
unfoldable pub ebl_from : Expand → Memory → ℕ → ℕ → ℕ → Option (Option EblRdata)
unfolding read ebl_separator
ebl_from expand mem end rdata len =
    if leb end (rdata + 1 + len)
    then some none
    else if ltb 15 len
    then some none
    else (do sep ← read mem end (rdata + 1); ebl_separator expand mem end (rdata + 1) len sep)

unfoldable pub dns_ebl_parser : Bool → Expand → Memory → ℕ → ℕ → Option (Option EblRdata)
unfolding read ebl_from
dns_ebl_parser alloc_ok expand mem end rdata =
    if alloc_ok then (do len ← read mem end rdata; ebl_from expand mem end rdata len) else some none

-- The loop of `dns_skipname`, with `n` bytes left at least; the result is the pointer, 0 for NULL.
-- `(*p & 0xc0) == 0xc0` is a byte from 192 on.
unfoldable pub skip_loop : ℕ → Memory → ℕ → ℕ → Option ℕ
skip_loop zero mem p end = none
skip_loop (suc n) mem p end =
    let rest = skip_loop n mem (p + mem p + 1) end in
    if ltb p end
    then (if mem p == 0 then some (p + 1) else if leb 192 (mem p) then some (p + 2) else rest)
    else some p

unfoldable pub dns_skipname : Memory → ℕ → ℕ → Option ℕ
unfolding skip_loop
dns_skipname mem p end = elim (skip_loop (end - p + 1) mem p end) [
  | none ↦ none
  | some q ↦ if leb end q then some 0 else some q
]
