-- ===== src/Resolve/Naptr.antt =====
-- src/core/resolve/parsers.c: `filter_and_sort_naptr`. `tcp` is whether USE_TCP is defined and `tcp_disable` is 0,
-- `sctp` the same for SCTP.
pub mod Order
use opensips_ng.Prelude.{
  ℕ, zero, suc, ◌+◌, ◌-◌, ◌*◌, ◌^◌, ◌%◌, Bool, true, false, not, ◌&&◌, ◌||◌, List, [], ◌∷◌, ◌++◌,
  ltb, leb, ◌==◌, if◌then◌else◌,
}
use opensips_ng.Db.Url.Compare.{lower}
use opensips_ng.Resolve.Records.{NaptrRdata}

-- `struct rdata`, by its type: a NAPTR record, one with no data, and one of another type.
pub data Rdata : Type 0 where
  naptr : NaptrRdata → Rdata
  null_naptr : Rdata
  other : ℕ → Rdata

-- A byte of a text in an array, inside the text.
unfoldable pub byte_at : List ℕ → ℕ → ℕ
byte_at [] i = 0
byte_at (c ∷ s) zero = c
byte_at (c ∷ s) (suc i) = byte_at s i

-- `strncasecmp` with a literal in lower case and its length is 0.
unfoldable pub begins_with : List ℕ → List ℕ → Bool
begins_with [] s = true
begins_with (c ∷ cs) [] = false
begins_with (c ∷ cs) (d ∷ s) = lower d == c && begins_with cs s

abbrev pub sip_d2 : List ℕ
sip_d2 = b's' ∷ b'i' ∷ b'p' ∷ b'+' ∷ b'd' ∷ b'2' ∷ []

abbrev pub sips_d2 : List ℕ
sips_d2 = b's' ∷ b'i' ∷ b'p' ∷ b's' ∷ b'+' ∷ b'd' ∷ b'2' ∷ []

-- The test of the services against the scheme.
unfoldable pub is_scheme : Bool → NaptrRdata → Bool
unfolding begins_with
is_scheme is_sips n =
    if is_sips
    then n.services_len == 8 && begins_with sips_d2 n.services
    else n.services_len == 7 && begins_with sip_d2 n.services

-- The test of `p`, the last byte of the services.
unfoldable pub is_transport : Bool → Bool → ℕ → Bool
is_transport tcp sctp p =
    p == b'U' || p == b'u' || tcp && (p == b'T' || p == b't') || sctp && (p == b'S' || p == b's')

-- No `goto skip`.
unfoldable pub is_supported : Bool → Bool → Bool → NaptrRdata → Bool
unfolding byte_at is_scheme is_transport
is_supported tcp sctp is_sips n =
    let p = byte_at n.services (n.services_len - 1) in
    n.flags_len == 1
    && (byte_at n.flags 0 == b's' || byte_at n.flags 0 == b'S')
    && not (n.repl_len == 0 || not (n.regexp_len == 0))
    && is_scheme is_sips n
    && is_transport tcp sctp p
    && not (n.services_len == 8 && (p == b'U' || p == b'u'))

-- `naptr_prio`, an unsigned int.
unfoldable pub naptr_prio : NaptrRdata → ℕ
naptr_prio n = (n.order * 2 ^ 16 + n.pref) % 2 ^ 32

-- `last`, the end of the list that starts at `head`.
unfoldable pub last_of : NaptrRdata → List NaptrRdata → NaptrRdata
last_of head [] = head
last_of head (n ∷ ns) = last_of n ns

-- The loop with `itp` and `it`, from `it` on, and the insertion behind `itp`.
unfoldable pub insert_middle : NaptrRdata → List NaptrRdata → List NaptrRdata
unfolding naptr_prio
insert_middle l [] = l ∷ []
insert_middle l (it ∷ []) = l ∷ (it ∷ [])
insert_middle l (it ∷ (n ∷ ns)) =
    let rest = insert_middle l (n ∷ ns) in
    if leb (naptr_prio l) (naptr_prio it) then l ∷ (it ∷ (n ∷ ns)) else it ∷ rest

unfoldable pub insert_naptr : NaptrRdata → List NaptrRdata → List NaptrRdata
unfolding naptr_prio last_of insert_middle
insert_naptr l [] = l ∷ []
insert_naptr l (head ∷ ns) =
    if leb (naptr_prio l) (naptr_prio head)
    then l ∷ (head ∷ ns)
    else if leb (naptr_prio (last_of head ns)) (naptr_prio l)
    then (head ∷ ns) ++ l ∷ []
    else head ∷ insert_middle l ns

-- The loop over the records, with the two lists so far; they become `*head_p` and `*filtered_p`.
unfoldable pub sort_naptr_from :
    (NaptrRdata → Bool) → List Rdata → List NaptrRdata → List Rdata → List NaptrRdata × List Rdata
unfolding insert_naptr
sort_naptr_from keep [] head out = (head, out)
sort_naptr_from keep (naptr n ∷ ls) head out =
    let kept = sort_naptr_from keep ls (insert_naptr n head) out in
    let skipped = sort_naptr_from keep ls head (naptr n ∷ out) in if keep n then kept else skipped
sort_naptr_from keep (null_naptr ∷ ls) head out = sort_naptr_from keep ls head (null_naptr ∷ out)
sort_naptr_from keep (other t ∷ ls) head out = sort_naptr_from keep ls head (other t ∷ out)

unfoldable pub filter_and_sort_naptr :
    Bool → Bool → Bool → List Rdata → List NaptrRdata × List Rdata
unfolding is_supported sort_naptr_from
filter_and_sort_naptr tcp sctp is_sips ls = sort_naptr_from (is_supported tcp sctp is_sips) ls [] []
