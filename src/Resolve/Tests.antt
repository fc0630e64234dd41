-- ===== src/Resolve/Tests.antt =====
-- src/core/resolve/parsers.c on small messages.
use opensips_ng.Prelude.{
  ℕ, ◌≡◌, refl, true, false, none, List, [], ◌∷◌, map, Yields, arith, ltb, if◌then◌else◌,
}
use opensips_ng.Parser.Memory.{Memory}
use opensips_ng.Resolve.Records.{
  Expand, NaptrRdata, dns_srv_parser, dns_naptr_parser, dns_a_parser, dns_aaaa_parser,
  dns_txt_parser, dns_ebl_parser,
}
use opensips_ng.Resolve.Records.Safe.{Inside, records-Inside}
use opensips_ng.Resolve.Srvs.{Entry, is_alone, next_run, sort_entry, sort_srvs}
use opensips_ng.Resolve.Srvs.Order.{AllSrv, Rearranged, sort_srvs-Rearranged}
use opensips_ng.Resolve.Naptr.{Rdata, naptr, null_naptr, other, is_supported, filter_and_sort_naptr}
use opensips_ng.Resolve.Naptr.Order.{Divided, filter_and_sort-Divided}

abbrev entry : ℕ → ℕ → Entry
entry priority weight = record {
  is_srv = true;
  srv = record { priority = priority; weight = weight; port = 5060; name_len = 0; name = [] };
  running_sum = 0;
}

abbrev servers : List Entry
servers = entry 1 10 ∷ entry 1 20 ∷ entry 2 5 ∷ []

sort_srvs-Rearranged_example : Yields (Rearranged servers) (sort_srvs (λ k sum. sum) servers)
unfolding AllSrv
sort_srvs-Rearranged_example =
    sort_srvs-Rearranged (λ k sum. sum) servers (refl, (refl, (refl, tt)))

-- The greatest random number takes the last record of a priority first.
last_first :
    Yields
      (λ out. map (λ e. e.srv.weight) out ≡ 20 ∷ 10 ∷ 5 ∷ [])
      (sort_srvs (λ k sum. sum) servers)
unfolding sort_srvs sort_entry is_alone next_run
last_first = refl

-- A message of ones that ends in zeros.
abbrev message : Memory
message p = if ltb p 20 then 1 else 0

abbrev no_names : Expand
no_names p = none

records-Inside_example :
    Inside (dns_srv_parser true no_names message 40 5)
    × Inside (dns_naptr_parser true no_names message 40 5)
    × Inside (dns_a_parser true message 40 5)
    × Inside (dns_aaaa_parser true message 40 5)
    × Inside (dns_txt_parser true message 40 5)
    × Inside (dns_ebl_parser true no_names message 40 5)
records-Inside_example = records-Inside true no_names message 40 5 (omega arith)

abbrev udp : ℕ → NaptrRdata
udp order = record {
  order = order;
  pref = 1;
  flags_len = 1;
  flags = b's' ∷ [];
  services_len = 7;
  services = b'S' ∷ b'I' ∷ b'P' ∷ b'+' ∷ b'D' ∷ b'2' ∷ b'U' ∷ [];
  regexp_len = 0;
  regexp = [];
  repl_len = 3;
  repl = b'a' ∷ [];
}

abbrev answer : List Rdata
answer = naptr (udp 3) ∷ null_naptr ∷ naptr (udp 1) ∷ other 1 ∷ naptr (udp 2) ∷ []

filter_and_sort-Divided_example :
    Divided (is_supported true false false) answer (filter_and_sort_naptr true false false answer)
filter_and_sort-Divided_example = filter_and_sort-Divided true false false answer

sorted_answer :
    filter_and_sort_naptr true false false answer
    ≡ (udp 1 ∷ udp 2 ∷ udp 3 ∷ [], other 1 ∷ null_naptr ∷ [])
unfolding filter_and_sort_naptr
sorted_answer = refl

no_sips : (filter_and_sort_naptr true false true answer).0 ≡ []
unfolding filter_and_sort_naptr
no_sips = refl
