-- ===== src/Db/Tests.antt =====
-- src/core/db/db_id.c on short URLs.
use opensips_ng.Prelude.{◌≡◌, refl, true, none, some, [], ◌∷◌, arith}
use opensips_ng.Db.Url.{Bytes, Alloc, Heap, new_db_id, free_db_id, str2s, DbId}
use opensips_ng.Db.Url.Compare.{cmp_db_id}
use opensips_ng.Db.Url.Refused.{short_url, new_db_id-short_url}
use opensips_ng.Db.Url.Roundtrip.{
  IsParts, IsPort, full_url, parsed_id, new_db_id-full_url, free_db_id-new_db_id,
}

abbrev always : Alloc
always n = true

abbrev no_calls : Heap
no_calls = record { calls = 0; freed = [] }

-- "s", "u", "p", "h", "33" and "d".
parts : IsParts (b's' ∷ []) (b'u' ∷ []) (b'p' ∷ []) (b'h' ∷ []) (b'3' ∷ b'3' ∷ [])
parts = record {
  scheme_clean = (refl, tt);
  user_clean = (refl, tt);
  password_clean = (refl, tt);
  host_clean = (refl, tt);
  port_clean = (refl, (refl, tt));
}

short-IsParts : IsParts (b's' ∷ []) (b'u' ∷ []) (b'p' ∷ []) (b'h' ∷ []) []
short-IsParts = record {
  scheme_clean = (refl, tt);
  user_clean = (refl, tt);
  password_clean = (refl, tt);
  host_clean = (refl, tt);
  port_clean = tt;
}

abbrev short_port : Bytes
short_port = b'3' ∷ b'3' ∷ []

short_port-IsPort : IsPort short_port
short_port-IsPort = record {
  digits = ((omega arith, omega arith), ((omega arith, omega arith), tt));
  short = omega arith;
}

new_db_id-full_url_example :
    new_db_id always
      (some
        (full_url (b's' ∷ []) (b'u' ∷ []) (b'p' ∷ []) (b'h' ∷ []) (b'3' ∷ b'3' ∷ []) (b'd' ∷ [])))
      no_calls
    ≡ (
      some (
        0,
        record (parsed_id
            (b's' ∷ [])
            (b'u' ∷ [])
            (b'p' ∷ [])
            (b'h' ∷ [])
            (b'3' ∷ b'3' ∷ [])
            (b'd' ∷ [])
            1) { port = 33 },
      ),
      record no_calls { calls = 6 },
    )
new_db_id-full_url_example =
    new_db_id-full_url always (b's' ∷ []) (b'u' ∷ []) (b'p' ∷ []) (b'h' ∷ []) (b'3' ∷ b'3' ∷ [])
      (b'd' ∷ []) no_calls (λ n. refl) parts short_port-IsPort

free_db_id-new_db_id_example :
    (free_db_id
      (new_db_id always
        (some
          (full_url (b's' ∷ []) (b'u' ∷ []) (b'p' ∷ []) (b'h' ∷ []) (b'3' ∷ b'3' ∷ []) (b'd' ∷ [])))
        no_calls).0
      (new_db_id always
        (some
          (full_url (b's' ∷ []) (b'u' ∷ []) (b'p' ∷ []) (b'h' ∷ []) (b'3' ∷ b'3' ∷ []) (b'd' ∷ [])))
        no_calls).1).freed
    ≡ (0 ∷ (5 ∷ (4 ∷ (3 ∷ (2 ∷ (1 ∷ []))))))
free_db_id-new_db_id_example =
    free_db_id-new_db_id always (b's' ∷ []) (b'u' ∷ []) (b'p' ∷ []) (b'h' ∷ []) (b'3' ∷ b'3' ∷ [])
      (b'd' ∷ []) no_calls (λ n. refl) parts

new_db_id-short_url_example :
    new_db_id always (some (short_url (b's' ∷ []) (b'u' ∷ []) (b'p' ∷ []) (b'h' ∷ []))) no_calls
    ≡ (none, record { calls = 4; freed = 0 ∷ (2 ∷ (3 ∷ (2 ∷ (1 ∷ [])))) })
new_db_id-short_url_example =
    new_db_id-short_url always (b's' ∷ []) (b'u' ∷ []) (b'p' ∷ []) (b'h' ∷ []) no_calls (λ n. refl)
      short-IsParts (omega arith)

port_numbers :
    (str2s (b'3' ∷ b'3' ∷ []) ≡ 33) × (str2s (b'7' ∷ b'0' ∷ b'0' ∷ b'0' ∷ b'0' ∷ []) ≡ 4464)
unfolding str2s
port_numbers = (refl, refl)

-- An identifier with no user, as "s://h/d" gives it, makes strcmp read a NULL pointer.
abbrev no_user : DbId
no_user = record {
  scheme = some (record { addr = 1; bytes = b's' ∷ [] });
  username = none;
  password = none;
  host = some (record { addr = 2; bytes = b'h' ∷ [] });
  port = 0;
  database = some (record { addr = 3; bytes = b'd' ∷ [] });
}

no_user_parsed :
    new_db_id always (some (b's' ∷ b':' ∷ b'/' ∷ b'/' ∷ b'h' ∷ b'/' ∷ b'd' ∷ [])) no_calls
    ≡ (some (0, no_user), record { calls = 4; freed = [] })
unfolding new_db_id
no_user_parsed = refl

no_user_compared : cmp_db_id (some no_user) (some no_user) ≡ none
unfolding cmp_db_id
no_user_compared = refl
