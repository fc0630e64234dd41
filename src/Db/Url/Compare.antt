-- ===== src/Db/Url/Compare.antt =====
-- src/core/db/db_id.c: `cmp_db_id`.
use opensips_ng.Prelude.{
  ℕ, ◌+◌, ◌≡◌, refl, Bool, true, false, not, ◌&&◌, Option, none, some, [], ◌∷◌, leb, ◌==◌, ==_iff,
  if◌then◌else◌, arith,
}
use opensips_ng.Db.Url.{Bytes, Block, DbId}
use opensips_ng.Db.Url.Roundtrip.{parsed_id}

-- The C library's tolower for ASCII.
abbrev pub lower : ℕ → ℕ
lower c = if leb b'A' c && leb c b'Z' then c + 32 else c

-- The C library's strcmp, and with `lower` strcasecmp, is 0; a NUL stands behind the bytes.
unfoldable pub c_equal : (ℕ → ℕ) → Bytes → Bytes → Bool
c_equal f [] [] = true
c_equal f [] (b ∷ t) = b == 0
c_equal f (a ∷ s) [] = a == 0
c_equal f (a ∷ s) (b ∷ t) =
    let rest = c_equal f s t in if f a == f b then (if a == 0 then true else rest) else false

-- `none` is a NULL argument.
unfoldable pub c_compare : (ℕ → ℕ) → Option Block → Option Block → Option Bool
unfolding c_equal
c_compare f none q = none
c_compare f (some p) none = none
c_compare f (some p) (some q) = some (c_equal f p.bytes q.bytes)

unfoldable pub same_password : Option Block → Option Block → Bool
unfolding c_equal
same_password (some p) (some q) = c_equal (λ c. c) p.bytes q.bytes
same_password none none = true
same_password none (some q) = false
same_password (some p) none = false

-- `if (strcmp(...)) return 0;`
unfoldable pub and_then : Option Bool → Option Bool → Option Bool
and_then none k = none
and_then (some true) k = k
and_then (some false) k = some false

-- Whether `cmp_db_id` returns 1; `none` is a NULL given to strcmp.
unfoldable pub cmp_db_id : Option DbId → Option DbId → Option Bool
unfolding c_compare same_password and_then
cmp_db_id none q = some false
cmp_db_id (some a) none = some false
cmp_db_id (some a) (some b) =
    if not (a.port == b.port)
    then some false
    else and_then (c_compare (λ c. c) a.scheme b.scheme) (
        and_then (c_compare (λ c. c) a.username b.username) (
          and_then (some (same_password a.password b.password))
            (and_then (c_compare lower a.host b.host) (c_compare (λ c. c) a.database b.database))))

==_refl : (n : ℕ) → (n == n) ≡ true
==_refl n = (==_iff n n).1 refl

c_equal_refl : (f : ℕ → ℕ) (s : Bytes) → c_equal f s s ≡ true
unfolding c_equal
c_equal_refl f [] = refl
c_equal_refl f (a ∷ s) = rw (==_refl (f a), c_equal_refl f s) (ground arith)

-- Two identifiers with the same six parts compare equal, wherever their blocks are in memory.
pub cmp_db_id-parsed_id :
    (scheme user password host port database : Bytes) (m n : ℕ)
    → cmp_db_id
        (some (parsed_id scheme user password host port database m))
        (some (parsed_id scheme user password host port database n))
      ≡ some true
unfolding cmp_db_id
cmp_db_id-parsed_id scheme user password host port database m n = rw (
  ==_refl _,
  c_equal_refl (λ c. c) scheme,
  c_equal_refl (λ c. c) user,
  c_equal_refl (λ c. c) password,
  c_equal_refl lower host,
  c_equal_refl (λ c. c) database,
)
