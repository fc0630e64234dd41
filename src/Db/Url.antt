-- ===== src/Db/Url.antt =====
-- src/core/db/db_id.c: `dupl_string`, `parse_db_url`, `new_db_id`, `free_db_id`, and `str2s` of src/core/utils.h.
pub mod Roundtrip
pub mod Refused
pub mod Compare
use opensips_ng.Prelude.{
  ℕ, ◌+◌, ◌-◌, ◌*◌, ◌%◌, Bool, true, false, ◌&&◌, Option, none, some, List, [], ◌∷◌, ◌++◌, length,
  ltb, leb, ◌==◌, if◌then◌else◌,
}
use mathlib.Core.Option

abbrev pub Bytes : Type 0
Bytes = List ℕ

-- A zero-terminated string in shared memory: the number of the `shm_malloc` call it is from, and its bytes.
pub record Block : Type 0 where
  pub addr : ℕ
  pub bytes : Bytes

-- `struct db_id` of src/core/db/db_id.h; a NULL pointer is `none`.
pub record DbId : Type 0 where
  pub scheme : Option Block
  pub username : Option Block
  pub password : Option Block
  pub host : Option Block
  pub port : ℕ
  pub database : Option Block

-- After `memset(id, 0, sizeof(struct db_id))`.
abbrev pub no_id : DbId
no_id = record {
  scheme = none;
  username = none;
  password = none;
  host = none;
  port = 0;
  database = none;
}

-- Shared memory: the calls of `shm_malloc` so far, and the blocks that `shm_free` was called with, the last first.
pub record Heap : Type 0 where
  pub calls : ℕ
  pub freed : List ℕ

-- Whether a call of `shm_malloc` succeeds, by its number.
abbrev pub Alloc : Type 0
Alloc = ℕ → Bool

unfoldable pub shm_malloc : Alloc → Heap → Option ℕ × Heap
shm_malloc ok h = (if ok h.calls then some h.calls else none, record h { calls = h.calls + 1 })

-- `if (p) shm_free(p);`
unfoldable pub free_block : Option Block → Heap → Heap
free_block none h = h
free_block (some b) h = record h { freed = b.addr ∷ h.freed }

-- The new value of `*dst`, which is NULL when the call returns -1.
unfoldable pub dupl_string : Alloc → Option Block → Bytes → Heap → Option Block × Heap
unfolding free_block shm_malloc
dupl_string ok dst bytes h =
    let (p, h') = shm_malloc ok (free_block dst h) in
    (Option.map (λ a. record { addr = a; bytes = bytes }) p, h')

-- `unsigned short`.
abbrev pub u16_mod : ℕ
u16_mod = 65536

-- The loop of `str2s`, with `ret` and `i`; any error yields 0.
unfoldable pub str2s_loop : Bytes → ℕ → ℕ → ℕ
str2s_loop [] ret i = ret
str2s_loop (c ∷ s) ret i =
    let rest = str2s_loop s ((ret * 10 + c - b'0') % u16_mod) (i + 1) in
    if leb c b'9' && leb b'0' c then (if ltb 5 (i + 1) then 0 else rest) else 0

unfoldable pub str2s : Bytes → ℕ
unfolding str2s_loop
str2s s = str2s_loop s 0 0

-- `enum state`.
pub data State : Type 0 where
  st_scheme : State
  st_slash1 : State
  st_slash2 : State
  st_user_host : State
  st_pass_port : State
  st_host : State
  st_port : State
  st_db : State

-- The variables of `parse_db_url`: `*id`, `prev_token`, and the memory.
pub record Run : Type 0 where
  pub id : DbId
  pub prev_token : Option Block
  pub heap : Heap

-- One round of the `for`: go on in a state with the bytes from `begin`, return 0, or `goto err`.
pub data Step : Type 0 where
  next : State → Bytes → Run → Step
  done : Run → Step
  err : Run → Step

-- `if (dupl_string(...) < 0) goto err;`
unfoldable pub checked : Option Block → Run → Step → Step
checked none run step = err run
checked (some b) run step = step

unfoldable pub set_scheme : Alloc → Bytes → (Run → Step) → Run → Step
unfolding dupl_string checked
set_scheme ok bytes k run =
    let (b, h) = dupl_string ok run.id.scheme bytes run.heap in
    let run' : Run = record run { id = record run.id { scheme = b }; heap = h } in
    checked b run' (k run')

unfoldable pub set_username : Alloc → Bytes → (Run → Step) → Run → Step
unfolding dupl_string checked
set_username ok bytes k run =
    let (b, h) = dupl_string ok run.id.username bytes run.heap in
    let run' : Run = record run { id = record run.id { username = b }; heap = h } in
    checked b run' (k run')

unfoldable pub set_password : Alloc → Bytes → (Run → Step) → Run → Step
unfolding dupl_string checked
set_password ok bytes k run =
    let (b, h) = dupl_string ok run.id.password bytes run.heap in
    let run' : Run = record run { id = record run.id { password = b }; heap = h } in
    checked b run' (k run')

unfoldable pub set_host : Alloc → Bytes → (Run → Step) → Run → Step
unfolding dupl_string checked
set_host ok bytes k run =
    let (b, h) = dupl_string ok run.id.host bytes run.heap in
    let run' : Run = record run { id = record run.id { host = b }; heap = h } in
    checked b run' (k run')

unfoldable pub set_database : Alloc → Bytes → (Run → Step) → Run → Step
unfolding dupl_string checked
set_database ok bytes k run =
    let (b, h) = dupl_string ok run.id.database bytes run.heap in
    let run' : Run = record run { id = record run.id { database = b }; heap = h } in
    checked b run' (k run')

unfoldable pub set_prev_token : Alloc → Bytes → (Run → Step) → Run → Step
unfolding dupl_string checked
set_prev_token ok bytes k run =
    let (b, h) = dupl_string ok run.prev_token bytes run.heap in
    let run' : Run = record run { prev_token = b; heap = h } in checked b run' (k run')

-- The `switch (st)`: on the byte `c`, with the bytes behind it and those from `begin` up to it.
unfoldable pub step : Alloc → State → ℕ → Bytes → Bytes → Run → Step
unfolding set_scheme set_username set_password set_host set_database set_prev_token
step ok st_scheme c rest token run =
    if c == b':'
    then set_scheme ok token (next st_slash1 (token ++ (c ∷ []))) run
    else next st_scheme (token ++ (c ∷ [])) run
step ok st_slash1 c rest token run =
    if c == b'/' then next st_slash2 (token ++ (c ∷ [])) run else err run
step ok st_slash2 c rest token run = if c == b'/' then next st_user_host [] run else err run
step ok st_user_host c rest token run =
    if c == b'@'
    then set_username ok token (next st_host []) run
    else if c == b':'
    then set_prev_token ok token (next st_pass_port []) run
    else if c == b'/'
    then set_host ok token (set_database ok rest done) run
    else next st_user_host (token ++ (c ∷ [])) run
step ok st_pass_port c rest token run =
    if c == b'@'
    then set_password ok token (next st_host [])
        (record run { id = record run.id { username = run.prev_token } })
    else if c == b'/'
    then set_database ok rest done
        (record run { id = record run.id { host = run.prev_token; port = str2s token } })
    else next st_pass_port (token ++ (c ∷ [])) run
step ok st_host c rest token run =
    if c == b':'
    then set_host ok token (next st_port []) run
    else if c == b'/'
    then set_host ok token (set_database ok rest done) run
    else next st_host (token ++ (c ∷ [])) run
step ok st_port c rest token run =
    if c == b'/'
    then set_database ok rest done (record run { id = record run.id { port = str2s token } })
    else next st_port (token ++ (c ∷ [])) run
step ok st_db c rest token run = next st_db (token ++ (c ∷ [])) run

-- The `for`: whether the code returned 0, and the variables then.
unfoldable pub url_loop : Alloc → Bytes → State → Bytes → Run → Bool × Run
url_loop ok [] st token run = elim st [ st_db ↦ (true, run) | _ ↦ (false, run) ]
url_loop ok (c ∷ rest) st token run = elim (step ok st c rest token run) [
  | next st' token' run' ↦ url_loop ok rest st' token' run'
  | done run' ↦ (true, run')
  | err run' ↦ (false, run')
]

-- The fields that the label `err` and `free_db_id` release.
unfoldable pub free_fields : DbId → Heap → Heap
unfolding free_block
free_fields id h =
    free_block id.database (
      free_block id.host (free_block id.password (free_block id.username (free_block id.scheme h))))

-- `sizeof("s://a/b") - 1`.
abbrev pub shortest_db_url_len : ℕ
shortest_db_url_len = 7

-- `parse_db_url` on an identifier that is all zero: `none` is -1.
unfoldable pub parse_db_url : Alloc → Bytes → Heap → Option DbId × Heap
unfolding url_loop free_fields free_block step
parse_db_url ok url h =
    let (ok', run) =
      url_loop ok url st_scheme [] (record { id = no_id; prev_token = none; heap = h }) in
    if ltb (length url) shortest_db_url_len
    then (none, h)
    else if ok'
    then (some run.id, run.heap)
    else (none, free_block run.prev_token (free_fields run.id run.heap))

-- `new_db_id` behind `parse_db_url`: the structure at `ptr` with its address, or the label `err`.
unfoldable pub opened : ℕ → Option DbId × Heap → Option (ℕ × DbId) × Heap
opened ptr (none, h) = (none, record h { freed = ptr ∷ h.freed })
opened ptr (some id, h) = (some (ptr, id), h)

-- `new_db_id`, on the bytes of `url`.
unfoldable pub new_db_id : Alloc → Option Bytes → Heap → Option (ℕ × DbId) × Heap
unfolding opened parse_db_url
new_db_id ok none h = (none, h)
new_db_id ok (some url) h =
    let h1 : Heap = record h { calls = h.calls + 1 } in
    if ok h.calls then opened h.calls (parse_db_url ok url h1) else (none, h1)

unfoldable pub free_db_id : Option (ℕ × DbId) → Heap → Heap
unfolding free_fields
free_db_id none h = h
free_db_id (some (ptr, id)) h = let h' = free_fields id h in record h' { freed = ptr ∷ h'.freed }
