-- ===== src/Parser/Methods.antt =====
-- src/core/parser/parse_methods.c: `method_char`, `parse_method`, `parse_methods`.
pub mod Bounds
use Prim.Native.Nat.{bit_or}
use opensips_ng.Prelude.{
  ℕ, zero, suc, ◌+◌, ◌-◌, Bool, true, false, not, ◌&&◌, ◌||◌, Option, none, some, List, [], ◌∷◌,
  ltb, leb, ◌==◌, if◌then◌else◌,
}
use opensips_ng.Prelude.Int.{ℤ, pos, negsuc}
use mathlib.Core.Option
use opensips_ng.Parser.Method
use opensips_ng.Parser.Memory.{Memory, Text, is_white}
use opensips_ng.Parser.Trim.{trim_leading}

-- "Check if argument is valid RFC3261 token character."
unfoldable pub method_char : ℕ → Bool
method_char c =
    (leb 65 c && leb c 90)
    || ((leb 97 c && leb c 122)
        || ((leb 48 c && leb c 57)
            || (c == b'-'
                || (c == b'.'
                    || (c == b'%' || (c == b'*' || (c == b'_' || (c == b'+' || c == b'~'))))))))

-- What may stand behind a method.
abbrev pub is_delimiter : ℕ → Bool
is_delimiter c = c == 0 || (c == b',' || is_white c)

-- `(a[0]==lo || a[0]==up) && (a[1]==... `: each byte is one of its pair.
unfoldable pub word : Memory → ℕ → List (ℕ × ℕ) → Bool
word mem a [] = true
word mem a ((lo, up) ∷ w) = (mem a == lo || mem a == up) && word mem (a + 1) w

-- `end && max<n`, with `none` for a NULL end.
abbrev pub too_short : Option ℕ → ℕ → Bool
too_short none n = false
too_short (some max) n = ltb max n

-- The initials with one method: its code and its length, or `goto unknown`.
unfoldable pub single : Memory → ℕ → Option ℕ → ℕ → List (ℕ × ℕ) → ℕ → Option (ℕ × ℕ)
unfolding word
single mem start limit n w method =
    if too_short limit n then none else if word mem (start + 1) w then some (method, n) else none

-- INFO and INVITE. The test of the second byte asks for two values at once, as in the source.
unfoldable pub known_i : Memory → ℕ → Option ℕ → Option (ℕ × ℕ)
unfolding word
known_i mem start limit =
    if too_short limit 4
    then none
    else if mem (start + 1) == b'n' && mem (start + 1) == b'N'
    then none
    else if word mem (start + 2) ((b'f', b'F') ∷ (b'o', b'O') ∷ [])
    then some (Method.info, 4)
    else if too_short limit 6
    then none
    else if word mem (start + 2) ((b'v', b'V') ∷ (b'i', b'I') ∷ (b't', b'T') ∷ (b'e', b'E') ∷ [])
    then some (Method.invite, 6)
    else none

-- PRACK and PUBLISH.
unfoldable pub known_p : Memory → ℕ → Option ℕ → Option (ℕ × ℕ)
unfolding word
known_p mem start limit =
    if too_short limit 5
    then none
    else if word mem (start + 1) ((b'r', b'R') ∷ (b'a', b'A') ∷ (b'c', b'C') ∷ (b'k', b'K') ∷ [])
    then some (Method.prack, 5)
    else if too_short limit 7
    then none
    else if word mem (start + 1) (
        (b'u', b'U')
        ∷ (b'b', b'B')
        ∷ (b'l', b'L')
        ∷ (b'i', b'I')
        ∷ (b's', b'S')
        ∷ (b'h', b'H')
        ∷ [])
    then some (Method.publish, 7)
    else none

-- REFER and REGISTER. The last byte of REFER is compared with 'R' twice, as in the source.
unfoldable pub known_r : Memory → ℕ → Option ℕ → Option (ℕ × ℕ)
unfolding word
known_r mem start limit =
    if too_short limit 5
    then none
    else if not (mem (start + 1) == b'e') && not (mem (start + 1) == b'E')
    then none
    else if word mem (start + 2) ((b'f', b'F') ∷ (b'e', b'E') ∷ (b'R', b'R') ∷ [])
    then some (Method.refer, 5)
    else if too_short limit 8
    then none
    else if word mem (start + 2) (
        (b'g', b'G')
        ∷ (b'i', b'I')
        ∷ (b's', b'S')
        ∷ (b't', b'T')
        ∷ (b'e', b'E')
        ∷ (b'r', b'R')
        ∷ [])
    then some (Method.register, 8)
    else none

-- The `switch` of `parse_method` on the first byte: the method's code and length; `none` is `goto unknown`.
unfoldable pub known_from : ℕ → Memory → ℕ → Option ℕ → Option (ℕ × ℕ)
known_from c mem start limit =
    if c == b'A' || c == b'a'
    then single mem start limit 3 ((b'c', b'C') ∷ (b'k', b'K') ∷ []) Method.ack
    else if c == b'B' || c == b'b'
    then single mem start limit 3 ((b'y', b'Y') ∷ (b'e', b'E') ∷ []) Method.bye
    else if c == b'C' || c == b'c'
    then single mem start limit 6
        ((b'a', b'A') ∷ (b'n', b'N') ∷ (b'c', b'C') ∷ (b'e', b'E') ∷ (b'l', b'L') ∷ [])
        Method.cancel
    else if c == b'I' || c == b'i'
    then known_i mem start limit
    else if c == b'M' || c == b'm'
    then single mem start limit 7
        ((b'e', b'E')
          ∷ (b's', b'S')
          ∷ (b's', b'S')
          ∷ (b'a', b'A')
          ∷ (b'g', b'G')
          ∷ (b'e', b'E')
          ∷ [])
        Method.message
    else if c == b'N' || c == b'n'
    then single mem start limit 6
        ((b'o', b'O') ∷ (b't', b'T') ∷ (b'i', b'I') ∷ (b'f', b'F') ∷ (b'y', b'Y') ∷ [])
        Method.notify
    else if c == b'O' || c == b'o'
    then single mem start limit 7
        ((b'p', b'P')
          ∷ (b't', b'T')
          ∷ (b'i', b'I')
          ∷ (b'o', b'O')
          ∷ (b'n', b'N')
          ∷ (b's', b'S')
          ∷ [])
        Method.options
    else if c == b'P' || c == b'p'
    then known_p mem start limit
    else if c == b'R' || c == b'r'
    then known_r mem start limit
    else if c == b'S' || c == b's'
    then single mem start limit 9
        ((b'u', b'U')
          ∷ (b'b', b'B')
          ∷ (b's', b'S')
          ∷ (b'c', b'C')
          ∷ (b'r', b'R')
          ∷ (b'i', b'I')
          ∷ (b'b', b'B')
          ∷ (b'e', b'E')
          ∷ [])
        Method.subscribe
    else if c == b'U' || c == b'u'
    then single mem start limit 6
        ((b'p', b'P') ∷ (b'd', b'D') ∷ (b'a', b'A') ∷ (b't', b'T') ∷ (b'e', b'E') ∷ [])
        Method.update
    else none

unfoldable pub known : Memory → ℕ → Option ℕ → Option (ℕ × ℕ)
unfolding known_from
known mem start limit = known_from (mem start) mem start limit

-- The pointer that `parse_method` returns, or NULL.
pub data Parsed : Type 0 where
  moved : ℕ → Parsed
  invalid : Parsed

-- The label `unknown` with an end, from the address `a`, with `n` bytes left before `end`.
unfoldable pub scan : Memory → ℕ → ℕ → ℕ → Parsed
scan mem end a zero = moved end
scan mem end a (suc n) =
    let rest = scan mem end (a + 1) n in
    if is_delimiter (mem a) then moved a else if not (method_char (mem a)) then invalid else rest

-- The labels `done` and `unknown` with an end: the result, and `*method`.
unfoldable pub done : Memory → ℕ → ℕ → Option (ℕ × ℕ) → Parsed × ℕ
unfolding scan method_char
done mem start end none = (scan mem end start (end - start), Method.other)
done mem start end (some (method, len)) =
    if ltb len (end - start) && not (is_delimiter (mem (start + len)))
    then (scan mem end (start + len) (end - start - len), Method.other)
    else (moved (start + len), method)

-- `parse_method` with an end.
unfoldable pub parse_method : Memory → ℕ → ℕ → Parsed × ℕ
unfolding known done
parse_method mem start end = done mem start end (known mem start (some (end - start)))

-- The label `unknown` for a zero-terminated string; `none` means that the fuel ran out.
unfoldable pub scan_zero : ℕ → Memory → ℕ → Option Parsed
scan_zero zero mem a = none
scan_zero (suc fuel) mem a =
    let rest = scan_zero fuel mem (a + 1) in
    if is_delimiter (mem a)
    then some (moved a)
    else if not (method_char (mem a))
    then some invalid
    else rest

-- `parse_method` with a NULL end.
unfoldable pub parse_method_zero : ℕ → Memory → ℕ → Option (Parsed × ℕ)
unfolding known scan_zero method_char
parse_method_zero fuel mem start = elim (known mem start none) [
  | none ↦ Option.map (λ r. (r, Method.other)) (scan_zero fuel mem start)
  | some (method, len) ↦
      if not (is_delimiter (mem (start + len)))
      then Option.map (λ r. (r, Method.other)) (scan_zero fuel mem (start + len))
      else some (moved (start + len), method)
]

-- `while(p<end && (*p==' ' || ...)) p++;` with `n` bytes left.
unfoldable pub skip_white : Memory → ℕ → ℕ → ℕ
skip_white mem p zero = p
skip_white mem p (suc n) =
    let rest = skip_white mem (p + 1) n in if is_white (mem p) then rest else p

-- What the `while` of `parse_methods` does behind a method: leave with a code, or go on at an address.
pub data Next : Type 0 where
  leave : ℤ → Next
  again : ℕ → Next

unfoldable pub separator : Memory → ℕ → ℕ → Next
separator mem p0 end =
    let p1 = skip_white mem p0 (end - p0) in
    let p2 = skip_white mem (p1 + 1) (end - (p1 + 1)) in
    if leb end p1 || mem p1 == 0
    then leave (pos 0)
    else if mem p1 == b','
    then (if leb end p2 then leave (pos 0) else again p2)
    else leave (negsuc 0)

-- The `while` of `parse_methods`: the return code and `*_methods`; `none` means that the fuel ran out.
unfoldable pub methods_loop : ℕ → Memory → ℕ → ℕ → ℕ → Option (ℤ × ℕ)
methods_loop zero mem p end methods = none
methods_loop (suc fuel) mem p end methods =
    let (parsed, method) = parse_method mem p end in
    let step : Option (ℤ × ℕ) = elim parsed [
      | invalid ↦ some (negsuc 0, methods)
      | moved p0 ↦ elim (separator mem p0 end) [
        | leave code ↦ some (code, bit_or methods method)
        | again p2 ↦ methods_loop fuel mem p2 end (bit_or methods method)
      ]
    ] in
    if ltb p end then step else some (pos 0, methods)

unfoldable pub parse_methods : ℕ → Memory → Text → Option (ℤ × ℕ)
unfolding trim_leading
parse_methods fuel mem body =
    let next = trim_leading mem body in
    if next.len == 0 then some (pos 0, 0) else methods_loop fuel mem next.s (next.s + next.len) 0
