-- ===== src/Parser/Params/Rounds.antt =====
-- src/core/parser/parse_param.c: a round of `parse_params`, and what it calls.
use opensips_ng.Prelude.{
  ℕ, zero, suc, ◌+◌, ◌-◌, Bool, not, ◌||◌, Option, none, some, ◌==◌, ltb, if◌then◌else◌,
}
use opensips_ng.Parser.Memory.{Memory, Text, is_white}
use opensips_ng.Parser.Trim.{trim_leading}
use opensips_ng.Parser.Uri.Parse.{q_memchr}
use opensips_ng.Parser.Params.Types.{
  ParamType, ParamClass, ParamNode, contact_type, uri_type, p_other, class_any, class_contact,
  class_uri,
}

-- `_s->s++; _s->len--;`
abbrev pub skip_byte : Text → Text
skip_byte t = record { s = t.s + 1; len = t.len - 1 }

-- What a quoted string holds, behind its opening quote, up to the closing one if it is found.
unfoldable pub quoted_to : Text → Option ℕ → Option Text × Text
quoted_to t none = (none, t)
quoted_to t (some q) =
    (some (record { s = t.s; len = q - t.s }), record { s = q + 1; len = t.len - (q - t.s + 1) })

-- `parse_quoted_param`: the string, `none` for a negative code, and what `_s` is then.
unfoldable pub parse_quoted_param : Memory → Text → Option Text × Text
unfolding q_memchr quoted_to
parse_quoted_param mem t =
    let u = skip_byte t in
    if ltb t.len 2 then (none, t) else quoted_to u (q_memchr u.len mem u.s 34)

-- What ends a token.
abbrev pub ends_token : ℕ → Bool
ends_token c = is_white c || (c == b',' || c == b';')

unfoldable pub token_len : Memory → ℕ → ℕ → ℕ
token_len mem s zero = 0
token_len mem s (suc n) =
    let rest = token_len mem (s + 1) n in if ends_token (mem s) then 0 else suc rest

-- `parse_token_param`.
unfoldable pub parse_token_param : Memory → Text → Option Text × Text
unfolding token_len
parse_token_param mem t =
    let i = token_len mem t.s t.len in
    if i == 0
    then (none, t)
    else (some (record { s = t.s; len = i }), record { s = t.s + i; len = t.len - i })

-- `parse_param_body`.
unfoldable pub parse_param_body : Memory → Text → Option Text × Text
unfolding parse_quoted_param parse_token_param
parse_param_body mem t = if mem t.s == 34 then parse_quoted_param mem t else parse_token_param mem t

abbrev pub ends_name : ℕ → Bool
ends_name c = is_white c || (c == b';' || (c == b',' || c == b'='))

-- The loop of `parse_param_name`, over `n` bytes.
unfoldable pub skip_name : Memory → ℕ → ℕ → Text
skip_name mem s zero = record { s = s; len = 0 }
skip_name mem s (suc n) =
    let rest = skip_name mem (s + 1) n in
    if ends_name (mem s) then record { s = s; len = suc n } else rest

unfoldable pub type_of : ParamClass → Memory → Text → ParamType
unfolding contact_type uri_type
type_of class_any mem name = p_other
type_of class_contact mem name = contact_type mem name
type_of class_uri mem name = uri_type mem name

-- `parse_param_name` on a string that is not NULL, in the block `at`.
unfoldable pub parse_param_name : Memory → ParamClass → ℕ → Text → ParamNode × Text
unfolding skip_name type_of
parse_param_name mem c at t =
    let u = skip_name mem t.s t.len in
    let name : Text = record { s = t.s; len = u.s - t.s } in
    (
      record {
        at = at;
        type = type_of c mem name;
        name = name;
        body = record { s = 0; len = 0 };
        len = 0;
      },
      u,
    )

-- How a round ends: `goto ok`, the next round, or `goto error`; with what `_s` is then.
pub data Round : Type 0 where
  last next fail : ParamNode → Text → Round

-- From the test for ',' on.
unfoldable pub separator : Memory → ParamNode → Text → Round
separator mem p t =
    let u = trim_leading mem (skip_byte t) in
    if mem t.s == b','
    then last p t
    else if mem t.s == b'>'
    then last p t
    else if not (mem t.s == b';')
    then fail p t
    else if u.len == 0
    then fail p u
    else next p u

-- Behind `parse_param_body`.
unfoldable pub behind_body : Memory → ParamNode → Option Text × Text → Round
behind_body mem p (none, t) = fail p t
behind_body mem p (some b, t) =
    let p' = record p { body = b; len = t.s - p.name.s } in
    let u = trim_leading mem t in if u.len == 0 then last p' u else separator mem p' u

-- Behind '='.
unfoldable pub with_body : Memory → ParamNode → Text → Round
with_body mem p t = if t.len == 0 then fail p t else behind_body mem p (parse_param_body mem t)

-- Behind the name.
unfoldable pub behind_name : Memory → ParamNode → Text → Round
behind_name mem p t =
    let p' = record p { len = p.name.len } in
    if t.len == 0
    then last p' t
    else if mem t.s == b'='
    then with_body mem p (trim_leading mem (skip_byte t))
    else separator mem p' t

-- A round behind the allocation.
unfoldable pub parse_param : Memory → ParamClass → ℕ → Text → Round
parse_param mem c at t =
    let (p, u) = parse_param_name mem c at t in behind_name mem p (trim_leading mem u)
