-- ===== src/Parser/Uri/Cases.antt =====
-- src/core/parser/parse_uri.c: its macros. A round with the byte `c` at `p`; `other` is the rest of a `switch`.
use opensips_ng.Prelude.{ℕ, ◌+◌, ◌-◌, ◌*◌, Bool, true, false, ◌&&◌, ◌||◌, ◌==◌, leb, if◌then◌else◌}
use opensips_ng.Parser.Uri.State.{
  param_no, empty_uri, span, set_param, State, uri_host, uri_port, uri_param, uri_param_p,
  uri_val_p, uri_headers, Run, bad_char, null_param, Outcome, ok, err, ◌>>=◌, Round,
}

-- `still_at_user`.
unfoldable pub still_at_user : ℕ → Run → Outcome Run
still_at_user p r =
    let user_s = r.uri.host.s in
    let clean = empty_uri r.uri.type in
    if r.found_user
    then err bad_char
    else ok (record r {
      uri =
          if r.pass == 0
          then record clean { user = span user_s p }
          else record clean { user = span user_s r.pass; passwd = span (r.pass + 1) p };
      s = p + 1;
      found_user = true;
      error_headers = false;
      state = uri_host;
    })

-- `if (pass) { found_user=1; pass=0; }`.
unfoldable pub drop_pass : Run → Run
drop_pass r = if r.pass == 0 then r else record r { found_user = true; pass = 0 }

-- `semicolon_case`.
unfoldable pub semicolon : Run → Run
unfolding drop_pass
semicolon r = record (drop_pass r) { state = uri_param }

-- `question_case`.
unfoldable pub question : ℕ → Run → Run
unfolding drop_pass
question p r =
    let r' = record r {
      uri = record r.uri { params = span r.s p };
      state = uri_headers;
      s = p + 1;
    } in
    drop_pass r'

-- The test of `pass` in `colon_case`.
unfoldable pub colon_pass : ℕ → Run → Run
colon_pass p r =
    if r.found_user
    then r
    else if r.pass == 0
    then record r { pass = p }
    else record r { found_user = true; pass = 0 }

-- `colon_case`.
unfoldable pub colon : ℕ → Run → Run
unfolding colon_pass
colon p r = record (colon_pass p r) { state = uri_param_p }

-- `param_set(b, v)`.
unfoldable pub param_set : ℕ → Run → Outcome Run
unfolding set_param
param_set p r =
    let u = r.uri in
    if param_no r.param == 0
    then err null_param
    else ok (record r {
      uri = record u {
        known = set_param r.param (span r.b p) u.known;
        value = set_param r.param (span r.v p) u.value;
      };
    })

-- `param_common_cases`.
unfoldable pub param_common : Outcome Run → Round
unfolding still_at_user semicolon question colon
param_common other c p r =
    if c == b'@'
    then still_at_user p r
    else if c == b';'
    then ok (semicolon r)
    else if c == b'?'
    then ok (question p r)
    else if c == b':'
    then ok (colon p r)
    else other

-- `value_common_cases`.
unfoldable pub value_common : Outcome Run → Round
unfolding still_at_user semicolon question colon param_set
value_common other c p r =
    if c == b'@'
    then still_at_user p r
    else if c == b';'
    then param_set p (semicolon r)
    else if c == b'?'
    then param_set p (question p r)
    else if c == b':'
    then ok (record (colon p r) { state = uri_val_p })
    else other

abbrev pub goto : State → Run → Outcome Run
goto st r = ok (record r { state = st })

-- `param_switch`.
unfoldable pub param_switch : ℕ → ℕ → State → Round
unfolding param_common
param_switch c1 c2 new c p r =
    if c == c1 || c == c2 then goto new r else param_common (goto uri_param_p r) c p r

-- `param_switch1`.
unfoldable pub param_switch1 : ℕ → State → Round
unfolding param_common
param_switch1 c1 new c p r = if c == c1 then goto new r else param_common (goto uri_param_p r) c p r

-- `param_switch_big`.
unfoldable pub param_switch_big : ℕ → ℕ → ℕ → ℕ → State → State → Round
unfolding param_common
param_switch_big c1 c2 d1 d2 new_c new_d c p r =
    if c == c1 || c == c2
    then goto new_c r
    else if c == d1 || c == d2
    then goto new_d r
    else param_common (goto uri_param_p r) c p r

-- `value_switch`.
unfoldable pub value_switch : ℕ → ℕ → State → Round
unfolding value_common
value_switch c1 c2 new c p r =
    if c == c1 || c == c2 then goto new r else value_common (goto uri_val_p r) c p r

-- `value_switch_big`.
unfoldable pub value_switch_big : ℕ → ℕ → ℕ → ℕ → State → State → Round
unfolding value_common
value_switch_big c1 c2 d1 d2 new_c new_d c p r =
    if c == c1 || c == c2
    then goto new_c r
    else if c == d1 || c == d2
    then goto new_d r
    else value_common (goto uri_val_p r) c p r

-- `uri->proto=(proto_no)`.
abbrev pub set_proto : ℕ → Run → Run
set_proto proto_no r = record r { uri = record r.uri { proto = proto_no } }

-- `transport_fin`. Its `colon_case` falls through to the `default`.
unfoldable pub transport_fin : ℕ → Round
unfolding still_at_user semicolon question colon param_set
transport_fin proto_no c p r =
    if c == b'@'
    then still_at_user p r
    else if c == b';'
    then (do r' ← param_set p (semicolon r); ok (set_proto proto_no r'))
    else if c == b'?'
    then (do r' ← param_set p (question p r); ok (set_proto proto_no r'))
    else if c == b':'
    then ok (record (colon p r) { state = uri_val_p })
    else goto uri_val_p r

-- `check_host_end`.
unfoldable pub check_host_end : Outcome Run → Round
check_host_end other c p r =
    let found = record r { uri = record r.uri { host = span r.s p }; s = p + 1 } in
    if c == b':'
    then goto uri_port found
    else if c == b';'
    then goto uri_param found
    else if c == b'?'
    then goto uri_headers found
    else if c == b'&' || c == b'@'
    then err bad_char
    else other

-- `case_port`.
abbrev pub is_digit : ℕ → Bool
is_digit c = leb b'0' c && leb c b'9'

abbrev pub case_port : ℕ → Run → Outcome Run
case_port c r = ok (record r { port_no = r.port_no * 10 + (c - b'0') })
