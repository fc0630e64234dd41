-- ===== src/Parser/Uri/Parse.antt =====
-- src/core/parser/parse_uri.c: `parse_uri`. A `char` is signed, as on x86; `nul` is the address of the empty string
-- literal that a tel URI gets for its host.
use Prim.Native.Nat.{bit_or}
use opensips_ng.Prelude.{
  ℕ, zero, suc, ◌+◌, ◌-◌, ◌*◌, ◌%◌, ◌^◌, Bool, false, ◌&&◌, Option, none, some, [], ◌∷◌, ◌==◌, ltb,
  if◌then◌else◌,
}
use opensips_ng.Parser.Memory.{Memory}
use opensips_ng.Parser.Methods.{word}
use opensips_ng.Parser.Uri.State.{
  UriType, Param, SipUri, no_text, empty_uri, span, State, Run, Outcome, error_uri_t, sip_uri_t,
  sips_uri_t, tel_uri_t, tels_uri_t, no_param, user_param, lr, r2, uri_init, uri_user, uri_password,
  uri_password_alpha, uri_host, uri_host_p, uri_host6_p, uri_host6_end, uri_port, uri_val_p,
  uri_headers, pma_a, pma_d, pma_d2, pma_r, pma_eq, plr_r_fin, plr_eq, pr2_2_fin, pr2_eq, vu_u,
  vu_d, vu_p_fin, vt_t, vt_c, vt_p_fin, vtls_l, vtls_s_fin, vs_s, vs_c, vs_t, vs_p_fin, too_short,
  bad_host, bad_port, bad_uri, bad_headers, bug, ok, err, ◌>>=◌,
}
use opensips_ng.Parser.Uri.Cases.{param_set, set_proto}
use opensips_ng.Parser.Uri.Step.{set_name, step}

-- The loop, with `n` bytes left.
unfoldable pub loop : ℕ → Memory → ℕ → Run → Outcome Run
unfolding step
loop zero mem p r = ok r
loop (suc n) mem p r = do r' ← step r.state (mem p) p r; loop n mem (p + 1) r'

-- `uri->params.s=s; uri->params.len=p-s`.
abbrev pub set_params : ℕ → Run → Run
set_params p r = record r { uri = record r.uri { params = span r.s p } }

-- What the `switch` behind the loop does with the parameters: nothing more, the name of `lr` or `r2`, or a value.
unfoldable pub end_param : ℕ → Run → Outcome SipUri
end_param p r = ok (set_params p r).uri

unfoldable pub end_name : Param → ℕ → Run → Outcome SipUri
unfolding set_name
end_name q p r = ok (set_name q p (set_params p r)).uri

unfoldable pub end_value : ℕ → Run → Outcome SipUri
unfolding param_set
end_value p r = do r' ← param_set p (set_params p r); ok r'.uri

unfoldable pub end_transport : ℕ → ℕ → Run → Outcome SipUri
unfolding param_set
end_transport proto_no p r = do r' ← param_set p (set_params p r); ok (set_proto proto_no r').uri

-- "end of uri". The states of `maddr` have no case and are a bug, as in the source.
unfoldable pub finish : State → ℕ → Run → Outcome SipUri
unfolding end_param end_name end_value end_transport
finish uri_init p r = err too_short
finish uri_user p r = if r.found_user then err bad_uri else ok (record r.uri { host = span r.s p })
finish uri_password p r =
    let u = r.uri in
    if r.found_user
    then err bad_port
    else ok (record u {
      port = span r.s p;
      port_no = r.port_no % 2 ^ 16;
      host = u.user;
      user = no_text;
    })
finish uri_password_alpha p r = err bad_port
finish uri_host_p p r = ok (record r.uri { host = span r.s p })
finish uri_host6_end p r = ok (record r.uri { host = span r.s p })
finish uri_host p r = err bad_host
finish uri_host6_p p r = err bad_host
finish uri_port p r = ok (record r.uri { port = span r.s p; port_no = r.port_no % 2 ^ 16 })
finish plr_r_fin p r = end_name lr p r
finish plr_eq p r = end_name lr p r
finish pr2_2_fin p r = end_name r2 p r
finish pr2_eq p r = end_name r2 p r
finish uri_val_p p r = end_value p r
finish vu_u p r = end_value p r
finish vu_d p r = end_value p r
finish vt_t p r = end_value p r
finish vt_c p r = end_value p r
finish vtls_l p r = end_value p r
finish vs_s p r = end_value p r
finish vs_c p r = end_value p r
finish vs_t p r = end_value p r
finish vu_p_fin p r = end_transport 1 p r
finish vt_p_fin p r = end_transport 2 p r
finish vtls_s_fin p r = end_transport 3 p r
finish vs_p_fin p r = end_transport 4 p r
finish uri_headers p r =
    if r.error_headers then err bad_headers else ok (record r.uri { headers = span r.s p })
finish pma_a p r = err bug
finish pma_d p r = err bug
finish pma_d2 p r = err bug
finish pma_r p r = err bug
finish pma_eq p r = err bug
finish _ p r = end_param p r

-- `q_memchr` of src/core/utils.h, over `n` bytes.
unfoldable pub q_memchr : ℕ → Memory → ℕ → ℕ → Option ℕ
q_memchr zero mem p c = none
q_memchr (suc n) mem p c =
    let rest = q_memchr n mem (p + 1) c in if mem p == c then some p else rest

-- `user_param_val` is "phone".
unfoldable pub is_phone : Memory → SipUri → Bool
unfolding word
is_phone mem u =
    let t = u.value user_param in
    t.len == 5
    && word mem t.s ((b'p', b'P') ∷ (b'h', b'H') ∷ (b'o', b'O') ∷ (b'n', b'N') ∷ (b'e', b'E') ∷ [])

-- "move params from user into uri->params"
unfoldable pub move_params : Option ℕ → SipUri → SipUri
move_params none u = u
move_params (some p) u = record u {
  params = record { s = p + 1; len = u.user.s + u.user.len - (p + 1) };
  user = span u.user.s p;
}

-- The `switch` on the type, which `tel` sets for a phone number.
unfoldable pub as_phone : Memory → UriType → SipUri → SipUri
unfolding is_phone q_memchr move_params
as_phone mem tel u =
    if is_phone mem u
    then move_params (q_memchr u.user.len mem u.user.s b';') (record u { type = tel })
    else u

unfoldable pub fix_as : UriType → Memory → ℕ → SipUri → Outcome SipUri
unfolding as_phone
fix_as sip_uri_t mem nul u = ok (as_phone mem tel_uri_t u)
fix_as sips_uri_t mem nul u = ok (as_phone mem tels_uri_t u)
fix_as tel_uri_t mem nul u = ok (record u { user = u.host; host = record { s = nul; len = 0 } })
fix_as tels_uri_t mem nul u = ok (record u { user = u.host; host = record { s = nul; len = 0 } })
fix_as error_uri_t mem nul u = err bad_uri

-- A signed char in an int of 32 bits.
abbrev pub char_value : ℕ → ℕ
char_value c = if ltb c 128 then c else c + 2 ^ 32 - 256

-- The first four bytes, in lower case.
unfoldable pub scheme : Memory → ℕ → ℕ
scheme mem buf =
    bit_or
      ((char_value (mem buf)
          + char_value (mem (buf + 1)) * 2 ^ 8
          + char_value (mem (buf + 2)) * 2 ^ 16
          + char_value (mem (buf + 3)) * 2 ^ 24)
        % 2 ^ 32)
      538976288

-- The type, and where the URI goes on.
unfoldable pub scheme_type : Memory → ℕ → Outcome (UriType × ℕ)
unfolding scheme
scheme_type mem buf =
    let sch = scheme mem buf in
    if sch == 980445555
    then ok (sip_uri_t, buf + 4)
    else if sch == 1936746867
    then (if mem (buf + 4) == b':' then ok (sips_uri_t, buf + 5) else err bad_uri)
    else if sch == 980182388
    then ok (tel_uri_t, buf + 4)
    else err bad_uri

abbrev pub start : UriType → ℕ → Run
start type p = record {
  state = uri_init;
  s = p;
  b = 0;
  v = 0;
  param = no_param;
  pass = 0;
  port_no = 0;
  found_user = false;
  error_headers = false;
  uri = empty_uri type;
}

-- The URI, or the error that makes it return -1, with ERROR_URI_T in the type.
unfoldable pub parse_uri : Memory → ℕ → ℕ → ℕ → Outcome SipUri
parse_uri mem nul buf len = if ltb len 5 then err too_short else (do
  (type, p) ← scheme_type mem buf
  r ← loop (buf + len - p) mem p (start type p)
  u ← finish r.state (buf + len) r
  fix_as u.type mem nul u)
