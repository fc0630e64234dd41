-- ===== src/Parser/Uri/Step.antt =====
-- src/core/parser/parse_uri.c: the `switch` in the loop of `parse_uri`, state by state.
use opensips_ng.Prelude.{ℕ, ◌+◌, ◌%◌, ◌^◌, true, ◌||◌, ◌==◌, if◌then◌else◌}
use opensips_ng.Parser.Uri.State.{
  Param, no_text, span, set_param, State, Run, Round, transport, ttl, user_param, maddr, method, lr,
  r2, uri_init, uri_user, uri_password, uri_password_alpha, uri_host, uri_host_p, uri_host6_p,
  uri_host6_end, uri_port, uri_param, uri_param_p, uri_val_p, uri_headers, pt_t, pt_r, pt_a, pt_n,
  pt_s, pt_p, pt_o, pt_r2, pt_t2, pt_eq, pttl_t2, pttl_l, pttl_eq, pu_u, pu_s, pu_e, pu_r, pu_eq,
  pm_m, pm_e, pm_t, pm_h, pm_o, pm_d, pm_eq, pma_a, pma_d, pma_d2, pma_r, pma_eq, plr_l, plr_r_fin,
  plr_eq, pr2_r, pr2_2_fin, pr2_eq, vu_u, vu_d, vu_p_fin, vt_t, vt_c, vt_p_fin, vtls_l, vtls_s_fin,
  vs_s, vs_c, vs_t, vs_p_fin, bad_char, bad_host, bad_port, bad_headers, ok, err,
}
use opensips_ng.Parser.Uri.Cases.{
  still_at_user, drop_pass, semicolon, question, colon, colon_pass, param_common, value_common,
  goto, param_switch, param_switch1, param_switch_big, value_switch, value_switch_big,
  transport_fin, check_host_end, is_digit, case_port,
}

-- URI_INIT.
unfoldable pub step_init : Round
step_init c p r =
    if c == b'['
    then ok (record r { state = uri_host6_p; s = p })
    else if c == b']' || c == b':' || c == b'@'
    then err bad_char
    else goto uri_user r

-- URI_USER.
unfoldable pub step_user : Round
step_user c p r =
    let u = r.uri in
    if c == b'@'
    then ok (record r {
      uri = record u { user = span r.s p };
      state = uri_host;
      found_user = true;
      s = p + 1;
    })
    else if c == b':'
    then ok (record r { uri = record u { user = span r.s p }; state = uri_password; s = p + 1 })
    else if c == b';'
    then ok (record r { uri = record u { host = span r.s p }; state = uri_param; s = p + 1 })
    else if c == b'?'
    then ok (record r { uri = record u { host = span r.s p }; state = uri_headers; s = p + 1 })
    else if c == b'[' || c == b']'
    then err bad_char
    else ok r

-- "upps this is the port".
unfoldable pub was_port : ℕ → State → Run → Run
was_port p new r =
    let u = r.uri in
    record r {
      uri = record u {
        port = span r.s p;
        port_no = r.port_no % 2 ^ 16;
        host = u.user;
        user = no_text;
      };
      state = new;
      found_user = true;
      s = p + 1;
    }

-- URI_PASSWORD.
unfoldable pub step_password : Round
unfolding was_port
step_password c p r =
    if c == b'@'
    then ok (record r {
      uri = record r.uri { passwd = span r.s p };
      port_no = 0;
      state = uri_host;
      found_user = true;
      s = p + 1;
    })
    else if c == b';'
    then ok (was_port p uri_param r)
    else if c == b'?'
    then ok (was_port p uri_headers r)
    else if is_digit c
    then case_port c r
    else if c == b'[' || c == b']' || c == b':'
    then err bad_char
    else ok (record r { port_no = 0; state = uri_password_alpha })

-- URI_PASSWORD_ALPHA.
unfoldable pub step_password_alpha : Round
step_password_alpha c p r =
    if c == b'@'
    then ok (record r {
      uri = record r.uri { passwd = span r.s p };
      state = uri_host;
      found_user = true;
      s = p + 1;
    })
    else if c == b';' || c == b'?'
    then err bad_port
    else if c == b'[' || c == b']' || c == b':'
    then err bad_char
    else ok r

-- URI_HOST.
unfoldable pub step_host : Round
step_host c p r =
    if c == b'['
    then goto uri_host6_p r
    else if c == b':' || c == b';' || c == b'?' || c == b'&' || c == b'@'
    then err bad_host
    else goto uri_host_p r

-- URI_HOST6_P.
unfoldable pub step_host6 : Round
step_host6 c p r =
    if c == b']'
    then goto uri_host6_end r
    else if c == b'[' || c == b'&' || c == b'@' || c == b';' || c == b'?'
    then err bad_host
    else ok r

-- URI_PORT.
unfoldable pub step_port : Round
step_port c p r =
    let found = record r {
      uri = record r.uri { port = span r.s p; port_no = r.port_no % 2 ^ 16 };
      s = p + 1;
    } in
    if c == b';'
    then goto uri_param found
    else if c == b'?'
    then goto uri_headers found
    else if is_digit c
    then case_port c r
    else err bad_port

-- URI_PARAM. The case of 'r' falls through to the `default`.
unfoldable pub step_param : Round
unfolding param_common
step_param c p r =
    if c == b't' || c == b'T'
    then ok (record r { b = p; state = pt_t })
    else if c == b'u' || c == b'U'
    then ok (record r { b = p; state = pu_u })
    else if c == b'm' || c == b'M'
    then ok (record r { b = p; state = pm_m })
    else if c == b'l' || c == b'L'
    then ok (record r { b = p; state = plr_l })
    else if c == b'r' || c == b'R'
    then ok (record r { b = p; state = uri_param_p })
    else param_common (goto uri_param_p r) c p r

-- PT_eq.
unfoldable pub step_transport : Round
unfolding param_common
step_transport c p r0 =
    let r = record r0 { param = transport } in
    if c == b'u' || c == b'U'
    then ok (record r { v = p; state = vu_u })
    else if c == b't' || c == b'T'
    then ok (record r { v = p; state = vt_t })
    else if c == b's' || c == b'S'
    then ok (record r { v = p; state = vs_s })
    else param_common (ok (record r { v = p; state = uri_val_p })) c p r

-- PTTL_eq, PU_eq, PM_eq, PMA_eq, PLR_eq and PR2_eq.
unfoldable pub step_eq : Param → Round
unfolding param_common
step_eq q c p r0 =
    let r = record r0 { param = q } in
    param_common (ok (record r { v = p; state = uri_val_p })) c p r

-- `uri->lr.s=b; uri->lr.len=(p-b)`, and the same for `r2`.
unfoldable pub set_name : Param → ℕ → Run → Run
unfolding set_param
set_name q p r =
    let u = r.uri in record r { uri = record u { known = set_param q (span r.b p) u.known } }

-- PLR_R_FIN and PR2_2_FIN.
unfoldable pub step_fin : Param → State → Round
unfolding still_at_user semicolon question colon set_name
step_fin q new c p r =
    if c == b'@'
    then still_at_user p r
    else if c == b'='
    then goto new r
    else if c == b';'
    then ok (set_name q p (semicolon r))
    else if c == b'?'
    then ok (set_name q p (question p r))
    else if c == b':'
    then ok (colon p r)
    else goto uri_param_p r

-- URI_HEADERS.
unfoldable pub step_headers : Round
unfolding still_at_user drop_pass colon_pass
step_headers c p r =
    if c == b'@'
    then still_at_user p r
    else if c == b';'
    then (if r.found_user
        then err bad_char
        else if r.pass == 0
        then ok (record r { error_headers = true })
        else err bad_headers)
    else if c == b':'
    then ok (colon_pass p r)
    else if c == b'?'
    then ok (drop_pass r)
    else ok r

unfoldable pub step : State → Round
step uri_init = step_init
step uri_user = step_user
step uri_password = step_password
step uri_password_alpha = step_password_alpha
step uri_host = step_host
step uri_host_p = λ c p r. check_host_end (ok r) c p r
step uri_host6_end = check_host_end (err bad_host)
step uri_host6_p = step_host6
step uri_port = step_port
step uri_param = step_param
step uri_param_p = λ c p r. param_common (ok r) c p r
step uri_val_p = λ c p r. value_common (ok r) c p r
step uri_headers = step_headers
step pt_t = param_switch_big b'r' b'R' b't' b'T' pt_r pttl_t2
step pt_r = param_switch b'a' b'A' pt_a
step pt_a = param_switch b'n' b'N' pt_n
step pt_n = param_switch b's' b'S' pt_s
step pt_s = param_switch b'p' b'P' pt_p
step pt_p = param_switch b'o' b'O' pt_o
step pt_o = param_switch b'r' b'R' pt_r2
step pt_r2 = param_switch b't' b'T' pt_t2
step pt_t2 = param_switch1 b'=' pt_eq
step pt_eq = step_transport
step vu_u = value_switch b'd' b'D' vu_d
step vu_d = value_switch b'p' b'P' vu_p_fin
step vu_p_fin = transport_fin 1
step vt_t = value_switch_big b'c' b'C' b'l' b'L' vt_c vtls_l
step vt_c = value_switch b'p' b'P' vt_p_fin
step vt_p_fin = transport_fin 2
step vtls_l = value_switch b's' b'S' vtls_s_fin
step vtls_s_fin = transport_fin 3
step vs_s = value_switch b'c' b'C' vs_c
step vs_c = value_switch b't' b'T' vs_t
step vs_t = value_switch b'p' b'P' vs_p_fin
step vs_p_fin = transport_fin 4
step pttl_t2 = param_switch b'l' b'L' pttl_l
step pttl_l = param_switch1 b'=' pttl_eq
step pttl_eq = step_eq ttl
step pu_u = param_switch b's' b'S' pu_s
step pu_s = param_switch b'e' b'E' pu_e
step pu_e = param_switch b'r' b'R' pu_r
step pu_r = param_switch1 b'=' pu_eq
step pu_eq = step_eq user_param
step pm_m = param_switch_big b'e' b'E' b'a' b'A' pm_e pma_a
step pm_e = param_switch b't' b'T' pm_t
step pm_t = param_switch b'h' b'H' pm_h
step pm_h = param_switch b'o' b'O' pm_o
step pm_o = param_switch b'd' b'D' pm_d
step pm_d = param_switch1 b'=' pm_eq
step pm_eq = step_eq method
step pma_a = param_switch b'd' b'D' pma_d
step pma_d = param_switch b'd' b'D' pma_d2
step pma_d2 = param_switch b'r' b'R' pma_r
step pma_r = param_switch1 b'=' pma_eq
step pma_eq = step_eq maddr
step plr_l = param_switch b'r' b'R' plr_r_fin
step plr_r_fin = step_fin lr plr_eq
step plr_eq = step_eq lr
step pr2_r = param_switch1 b'2' pr2_2_fin
step pr2_2_fin = step_fin r2 pr2_eq
step pr2_eq = step_eq r2
