-- ===== src/Parser/Uri/Omitted/Loop.antt =====
-- src/core/parser/parse_uri.c: the loop does not set the members of the parameter `r2`.
use opensips_ng.Prelude.{ℕ, ◌≡◌, ◌∙◌, refl, false, ◌==◌, ◌||◌, arith}
use opensips_ng.Parser.Uri.State.{
  Param, param_no, span, State, Run, transport, ttl, user_param, maddr, method, lr, r2, uri_init,
  uri_user, uri_password, uri_password_alpha, uri_host, uri_host_p, uri_host6_p, uri_host6_end,
  uri_port, uri_param, uri_param_p, uri_val_p, uri_headers, pt_t, pt_r, pt_a, pt_n, pt_s, pt_p,
  pt_o, pt_r2, pt_t2, pt_eq, pttl_t2, pttl_l, pttl_eq, pu_u, pu_s, pu_e, pu_r, pu_eq, pm_m, pm_e,
  pm_t, pm_h, pm_o, pm_d, pm_eq, pma_a, pma_d, pma_d2, pma_r, pma_eq, plr_l, plr_r_fin, plr_eq,
  pr2_r, pr2_2_fin, pr2_eq, vu_u, vu_d, vu_p_fin, vt_t, vt_c, vt_p_fin, vtls_l, vtls_s_fin, vs_s,
  vs_c, vs_t, vs_p_fin, bad_host, ok, err,
}
use opensips_ng.Parser.Uri.Cases.{drop_pass, colon_pass, goto}
use opensips_ng.Parser.Uri.Step.{
  step, step_init, step_user, step_password, step_password_alpha, step_host, step_host6, step_port,
  step_param, step_transport, step_eq, set_name, step_fin, step_headers,
}
use opensips_ng.Parser.Uri.Omitted.{
  reads_r2, Omitting, Ok, Ok-if, set_param-other, still_at_user-Ok, goto-Omitting,
  semicolon-Omitting, question-Omitting, colon-Omitting, param_common-Ok, value_common-Ok,
  transport_fin-Ok, check_host_end-Ok, param_switch-Ok, param_switch1-Ok, param_switch_big-Ok,
  value_switch-Ok, value_switch_big-Ok,
}

step_init-Ok : (c p : ℕ) (r : Run) → Omitting r → Ok Omitting (step_init c p r)
unfolding step_init reads_r2
step_init-Ok c p r h = ground arith

step_user-Ok : (c p : ℕ) (r : Run) → Omitting r → Ok Omitting (step_user c p r)
unfolding step_user reads_r2
step_user-Ok c p r h = ground arith

step_password-Ok : (c p : ℕ) (r : Run) → Omitting r → Ok Omitting (step_password c p r)
unfolding step_password reads_r2
step_password-Ok c p r h = ground arith

step_password_alpha-Ok : (c p : ℕ) (r : Run) → Omitting r → Ok Omitting (step_password_alpha c p r)
unfolding step_password_alpha reads_r2
step_password_alpha-Ok c p r h = ground arith

step_host-Ok : (c p : ℕ) (r : Run) → Omitting r → Ok Omitting (step_host c p r)
unfolding step_host reads_r2
step_host-Ok c p r h = ground arith

step_host6-Ok : (c p : ℕ) (r : Run) → Omitting r → Ok Omitting (step_host6 c p r)
unfolding step_host6 reads_r2
step_host6-Ok c p r h = ground arith

step_port-Ok : (c p : ℕ) (r : Run) → Omitting r → Ok Omitting (step_port c p r)
unfolding step_port reads_r2
step_port-Ok c p r h = ground arith

at-Omitting :
    (b v : ℕ) (st : State) (r : Run)
    → reads_r2 st ≡ false
    → Omitting r
    → Omitting (record r { b = b; v = v; state = st })
at-Omitting b v st r e h = ground arith

step_param-Ok : (c p : ℕ) (r : Run) → Omitting r → Ok Omitting (step_param c p r)
unfolding step_param reads_r2
step_param-Ok c p r h =
    Ok-if Omitting (c == b't' || c == b'T') _ _ (at-Omitting p r.v pt_t r refl h) (
      Ok-if Omitting (c == b'u' || c == b'U') _ _ (at-Omitting p r.v pu_u r refl h) (
        Ok-if Omitting (c == b'm' || c == b'M') _ _ (at-Omitting p r.v pm_m r refl h) (
          Ok-if Omitting (c == b'l' || c == b'L') _ _ (at-Omitting p r.v plr_l r refl h) (
            Ok-if Omitting (c == b'r' || c == b'R') _ _ (at-Omitting p r.v uri_param_p r refl h) (
              param_common-Ok (goto uri_param_p r) c p r h (goto-Omitting uri_param_p r refl h))))))

param-Omitting :
    (q : Param) (r : Run)
    → (param_no r2 == param_no q) ≡ false
    → Omitting r
    → Omitting (record r { param = q })
param-Omitting q r e h = ground arith

step_transport-Ok : (c p : ℕ) (r0 : Run) → Omitting r0 → Ok Omitting (step_transport c p r0)
unfolding step_transport reads_r2 param_no
step_transport-Ok c p r0 h0 =
    let r : Run = record r0 { param = transport } in
    let h : Omitting r = param-Omitting transport r0 refl h0 in
    Ok-if Omitting (c == b'u' || c == b'U') _ _ (at-Omitting r.b p vu_u r refl h) (
      Ok-if Omitting (c == b't' || c == b'T') _ _ (at-Omitting r.b p vt_t r refl h) (
        Ok-if Omitting (c == b's' || c == b'S') _ _ (at-Omitting r.b p vs_s r refl h)
          (param_common-Ok _ c p r h (at-Omitting r.b p uri_val_p r refl h))))

step_eq-Ok :
    (q : Param) (c p : ℕ) (r0 : Run)
    → (param_no r2 == param_no q) ≡ false
    → Omitting r0
    → Ok Omitting (step_eq q c p r0)
unfolding step_eq reads_r2
step_eq-Ok q c p r0 e h0 =
    let r : Run = record r0 { param = q } in
    let h : Omitting r = param-Omitting q r0 e h0 in
    param_common-Ok _ c p r h (at-Omitting r.b p uri_val_p r refl h)

pub set_name-Omitting :
    (q : Param) (p : ℕ) (r : Run)
    → (param_no r2 == param_no q) ≡ false
    → Omitting r
    → Omitting (set_name q p r)
unfolding set_name
set_name-Omitting q p r e h = record {
  state = h.state;
  param = h.param;
  uri = record {
    known = set_param-other q (span r.b p) r.uri.known e ∙ h.uri.known;
    value = h.uri.value;
  };
}

step_fin-Ok :
    (q : Param) (new : State) (c p : ℕ) (r : Run)
    → (param_no r2 == param_no q) ≡ false
    → reads_r2 new ≡ false
    → Omitting r
    → Ok Omitting (step_fin q new c p r)
unfolding step_fin reads_r2
step_fin-Ok q new c p r e k h = Ok-if Omitting (c == b'@') _ _ (still_at_user-Ok p r h) (
    Ok-if Omitting (c == b'=') _ _ (goto-Omitting new r k h) (
      Ok-if Omitting (c == b';') _ _ (set_name-Omitting q p _ e (semicolon-Omitting r h)) (
        Ok-if Omitting (c == b'?') _ _ (set_name-Omitting q p _ e (question-Omitting p r h)) (
          Ok-if Omitting (c == b':') _ _ (colon-Omitting p r h)
            (goto-Omitting uri_param_p r refl h)))))

drop_pass-Omitting : (r : Run) → Omitting r → Omitting (drop_pass r)
unfolding drop_pass
drop_pass-Omitting r h = ground arith

colon_pass-Omitting : (p : ℕ) (r : Run) → Omitting r → Omitting (colon_pass p r)
unfolding colon_pass
colon_pass-Omitting p r h = ground arith

step_headers-Ok : (c p : ℕ) (r : Run) → Omitting r → Ok Omitting (step_headers c p r)
unfolding step_headers
step_headers-Ok c p r h = Ok-if Omitting (c == b'@') _ _ (still_at_user-Ok p r h) (
    Ok-if Omitting (c == b';') _ _
      (Ok-if Omitting r.found_user _ _ tt (
        Ok-if Omitting (r.pass == 0) _ _ (record { state = h.state; param = h.param; uri = h.uri })
          tt))
      (Ok-if Omitting (c == b':') _ _ (colon_pass-Omitting p r h)
        (Ok-if Omitting (c == b'?') _ _ (drop_pass-Omitting r h) h)))

pub step-Ok :
    (st : State) (c p : ℕ) (r : Run)
    → reads_r2 st ≡ false
    → Omitting r
    → Ok Omitting (step st c p r)
unfolding step reads_r2 param_no
step-Ok uri_init c p r e h = step_init-Ok c p r h
step-Ok uri_user c p r e h = step_user-Ok c p r h
step-Ok uri_password c p r e h = step_password-Ok c p r h
step-Ok uri_password_alpha c p r e h = step_password_alpha-Ok c p r h
step-Ok uri_host c p r e h = step_host-Ok c p r h
step-Ok uri_host_p c p r e h = check_host_end-Ok (ok r) c p r h h
step-Ok uri_host6_end c p r e h = check_host_end-Ok (err bad_host) c p r h tt
step-Ok uri_host6_p c p r e h = step_host6-Ok c p r h
step-Ok uri_port c p r e h = step_port-Ok c p r h
step-Ok uri_param c p r e h = step_param-Ok c p r h
step-Ok uri_param_p c p r e h = param_common-Ok (ok r) c p r h h
step-Ok uri_val_p c p r e h = value_common-Ok (ok r) c p r h h
step-Ok uri_headers c p r e h = step_headers-Ok c p r h
step-Ok pt_t c p r e h = param_switch_big-Ok b'r' b'R' b't' b'T' pt_r pttl_t2 c p r refl refl h
step-Ok pt_r c p r e h = param_switch-Ok b'a' b'A' pt_a c p r refl h
step-Ok pt_a c p r e h = param_switch-Ok b'n' b'N' pt_n c p r refl h
step-Ok pt_n c p r e h = param_switch-Ok b's' b'S' pt_s c p r refl h
step-Ok pt_s c p r e h = param_switch-Ok b'p' b'P' pt_p c p r refl h
step-Ok pt_p c p r e h = param_switch-Ok b'o' b'O' pt_o c p r refl h
step-Ok pt_o c p r e h = param_switch-Ok b'r' b'R' pt_r2 c p r refl h
step-Ok pt_r2 c p r e h = param_switch-Ok b't' b'T' pt_t2 c p r refl h
step-Ok pt_t2 c p r e h = param_switch1-Ok b'=' pt_eq c p r refl h
step-Ok pt_eq c p r e h = step_transport-Ok c p r h
step-Ok vu_u c p r e h = value_switch-Ok b'd' b'D' vu_d c p r refl h
step-Ok vu_d c p r e h = value_switch-Ok b'p' b'P' vu_p_fin c p r refl h
step-Ok vu_p_fin c p r e h = transport_fin-Ok 1 c p r h
step-Ok vt_t c p r e h = value_switch_big-Ok b'c' b'C' b'l' b'L' vt_c vtls_l c p r refl refl h
step-Ok vt_c c p r e h = value_switch-Ok b'p' b'P' vt_p_fin c p r refl h
step-Ok vt_p_fin c p r e h = transport_fin-Ok 2 c p r h
step-Ok vtls_l c p r e h = value_switch-Ok b's' b'S' vtls_s_fin c p r refl h
step-Ok vtls_s_fin c p r e h = transport_fin-Ok 3 c p r h
step-Ok vs_s c p r e h = value_switch-Ok b'c' b'C' vs_c c p r refl h
step-Ok vs_c c p r e h = value_switch-Ok b't' b'T' vs_t c p r refl h
step-Ok vs_t c p r e h = value_switch-Ok b'p' b'P' vs_p_fin c p r refl h
step-Ok vs_p_fin c p r e h = transport_fin-Ok 4 c p r h
step-Ok pttl_t2 c p r e h = param_switch-Ok b'l' b'L' pttl_l c p r refl h
step-Ok pttl_l c p r e h = param_switch1-Ok b'=' pttl_eq c p r refl h
step-Ok pttl_eq c p r e h = step_eq-Ok ttl c p r refl h
step-Ok pu_u c p r e h = param_switch-Ok b's' b'S' pu_s c p r refl h
step-Ok pu_s c p r e h = param_switch-Ok b'e' b'E' pu_e c p r refl h
step-Ok pu_e c p r e h = param_switch-Ok b'r' b'R' pu_r c p r refl h
step-Ok pu_r c p r e h = param_switch1-Ok b'=' pu_eq c p r refl h
step-Ok pu_eq c p r e h = step_eq-Ok user_param c p r refl h
step-Ok pm_m c p r e h = param_switch_big-Ok b'e' b'E' b'a' b'A' pm_e pma_a c p r refl refl h
step-Ok pm_e c p r e h = param_switch-Ok b't' b'T' pm_t c p r refl h
step-Ok pm_t c p r e h = param_switch-Ok b'h' b'H' pm_h c p r refl h
step-Ok pm_h c p r e h = param_switch-Ok b'o' b'O' pm_o c p r refl h
step-Ok pm_o c p r e h = param_switch-Ok b'd' b'D' pm_d c p r refl h
step-Ok pm_d c p r e h = param_switch1-Ok b'=' pm_eq c p r refl h
step-Ok pm_eq c p r e h = step_eq-Ok method c p r refl h
step-Ok pma_a c p r e h = param_switch-Ok b'd' b'D' pma_d c p r refl h
step-Ok pma_d c p r e h = param_switch-Ok b'd' b'D' pma_d2 c p r refl h
step-Ok pma_d2 c p r e h = param_switch-Ok b'r' b'R' pma_r c p r refl h
step-Ok pma_r c p r e h = param_switch1-Ok b'=' pma_eq c p r refl h
step-Ok pma_eq c p r e h = step_eq-Ok maddr c p r refl h
step-Ok plr_l c p r e h = param_switch-Ok b'r' b'R' plr_r_fin c p r refl h
step-Ok plr_r_fin c p r e h = step_fin-Ok lr plr_eq c p r refl refl h
step-Ok plr_eq c p r e h = step_eq-Ok lr c p r refl h
step-Ok pr2_r c p r e h = ground (arith, e)
step-Ok pr2_2_fin c p r e h = ground (arith, e)
step-Ok pr2_eq c p r e h = ground (arith, e)
