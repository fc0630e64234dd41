-- ===== src/Parser/Uri/Inside/Whole.antt =====
-- src/core/parser/parse_uri.c: every round and the loop keep the invariant.
use mathlib.Core.Path.{subst}
use opensips_ng.Prelude.{ℕ, zero, suc, ◌+◌, ◌≡◌, refl, ap, arith}
use opensips_ng.Parser.Memory.{Memory}
use opensips_ng.Parser.Uri.State.{
  param_no, State, Run, Outcome, ttl, user_param, maddr, method, lr, r2, uri_init, uri_user,
  uri_password, uri_password_alpha, uri_host, uri_host_p, uri_host6_p, uri_host6_end, uri_port,
  uri_param, uri_param_p, uri_val_p, uri_headers, pt_t, pt_r, pt_a, pt_n, pt_s, pt_p, pt_o, pt_r2,
  pt_t2, pt_eq, pttl_t2, pttl_l, pttl_eq, pu_u, pu_s, pu_e, pu_r, pu_eq, pm_m, pm_e, pm_t, pm_h,
  pm_o, pm_d, pm_eq, pma_a, pma_d, pma_d2, pma_r, pma_eq, plr_l, plr_r_fin, plr_eq, pr2_r,
  pr2_2_fin, pr2_eq, vu_u, vu_d, vu_p_fin, vt_t, vt_c, vt_p_fin, vtls_l, vtls_s_fin, vs_s, vs_c,
  vs_t, vs_p_fin, bad_host, ok, err, ◌>>=◌,
}
use opensips_ng.Parser.Uri.Step.{step}
use opensips_ng.Parser.Uri.Parse.{loop}
use opensips_ng.Parser.Uri.Inside.{Inv, Good, is_late, has_name, has_value, UriIn-wide}
use opensips_ng.Parser.Uri.Inside.Macros.{param_common-Good, value_common-Good, transport_fin-Good}
use opensips_ng.Parser.Uri.Inside.Steps.{
  Next, stay-Inv, switch-Good, switch1-Good, switch_big-Good, value_switch-Good,
  value_switch_big-Good, eq-Good, transport-Good, param-Good, fin-Good,
}
use opensips_ng.Parser.Uri.Inside.Rounds.{
  init-Good, user-Good, password-Good, password_alpha-Good, host-Good, host6-Good, host_end-Good,
  port-Good, headers-Good,
}

step-Good :
    (st : State) (lo c p : ℕ) (r : Run)
    → r.state ≡ st
    → Inv lo p (p + 1) r
    → Next lo p (step st c p r)
unfolding step is_late has_name has_value param_no
step-Good uri_init lo c p r e i = init-Good lo c p r i.core (i.early (ap is_late e))
step-Good uri_user lo c p r e i = user-Good lo c p r i.core (i.early (ap is_late e)) e
step-Good uri_password lo c p r e i = password-Good lo c p r i.core (i.early (ap is_late e)) e
step-Good uri_password_alpha lo c p r e i =
    password_alpha-Good lo c p r i.core (i.early (ap is_late e)) e
step-Good uri_host lo c p r e i = host-Good lo c p r i.core (i.early (ap is_late e))
step-Good uri_host_p lo c p r e i =
    host_end-Good lo c p r i.core (i.early (ap is_late e)) (ok r) (stay-Inv lo p r i)
step-Good uri_host6_end lo c p r e i =
    host_end-Good lo c p r i.core (i.early (ap is_late e)) (err bad_host) tt
step-Good uri_host6_p lo c p r e i = host6-Good lo c p r i.core (i.early (ap is_late e)) e
step-Good uri_port lo c p r e i = port-Good lo c p r i (i.host (ap is_late e))
step-Good uri_param lo c p r e i = param-Good lo c p r i.core (i.host (ap is_late e))
step-Good uri_param_p lo c p r e i =
    param_common-Good lo c p r (ok r) i.core (i.host (ap is_late e)) (stay-Inv lo p r i)
step-Good uri_val_p lo c p r e i =
    value_common-Good lo c p r (ok r) i.core (i.host (ap is_late e)) (i.named (ap has_name e))
      (i.valued (ap has_value e)) (stay-Inv lo p r i)
step-Good uri_headers lo c p r e i = headers-Good lo c p r i (ap is_late e) (i.host (ap is_late e))
step-Good pt_t lo c p r e i =
    switch_big-Good lo c p r i.core (i.host (ap is_late e)) b'r' b'R' b't' b'T' pt_r pttl_t2 refl
      refl (i.named (ap has_name e)) refl refl
step-Good pt_r lo c p r e i =
    switch-Good lo c p r i.core (i.host (ap is_late e)) b'a' b'A' pt_a refl
      (i.named (ap has_name e)) refl
step-Good pt_a lo c p r e i =
    switch-Good lo c p r i.core (i.host (ap is_late e)) b'n' b'N' pt_n refl
      (i.named (ap has_name e)) refl
step-Good pt_n lo c p r e i =
    switch-Good lo c p r i.core (i.host (ap is_late e)) b's' b'S' pt_s refl
      (i.named (ap has_name e)) refl
step-Good pt_s lo c p r e i =
    switch-Good lo c p r i.core (i.host (ap is_late e)) b'p' b'P' pt_p refl
      (i.named (ap has_name e)) refl
step-Good pt_p lo c p r e i =
    switch-Good lo c p r i.core (i.host (ap is_late e)) b'o' b'O' pt_o refl
      (i.named (ap has_name e)) refl
step-Good pt_o lo c p r e i =
    switch-Good lo c p r i.core (i.host (ap is_late e)) b'r' b'R' pt_r2 refl
      (i.named (ap has_name e)) refl
step-Good pt_r2 lo c p r e i =
    switch-Good lo c p r i.core (i.host (ap is_late e)) b't' b'T' pt_t2 refl
      (i.named (ap has_name e)) refl
step-Good pt_t2 lo c p r e i =
    switch1-Good lo c p r i.core (i.host (ap is_late e)) b'=' pt_eq refl (i.named (ap has_name e))
      refl
step-Good pt_eq lo c p r e i =
    transport-Good lo c p r i.core (i.host (ap is_late e)) (i.named (ap has_name e))
step-Good vu_u lo c p r e i =
    value_switch-Good lo c p r i.core (i.host (ap is_late e)) b'd' b'D' vu_d refl
      (i.named (ap has_name e)) (i.valued (ap has_value e))
step-Good vu_d lo c p r e i =
    value_switch-Good lo c p r i.core (i.host (ap is_late e)) b'p' b'P' vu_p_fin refl
      (i.named (ap has_name e)) (i.valued (ap has_value e))
step-Good vu_p_fin lo c p r e i =
    transport_fin-Good lo c p 1 r i.core (i.host (ap is_late e)) (i.named (ap has_name e))
      (i.valued (ap has_value e))
step-Good vt_t lo c p r e i =
    value_switch_big-Good lo c p r i.core (i.host (ap is_late e)) b'c' b'C' b'l' b'L' vt_c vtls_l
      refl refl (i.named (ap has_name e)) (i.valued (ap has_value e))
step-Good vt_c lo c p r e i =
    value_switch-Good lo c p r i.core (i.host (ap is_late e)) b'p' b'P' vt_p_fin refl
      (i.named (ap has_name e)) (i.valued (ap has_value e))
step-Good vt_p_fin lo c p r e i =
    transport_fin-Good lo c p 2 r i.core (i.host (ap is_late e)) (i.named (ap has_name e))
      (i.valued (ap has_value e))
step-Good vtls_l lo c p r e i =
    value_switch-Good lo c p r i.core (i.host (ap is_late e)) b's' b'S' vtls_s_fin refl
      (i.named (ap has_name e)) (i.valued (ap has_value e))
step-Good vtls_s_fin lo c p r e i =
    transport_fin-Good lo c p 3 r i.core (i.host (ap is_late e)) (i.named (ap has_name e))
      (i.valued (ap has_value e))
step-Good vs_s lo c p r e i =
    value_switch-Good lo c p r i.core (i.host (ap is_late e)) b'c' b'C' vs_c refl
      (i.named (ap has_name e)) (i.valued (ap has_value e))
step-Good vs_c lo c p r e i =
    value_switch-Good lo c p r i.core (i.host (ap is_late e)) b't' b'T' vs_t refl
      (i.named (ap has_name e)) (i.valued (ap has_value e))
step-Good vs_t lo c p r e i =
    value_switch-Good lo c p r i.core (i.host (ap is_late e)) b'p' b'P' vs_p_fin refl
      (i.named (ap has_name e)) (i.valued (ap has_value e))
step-Good vs_p_fin lo c p r e i =
    transport_fin-Good lo c p 4 r i.core (i.host (ap is_late e)) (i.named (ap has_name e))
      (i.valued (ap has_value e))
step-Good pttl_t2 lo c p r e i =
    switch-Good lo c p r i.core (i.host (ap is_late e)) b'l' b'L' pttl_l refl
      (i.named (ap has_name e)) refl
step-Good pttl_l lo c p r e i =
    switch1-Good lo c p r i.core (i.host (ap is_late e)) b'=' pttl_eq refl (i.named (ap has_name e))
      refl
step-Good pttl_eq lo c p r e i =
    eq-Good lo c p r i.core (i.host (ap is_late e)) ttl (omega arith) (i.named (ap has_name e))
step-Good pu_u lo c p r e i =
    switch-Good lo c p r i.core (i.host (ap is_late e)) b's' b'S' pu_s refl
      (i.named (ap has_name e)) refl
step-Good pu_s lo c p r e i =
    switch-Good lo c p r i.core (i.host (ap is_late e)) b'e' b'E' pu_e refl
      (i.named (ap has_name e)) refl
step-Good pu_e lo c p r e i =
    switch-Good lo c p r i.core (i.host (ap is_late e)) b'r' b'R' pu_r refl
      (i.named (ap has_name e)) refl
step-Good pu_r lo c p r e i =
    switch1-Good lo c p r i.core (i.host (ap is_late e)) b'=' pu_eq refl (i.named (ap has_name e))
      refl
step-Good pu_eq lo c p r e i =
    eq-Good lo c p r i.core (i.host (ap is_late e)) user_param (omega arith)
      (i.named (ap has_name e))
step-Good pm_m lo c p r e i =
    switch_big-Good lo c p r i.core (i.host (ap is_late e)) b'e' b'E' b'a' b'A' pm_e pma_a refl refl
      (i.named (ap has_name e)) refl refl
step-Good pm_e lo c p r e i =
    switch-Good lo c p r i.core (i.host (ap is_late e)) b't' b'T' pm_t refl
      (i.named (ap has_name e)) refl
step-Good pm_t lo c p r e i =
    switch-Good lo c p r i.core (i.host (ap is_late e)) b'h' b'H' pm_h refl
      (i.named (ap has_name e)) refl
step-Good pm_h lo c p r e i =
    switch-Good lo c p r i.core (i.host (ap is_late e)) b'o' b'O' pm_o refl
      (i.named (ap has_name e)) refl
step-Good pm_o lo c p r e i =
    switch-Good lo c p r i.core (i.host (ap is_late e)) b'd' b'D' pm_d refl
      (i.named (ap has_name e)) refl
step-Good pm_d lo c p r e i =
    switch1-Good lo c p r i.core (i.host (ap is_late e)) b'=' pm_eq refl (i.named (ap has_name e))
      refl
step-Good pm_eq lo c p r e i =
    eq-Good lo c p r i.core (i.host (ap is_late e)) method (omega arith) (i.named (ap has_name e))
step-Good pma_a lo c p r e i =
    switch-Good lo c p r i.core (i.host (ap is_late e)) b'd' b'D' pma_d refl
      (i.named (ap has_name e)) refl
step-Good pma_d lo c p r e i =
    switch-Good lo c p r i.core (i.host (ap is_late e)) b'd' b'D' pma_d2 refl
      (i.named (ap has_name e)) refl
step-Good pma_d2 lo c p r e i =
    switch-Good lo c p r i.core (i.host (ap is_late e)) b'r' b'R' pma_r refl
      (i.named (ap has_name e)) refl
step-Good pma_r lo c p r e i =
    switch1-Good lo c p r i.core (i.host (ap is_late e)) b'=' pma_eq refl (i.named (ap has_name e))
      refl
step-Good pma_eq lo c p r e i =
    eq-Good lo c p r i.core (i.host (ap is_late e)) maddr (omega arith) (i.named (ap has_name e))
step-Good plr_l lo c p r e i =
    switch-Good lo c p r i.core (i.host (ap is_late e)) b'r' b'R' plr_r_fin refl
      (i.named (ap has_name e)) refl
step-Good plr_r_fin lo c p r e i =
    fin-Good lo c p r i.core (i.host (ap is_late e)) lr plr_eq refl (i.named (ap has_name e)) refl
step-Good plr_eq lo c p r e i =
    eq-Good lo c p r i.core (i.host (ap is_late e)) lr (omega arith) (i.named (ap has_name e))
step-Good pr2_r lo c p r e i =
    switch1-Good lo c p r i.core (i.host (ap is_late e)) b'2' pr2_2_fin refl
      (i.named (ap has_name e)) refl
step-Good pr2_2_fin lo c p r e i =
    fin-Good lo c p r i.core (i.host (ap is_late e)) r2 pr2_eq refl (i.named (ap has_name e)) refl
step-Good pr2_eq lo c p r e i =
    eq-Good lo c p r i.core (i.host (ap is_late e)) r2 (omega arith) (i.named (ap has_name e))

Inv-wide : (lo p : ℕ) (r : Run) → Inv lo p p r → Inv lo p (p + 1) r
Inv-wide lo p r i = record {
  core = record {
    low = i.core.low;
    s_le = i.core.s_le;
    b_le = i.core.b_le;
    v_le = i.core.v_le;
    pass_lt = i.core.pass_lt;
    uri = UriIn-wide lo p r.uri i.core.uri;
  };
  host = i.host;
  early = i.early;
  named = i.named;
  valued = i.valued;
}

pub loop-Good :
    (n : ℕ) (mem : Memory) (lo p end : ℕ) (r : Run)
    → p + n ≡ end
    → Inv lo p p r
    → Good (Inv lo end end) (loop n mem p r)
unfolding loop
loop-Good zero mem lo p end r e i = subst (λ x. Inv lo x x r) (omega (arith, e)) i
loop-Good (suc n) mem lo p end r e i =
    go (step r.state (mem p) p r) (step-Good r.state lo (mem p) p r refl (Inv-wide lo p r i))
      (λ r' j. loop-Good n mem lo (p + 1) end r' (omega (arith, e)) j)
  where
    go :
        (o : Outcome Run)
        → Next lo p o
        → ((r' : Run) → Inv lo (p + 1) (p + 1) r' → Good (Inv lo end end) (loop n mem (p + 1) r'))
        → Good (Inv lo end end) (do r' ← o; loop n mem (p + 1) r')
    go (err f) g k = g
    go (ok r') g k = k r' g
