-- ===== src/Parser/Uri/Omitted/Whole.antt =====
-- src/core/parser/parse_uri.c: `parse_uri` never sets the members of the parameter `r2`.
use opensips_ng.Prelude.{
  ℕ, zero, suc, ◌+◌, ◌-◌, ◌≡◌, refl, false, ◌==◌, Option, none, some, arith, Bool-cases, inl, inr,
  ltb,
}
use opensips_ng.Parser.Memory.{Memory}
use opensips_ng.Parser.Uri.State.{
  UriType, Param, param_no, SipUri, State, Run, Outcome, error_uri_t, sip_uri_t, sips_uri_t,
  tel_uri_t, tels_uri_t, lr, r2, uri_init, uri_user, uri_password, uri_password_alpha, uri_host,
  uri_host_p, uri_host6_p, uri_host6_end, uri_port, uri_param, uri_param_p, uri_val_p, uri_headers,
  pt_t, pt_r, pt_a, pt_n, pt_s, pt_p, pt_o, pt_r2, pt_t2, pt_eq, pttl_t2, pttl_l, pttl_eq, pu_u,
  pu_s, pu_e, pu_r, pu_eq, pm_m, pm_e, pm_t, pm_h, pm_o, pm_d, pm_eq, pma_a, pma_d, pma_d2, pma_r,
  pma_eq, plr_l, plr_r_fin, plr_eq, pr2_r, pr2_2_fin, pr2_eq, vu_u, vu_d, vu_p_fin, vt_t, vt_c,
  vt_p_fin, vtls_l, vtls_s_fin, vs_s, vs_c, vs_t, vs_p_fin, ok, err, ◌>>=◌,
}
use opensips_ng.Parser.Uri.Cases.{param_set}
use opensips_ng.Parser.Uri.Step.{step}
use opensips_ng.Parser.Uri.Parse.{
  loop, start, set_params, end_param, end_name, end_value, end_transport, finish, move_params,
  q_memchr, is_phone, as_phone, fix_as, scheme_type, parse_uri,
}
use opensips_ng.Parser.Uri.Omitted.{reads_r2, Omits, Omitting, Ok, Ok-if, param_set-Ok}
use opensips_ng.Parser.Uri.Omitted.Loop.{set_name-Omitting, step-Ok}

Ok-bind :
    {A B : Type 0} (P : A → Type 0) (Q : B → Type 0) (o : Outcome A) (k : A → Outcome B)
    → Ok P o
    → ((a : A) → P a → Ok Q (k a))
    → Ok Q (o >>= k)
Ok-bind P Q (ok a) k g h = h a g
Ok-bind P Q (err f) k g h = tt

loop-Ok : (n : ℕ) (mem : Memory) (p : ℕ) (r : Run) → Omitting r → Ok Omitting (loop n mem p r)
unfolding loop
loop-Ok zero mem p r h = h
loop-Ok (suc n) mem p r h =
    Ok-bind Omitting Omitting (step r.state (mem p) p r) _ (step-Ok r.state (mem p) p r h.state h)
      λ r' k. loop-Ok n mem (p + 1) r' k

params_set : (p : ℕ) (r : Run) → Omitting r → Omitting (set_params p r)
params_set p r h = record {
  state = h.state;
  param = h.param;
  uri = record { known = h.uri.known; value = h.uri.value };
}

end_param-Ok : (p : ℕ) (r : Run) → Omitting r → Ok Omits (end_param p r)
unfolding end_param
end_param-Ok p r h = record { known = h.uri.known; value = h.uri.value }

end_name-Ok :
    (q : Param) (p : ℕ) (r : Run)
    → (param_no r2 == param_no q) ≡ false
    → Omitting r
    → Ok Omits (end_name q p r)
unfolding end_name
end_name-Ok q p r e h = let k = set_name-Omitting q p _ e (params_set p r h) in k.uri

end_value-Ok : (p : ℕ) (r : Run) → Omitting r → Ok Omits (end_value p r)
unfolding end_value
end_value-Ok p r h =
    Ok-bind Omitting Omits (param_set p (set_params p r)) _ (param_set-Ok p _ (params_set p r h))
      λ r' k. k.uri

end_transport-Ok : (n p : ℕ) (r : Run) → Omitting r → Ok Omits (end_transport n p r)
unfolding end_transport
end_transport-Ok n p r h =
    Ok-bind Omitting Omits (param_set p (set_params p r)) _ (param_set-Ok p _ (params_set p r h))
      λ r' k. record { known = k.uri.known; value = k.uri.value }

finish-Ok :
    (st : State) (p : ℕ) (r : Run) → reads_r2 st ≡ false → Omitting r → Ok Omits (finish st p r)
unfolding finish reads_r2 param_no
finish-Ok uri_init p r e h = tt
finish-Ok uri_user p r e h =
    Ok-if Omits r.found_user _ _ tt (record { known = h.uri.known; value = h.uri.value })
finish-Ok uri_password p r e h =
    Ok-if Omits r.found_user _ _ tt (record { known = h.uri.known; value = h.uri.value })
finish-Ok uri_password_alpha p r e h = tt
finish-Ok uri_host p r e h = tt
finish-Ok uri_host_p p r e h = record { known = h.uri.known; value = h.uri.value }
finish-Ok uri_host6_p p r e h = tt
finish-Ok uri_host6_end p r e h = record { known = h.uri.known; value = h.uri.value }
finish-Ok uri_port p r e h = record { known = h.uri.known; value = h.uri.value }
finish-Ok uri_param p r e h = end_param-Ok p r h
finish-Ok uri_param_p p r e h = end_param-Ok p r h
finish-Ok uri_val_p p r e h = end_value-Ok p r h
finish-Ok uri_headers p r e h =
    Ok-if Omits r.error_headers _ _ tt (record { known = h.uri.known; value = h.uri.value })
finish-Ok pt_t p r e h = end_param-Ok p r h
finish-Ok pt_r p r e h = end_param-Ok p r h
finish-Ok pt_a p r e h = end_param-Ok p r h
finish-Ok pt_n p r e h = end_param-Ok p r h
finish-Ok pt_s p r e h = end_param-Ok p r h
finish-Ok pt_p p r e h = end_param-Ok p r h
finish-Ok pt_o p r e h = end_param-Ok p r h
finish-Ok pt_r2 p r e h = end_param-Ok p r h
finish-Ok pt_t2 p r e h = end_param-Ok p r h
finish-Ok pt_eq p r e h = end_param-Ok p r h
finish-Ok pttl_t2 p r e h = end_param-Ok p r h
finish-Ok pttl_l p r e h = end_param-Ok p r h
finish-Ok pttl_eq p r e h = end_param-Ok p r h
finish-Ok pu_u p r e h = end_param-Ok p r h
finish-Ok pu_s p r e h = end_param-Ok p r h
finish-Ok pu_e p r e h = end_param-Ok p r h
finish-Ok pu_r p r e h = end_param-Ok p r h
finish-Ok pu_eq p r e h = end_param-Ok p r h
finish-Ok pm_m p r e h = end_param-Ok p r h
finish-Ok pm_e p r e h = end_param-Ok p r h
finish-Ok pm_t p r e h = end_param-Ok p r h
finish-Ok pm_h p r e h = end_param-Ok p r h
finish-Ok pm_o p r e h = end_param-Ok p r h
finish-Ok pm_d p r e h = end_param-Ok p r h
finish-Ok pm_eq p r e h = end_param-Ok p r h
finish-Ok pma_a p r e h = tt
finish-Ok pma_d p r e h = tt
finish-Ok pma_d2 p r e h = tt
finish-Ok pma_r p r e h = tt
finish-Ok pma_eq p r e h = tt
finish-Ok plr_l p r e h = end_param-Ok p r h
finish-Ok plr_r_fin p r e h = end_name-Ok lr p r refl h
finish-Ok plr_eq p r e h = end_name-Ok lr p r refl h
finish-Ok pr2_r p r e h = ground (arith, e)
finish-Ok pr2_2_fin p r e h = ground (arith, e)
finish-Ok pr2_eq p r e h = ground (arith, e)
finish-Ok vu_u p r e h = end_value-Ok p r h
finish-Ok vu_d p r e h = end_value-Ok p r h
finish-Ok vu_p_fin p r e h = end_transport-Ok 1 p r h
finish-Ok vt_t p r e h = end_value-Ok p r h
finish-Ok vt_c p r e h = end_value-Ok p r h
finish-Ok vt_p_fin p r e h = end_transport-Ok 2 p r h
finish-Ok vtls_l p r e h = end_value-Ok p r h
finish-Ok vtls_s_fin p r e h = end_transport-Ok 3 p r h
finish-Ok vs_s p r e h = end_value-Ok p r h
finish-Ok vs_c p r e h = end_value-Ok p r h
finish-Ok vs_t p r e h = end_value-Ok p r h
finish-Ok vs_p_fin p r e h = end_transport-Ok 4 p r h

move_params-Omits : (o : Option ℕ) (u : SipUri) → Omits u → Omits (move_params o u)
unfolding move_params
move_params-Omits none u h = h
move_params-Omits (some p) u h = record { known = h.known; value = h.value }

as_phone-Omits : (mem : Memory) (tel : UriType) (u : SipUri) → Omits u → Omits (as_phone mem tel u)
unfolding as_phone
as_phone-Omits mem tel u h = elim (Bool-cases (is_phone mem u)) [
  | inl e ↦ rw e (
      move_params-Omits (q_memchr u.user.len mem u.user.s b';') _
        (record { known = h.known; value = h.value }))
  | inr e ↦ rw e h
]

fix_as-Ok :
    (t : UriType) (mem : Memory) (nul : ℕ) (u : SipUri) → Omits u → Ok Omits (fix_as t mem nul u)
unfolding fix_as
fix_as-Ok sip_uri_t mem nul u h = as_phone-Omits mem tel_uri_t u h
fix_as-Ok sips_uri_t mem nul u h = as_phone-Omits mem tels_uri_t u h
fix_as-Ok tel_uri_t mem nul u h = record { known = h.known; value = h.value }
fix_as-Ok tels_uri_t mem nul u h = record { known = h.known; value = h.value }
fix_as-Ok error_uri_t mem nul u h = tt

start-Omitting : (type : UriType) (p : ℕ) → Omitting (start type p)
unfolding reads_r2 param_no
start-Omitting type p = record {
  state = refl;
  param = refl;
  uri = record { known = refl; value = refl };
}

-- No URI that `parse_uri` returns has a parameter `r2`, or a value of it, whatever the bytes are.
pub parse_uri-Omits : (mem : Memory) (nul buf len : ℕ) → Ok Omits (parse_uri mem nul buf len)
unfolding parse_uri
parse_uri-Omits mem nul buf len = Ok-if Omits (ltb len 5) _ _ tt (
    Ok-bind (λ x. Unit) Omits (scheme_type mem buf) _ (any (scheme_type mem buf))
      λ (type, p) u.
        Ok-bind Omitting Omits (loop (buf + len - p) mem p (start type p)) _
          (loop-Ok (buf + len - p) mem p (start type p) (start-Omitting type p))
          λ r i.
            Ok-bind Omits Omits (finish r.state (buf + len) r) _
              (finish-Ok r.state (buf + len) r i.state i) λ v h. fix_as-Ok v.type mem nul v h)
  where
    any : {A : Type 0} (o : Outcome A) → Ok (λ x. Unit) o
    any (ok a) = tt
    any (err f) = tt
