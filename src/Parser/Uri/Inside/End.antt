-- ===== src/Parser/Uri/Inside/End.antt =====
-- src/core/parser/parse_uri.c: the members of the URI behind the loop lie in the text.
use opensips_ng.Prelude.{ℕ, ◌%◌, ◌^◌, ◌≤◌, ◌≡◌, ap, Bool, true, false, ◌==◌, arith, if◌then◌else◌}
use opensips_ng.Parser.Memory.{Text}
use opensips_ng.Parser.Uri.State.{
  Param, param_no, SipUri, span, State, Run, Outcome, lr, r2, uri_init, uri_user, uri_password,
  uri_password_alpha, uri_host, uri_host_p, uri_host6_p, uri_host6_end, uri_port, uri_param,
  uri_param_p, uri_val_p, uri_headers, pt_t, pt_r, pt_a, pt_n, pt_s, pt_p, pt_o, pt_r2, pt_t2,
  pt_eq, pttl_t2, pttl_l, pttl_eq, pu_u, pu_s, pu_e, pu_r, pu_eq, pm_m, pm_e, pm_t, pm_h, pm_o,
  pm_d, pm_eq, pma_a, pma_d, pma_d2, pma_r, pma_eq, plr_l, plr_r_fin, plr_eq, pr2_r, pr2_2_fin,
  pr2_eq, vu_u, vu_d, vu_p_fin, vt_t, vt_c, vt_p_fin, vtls_l, vtls_s_fin, vs_s, vs_c, vs_t,
  vs_p_fin, ok, err, ◌>>=◌,
}
use opensips_ng.Parser.Uri.Cases.{param_set, set_proto}
use opensips_ng.Parser.Uri.Parse.{set_params, end_param, end_name, end_value, end_transport, finish}
use opensips_ng.Parser.Uri.Inside.{
  TextIn, UriIn, Valued, Inv, Good, has_name, has_value, TextIn-span, set_param-TextIn,
}
use opensips_ng.Parser.Uri.Inside.Macros.{params-UriIn}
use opensips_ng.Parser.Uri.Inside.Rounds.{host-UriIn, port-UriIn, was_port-UriIn}

Good-if :
    {A : Type 0} (P : A → Type 0) (b : Bool) (x y : Outcome A)
    → Good P x
    → Good P y
    → Good P (if b then x else y)
Good-if P true x y g h = g
Good-if P false x y g h = h

here : (lo p : ℕ) (r : Run) → Inv lo p p r → TextIn lo p (span r.s p)
here lo p r i = TextIn-span lo p r.s p i.core.low i.core.s_le (omega arith)

params_in-UriIn :
    (lo hi : ℕ) (u : SipUri) (t : Text)
    → UriIn lo hi u
    → TextIn lo hi t
    → UriIn lo hi (record u { params = t })
params_in-UriIn lo hi u t h k = ground arith

headers-UriIn :
    (lo hi : ℕ) (u : SipUri) (t : Text)
    → UriIn lo hi u
    → TextIn lo hi t
    → UriIn lo hi (record u { headers = t })
headers-UriIn lo hi u t h k = ground arith

proto-UriIn :
    (lo hi : ℕ) (u : SipUri) (n : ℕ) → UriIn lo hi u → UriIn lo hi (record u { proto = n })
proto-UriIn lo hi u n h = ground arith

end_param-Good : (lo p : ℕ) (r : Run) → Inv lo p p r → Good (UriIn lo p) (end_param p r)
unfolding end_param
end_param-Good lo p r i = params_in-UriIn lo p r.uri (span r.s p) i.core.uri (here lo p r i)

end_name-Good :
    (q : Param) (lo p : ℕ) (r : Run) → Inv lo p p r → lo ≤ r.b → Good (UriIn lo p) (end_name q p r)
unfolding end_name
end_name-Good q lo p r i b =
    let h = params_in-UriIn lo p r.uri (span r.s p) i.core.uri (here lo p r i) in
    record {
      user = h.user;
      passwd = h.passwd;
      host = h.host;
      port = h.port;
      params = h.params;
      headers = h.headers;
      known =
          set_param-TextIn lo p q (span r.b p) r.uri.known
            (TextIn-span lo p r.b p b i.core.b_le (omega arith)) h.known;
      value = h.value;
    }

value_set-Good :
    (lo p : ℕ) (r : Run)
    → Inv lo p p r
    → lo ≤ r.b
    → Valued lo r
    → Good (λ r'. UriIn lo p r'.uri) (param_set p (set_params p r))
unfolding param_set
value_set-Good lo p r i b v =
    let set : (param_no r.param == 0) ≡ false = ground (arith, v.1) in
    rw set (
      params-UriIn lo p (set_params p r).uri r.param (span r.b p) (span r.v p)
        (params_in-UriIn lo p r.uri (span r.s p) i.core.uri (here lo p r i))
        (TextIn-span lo p r.b p b i.core.b_le (omega arith))
        (TextIn-span lo p r.v p v.0 i.core.v_le (omega arith)))

end_value-Good :
    (lo p : ℕ) (r : Run) → Inv lo p p r → lo ≤ r.b → Valued lo r → Good (UriIn lo p) (end_value p r)
unfolding end_value
end_value-Good lo p r i b v = go (param_set p (set_params p r)) (value_set-Good lo p r i b v)
  where
    go :
        (o : Outcome Run)
        → Good (λ r'. UriIn lo p r'.uri) o
        → Good (UriIn lo p) (do r' ← o; ok r'.uri)
    go (ok r') g = g
    go (err f) g = g

end_transport-Good :
    (n lo p : ℕ) (r : Run)
    → Inv lo p p r
    → lo ≤ r.b
    → Valued lo r
    → Good (UriIn lo p) (end_transport n p r)
unfolding end_transport
end_transport-Good n lo p r i b v = go (param_set p (set_params p r)) (value_set-Good lo p r i b v)
  where
    go :
        (o : Outcome Run)
        → Good (λ r'. UriIn lo p r'.uri) o
        → Good (UriIn lo p) (do r' ← o; ok (set_proto n r').uri)
    go (ok r') g = proto-UriIn lo p r'.uri n g
    go (err f) g = g

pub finish-Good :
    (st : State) (lo p : ℕ) (r : Run)
    → r.state ≡ st
    → Inv lo p p r
    → Good (UriIn lo p) (finish st p r)
unfolding finish has_name has_value
finish-Good uri_init lo p r e i = tt
finish-Good uri_user lo p r e i =
    Good-if (UriIn lo p) r.found_user _ _ tt
      (host-UriIn lo p r.uri (span r.s p) i.core.uri (here lo p r i))
finish-Good uri_password lo p r e i =
    Good-if (UriIn lo p) r.found_user _ _ tt
      (was_port-UriIn lo p r.uri (span r.s p) i.core.uri (here lo p r i) (r.port_no % 2 ^ 16))
finish-Good uri_password_alpha lo p r e i = tt
finish-Good uri_host lo p r e i = tt
finish-Good uri_host_p lo p r e i = host-UriIn lo p r.uri (span r.s p) i.core.uri (here lo p r i)
finish-Good uri_host6_end lo p r e i = host-UriIn lo p r.uri (span r.s p) i.core.uri (here lo p r i)
finish-Good uri_host6_p lo p r e i = tt
finish-Good uri_port lo p r e i =
    port-UriIn lo p r.uri (span r.s p) i.core.uri (here lo p r i) (r.port_no % 2 ^ 16)
finish-Good uri_param lo p r e i = end_param-Good lo p r i
finish-Good uri_param_p lo p r e i = end_param-Good lo p r i
finish-Good uri_val_p lo p r e i =
    end_value-Good lo p r i (i.named (ap has_name e)) (i.valued (ap has_value e))
finish-Good uri_headers lo p r e i =
    Good-if (UriIn lo p) r.error_headers _ _ tt
      (headers-UriIn lo p r.uri (span r.s p) i.core.uri (here lo p r i))
finish-Good pt_t lo p r e i = end_param-Good lo p r i
finish-Good pt_r lo p r e i = end_param-Good lo p r i
finish-Good pt_a lo p r e i = end_param-Good lo p r i
finish-Good pt_n lo p r e i = end_param-Good lo p r i
finish-Good pt_s lo p r e i = end_param-Good lo p r i
finish-Good pt_p lo p r e i = end_param-Good lo p r i
finish-Good pt_o lo p r e i = end_param-Good lo p r i
finish-Good pt_r2 lo p r e i = end_param-Good lo p r i
finish-Good pt_t2 lo p r e i = end_param-Good lo p r i
finish-Good pt_eq lo p r e i = end_param-Good lo p r i
finish-Good vu_u lo p r e i =
    end_value-Good lo p r i (i.named (ap has_name e)) (i.valued (ap has_value e))
finish-Good vu_d lo p r e i =
    end_value-Good lo p r i (i.named (ap has_name e)) (i.valued (ap has_value e))
finish-Good vu_p_fin lo p r e i =
    end_transport-Good 1 lo p r i (i.named (ap has_name e)) (i.valued (ap has_value e))
finish-Good vt_t lo p r e i =
    end_value-Good lo p r i (i.named (ap has_name e)) (i.valued (ap has_value e))
finish-Good vt_c lo p r e i =
    end_value-Good lo p r i (i.named (ap has_name e)) (i.valued (ap has_value e))
finish-Good vt_p_fin lo p r e i =
    end_transport-Good 2 lo p r i (i.named (ap has_name e)) (i.valued (ap has_value e))
finish-Good vtls_l lo p r e i =
    end_value-Good lo p r i (i.named (ap has_name e)) (i.valued (ap has_value e))
finish-Good vtls_s_fin lo p r e i =
    end_transport-Good 3 lo p r i (i.named (ap has_name e)) (i.valued (ap has_value e))
finish-Good vs_s lo p r e i =
    end_value-Good lo p r i (i.named (ap has_name e)) (i.valued (ap has_value e))
finish-Good vs_c lo p r e i =
    end_value-Good lo p r i (i.named (ap has_name e)) (i.valued (ap has_value e))
finish-Good vs_t lo p r e i =
    end_value-Good lo p r i (i.named (ap has_name e)) (i.valued (ap has_value e))
finish-Good vs_p_fin lo p r e i =
    end_transport-Good 4 lo p r i (i.named (ap has_name e)) (i.valued (ap has_value e))
finish-Good pttl_t2 lo p r e i = end_param-Good lo p r i
finish-Good pttl_l lo p r e i = end_param-Good lo p r i
finish-Good pttl_eq lo p r e i = end_param-Good lo p r i
finish-Good pu_u lo p r e i = end_param-Good lo p r i
finish-Good pu_s lo p r e i = end_param-Good lo p r i
finish-Good pu_e lo p r e i = end_param-Good lo p r i
finish-Good pu_r lo p r e i = end_param-Good lo p r i
finish-Good pu_eq lo p r e i = end_param-Good lo p r i
finish-Good pm_m lo p r e i = end_param-Good lo p r i
finish-Good pm_e lo p r e i = end_param-Good lo p r i
finish-Good pm_t lo p r e i = end_param-Good lo p r i
finish-Good pm_h lo p r e i = end_param-Good lo p r i
finish-Good pm_o lo p r e i = end_param-Good lo p r i
finish-Good pm_d lo p r e i = end_param-Good lo p r i
finish-Good pm_eq lo p r e i = end_param-Good lo p r i
finish-Good pma_a lo p r e i = tt
finish-Good pma_d lo p r e i = tt
finish-Good pma_d2 lo p r e i = tt
finish-Good pma_r lo p r e i = tt
finish-Good pma_eq lo p r e i = tt
finish-Good plr_l lo p r e i = end_param-Good lo p r i
finish-Good plr_r_fin lo p r e i = end_name-Good lr lo p r i (i.named (ap has_name e))
finish-Good plr_eq lo p r e i = end_name-Good lr lo p r i (i.named (ap has_name e))
finish-Good pr2_r lo p r e i = end_param-Good lo p r i
finish-Good pr2_2_fin lo p r e i = end_name-Good r2 lo p r i (i.named (ap has_name e))
finish-Good pr2_eq lo p r e i = end_name-Good r2 lo p r i (i.named (ap has_name e))
