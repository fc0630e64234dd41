-- ===== src/Parser/Uri/Inside/Steps.antt =====
-- src/core/parser/parse_uri.c: each round of the loop keeps the invariant.
use opensips_ng.Prelude.{ℕ, ◌+◌, ◌≤◌, ◌<◌, ◌≡◌, refl, true, false, arith}
use opensips_ng.Parser.Uri.State.{
  Param, param_no, span, State, Run, Outcome, transport, uri_param_p, uri_val_p, pt_t, pu_u, pm_m,
  plr_l, vu_u, vt_t, vs_s, ok,
}
use opensips_ng.Parser.Uri.Cases.{
  goto, param_switch, param_switch1, param_switch_big, value_switch, value_switch_big, semicolon,
  question,
}
use opensips_ng.Parser.Uri.Step.{step_param, step_transport, step_eq, set_name, step_fin}
use opensips_ng.Parser.Uri.Inside.{
  CoreOf, HostOf, Valued, Inv, Good, is_late, has_name, has_value, TextIn-span, set_param-TextIn,
}
use opensips_ng.Parser.Uri.Inside.Macros.{
  Core-next, Host-next, still_at_user-Good, semicolon-Inv, question-Inv, colon-Inv,
  param_common-Good, value_common-Good, goto_name-Inv, goto_value-Inv, Kept, semicolon-Kept,
  question-Kept,
}

abbrev pub Next : ℕ → ℕ → Outcome Run → Type 0
Next lo p o = Good (Inv lo (p + 1) (p + 1)) o

-- Any state behind the host that needs neither a name nor a value.
pub goto_late-Inv :
    (lo p : ℕ) (st : State) (r : Run)
    → is_late st ≡ true
    → CoreOf lo p (p + 1) r
    → HostOf lo p r
    → has_name st ≡ false
    → has_value st ≡ false
    → Inv lo (p + 1) (p + 1) (record r { state = st })
goto_late-Inv lo p st r l c h n v = record {
  core = Core-next lo p r c;
  host = λ e. Host-next lo p r h;
  early = λ e. ground arith;
  named = λ e. ground arith;
  valued = λ e. ground arith;
}

module _ (lo c p : ℕ) (r : Run) (k : CoreOf lo p (p + 1) r) (h : HostOf lo p r) where
  ignored : Next lo p (goto uri_param_p r)
  unfolding is_late has_name has_value
  ignored = goto_late-Inv lo p uri_param_p r refl k h refl refl

  pub switch-Good :
      (c1 c2 : ℕ) (new : State)
      → is_late new ≡ true
      → lo ≤ r.b
      → has_value new ≡ false
      → Next lo p (param_switch c1 c2 new c p r)
  unfolding param_switch
  switch-Good c1 c2 new l b n = ground (
    arith,
    goto_name-Inv lo p new r l k h b n,
    param_common-Good lo c p r (goto uri_param_p r) k h ignored,
  )

  pub switch1-Good :
      (c1 : ℕ) (new : State)
      → is_late new ≡ true
      → lo ≤ r.b
      → has_value new ≡ false
      → Next lo p (param_switch1 c1 new c p r)
  unfolding param_switch1
  switch1-Good c1 new l b n = ground (
    arith,
    goto_name-Inv lo p new r l k h b n,
    param_common-Good lo c p r (goto uri_param_p r) k h ignored,
  )

  pub switch_big-Good :
      (c1 c2 d1 d2 : ℕ) (new_c new_d : State)
      → is_late new_c ≡ true
      → is_late new_d ≡ true
      → lo ≤ r.b
      → has_value new_c ≡ false
      → has_value new_d ≡ false
      → Next lo p (param_switch_big c1 c2 d1 d2 new_c new_d c p r)
  unfolding param_switch_big
  switch_big-Good c1 c2 d1 d2 new_c new_d l l' b n m = ground (
    arith,
    goto_name-Inv lo p new_c r l k h b n,
    goto_name-Inv lo p new_d r l' k h b m,
    param_common-Good lo c p r (goto uri_param_p r) k h ignored,
  )

  pub value_switch-Good :
      (c1 c2 : ℕ) (new : State)
      → is_late new ≡ true
      → lo ≤ r.b
      → Valued lo r
      → Next lo p (value_switch c1 c2 new c p r)
  unfolding value_switch is_late
  value_switch-Good c1 c2 new l b v = ground (
    arith,
    goto_value-Inv lo p new r l k h b v,
    value_common-Good lo c p r (goto uri_val_p r) k h b v
        (goto_value-Inv lo p uri_val_p r refl k h b v),
  )

  pub value_switch_big-Good :
      (c1 c2 d1 d2 : ℕ) (new_c new_d : State)
      → is_late new_c ≡ true
      → is_late new_d ≡ true
      → lo ≤ r.b
      → Valued lo r
      → Next lo p (value_switch_big c1 c2 d1 d2 new_c new_d c p r)
  unfolding value_switch_big is_late
  value_switch_big-Good c1 c2 d1 d2 new_c new_d l l' b v = ground (
    arith,
    goto_value-Inv lo p new_c r l k h b v,
    goto_value-Inv lo p new_d r l' k h b v,
    value_common-Good lo c p r (goto uri_val_p r) k h b v
        (goto_value-Inv lo p uri_val_p r refl k h b v),
  )

  -- A value starts.
  value_start-Inv :
      (q : Param) (st : State)
      → is_late st ≡ true
      → 0 < param_no q
      → lo ≤ r.b
      → Inv lo (p + 1) (p + 1) (record r { param = q; v = p; state = st })
  value_start-Inv q st l n b = record {
    core = ground arith;
    host = λ e. Host-next lo p r h;
    early = λ e. ground arith;
    named = λ e. b;
    valued = λ e. (omega (arith, k.low, k.s_le), n);
  }

  pub eq-Good : (q : Param) → 0 < param_no q → lo ≤ r.b → Next lo p (step_eq q c p r)
  unfolding step_eq is_late
  eq-Good q n b =
      param_common-Good lo c p (record r { param = q }) _ k h (value_start-Inv q uri_val_p refl n b)

  pub transport-Good : lo ≤ r.b → Next lo p (step_transport c p r)
  unfolding step_transport param_no is_late
  transport-Good b = ground (
    arith,
    value_start-Inv transport vu_u refl (omega arith) b,
    value_start-Inv transport vt_t refl (omega arith) b,
    value_start-Inv transport vs_s refl (omega arith) b,
    param_common-Good lo c p (record r { param = transport })
        (ok (record r { param = transport; v = p; state = uri_val_p })) k h
        (value_start-Inv transport uri_val_p refl (omega arith) b),
  )

  -- A parameter starts.
  name_start-Inv :
      (st : State)
      → is_late st ≡ true
      → has_value st ≡ false
      → Inv lo (p + 1) (p + 1) (record r { b = p; state = st })
  name_start-Inv st l n = record {
    core = ground arith;
    host = λ e. Host-next lo p r h;
    early = λ e. ground arith;
    named = λ e. omega (arith, k.low, k.s_le);
    valued = λ e. ground arith;
  }

  pub param-Good : Next lo p (step_param c p r)
  unfolding step_param is_late has_value
  param-Good = ground (
    arith,
    name_start-Inv pt_t refl refl,
    name_start-Inv pu_u refl refl,
    name_start-Inv pm_m refl refl,
    name_start-Inv plr_l refl refl,
    name_start-Inv uri_param_p refl refl,
    param_common-Good lo c p r (goto uri_param_p r) k h ignored,
  )

  -- A parameter without a value is named.
  set_name-Inv :
      (q : Param) (r' : Run)
      → Kept r r'
      → Inv lo (p + 1) (p + 1) r'
      → lo ≤ r.b
      → Inv lo (p + 1) (p + 1) (set_name q p r')
  unfolding set_name
  set_name-Inv q r' w i b = record {
    core = record {
      low = i.core.low;
      s_le = i.core.s_le;
      b_le = i.core.b_le;
      v_le = i.core.v_le;
      pass_lt = i.core.pass_lt;
      uri = record {
        user = i.core.uri.user;
        passwd = i.core.uri.passwd;
        host = i.core.uri.host;
        port = i.core.uri.port;
        params = i.core.uri.params;
        headers = i.core.uri.headers;
        known =
            set_param-TextIn lo (p + 1) q (span r'.b p) r'.uri.known
              (TextIn-span lo (p + 1) r'.b p (omega (arith, b, w.b)) (omega (arith, k.b_le, w.b))
                (omega arith))
              i.core.uri.known;
        value = i.core.uri.value;
      };
    };
    host = i.host;
    early = i.early;
    named = i.named;
    valued = i.valued;
  }

  pub fin-Good :
      (q : Param) (new : State)
      → is_late new ≡ true
      → lo ≤ r.b
      → has_value new ≡ false
      → Next lo p (step_fin q new c p r)
  unfolding step_fin
  fin-Good q new l b n = ground (
    arith,
    still_at_user-Good lo p r k h,
    goto_name-Inv lo p new r l k h b n,
    set_name-Inv q (semicolon r) (semicolon-Kept r) (semicolon-Inv lo p r k h) b,
    set_name-Inv q (question p r) (question-Kept p r) (question-Inv lo p r k h) b,
    colon-Inv lo p r k h,
    ignored,
  )

-- The state stays as it is.
pub stay-Inv : (lo p : ℕ) (r : Run) → Inv lo p (p + 1) r → Inv lo (p + 1) (p + 1) r
stay-Inv lo p r i = record {
  core = Core-next lo p r i.core;
  host = λ e. Host-next lo p r (i.host e);
  early = i.early;
  named = i.named;
  valued = i.valued;
}

-- A state before the parameters.
pub goto_early-Inv :
    (lo p : ℕ) (st : State) (r : Run)
    → CoreOf lo p (p + 1) r
    → (r.found_user ≡ false → r.pass ≡ 0)
    → is_late st ≡ false
    → has_name st ≡ false
    → has_value st ≡ false
    → Inv lo (p + 1) (p + 1) (record r { state = st })
goto_early-Inv lo p st r c z l n v = record {
  core = Core-next lo p r c;
  host = λ e. ground arith;
  early = λ e. z;
  named = λ e. ground arith;
  valued = λ e. ground arith;
}
