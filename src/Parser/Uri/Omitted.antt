-- ===== src/Parser/Uri/Omitted.antt =====
-- src/core/parser/parse_uri.c: the macros do not set the members of the parameter `r2`.
pub mod Loop
pub mod Whole
use opensips_ng.Prelude.{
  ℕ, zero, suc, ◌+◌, ◌-◌, ◌≡◌, ◌∙◌, refl, Bool, true, false, not, ◌==◌, ◌||◌, arith, Bool-cases,
  inl, inr, if◌then◌else◌, ltb,
}
use opensips_ng.Parser.Memory.{Memory, Text}
use opensips_ng.Parser.Uri.State.{
  Param, param_no, SipUri, no_text, span, set_param, State, Run, Outcome, r2, uri_param_p,
  uri_val_p, pr2_r, pr2_2_fin, pr2_eq, ok, err, ◌>>=◌,
}
use opensips_ng.Parser.Uri.Cases.{
  still_at_user, drop_pass, semicolon, question, colon_pass, colon, param_set, param_common,
  value_common, param_switch, param_switch1, param_switch_big, value_switch, value_switch_big,
  transport_fin, set_proto, check_host_end, goto,
}
use opensips_ng.Parser.Uri.Step.{
  step, step_init, step_user, was_port, step_password, step_password_alpha, step_host, step_host6,
  step_port, step_param, step_transport, step_eq, set_name, step_fin, step_headers,
}
use opensips_ng.Parser.Uri.Parse.{
  loop, start, set_params, end_param, end_name, end_value, end_transport, finish, move_params,
  as_phone, fix_as, scheme_type, parse_uri,
}

-- The states that only `r2` leads to.
unfoldable pub reads_r2 : State → Bool
reads_r2 pr2_r = true
reads_r2 pr2_2_fin = true
reads_r2 pr2_eq = true
reads_r2 _ = false

pub record Omits (u : SipUri) : Type 0 where
  pub known : u.known r2 ≡ no_text
  pub value : u.value r2 ≡ no_text

-- Between two rounds.
pub record Omitting (r : Run) : Type 0 where
  pub state : reads_r2 r.state ≡ false
  pub param : (param_no r2 == param_no r.param) ≡ false
  pub uri : Omits r.uri

-- What a result satisfies, if there is one.
abbrev pub Ok : {A : Type 0} → (A → Type 0) → Outcome A → Type 0
Ok P (ok a) = P a
Ok P (err f) = Unit

pub still_at_user-Ok : (p : ℕ) (r : Run) → Omitting r → Ok Omitting (still_at_user p r)
unfolding still_at_user reads_r2
still_at_user-Ok p r h = ground arith

pub goto-Omitting :
    (st : State) (r : Run) → reads_r2 st ≡ false → Omitting r → Omitting (record r { state = st })
goto-Omitting st r e h = ground arith

pub semicolon-Omitting : (r : Run) → Omitting r → Omitting (semicolon r)
unfolding semicolon reads_r2
semicolon-Omitting r h = ground arith

pub question-Omitting : (p : ℕ) (r : Run) → Omitting r → Omitting (question p r)
unfolding question reads_r2
question-Omitting p r h = ground arith

pub colon-Omitting : (p : ℕ) (r : Run) → Omitting r → Omitting (colon p r)
unfolding colon reads_r2
colon-Omitting p r h = ground arith

pub set_param-other :
    (q : Param) (t : Text) (m : Param → Text)
    → (param_no r2 == param_no q) ≡ false
    → set_param q t m r2 ≡ m r2
unfolding set_param
set_param-other q t m e = rw e refl

pub Ok-if :
    {A : Type 0} (P : A → Type 0) (b : Bool) (x y : Outcome A)
    → Ok P x
    → Ok P y
    → Ok P (if b then x else y)
Ok-if P true x y g h = g
Ok-if P false x y g h = h

pub param_set-Ok : (p : ℕ) (r : Run) → Omitting r → Ok Omitting (param_set p r)
unfolding param_set
param_set-Ok p r h = Ok-if Omitting (param_no r.param == 0) _ _ tt (record {
  state = h.state;
  param = h.param;
  uri = record {
    known = set_param-other r.param (span r.b p) r.uri.known h.param ∙ h.uri.known;
    value = set_param-other r.param (span r.v p) r.uri.value h.param ∙ h.uri.value;
  };
})

-- The four cases that the `switch`es on a parameter share, and the rest.
cases-Ok :
    (c : ℕ) (x y z w o : Outcome Run)
    → Ok Omitting x
    → Ok Omitting y
    → Ok Omitting z
    → Ok Omitting w
    → Ok Omitting o
    → Ok Omitting (
        if c == b'@'
        then x
        else if c == b';'
        then y
        else if c == b'?'
        then z
        else if c == b':'
        then w
        else o)
cases-Ok c x y z w o a b d e f = Ok-if Omitting (c == b'@') _ _ a (
    Ok-if Omitting (c == b';') _ _ b
      (Ok-if Omitting (c == b'?') _ _ d (Ok-if Omitting (c == b':') _ _ e f)))

pub param_common-Ok :
    (other : Outcome Run) (c p : ℕ) (r : Run)
    → Omitting r
    → Ok Omitting other
    → Ok Omitting (param_common other c p r)
unfolding param_common
param_common-Ok other c p r h k =
    cases-Ok c (still_at_user p r) (ok (semicolon r)) (ok (question p r)) (ok (colon p r)) other
      (still_at_user-Ok p r h) (semicolon-Omitting r h) (question-Omitting p r h)
      (colon-Omitting p r h) k

pub value_common-Ok :
    (other : Outcome Run) (c p : ℕ) (r : Run)
    → Omitting r
    → Ok Omitting other
    → Ok Omitting (value_common other c p r)
unfolding value_common reads_r2
value_common-Ok other c p r h k =
    cases-Ok c (still_at_user p r) (param_set p (semicolon r)) (param_set p (question p r))
      (goto uri_val_p (colon p r)) other (still_at_user-Ok p r h)
      (param_set-Ok p _ (semicolon-Omitting r h)) (param_set-Ok p _ (question-Omitting p r h))
      (goto-Omitting uri_val_p _ refl (colon-Omitting p r h)) k

-- What follows a `param_set` at the end of a value.
transport-Ok :
    (n p : ℕ) (r : Run) → Omitting r → Ok Omitting (do r' ← param_set p r; ok (set_proto n r'))
transport-Ok n p r h = go (param_set p r) (param_set-Ok p r h)
  where
    go : (o : Outcome Run) → Ok Omitting o → Ok Omitting (do r' ← o; ok (set_proto n r'))
    go (ok r') g = record {
      state = g.state;
      param = g.param;
      uri = record { known = g.uri.known; value = g.uri.value };
    }
    go (err f) g = tt

pub transport_fin-Ok : (n c p : ℕ) (r : Run) → Omitting r → Ok Omitting (transport_fin n c p r)
unfolding transport_fin reads_r2
transport_fin-Ok n c p r h =
    cases-Ok c (still_at_user p r) (do r' ← param_set p (semicolon r); ok (set_proto n r'))
      (do r' ← param_set p (question p r); ok (set_proto n r')) (goto uri_val_p (colon p r))
      (goto uri_val_p r) (still_at_user-Ok p r h) (transport-Ok n p _ (semicolon-Omitting r h))
      (transport-Ok n p _ (question-Omitting p r h))
      (goto-Omitting uri_val_p _ refl (colon-Omitting p r h)) (goto-Omitting uri_val_p r refl h)

pub check_host_end-Ok :
    (other : Outcome Run) (c p : ℕ) (r : Run)
    → Omitting r
    → Ok Omitting other
    → Ok Omitting (check_host_end other c p r)
unfolding check_host_end reads_r2
check_host_end-Ok other c p r h k = ground arith

pub param_switch-Ok :
    (c1 c2 : ℕ) (new : State) (c p : ℕ) (r : Run)
    → reads_r2 new ≡ false
    → Omitting r
    → Ok Omitting (param_switch c1 c2 new c p r)
unfolding param_switch reads_r2
param_switch-Ok c1 c2 new c p r e h =
    Ok-if Omitting (c == c1 || c == c2) _ _ (goto-Omitting new r e h)
      (param_common-Ok (goto uri_param_p r) c p r h (goto-Omitting uri_param_p r refl h))

pub param_switch1-Ok :
    (c1 : ℕ) (new : State) (c p : ℕ) (r : Run)
    → reads_r2 new ≡ false
    → Omitting r
    → Ok Omitting (param_switch1 c1 new c p r)
unfolding param_switch1 reads_r2
param_switch1-Ok c1 new c p r e h =
    Ok-if Omitting (c == c1) _ _ (goto-Omitting new r e h)
      (param_common-Ok (goto uri_param_p r) c p r h (goto-Omitting uri_param_p r refl h))

pub param_switch_big-Ok :
    (c1 c2 d1 d2 : ℕ) (new_c new_d : State) (c p : ℕ) (r : Run)
    → reads_r2 new_c ≡ false
    → reads_r2 new_d ≡ false
    → Omitting r
    → Ok Omitting (param_switch_big c1 c2 d1 d2 new_c new_d c p r)
unfolding param_switch_big reads_r2
param_switch_big-Ok c1 c2 d1 d2 new_c new_d c p r e f h =
    Ok-if Omitting (c == c1 || c == c2) _ _ (goto-Omitting new_c r e h) (
      Ok-if Omitting (c == d1 || c == d2) _ _ (goto-Omitting new_d r f h)
        (param_common-Ok (goto uri_param_p r) c p r h (goto-Omitting uri_param_p r refl h)))

pub value_switch-Ok :
    (c1 c2 : ℕ) (new : State) (c p : ℕ) (r : Run)
    → reads_r2 new ≡ false
    → Omitting r
    → Ok Omitting (value_switch c1 c2 new c p r)
unfolding value_switch reads_r2
value_switch-Ok c1 c2 new c p r e h =
    Ok-if Omitting (c == c1 || c == c2) _ _ (goto-Omitting new r e h)
      (value_common-Ok (goto uri_val_p r) c p r h (goto-Omitting uri_val_p r refl h))

pub value_switch_big-Ok :
    (c1 c2 d1 d2 : ℕ) (new_c new_d : State) (c p : ℕ) (r : Run)
    → reads_r2 new_c ≡ false
    → reads_r2 new_d ≡ false
    → Omitting r
    → Ok Omitting (value_switch_big c1 c2 d1 d2 new_c new_d c p r)
unfolding value_switch_big reads_r2
value_switch_big-Ok c1 c2 d1 d2 new_c new_d c p r e f h =
    Ok-if Omitting (c == c1 || c == c2) _ _ (goto-Omitting new_c r e h) (
      Ok-if Omitting (c == d1 || c == d2) _ _ (goto-Omitting new_d r f h)
        (value_common-Ok (goto uri_val_p r) c p r h (goto-Omitting uri_val_p r refl h)))
