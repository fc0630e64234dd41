-- ===== src/Parser/Uri/Inside/Macros.antt =====
-- src/core/parser/parse_uri.c: the macros keep the invariant.
use opensips_ng.Prelude.{ℕ, ◌+◌, ◌≤◌, ◌≡◌, refl, true, false, ◌==◌, arith}
use opensips_ng.Parser.Memory.{Text}
use opensips_ng.Parser.Uri.State.{
  Param, param_no, SipUri, span, set_param, State, Run, Outcome, uri_val_p, ok, err, ◌>>=◌,
}
use opensips_ng.Parser.Uri.Cases.{
  still_at_user, drop_pass, semicolon, question, colon_pass, colon, param_set, param_common,
  value_common, transport_fin, set_proto,
}
use opensips_ng.Parser.Uri.Inside.{
  TextIn, UriIn, CoreOf, HostOf, Valued, Inv, Good, is_late, has_name, has_value, TextIn-span,
  set_param-TextIn, empty_uri-UriIn,
}

pub still_at_user-Good :
    (lo p : ℕ) (r : Run)
    → CoreOf lo p (p + 1) r
    → HostOf lo p r
    → Good (Inv lo (p + 1) (p + 1)) (still_at_user p r)
unfolding still_at_user is_late has_name has_value
still_at_user-Good lo p r c h =
    ground (arith, TextIn-span lo (p + 1), empty_uri-UriIn lo (p + 1) r.uri.type)

pub Core-next : (lo p : ℕ) (r : Run) → CoreOf lo p (p + 1) r → CoreOf lo (p + 1) (p + 1) r
Core-next lo p r c = ground arith

pub Host-next : (lo p : ℕ) (r : Run) → HostOf lo p r → HostOf lo (p + 1) r
Host-next lo p r h e = let g = h e in (g.0, omega (arith, g.1), g.2)

pub params-UriIn :
    (lo hi : ℕ) (u : SipUri) (q : Param) (name value : Text)
    → UriIn lo hi u
    → TextIn lo hi name
    → TextIn lo hi value
    → UriIn lo hi (record u { known = set_param q name u.known; value = set_param q value u.value })
params-UriIn lo hi u q name value h k l = record {
  user = h.user;
  passwd = h.passwd;
  host = h.host;
  port = h.port;
  params = h.params;
  headers = h.headers;
  known = set_param-TextIn lo hi q name u.known k h.known;
  value = set_param-TextIn lo hi q value u.value l h.value;
}

pub param_set-Good :
    (lo p hi : ℕ) (r : Run)
    → p ≤ hi
    → Inv lo hi hi r
    → lo ≤ r.b
    → r.b ≤ p
    → Valued lo r
    → r.v ≤ p
    → Good (Inv lo hi hi) (param_set p r)
unfolding param_set
param_set-Good lo p hi r l i b b' v v' =
    let set : (param_no r.param == 0) ≡ false = ground (arith, v.1) in
    rw set (record {
      core = record {
        low = i.core.low;
        s_le = i.core.s_le;
        b_le = i.core.b_le;
        v_le = i.core.v_le;
        pass_lt = i.core.pass_lt;
        uri =
            params-UriIn lo hi r.uri r.param (span r.b p) (span r.v p) i.core.uri
              (TextIn-span lo hi r.b p b b' l) (TextIn-span lo hi r.v p v.0 v' l);
      };
      host = i.host;
      early = i.early;
      named = i.named;
      valued = i.valued;
    })

pub semicolon-Inv :
    (lo p : ℕ) (r : Run)
    → CoreOf lo p (p + 1) r
    → HostOf lo p r
    → Inv lo (p + 1) (p + 1) (semicolon r)
unfolding semicolon is_late has_name has_value
semicolon-Inv lo p r c h = ground arith

pub question-Inv :
    (lo p : ℕ) (r : Run)
    → CoreOf lo p (p + 1) r
    → HostOf lo p r
    → Inv lo (p + 1) (p + 1) (question p r)
unfolding question is_late has_name has_value
question-Inv lo p r c h = ground (arith, TextIn-span lo (p + 1))

pub colon_pass-Inv :
    (lo p : ℕ) (r : Run)
    → Inv lo p (p + 1) r
    → is_late r.state ≡ true
    → Inv lo (p + 1) (p + 1) (colon_pass p r)
unfolding colon_pass
colon_pass-Inv lo p r i l = ground arith

pub drop_pass-Inv :
    (lo p : ℕ) (r : Run)
    → Inv lo p (p + 1) r
    → is_late r.state ≡ true
    → Inv lo (p + 1) (p + 1) (drop_pass r)
unfolding drop_pass
drop_pass-Inv lo p r i l = ground arith

pub colon-Inv :
    (lo p : ℕ) (r : Run)
    → CoreOf lo p (p + 1) r
    → HostOf lo p r
    → Inv lo (p + 1) (p + 1) (colon p r)
unfolding colon colon_pass is_late has_name has_value
colon-Inv lo p r c h = ground arith

pub param_common-Good :
    (lo c p : ℕ) (r : Run) (other : Outcome Run)
    → CoreOf lo p (p + 1) r
    → HostOf lo p r
    → Good (Inv lo (p + 1) (p + 1)) other
    → Good (Inv lo (p + 1) (p + 1)) (param_common other c p r)
unfolding param_common
param_common-Good lo c p r other k h o = ground (
  arith,
  still_at_user-Good lo p r k h,
  semicolon-Inv lo p r k h,
  question-Inv lo p r k h,
  colon-Inv lo p r k h,
)

-- `b`, `v` and `param` stay as they are.
pub record Kept (r r' : Run) : Type 0 where
  pub b : r'.b ≡ r.b
  pub v : r'.v ≡ r.v
  pub param : r'.param ≡ r.param

pub semicolon-Kept : (r : Run) → Kept r (semicolon r)
unfolding semicolon
semicolon-Kept r = ground arith

pub question-Kept : (p : ℕ) (r : Run) → Kept r (question p r)
unfolding question
question-Kept p r = ground arith

colon-Kept : (p : ℕ) (r : Run) → Kept r (colon p r)
unfolding colon colon_pass
colon-Kept p r = ground arith

all-Good :
    (lo p : ℕ) (r r' : Run)
    → CoreOf lo p (p + 1) r
    → lo ≤ r.b
    → Valued lo r
    → Kept r r'
    → Inv lo (p + 1) (p + 1) r'
    → Good (Inv lo (p + 1) (p + 1)) (param_set p r')
all-Good lo p r r' c b v k i =
    param_set-Good lo p (p + 1) r' (omega arith) i (omega (arith, b, k.b))
      (omega (arith, c.b_le, k.b)) (omega (arith, v.0, k.v), rw k.param v.1)
      (omega (arith, c.v_le, k.v))

set_proto-Good :
    (lo p n : ℕ) (o : Outcome Run)
    → Good (Inv lo p p) o
    → Good (Inv lo p p) (do r' ← o; ok (set_proto n r'))
set_proto-Good lo p n (err f) g = g
set_proto-Good lo p n (ok r) g = record {
  core = record {
    low = g.core.low;
    s_le = g.core.s_le;
    b_le = g.core.b_le;
    v_le = g.core.v_le;
    pass_lt = g.core.pass_lt;
    uri = ground arith;
  };
  host = g.host;
  early = g.early;
  named = g.named;
  valued = g.valued;
}

-- A colon in a value.
colon_value-Inv :
    (lo p : ℕ) (r : Run)
    → CoreOf lo p (p + 1) r
    → HostOf lo p r
    → lo ≤ r.b
    → Valued lo r
    → Inv lo (p + 1) (p + 1) (record (colon p r) { state = uri_val_p })
unfolding is_late has_name has_value colon
colon_value-Inv lo p r c h b v =
    let k = colon-Kept p r in
    let i = colon-Inv lo p r c h in
    record {
      core = i.core;
      host = λ e. i.host refl;
      early = λ e. ground arith;
      named = λ e. omega (arith, b, k.b);
      valued = λ e. (omega (arith, v.0, k.v), rw k.param v.1);
    }

pub value_common-Good :
    (lo c p : ℕ) (r : Run) (other : Outcome Run)
    → CoreOf lo p (p + 1) r
    → HostOf lo p r
    → lo ≤ r.b
    → Valued lo r
    → Good (Inv lo (p + 1) (p + 1)) other
    → Good (Inv lo (p + 1) (p + 1)) (value_common other c p r)
unfolding value_common
value_common-Good lo c p r other k h b v o = ground (
  arith,
  still_at_user-Good lo p r k h,
  all-Good lo p r (semicolon r) k b v (semicolon-Kept r) (semicolon-Inv lo p r k h),
  all-Good lo p r (question p r) k b v (question-Kept p r) (question-Inv lo p r k h),
  colon_value-Inv lo p r k h b v,
)

-- Another state, which knows what is known.
pub goto_name-Inv :
    (lo p : ℕ) (st : State) (r : Run)
    → is_late st ≡ true
    → CoreOf lo p (p + 1) r
    → HostOf lo p r
    → lo ≤ r.b
    → has_value st ≡ false
    → Inv lo (p + 1) (p + 1) (record r { state = st })
goto_name-Inv lo p st r l c h b n = record {
  core = Core-next lo p r c;
  host = λ e. Host-next lo p r h;
  early = λ e. ground arith;
  named = λ e. b;
  valued = λ e. ground arith;
}

pub goto_value-Inv :
    (lo p : ℕ) (st : State) (r : Run)
    → is_late st ≡ true
    → CoreOf lo p (p + 1) r
    → HostOf lo p r
    → lo ≤ r.b
    → Valued lo r
    → Inv lo (p + 1) (p + 1) (record r { state = st })
goto_value-Inv lo p st r l c h b v = record {
  core = Core-next lo p r c;
  host = λ e. Host-next lo p r h;
  early = λ e. ground arith;
  named = λ e. b;
  valued = λ e. v;
}

pub transport_fin-Good :
    (lo c p n : ℕ) (r : Run)
    → CoreOf lo p (p + 1) r
    → HostOf lo p r
    → lo ≤ r.b
    → Valued lo r
    → Good (Inv lo (p + 1) (p + 1)) (transport_fin n c p r)
unfolding transport_fin is_late has_name has_value
transport_fin-Good lo c p n r k h b v = ground (
  arith,
  still_at_user-Good lo p r k h,
  set_proto-Good lo (p + 1) n _
      (all-Good lo p r (semicolon r) k b v (semicolon-Kept r) (semicolon-Inv lo p r k h)),
  set_proto-Good lo (p + 1) n _
      (all-Good lo p r (question p r) k b v (question-Kept p r) (question-Inv lo p r k h)),
  colon_value-Inv lo p r k h b v,
  goto_value-Inv lo p uri_val_p r refl k h b v,
)
