-- ===== src/Parser/Uri/Inside/Rounds.antt =====
-- src/core/parser/parse_uri.c: the rounds before the parameters, those of the headers, and all of them.
use opensips_ng.Prelude.{ℕ, ◌+◌, ◌-◌, ◌*◌, ◌%◌, ◌^◌, ◌≡◌, refl, true, false, inl, arith}
use opensips_ng.Parser.Memory.{Text}
use opensips_ng.Parser.Uri.State.{
  SipUri, no_text, span, State, Run, Outcome, uri_user, uri_password, uri_password_alpha, uri_host,
  uri_host_p, uri_host6_p, uri_host6_end, uri_port, uri_param, uri_headers,
}
use opensips_ng.Parser.Uri.Cases.{check_host_end}
use opensips_ng.Parser.Uri.Step.{
  step_init, step_user, was_port, step_password, step_password_alpha, step_host, step_host6,
  step_port, step_headers,
}
use opensips_ng.Parser.Uri.Inside.{
  TextIn, UriIn, Core, CoreOf, HostOf, Inv, is_late, has_name, has_value, TextIn-span,
}
use opensips_ng.Parser.Uri.Inside.Macros.{
  colon_pass-Inv, drop_pass-Inv, Core-next, Host-next, still_at_user-Good,
}
use opensips_ng.Parser.Uri.Inside.Steps.{Next, goto_early-Inv, stay-Inv}

-- Behind a delimiter `s` is the next address.
skip-Core :
    (lo p : ℕ) (r : Run) (u : SipUri)
    → CoreOf lo p (p + 1) r
    → UriIn lo (p + 1) u
    → Core lo (p + 1) (p + 1) (p + 1) r.b r.v r.pass u
skip-Core lo p r u k h = record {
  low = omega (arith, k.low, k.s_le);
  s_le = omega arith;
  b_le = omega (arith, k.b_le);
  v_le = omega (arith, k.v_le);
  pass_lt = omega (arith, k.pass_lt);
  uri = h;
}

before-Inv :
    (lo p : ℕ) (r : Run)
    → CoreOf lo p p r
    → (r.found_user ≡ false → r.pass ≡ 0)
    → is_late r.state ≡ false
    → has_name r.state ≡ false
    → has_value r.state ≡ false
    → Inv lo p p r
before-Inv lo p r k z l n v = record {
  core = k;
  host = λ e. ground arith;
  early = λ e. z;
  named = λ e. ground arith;
  valued = λ e. ground arith;
}

behind-Inv :
    (lo p : ℕ) (r : Run)
    → CoreOf lo p p r
    → HostOf lo p r
    → is_late r.state ≡ true
    → has_name r.state ≡ false
    → has_value r.state ≡ false
    → Inv lo p p r
behind-Inv lo p r k h l n v = record {
  core = k;
  host = λ e. h;
  early = λ e. ground arith;
  named = λ e. ground arith;
  valued = λ e. ground arith;
}

-- The members one by one.
module _ (lo hi : ℕ) (u : SipUri) (t : Text) (h : UriIn lo hi u) (k : TextIn lo hi t) where
  user-UriIn : UriIn lo hi (record u { user = t })
  user-UriIn = ground arith

  passwd-UriIn : UriIn lo hi (record u { passwd = t })
  passwd-UriIn = ground arith

  pub host-UriIn : UriIn lo hi (record u { host = t })
  host-UriIn = ground arith

  pub port-UriIn : (n : ℕ) → UriIn lo hi (record u { port = t; port_no = n })
  port-UriIn n = ground arith

  pub was_port-UriIn :
      (n : ℕ) → UriIn lo hi (record u { port = t; port_no = n; host = u.user; user = no_text })
  was_port-UriIn n = ground arith

module _ (lo c p : ℕ) (r : Run) (k : CoreOf lo p (p + 1) r)
    (z : r.found_user ≡ false → r.pass ≡ 0) where
  here : TextIn lo (p + 1) (span r.s p)
  here = TextIn-span lo (p + 1) r.s p k.low k.s_le (omega arith)

  found_host : SipUri
  found_host = record r.uri { host = span r.s p }

  -- The host is known, and the user may still come.
  host_known : HostOf lo (p + 1) (record r { uri = record r.uri { host = span r.s p } })
  host_known e = (k.low, omega (arith, k.s_le), inl (z e))

  pub init-Good : Next lo p (step_init c p r)
  unfolding step_init is_late has_name has_value
  init-Good = ground (
    arith,
    goto_early-Inv lo p uri_user r k z refl refl refl,
    before-Inv lo (p + 1) (record r { state = uri_host6_p; s = p }) (ground arith) z refl refl refl,
  )

  pub user-Good : r.state ≡ uri_user → Next lo p (step_user c p r)
  unfolding step_user is_late has_name has_value
  user-Good e = ground (
    arith,
    before-Inv lo (p + 1)
        (record r {
          uri = record r.uri { user = span r.s p };
          state = uri_host;
          found_user = true;
          s = p + 1;
        })
        (skip-Core lo p r _ k (user-UriIn lo (p + 1) r.uri (span r.s p) k.uri here))
        (λ e. ground arith) refl refl refl,
    before-Inv lo (p + 1)
        (record r { uri = record r.uri { user = span r.s p }; state = uri_password; s = p + 1 })
        (skip-Core lo p r _ k (user-UriIn lo (p + 1) r.uri (span r.s p) k.uri here)) z refl refl
        refl,
    behind-Inv lo (p + 1)
        (record r { uri = record r.uri { host = span r.s p }; state = uri_param; s = p + 1 })
        (skip-Core lo p r _ k (host-UriIn lo (p + 1) r.uri (span r.s p) k.uri here)) host_known refl
        refl refl,
    behind-Inv lo (p + 1)
        (record r { uri = record r.uri { host = span r.s p }; state = uri_headers; s = p + 1 })
        (skip-Core lo p r _ k (host-UriIn lo (p + 1) r.uri (span r.s p) k.uri here)) host_known refl
        refl refl,
    goto_early-Inv lo p uri_user r k z refl refl refl,
  )

  was_port-Inv :
      (new : State)
      → is_late new ≡ true
      → has_name new ≡ false
      → has_value new ≡ false
      → Inv lo (p + 1) (p + 1) (was_port p new r)
  unfolding was_port
  was_port-Inv new l n v =
      behind-Inv lo (p + 1) (was_port p new r)
        (skip-Core lo p r _ k
          (was_port-UriIn lo (p + 1) r.uri (span r.s p) k.uri here (r.port_no % 2 ^ 16)))
        (λ e. ground arith) l n v

  -- The user and the password are found.
  with_password-Inv :
      (n : ℕ)
      → Inv lo (p + 1) (p + 1) (record r {
        uri = record r.uri { passwd = span r.s p };
        port_no = n;
        state = uri_host;
        found_user = true;
        s = p + 1;
      })
  unfolding is_late has_name has_value
  with_password-Inv n =
      before-Inv lo (p + 1)
        (record r {
          uri = record r.uri { passwd = span r.s p };
          port_no = n;
          state = uri_host;
          found_user = true;
          s = p + 1;
        })
        (skip-Core lo p r _ k (passwd-UriIn lo (p + 1) r.uri (span r.s p) k.uri here))
        (λ e. ground arith) refl refl refl

  -- The state and the port number change.
  port_no-Inv :
      (n : ℕ) (st : State)
      → is_late st ≡ false
      → has_name st ≡ false
      → has_value st ≡ false
      → Inv lo (p + 1) (p + 1) (record r { port_no = n; state = st })
  port_no-Inv n st l m v =
      before-Inv lo (p + 1) (record r { port_no = n; state = st }) (Core-next lo p r k) z l m v

  pub password-Good : r.state ≡ uri_password → Next lo p (step_password c p r)
  unfolding step_password is_late has_name has_value
  password-Good e = ground (
    arith,
    with_password-Inv 0,
    was_port-Inv uri_param refl refl refl,
    was_port-Inv uri_headers refl refl refl,
    port_no-Inv (r.port_no * 10 + (c - b'0')) uri_password refl refl refl,
    port_no-Inv 0 uri_password_alpha refl refl refl,
  )

  pub password_alpha-Good : r.state ≡ uri_password_alpha → Next lo p (step_password_alpha c p r)
  unfolding step_password_alpha is_late has_name has_value
  password_alpha-Good e = ground (
    arith,
    with_password-Inv r.port_no,
    goto_early-Inv lo p uri_password_alpha r k z refl refl refl,
  )

  pub host-Good : Next lo p (step_host c p r)
  unfolding step_host is_late has_name has_value
  host-Good = ground (
    arith,
    goto_early-Inv lo p uri_host6_p r k z refl refl refl,
    goto_early-Inv lo p uri_host_p r k z refl refl refl,
  )

  pub host6-Good : r.state ≡ uri_host6_p → Next lo p (step_host6 c p r)
  unfolding step_host6 is_late has_name has_value
  host6-Good e = ground (
    arith,
    goto_early-Inv lo p uri_host6_end r k z refl refl refl,
    goto_early-Inv lo p uri_host6_p r k z refl refl refl,
  )

  host_found-Inv :
      (new : State)
      → is_late new ≡ true
      → has_name new ≡ false
      → has_value new ≡ false
      → Inv lo
          (p + 1)
          (p + 1)
          (record r { uri = record r.uri { host = span r.s p }; s = p + 1; state = new })
  host_found-Inv new l n v =
      behind-Inv lo (p + 1)
        (record r { uri = record r.uri { host = span r.s p }; s = p + 1; state = new })
        (skip-Core lo p r _ k (host-UriIn lo (p + 1) r.uri (span r.s p) k.uri here)) host_known l n
        v

  pub host_end-Good :
      (other : Outcome Run) → Next lo p other → Next lo p (check_host_end other c p r)
  unfolding check_host_end is_late has_name has_value
  host_end-Good other o = ground (
    arith,
    host_found-Inv uri_port refl refl refl,
    host_found-Inv uri_param refl refl refl,
    host_found-Inv uri_headers refl refl refl,
    o,
  )

module _ (lo c p : ℕ) (r : Run) (i : Inv lo p (p + 1) r) where
  port_found-Inv :
      (new : State)
      → is_late new ≡ true
      → has_name new ≡ false
      → has_value new ≡ false
      → HostOf lo p r
      → Inv lo (p + 1) (p + 1) (record r {
        uri = record r.uri { port = span r.s p; port_no = r.port_no % 2 ^ 16 };
        s = p + 1;
        state = new;
      })
  port_found-Inv new l n v h =
      behind-Inv lo (p + 1)
        (record r {
          uri = record r.uri { port = span r.s p; port_no = r.port_no % 2 ^ 16 };
          s = p + 1;
          state = new;
        })
        (skip-Core lo p r _ i.core (
          port-UriIn lo (p + 1) r.uri (span r.s p) i.core.uri
            (TextIn-span lo (p + 1) r.s p i.core.low i.core.s_le (omega arith))
            (r.port_no % 2 ^ 16)))
        (Host-next lo p r h) l n v

  digit-Inv : (n : ℕ) → Inv lo (p + 1) (p + 1) (record r { port_no = n })
  digit-Inv n =
      let j = stay-Inv lo p r i in
      record { core = j.core; host = j.host; early = j.early; named = j.named; valued = j.valued }

  pub port-Good : HostOf lo p r → Next lo p (step_port c p r)
  unfolding step_port is_late has_name has_value
  port-Good h = ground (
    arith,
    port_found-Inv uri_param refl refl refl h,
    port_found-Inv uri_headers refl refl refl h,
    digit-Inv (r.port_no * 10 + (c - b'0')),
  )

  error_headers-Inv : Inv lo (p + 1) (p + 1) (record r { error_headers = true })
  error_headers-Inv =
      let j = stay-Inv lo p r i in
      record { core = j.core; host = j.host; early = j.early; named = j.named; valued = j.valued }

  pub headers-Good : is_late r.state ≡ true → HostOf lo p r → Next lo p (step_headers c p r)
  unfolding step_headers
  headers-Good l h = ground (
    arith,
    still_at_user-Good lo p r i.core h,
    stay-Inv lo p r i,
    error_headers-Inv,
    colon_pass-Inv lo p r i l,
    drop_pass-Inv lo p r i l,
  )
