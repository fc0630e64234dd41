-- ===== src/Parser/Uri/Roundtrip.antt =====
-- src/core/parser/parse_uri.c: URIs put together from their parts.
use opensips_ng.Prelude.{
  ltb, ℕ, suc, ◌+◌, ◌-◌, ◌%◌, ◌^◌, ◌≡◌, ◌∙◌, refl, true, false, not, arith, inl, inr,
}
use opensips_ng.Parser.Memory.{Memory}
use opensips_ng.Parser.Uri.State.{
  SipUri, empty_uri, span, Run, sip_uri_t, uri_user, uri_password, uri_host, uri_host_p, uri_port,
  ok,
}
use opensips_ng.Parser.Uri.Cases.{goto, check_host_end, is_digit}
use opensips_ng.Parser.Uri.Step.{
  step, step_init, step_user, step_password, step_password_alpha, step_host,
}
use opensips_ng.Parser.Uri.Parse.{
  loop, start, finish, is_phone, as_phone, fix_as, scheme, scheme_type, parse_uri,
}
use opensips_ng.Parser.Uri.Reads.{
  Plain, ends_user, ends_host, number, loop-next, loop-part, keeps_user, keeps_host, loop-digits,
  loop-password,
}

-- Where the parts of `sip:user:password@host:port` end, by their lengths; the user and the host have a byte more.
abbrev pub user_end : ℕ → ℕ → ℕ
user_end buf user = buf + 4 + 1 + user

abbrev pub password_end : ℕ → ℕ → ℕ → ℕ
password_end buf user password = user_end buf user + 1 + password

abbrev pub host_end : ℕ → ℕ → ℕ → ℕ → ℕ
host_end buf user password host = password_end buf user password + 1 + 1 + host

-- The bytes of `sip:user:password@host:port`.
pub record IsFull (mem : Memory) (buf user password host port : ℕ) : Type 0 where
  pub s : mem buf ≡ b's'
  pub i : mem (buf + 1) ≡ b'i'
  pub p : mem (buf + 2) ≡ b'p'
  pub colon : mem (buf + 3) ≡ b':'
  pub user_bytes : Plain ends_user mem (buf + 4) (suc user)
  pub user_colon : mem (user_end buf user) ≡ b':'
  pub password_bytes : Plain ends_user mem (user_end buf user + 1) password
  pub password_at : mem (password_end buf user password) ≡ b'@'
  pub host_bytes : Plain ends_host mem (password_end buf user password + 1) (suc host)
  pub host_colon : mem (host_end buf user password host) ≡ b':'
  pub port_digits : Plain (λ c. not (is_digit c)) mem (host_end buf user password host + 1) port

-- What `parse_uri` makes of them.
abbrev pub full_uri : Memory → ℕ → ℕ → ℕ → ℕ → ℕ → SipUri
full_uri mem buf user password host port = record (empty_uri sip_uri_t) {
  user = span (buf + 4) (user_end buf user);
  passwd = span (user_end buf user + 1) (password_end buf user password);
  host = span (password_end buf user password + 1) (host_end buf user password host);
  port = span (host_end buf user password host + 1) (host_end buf user password host + 1 + port);
  port_no = number mem (host_end buf user password host + 1) port 0 % 2 ^ 16;
}

scheme-sip :
    (mem : Memory) (buf : ℕ)
    → mem buf ≡ b's'
    → mem (buf + 1) ≡ b'i'
    → mem (buf + 2) ≡ b'p'
    → mem (buf + 3) ≡ b':'
    → scheme_type mem buf ≡ ok (sip_uri_t, buf + 4)
unfolding scheme_type scheme
scheme-sip mem buf a b c d = rw (a, b, c, d) refl

init_user : (r : Run) (c p : ℕ) → ends_user c ≡ false → step_init c p r ≡ goto uri_user r
unfolding step_init
init_user r c p h = ground arith

host_first : (r : Run) (c p : ℕ) → ends_host c ≡ false → step_host c p r ≡ goto uri_host_p r
unfolding step_host
host_first r c p h = ground arith

module _ (mem : Memory) (buf user password host port : ℕ)
    (f : IsFull mem buf user password host port) where
  after_user : Run
  after_user = record (start sip_uri_t (buf + 4)) {
    state = uri_password;
    s = user_end buf user + 1;
    uri = record (empty_uri sip_uri_t) { user = span (buf + 4) (user_end buf user) };
  }

  after_password : Run
  after_password = record after_user {
    state = uri_host;
    found_user = true;
    s = password_end buf user password + 1;
    uri = record (empty_uri sip_uri_t) {
      user = span (buf + 4) (user_end buf user);
      passwd = span (user_end buf user + 1) (password_end buf user password);
    };
  }

  after_host : Run
  after_host = record after_password {
    state = uri_port;
    s = host_end buf user password host + 1;
    uri = record after_password.uri {
      host = span (password_end buf user password + 1) (host_end buf user password host);
    };
  }

  loop-user :
      (k : ℕ)
      → loop (user + 2 + k) mem (buf + 4) (start sip_uri_t (buf + 4))
        ≡ loop k mem (user_end buf user + 1) after_user
  unfolding step step_user after_user
  loop-user k =
      let r : Run = record (start sip_uri_t (buf + 4)) { state = uri_user } in
      loop-next (user + 2 + k) (user + 1 + k) mem (buf + 4) (start sip_uri_t (buf + 4)) r
        (omega arith)
        (init_user (start sip_uri_t (buf + 4)) (mem (buf + 4)) (buf + 4) f.user_bytes.0)
      ∙ loop-part ends_user user (user + 1 + k) (suc k) mem (buf + 4 + 1) r (keeps_user r)
          f.user_bytes.1 (omega arith)
      ∙ loop-next (suc k) k mem (user_end buf user) r after_user refl (rw f.user_colon refl)

  loop-password_at :
      (k : ℕ)
      → loop (password + 1 + k) mem (user_end buf user + 1) after_user
        ≡ loop k mem (password_end buf user password + 1) after_password
  unfolding step step_password step_password_alpha after_user after_password
  loop-password_at k =
      let (v, e) =
        loop-password password (password + 1 + k) (suc k) mem (user_end buf user + 1) after_user
          f.password_bytes (omega arith) in
      elim e [
        | inl x ↦
            x
            ∙ loop-next (suc k) k mem (password_end buf user password) _ after_password refl
                (rw f.password_at refl)
        | inr x ↦
            x
            ∙ loop-next (suc k) k mem (password_end buf user password) _ after_password refl
                (rw f.password_at refl)
      ]

  loop-host :
      (k : ℕ)
      → loop (host + 2 + k) mem (password_end buf user password + 1) after_password
        ≡ loop k mem (host_end buf user password host + 1) after_host
  unfolding step check_host_end after_password after_host after_user
  loop-host k =
      let p = password_end buf user password + 1 in
      let r : Run = record after_password { state = uri_host_p } in
      loop-next (host + 2 + k) (host + 1 + k) mem p after_password r (omega arith)
        (host_first after_password (mem p) p f.host_bytes.0)
      ∙ loop-part ends_host host (host + 1 + k) (suc k) mem (p + 1) r (keeps_host r) f.host_bytes.1
          (omega arith)
      ∙ loop-next (suc k) k mem (host_end buf user password host) r after_host refl
          (rw f.host_colon refl)

  loop-full :
      loop
        (user + 2 + (password + 1 + (host + 2 + (port + 0))))
        mem
        (buf + 4)
        (start sip_uri_t (buf + 4))
      ≡ ok (record after_host { port_no = number mem (host_end buf user password host + 1) port 0 })
  unfolding loop after_host after_password after_user
  loop-full =
      loop-user (password + 1 + (host + 2 + (port + 0)))
      ∙ loop-password_at (host + 2 + (port + 0))
      ∙ loop-host (port + 0)
      ∙ loop-digits port (port + 0) 0 mem (host_end buf user password host + 1) after_host refl
          f.port_digits refl

  -- Of `sip:user:password@host:port`, where the parts hold none of the delimiters, the user and the host are not
  -- empty and the port has digits only, `parse_uri` makes exactly these parts, with the value of the port in 16 bits.
  pub parse_uri-full :
      (nul : ℕ)
      → parse_uri mem nul buf (host_end buf user password host + 1 + port - buf)
        ≡ ok (full_uri mem buf user password host port)
  unfolding parse_uri finish fix_as as_phone is_phone after_host after_password after_user
  parse_uri-full nul =
      let end = host_end buf user password host + 1 + port in
      let long : ltb (end - buf) 5 ≡ false = ground arith in
      let count : buf + (end - buf) - (buf + 4)
          ≡ user + 2 + (password + 1 + (host + 2 + (port + 0))) =
        omega arith in
      let ends : buf + (end - buf) ≡ end = omega arith in
      rw (long, scheme-sip mem buf f.s f.i f.p f.colon, count, loop-full, ends) refl
