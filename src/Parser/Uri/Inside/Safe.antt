-- ===== src/Parser/Uri/Inside/Safe.antt =====
-- src/core/parser/parse_uri.c: the members of what `parse_uri` returns lie in the text that it was given.
use mathlib.Core.Path.{subst}
use opensips_ng.Parser.Memory.{Text}
use opensips_ng.Prelude.{
  ◌≡◌, sym, true, Bool, if◌then◌else◌, ℕ, zero, suc, ◌+◌, ◌-◌, ◌≤◌, ◌<◌, ◌⊎◌, refl, ◌==◌, inl, inr,
  arith, Bool-cases, ltb, Each, Option, none, some,
}
use opensips_ng.Parser.Memory.{Memory}
use opensips_ng.Parser.Uri.State.{
  UriType, SipUri, no_text, Outcome, error_uri_t, user_param, sip_uri_t, sips_uri_t, tel_uri_t,
  tels_uri_t, ok, err, ◌>>=◌,
}
use opensips_ng.Parser.Uri.Parse.{
  loop, start, finish, q_memchr, is_phone, move_params, as_phone, fix_as, scheme_type, parse_uri,
}
use opensips_ng.Parser.Uri.Inside.{
  TextIn, UriIn, Inv, Good, is_late, has_name, has_value, TextIn-span, empty_uri-UriIn,
}
use opensips_ng.Parser.Uri.Inside.Rounds.{host-UriIn}
use opensips_ng.Parser.Uri.Inside.Whole.{loop-Good}
use opensips_ng.Parser.Uri.Inside.End.{finish-Good}

-- A byte that is found stands in the range.
pub q_memchr-Each :
    (n : ℕ) (mem : Memory) (p c : ℕ) → Each (λ q. (p ≤ q) × (q < p + n)) (q_memchr n mem p c)
unfolding q_memchr
q_memchr-Each zero mem p c = tt
q_memchr-Each (suc n) mem p c = elim (Bool-cases (mem p == c)) [
  | inl e ↦ rw e (omega arith, omega arith)
  | inr e ↦ rw e (further (q_memchr n mem (p + 1) c) (q_memchr-Each n mem (p + 1) c))
]
  where
    further :
        (o : Option ℕ)
        → Each (λ q. (p + 1 ≤ q) × (q < p + 1 + n)) o
        → Each (λ q. (p ≤ q) × (q < p + suc n)) o
    further none h = tt
    further (some q) h = (omega (arith, h.0), omega (arith, h.1))

phone-UriIn :
    (lo hi p : ℕ) (u : SipUri)
    → UriIn lo hi u
    → u.user.s ≤ p
    → p < u.user.s + u.user.len
    → UriIn lo hi (move_params (some p) u)
unfolding move_params
phone-UriIn lo hi p u h a b =
    let inside : (lo ≤ u.user.s) × (u.user.s + u.user.len ≤ hi) = ground (arith, h.user) in
    record {
      user = TextIn-span lo hi u.user.s p inside.0 a (omega (arith, b, inside.1));
      passwd = h.passwd;
      host = h.host;
      port = h.port;
      params = inr (omega (arith, a, inside.0), omega (arith, b, inside.1));
      headers = h.headers;
      known = h.known;
      value = h.value;
    }

type-UriIn :
    (lo hi : ℕ) (u : SipUri) (t : UriType) → UriIn lo hi u → UriIn lo hi (record u { type = t })
type-UriIn lo hi u t h = ground arith

as_phone-UriIn :
    (lo hi : ℕ) (mem : Memory) (tel : UriType) (u : SipUri)
    → UriIn lo hi u
    → UriIn lo hi (as_phone mem tel u)
unfolding as_phone
as_phone-UriIn lo hi mem tel u h = elim (Bool-cases (is_phone mem u)) [
  | inl e ↦
      rw e (go (q_memchr u.user.len mem u.user.s b';') (q_memchr-Each u.user.len mem u.user.s b';'))
  | inr e ↦ rw e h
]
  where
    go :
        (o : Option ℕ)
        → Each (λ q. (u.user.s ≤ q) × (q < u.user.s + u.user.len)) o
        → UriIn lo hi (move_params o (record u { type = tel }))
    go none k = type-UriIn lo hi u tel h
    go (some p) k = phone-UriIn lo hi p (record u { type = tel }) (type-UriIn lo hi u tel h) k.0 k.1

-- A text is "phone", whatever the case of its letters.
abbrev pub OneOf : ℕ → ℕ → ℕ → Type 0
OneOf c a b = (c ≡ a) ⊎ (c ≡ b)

pub record IsPhone (mem : Memory) (t : Text) : Type 0 where
  pub five : t.len ≡ 5
  pub p : OneOf (mem t.s) b'p' b'P'
  pub h : OneOf (mem (t.s + 1)) b'h' b'H'
  pub o : OneOf (mem (t.s + 2)) b'o' b'O'
  pub n : OneOf (mem (t.s + 3)) b'n' b'N'
  pub e : OneOf (mem (t.s + 4)) b'e' b'E'

-- Where the host is, by the type: a tel URI has the empty literal at `nul`, unless it is a phone number in the form of a
-- sip or sips URI.
abbrev pub HostPlace : UriType → Memory → ℕ → ℕ → ℕ → SipUri → Type 0
HostPlace error_uri_t mem nul lo hi u = ⊥
HostPlace sip_uri_t mem nul lo hi u = TextIn lo hi u.host
HostPlace sips_uri_t mem nul lo hi u = TextIn lo hi u.host
HostPlace tel_uri_t mem nul lo hi u =
    (u.host ≡ record { s = nul; len = 0 })
    ⊎ (IsPhone mem (u.value user_param) × TextIn lo hi u.host)
HostPlace tels_uri_t mem nul lo hi u =
    (u.host ≡ record { s = nul; len = 0 })
    ⊎ (IsPhone mem (u.value user_param) × TextIn lo hi u.host)

-- The host is where it belongs, and the other members lie between two addresses.
pub record Within (mem : Memory) (nul lo hi : ℕ) (u : SipUri) : Type 0 where
  pub host : HostPlace u.type mem nul lo hi u
  pub others : UriIn lo hi (record u { host = no_text })

others_in : (lo hi : ℕ) (u : SipUri) → UriIn lo hi u → UriIn lo hi (record u { host = no_text })
others_in lo hi u h = host-UriIn lo hi u no_text h (inl (refl, refl))

phone : (mem : Memory) (u : SipUri) → is_phone mem u ≡ true → IsPhone mem (u.value user_param)
unfolding is_phone
phone mem u e = ground (arith, e)

as_phone-HostPlace :
    (t tel : UriType) (mem : Memory) (nul lo hi : ℕ) (u : SipUri)
    → u.type ≡ t
    → HostPlace t mem nul lo hi u
    → ((v : SipUri)
        → IsPhone mem (v.value user_param) × TextIn lo hi v.host
        → HostPlace tel mem nul lo hi v)
    → TextIn lo hi u.host
    → HostPlace (as_phone mem tel u).type mem nul lo hi (as_phone mem tel u)
unfolding as_phone move_params
as_phone-HostPlace t tel mem nul lo hi u e s to h = elim (Bool-cases (is_phone mem u)) [
  | inl k ↦ subst at_host (sym k) (go (q_memchr u.user.len mem u.user.s b';') (phone mem u k))
  | inr k ↦ subst at_host (sym k) (subst (λ x. HostPlace x mem nul lo hi u) (sym e) s)
]
  where
    at_host : Bool → Type 0
    at_host b =
        let v =
          if b
          then move_params (q_memchr u.user.len mem u.user.s b';') (record u { type = tel })
          else u in
        HostPlace v.type mem nul lo hi v

    go :
        (o : Option ℕ)
        → IsPhone mem (u.value user_param)
        → HostPlace
            (move_params o (record u { type = tel })).type
            mem
            nul
            lo
            hi
            (move_params o (record u { type = tel }))
    go none k = to _ (k, h)
    go (some p) k = to _ (k, h)

-- A sip or sips URI that stays what it is, or becomes the tel URI `tel`.
as_phone-Within :
    (t tel : UriType) (mem : Memory) (nul lo hi : ℕ) (u : SipUri)
    → u.type ≡ t
    → HostPlace t mem nul lo hi u
    → ((v : SipUri)
        → IsPhone mem (v.value user_param) × TextIn lo hi v.host
        → HostPlace tel mem nul lo hi v)
    → UriIn lo hi u
    → Within mem nul lo hi (as_phone mem tel u)
as_phone-Within t tel mem nul lo hi u e s to h = record {
  host = as_phone-HostPlace t tel mem nul lo hi u e s to h.host;
  others = others_in lo hi _ (as_phone-UriIn lo hi mem tel u h);
}

tel-Within :
    (mem : Memory) (nul lo hi : ℕ) (u : SipUri)
    → HostPlace u.type mem nul lo hi
        (record u { user = u.host; host = record { s = nul; len = 0 } })
    → UriIn lo hi u
    → Within mem nul lo hi (record u { user = u.host; host = record { s = nul; len = 0 } })
tel-Within mem nul lo hi u p h = record { host = p; others = ground (arith, h.host) }

fix_as-Good :
    (t : UriType) (mem : Memory) (nul lo hi : ℕ) (u : SipUri)
    → u.type ≡ t
    → UriIn lo hi u
    → Good (Within mem nul lo hi) (fix_as t mem nul u)
unfolding fix_as
fix_as-Good sip_uri_t mem nul lo hi u e h =
    as_phone-Within sip_uri_t tel_uri_t mem nul lo hi u e h.host (λ v x. inr x) h
fix_as-Good sips_uri_t mem nul lo hi u e h =
    as_phone-Within sips_uri_t tels_uri_t mem nul lo hi u e h.host (λ v x. inr x) h
fix_as-Good tel_uri_t mem nul lo hi u e h = tel-Within mem nul lo hi u (rw e (inl refl)) h
fix_as-Good tels_uri_t mem nul lo hi u e h = tel-Within mem nul lo hi u (rw e (inl refl)) h
fix_as-Good error_uri_t mem nul lo hi u e h = tt

-- The URI goes on behind the fourth byte, or the fifth.
scheme_type-Good :
    (mem : Memory) (buf : ℕ) → Good (λ x. (buf + 4 ≤ x.1) × (x.1 ≤ buf + 5)) (scheme_type mem buf)
unfolding scheme_type
scheme_type-Good mem buf = ground arith

start-Inv : (lo p : ℕ) (t : UriType) → lo ≤ p → 0 < p → Inv lo p p (start t p)
unfolding is_late has_name has_value
start-Inv lo p t h k = record {
  core = record {
    low = h;
    s_le = omega arith;
    b_le = omega arith;
    v_le = omega arith;
    pass_lt = k;
    uri = empty_uri-UriIn lo p t;
  };
  host = λ e. ground arith;
  early = λ e f. refl;
  named = λ e. ground arith;
  valued = λ e. ground arith;
}

Good-bind :
    {A B : Type 0} (P : A → Type 0) (Q : B → Type 0) (o : Outcome A) (k : A → Outcome B)
    → Good P o
    → ((a : A) → P a → Good Q (k a))
    → Good Q (o >>= k)
Good-bind P Q (ok a) k g h = h a g
Good-bind P Q (err f) k g h = g

-- Whatever the bytes are, `parse_uri` returns: -1, and not because it writes through the NULL pointer `param`,
-- or a URI each of whose members is NULL with the length 0 or lies in the text behind its first four bytes,
-- except that the host of a tel or tels URI is the empty literal, unless its parameter user has the value phone.
pub parse_uri-Within :
    (mem : Memory) (nul buf len : ℕ)
    → Good (Within mem nul (buf + 4) (buf + len)) (parse_uri mem nul buf len)
unfolding parse_uri
parse_uri-Within mem nul buf len = elim (Bool-cases (ltb len 5)) [
  | inl e ↦ rw e tt
  | inr e ↦ rw e (
      Good-bind _ _ (scheme_type mem buf) _ (scheme_type-Good mem buf) λ (type, p) g.
        Good-bind _ _ (loop (buf + len - p) mem p (start type p)) _
          (loop-Good (buf + len - p) mem (buf + 4) p (buf + len) (start type p) (ground (arith, g))
            (start-Inv (buf + 4) p type g.0 (omega (arith, g))))
          λ r i.
            Good-bind _ _ (finish r.state (buf + len) r) _
              (finish-Good r.state (buf + 4) (buf + len) r refl i)
              λ u h. fix_as-Good u.type mem nul (buf + 4) (buf + len) u refl h)
]
