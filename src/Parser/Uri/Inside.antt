-- ===== src/Parser/Uri/Inside.antt =====
-- src/core/parser/parse_uri.c: what holds between two rounds of the loop.
pub mod Macros
pub mod Steps
pub mod Rounds
pub mod Whole
pub mod End
pub mod Safe
use opensips_ng.Prelude.{
  ℕ, zero, suc, ◌+◌, ◌-◌, ◌≤◌, ◌<◌, ◌≡◌, ◌⊎◌, refl, Bool, true, false, ◌==◌, inl, inr, arith,
  Bool-cases, if◌then◌else◌,
}
use opensips_ng.Parser.Memory.{Text}
use opensips_ng.Parser.Uri.State.{
  UriType, Param, param_no, SipUri, no_text, empty_uri, span, set_param, State, Run, Fault, Outcome,
  uri_init, uri_user, uri_password, uri_password_alpha, uri_host, uri_host_p, uri_host6_p,
  uri_host6_end, uri_port, uri_param, uri_param_p, uri_val_p, uri_headers, vu_u, vu_d, vu_p_fin,
  vt_t, vt_c, vt_p_fin, vtls_l, vtls_s_fin, vs_s, vs_c, vs_t, vs_p_fin, null_param, ok, err,
}

-- A member of the URI is NULL with the length 0, or lies between two addresses.
abbrev pub TextIn : ℕ → ℕ → Text → Type 0
TextIn lo hi t = ((t.s ≡ 0) × (t.len ≡ 0)) ⊎ ((lo ≤ t.s) × (t.s + t.len ≤ hi))

pub record UriIn (lo hi : ℕ) (u : SipUri) : Type 0 where
  pub user : TextIn lo hi u.user
  pub passwd : TextIn lo hi u.passwd
  pub host : TextIn lo hi u.host
  pub port : TextIn lo hi u.port
  pub params : TextIn lo hi u.params
  pub headers : TextIn lo hi u.headers
  pub known : (q : Param) → TextIn lo hi (u.known q)
  pub value : (q : Param) → TextIn lo hi (u.value q)

-- The pointers are not behind `p`, and the members end before `hi`.
pub record Core (lo p hi s b v pass : ℕ) (u : SipUri) : Type 0 where
  pub low : lo ≤ s
  pub s_le : s ≤ p
  pub b_le : b ≤ p
  pub v_le : v ≤ p
  pub pass_lt : pass < p
  pub uri : UriIn lo hi u

-- While the user may still come, the host is where the user would start, and not behind the password.
abbrev pub Host : ℕ → ℕ → Bool → ℕ → ℕ → Type 0
Host lo p found pass host = found ≡ false → (lo ≤ host) × (host ≤ p) × ((pass ≡ 0) ⊎ (host ≤ pass))

-- The states behind the host, those with the start of a parameter in `b`, and those with that of a value in `v`.
unfoldable pub is_late : State → Bool
is_late uri_init = false
is_late uri_user = false
is_late uri_password = false
is_late uri_password_alpha = false
is_late uri_host = false
is_late uri_host_p = false
is_late uri_host6_p = false
is_late uri_host6_end = false
is_late _ = true

unfoldable pub has_value : State → Bool
has_value uri_val_p = true
has_value vu_u = true
has_value vu_d = true
has_value vu_p_fin = true
has_value vt_t = true
has_value vt_c = true
has_value vt_p_fin = true
has_value vtls_l = true
has_value vtls_s_fin = true
has_value vs_s = true
has_value vs_c = true
has_value vs_t = true
has_value vs_p_fin = true
has_value _ = false

unfoldable pub has_name : State → Bool
has_name uri_port = false
has_name uri_param = false
has_name uri_param_p = false
has_name uri_headers = false
has_name uri_init = false
has_name uri_user = false
has_name uri_password = false
has_name uri_password_alpha = false
has_name uri_host = false
has_name uri_host_p = false
has_name uri_host6_p = false
has_name uri_host6_end = false
has_name _ = true

abbrev pub CoreOf : ℕ → ℕ → ℕ → Run → Type 0
CoreOf lo p hi r = Core lo p hi r.s r.b r.v r.pass r.uri

abbrev pub HostOf : ℕ → ℕ → Run → Type 0
HostOf lo p r = Host lo p r.found_user r.pass r.uri.host.s

abbrev pub Valued : ℕ → Run → Type 0
Valued lo r = (lo ≤ r.v) × (0 < param_no r.param)

-- What each state knows.
pub record Inv (lo p hi : ℕ) (r : Run) : Type 0 where
  pub core : CoreOf lo p hi r
  pub host : is_late r.state ≡ true → HostOf lo p r
  pub early : is_late r.state ≡ false → r.found_user ≡ false → r.pass ≡ 0
  pub named : has_name r.state ≡ true → lo ≤ r.b
  pub valued : has_value r.state ≡ true → Valued lo r

-- An error that is not a write through NULL.
abbrev pub IsSound : Fault → Type 0
IsSound null_param = ⊥
IsSound _ = Unit

abbrev pub Good : {A : Type 0} → (A → Type 0) → Outcome A → Type 0
Good P (ok a) = P a
Good P (err f) = IsSound f

TextIn-wide : (lo hi : ℕ) (t : Text) → TextIn lo hi t → TextIn lo (hi + 1) t
TextIn-wide lo hi t (inl h) = inl h
TextIn-wide lo hi t (inr h) = inr (h.0, omega (arith, h.1))

pub TextIn-span : (lo hi a p : ℕ) → lo ≤ a → a ≤ p → p ≤ hi → TextIn lo hi (span a p)
TextIn-span lo hi a p h k l = inr (h, omega arith)

pub UriIn-wide : (lo hi : ℕ) (u : SipUri) → UriIn lo hi u → UriIn lo (hi + 1) u
UriIn-wide lo hi u h = record {
  user = TextIn-wide lo hi u.user h.user;
  passwd = TextIn-wide lo hi u.passwd h.passwd;
  host = TextIn-wide lo hi u.host h.host;
  port = TextIn-wide lo hi u.port h.port;
  params = TextIn-wide lo hi u.params h.params;
  headers = TextIn-wide lo hi u.headers h.headers;
  known = λ q. TextIn-wide lo hi (u.known q) (h.known q);
  value = λ q. TextIn-wide lo hi (u.value q) (h.value q);
}

pub set_param-TextIn :
    (lo hi : ℕ) (q : Param) (t : Text) (m : Param → Text)
    → TextIn lo hi t
    → ((x : Param) → TextIn lo hi (m x))
    → (x : Param) → TextIn lo hi (set_param q t m x)
unfolding set_param
set_param-TextIn lo hi q t m h k x = elim (Bool-cases (param_no x == param_no q)) [
  | inl e ↦ rw e h
  | inr e ↦ rw e (k x)
]

pub empty_uri-UriIn : (lo hi : ℕ) (type : UriType) → UriIn lo hi (empty_uri type)
empty_uri-UriIn lo hi type =
    let t : TextIn lo hi no_text = inl (refl, refl) in
    record {
      user = t;
      passwd = t;
      host = t;
      port = t;
      params = t;
      headers = t;
      known = λ q. t;
      value = λ q. t;
    }
