-- ===== src/Parser/Uri/State.antt =====
-- src/core/parser/parse_uri.c and `struct sip_uri` of msg_parser.h: what `parse_uri` keeps while it reads.
use opensips_ng.Prelude.{ℕ, ◌-◌, Bool, ◌==◌, if◌then◌else◌}
use opensips_ng.Parser.Memory.{Text}

-- `enum _uri_type`.
pub data UriType : Type 0 where
  error_uri_t sip_uri_t sips_uri_t tel_uri_t tels_uri_t : UriType

-- The parameters with a member of their own; `no_param` is NULL.
pub data Param : Type 0 where
  no_param transport ttl user_param maddr method lr r2 : Param

unfoldable pub param_no : Param → ℕ
param_no no_param = 0
param_no transport = 1
param_no ttl = 2
param_no user_param = 3
param_no maddr = 4
param_no method = 5
param_no lr = 6
param_no r2 = 7

-- `struct sip_uri`: `known` has the members `transport` to `r2`, `value` the members `transport_val` to `r2_val`.
pub record SipUri : Type 0 where
  pub user : Text
  pub passwd : Text
  pub host : Text
  pub port : Text
  pub params : Text
  pub headers : Text
  pub port_no : ℕ
  pub proto : ℕ
  pub type : UriType
  pub known : Param → Text
  pub value : Param → Text

abbrev pub no_text : Text
no_text = record { s = 0; len = 0 }

-- `memset` with 0, and the type.
abbrev pub empty_uri : UriType → SipUri
empty_uri type = record {
  user = no_text;
  passwd = no_text;
  host = no_text;
  port = no_text;
  params = no_text;
  headers = no_text;
  port_no = 0;
  proto = 0;
  type = type;
  known = λ q. no_text;
  value = λ q. no_text;
}

-- A pointer and the length up to another.
abbrev pub span : ℕ → ℕ → Text
span a p = record { s = a; len = p - a }

-- A member is set.
unfoldable pub set_param : Param → Text → (Param → Text) → Param → Text
unfolding param_no
set_param q t m x = if param_no x == param_no q then t else m x

-- `enum states`.
pub data State : Type 0 where
  uri_init uri_user uri_password uri_password_alpha uri_host uri_host_p uri_host6_p : State
  uri_host6_end uri_port uri_param uri_param_p uri_val_p uri_headers : State
  pt_t pt_r pt_a pt_n pt_s pt_p pt_o pt_r2 pt_t2 pt_eq : State
  pttl_t2 pttl_l pttl_eq : State
  pu_u pu_s pu_e pu_r pu_eq : State
  pm_m pm_e pm_t pm_h pm_o pm_d pm_eq : State
  pma_a pma_d pma_d2 pma_r pma_eq : State
  plr_l plr_r_fin plr_eq : State
  pr2_r pr2_2_fin pr2_eq : State
  vu_u vu_d vu_p_fin vt_t vt_c vt_p_fin vtls_l vtls_s_fin vs_s vs_c vs_t vs_p_fin : State

-- The local variables; 0 is NULL.
pub record Run : Type 0 where
  pub state : State
  pub s : ℕ
  pub b : ℕ
  pub v : ℕ
  pub param : Param
  pub pass : ℕ
  pub port_no : ℕ
  pub found_user : Bool
  pub error_headers : Bool
  pub uri : SipUri

-- The labels of the errors, which all return -1; `null_param` is a write through `param` where it is NULL.
pub data Fault : Type 0 where
  too_short bad_char bad_host bad_port bad_uri bad_headers bug null_param : Fault

pub data Outcome (A : Type 0) : Type 0 where
  ok : A → Outcome A
  err : Fault → Outcome A

infixl 1 ◌>>=◌
abbrev pub ◌>>=◌ : {A B : Type 0} → Outcome A → (A → Outcome B) → Outcome B
ok a >>= k = k a
err f >>= k = err f

-- Each round of the loop: the byte and its address.
abbrev pub Round : Type 0
Round = ℕ → ℕ → Run → Outcome Run
