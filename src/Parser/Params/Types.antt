-- ===== src/Parser/Params/Types.antt =====
-- src/core/parser/parse_param.c and parse_param.h: the parameters and their types. A parameter is known by the
-- number of the call of `pkg_malloc` that gave its memory.
use opensips_ng.Prelude.{ℕ, ◌+◌, ◌&&◌, ◌||◌, Option, none, some, [], ◌∷◌, ◌==◌, if◌then◌else◌}
use opensips_ng.Parser.Memory.{Memory, Text}
use opensips_ng.Parser.Methods.{word}

-- `ptype_t`.
pub data ParamType : Type 0 where
  p_other p_q p_expires p_methods p_received p_transport p_lr p_r2 p_maddr p_ttl p_dstip p_dstport :
      ParamType

unfoldable pub type_no : ParamType → ℕ
type_no p_other = 0
type_no p_q = 1
type_no p_expires = 2
type_no p_methods = 3
type_no p_received = 4
type_no p_transport = 5
type_no p_lr = 6
type_no p_r2 = 7
type_no p_maddr = 8
type_no p_ttl = 9
type_no p_dstip = 10
type_no p_dstport = 11

-- `pclass_t`.
pub data ParamClass : Type 0 where
  class_any class_contact class_uri : ParamClass

-- `param_t`, with the number of its block.
pub record ParamNode : Type 0 where
  pub at : ℕ
  pub type : ParamType
  pub name : Text
  pub body : Text
  pub len : ℕ

-- `param_hooks_t`: the block that each hook points to, `none` for NULL; `p_other` has no hook. The union is read through
-- the member of the class that `parse_params` was called with, whose hooks are the only ones it writes; the hooks of the
-- other class, which share its memory, are not modelled, and `none`.
abbrev pub Hooks : Type 0
Hooks = ParamType → Option ℕ

abbrev pub no_hooks : Hooks
no_hooks x = none

-- `_h->contact.q = _p`, and the same for the other types.
unfoldable pub hook : ParamNode → Hooks → Hooks
unfolding type_no
hook p h x =
    if type_no p.type == 0 then h x else if type_no x == type_no p.type then some p.at else h x

-- `parse_contact_class`: the type of a name.
unfoldable pub contact_type : Memory → Text → ParamType
contact_type mem name =
    let c = mem name.s in
    let rest = name.s + 1 in
    if c == b'q' || c == b'Q'
    then (if name.len == 1 then p_q else p_other)
    else if c == b'e' || c == b'E'
    then (if name.len == 7
          && word mem rest (
              (b'x', b'X')
              ∷ (b'p', b'P')
              ∷ (b'i', b'I')
              ∷ (b'r', b'R')
              ∷ (b'e', b'E')
              ∷ (b's', b'S')
              ∷ [])
        then p_expires
        else p_other)
    else if c == b'm' || c == b'M'
    then (if name.len == 7
          && word mem rest (
              (b'e', b'E')
              ∷ (b't', b'T')
              ∷ (b'h', b'H')
              ∷ (b'o', b'O')
              ∷ (b'd', b'D')
              ∷ (b's', b'S')
              ∷ [])
        then p_methods
        else p_other)
    else if c == b'r' || c == b'R'
    then (if name.len == 8
          && word mem rest (
              (b'e', b'E')
              ∷ (b'c', b'C')
              ∷ (b'e', b'E')
              ∷ (b'i', b'I')
              ∷ (b'v', b'V')
              ∷ (b'e', b'E')
              ∷ (b'd', b'D')
              ∷ [])
        then p_received
        else p_other)
    else p_other

-- `parse_uri_class`: the type of a name.
unfoldable pub uri_type : Memory → Text → ParamType
uri_type mem name =
    let c = mem name.s in
    let rest = name.s + 1 in
    if c == b't' || c == b'T'
    then (if name.len == 9
          && word mem rest (
              (b'r', b'R')
              ∷ (b'a', b'A')
              ∷ (b'n', b'N')
              ∷ (b's', b'S')
              ∷ (b'p', b'P')
              ∷ (b'o', b'O')
              ∷ (b'r', b'R')
              ∷ (b't', b'T')
              ∷ [])
        then p_transport
        else if name.len == 2 && word mem rest ((b't', b'T') ∷ (b'l', b'L') ∷ [])
        then p_ttl
        else p_other)
    else if c == b'l' || c == b'L'
    then (if name.len == 2 && word mem rest ((b'r', b'R') ∷ []) then p_lr else p_other)
    else if c == b'r' || c == b'R'
    then (if name.len == 2 && mem rest == b'2' then p_r2 else p_other)
    else if c == b'm' || c == b'M'
    then (if name.len == 5
          && word mem rest ((b'a', b'A') ∷ (b'd', b'D') ∷ (b'd', b'D') ∷ (b'r', b'R') ∷ [])
        then p_maddr
        else p_other)
    else if c == b'd' || c == b'D'
    then (if name.len == 5
          && word mem rest ((b's', b'S') ∷ (b't', b'T') ∷ (b'i', b'I') ∷ (b'p', b'P') ∷ [])
        then p_dstip
        else if name.len == 7
            && word mem rest (
                (b's', b'S')
                ∷ (b't', b'T')
                ∷ (b'p', b'P')
                ∷ (b'o', b'O')
                ∷ (b'r', b'R')
                ∷ (b't', b'T')
                ∷ [])
        then p_dstport
        else p_other)
    else p_other
