-- ===== src/Parser/Tests.antt =====
-- The parsers on short texts.
use opensips_ng.Parser.Methods.{word}
use opensips_ng.Prelude.{
  none, false, inl, Yields, ltb, true, ℕ, ◌+◌, ◌≡◌, refl, some, List, [], ◌∷◌, arith, get_or,
}
use opensips_ng.Prelude.Int.{pos}
use opensips_ng.Parser.Memory.{Memory, Text}
use opensips_ng.Parser.Method
use opensips_ng.Parser.Methods.{
  moved, parse_method, methods_loop, parse_methods, single, known_from, known_i, known_r, separator,
  skip_white,
}
use opensips_ng.Parser.Methods.Bounds.{Lands, parse_method-Lands, Ends, parse_methods-Ends}
use opensips_ng.Parser.Params.Types.{class_uri, p_ttl, uri_type}
use opensips_ng.Parser.Params.Lists.{parse_params, do_duplicate_params}
use opensips_ng.Parser.Params.Owned.{Returned, parse_params-Returned}
use opensips_ng.Parser.Params.Ttl.{Others, parse_params-Other}
use opensips_ng.Parser.Params.Copy.{CopyOf, do_duplicate_params-CopyOf}
use opensips_ng.Parser.Params.Roundtrip.{IsPairs, pair_nodes, all_read, parse_params-pairs}
use opensips_ng.Parser.Uri.State.{SipUri, Outcome, bug, ok, err}
use opensips_ng.Parser.Uri.Cases.{param_switch_big, check_host_end}
use opensips_ng.Parser.Uri.Step.{step_init, step_user, step_host, step_host6, step_port, step_param}
use opensips_ng.Parser.Uri.Msg.{
  SipMsg, IsFullText, with_uri, with_orig, parse_sip_msg_uri, parse_orig_ruri,
  parse_sip_msg_uri-full,
}
use opensips_ng.Parser.Uri.Parse.{loop, finish, fix_as, scheme_type, parse_uri}
use opensips_ng.Parser.Uri.Inside.{Good}
use opensips_ng.Parser.Uri.Inside.Safe.{Within, parse_uri-Within}
use opensips_ng.Parser.Uri.Omitted.{Ok, Omits}
use opensips_ng.Parser.Uri.Omitted.Whole.{parse_uri-Omits}
use opensips_ng.Parser.Uri.Roundtrip.{full_uri, parse_uri-full, IsFull}

abbrev at_zero : List ℕ → Memory
at_zero bytes i = get_or bytes i 0

-- "ACK, BYE"
abbrev two_methods : Memory
two_methods = at_zero (b'A' ∷ b'C' ∷ b'K' ∷ b',' ∷ b' ' ∷ b'B' ∷ b'Y' ∷ b'E' ∷ [])

parse_method-Lands_example : Lands two_methods 0 8 (parse_method two_methods 0 8).0
parse_method-Lands_example = parse_method-Lands two_methods 0 8 (omega arith)

parse_methods-Ends_example : Ends (parse_methods 9 two_methods (record { s = 0; len = 8 }))
parse_methods-Ends_example =
    parse_methods-Ends 9 two_methods (record { s = 0; len = 8 }) (omega arith)

two_methods_result :
    parse_methods 9 two_methods (record { s = 0; len = 8 }) ≡ some (pos 0, Method.ack + Method.bye)
unfolding parse_methods methods_loop separator skip_white known_from single parse_method
two_methods_result = refl

-- "refer" in lower case is another method for the source, while "REFER" is recognised.
lower_case_refer :
    (parse_method (at_zero (b'r' ∷ b'e' ∷ b'f' ∷ b'e' ∷ b'r' ∷ [])) 0 5 ≡ (moved 5, Method.other))
    × (parse_method (at_zero (b'R' ∷ b'E' ∷ b'F' ∷ b'E' ∷ b'R' ∷ [])) 0 5 ≡ (moved 5, Method.refer))
unfolding parse_method known_from known_r
lower_case_refer = (refl, refl)

-- The second byte of INFO is not tested.
second_byte_of_info :
    parse_method (at_zero (b'I' ∷ b'x' ∷ b'F' ∷ b'O' ∷ [])) 0 4 ≡ (moved 4, Method.info)
unfolding parse_method known_from known_i
second_byte_of_info = refl

-- "sip:u:p@h:50"
abbrev full_text : Memory
full_text =
    at_zero (b's' ∷ b'i' ∷ b'p' ∷ b':' ∷ b'u' ∷ b':' ∷ b'p' ∷ b'@' ∷ b'h' ∷ b':' ∷ b'5' ∷ b'0' ∷ [])

full_text-IsFull : IsFull full_text 0 0 1 0 2
full_text-IsFull = record {
  s = refl;
  i = refl;
  p = refl;
  colon = refl;
  user_bytes = (refl, tt);
  user_colon = refl;
  password_bytes = (refl, tt);
  password_at = refl;
  host_bytes = (refl, tt);
  host_colon = refl;
  port_digits = (refl, (refl, tt));
}

parse_uri-full_example : parse_uri full_text 99 0 12 ≡ ok (full_uri full_text 0 0 1 0 2)
parse_uri-full_example = parse_uri-full full_text 0 0 1 0 2 full_text-IsFull 99

parse_uri-Within_example : Good (Within full_text 99 4 12) (parse_uri full_text 99 0 12)
parse_uri-Within_example = parse_uri-Within full_text 99 0 12

-- "sip:h;ma" ends in a state of `maddr`, which the last `switch` does not have.
ends_in_maddr :
    parse_uri (at_zero (b's' ∷ b'i' ∷ b'p' ∷ b':' ∷ b'h' ∷ b';' ∷ b'm' ∷ b'a' ∷ [])) 99 0 8
    ≡ err bug
unfolding parse_uri scheme_type loop step_init step_user step_param param_switch_big finish
ends_in_maddr = refl

abbrev port_of : Outcome SipUri → ℕ
port_of (ok u) = u.port_no
port_of (err f) = 0

-- The digits of the first port of "sip:[1]:5;t@h:9" are kept.
old_port :
    port_of (
      parse_uri
        (at_zero (
          b's' ∷ b'i' ∷ b'p' ∷ b':' ∷ b'[' ∷ b'1' ∷ b']' ∷ b':' ∷ b'5' ∷ b';' ∷ b't' ∷ b'@' ∷ b'h'
          ∷ b':' ∷ b'9' ∷ []))
        99
        0
        15)
    ≡ 59
unfolding parse_uri scheme_type loop step_init step_host6 check_host_end step_port step_param
    param_switch_big step_host finish fix_as
old_port = refl

abbrev params_len : Outcome SipUri → ℕ
params_len (ok u) = u.params.len
params_len (err f) = 0

-- "sip:h;r2=on"
abbrev with_r2 : Memory
with_r2 = at_zero (b's' ∷ b'i' ∷ b'p' ∷ b':' ∷ b'h' ∷ b';' ∷ b'r' ∷ b'2' ∷ b'=' ∷ b'o' ∷ b'n' ∷ [])

parse_uri-Omits_example : Ok Omits (parse_uri with_r2 99 0 11)
parse_uri-Omits_example = parse_uri-Omits with_r2 99 0 11

-- Its parameters are one text of five bytes.
with_r2_params : params_len (parse_uri with_r2 99 0 11) ≡ 5
unfolding parse_uri scheme_type loop step_init step_user step_param finish fix_as
with_r2_params = refl

-- "a=b;ttl=5" at 1.
abbrev two_params : Memory
two_params = at_zero (0 ∷ b'a' ∷ b'=' ∷ b'b' ∷ b';' ∷ b't' ∷ b't' ∷ b'l' ∷ b'=' ∷ b'5' ∷ [])

abbrev two_params_text : Text
two_params_text = record { s = 1; len = 9 }

two_params-IsPairs : IsPairs two_params 1 9 (1, 0) ((3, 0) ∷ [])
two_params-IsPairs = (
  record { name_bytes = (refl, tt); equal = refl; token_bytes = (refl, tt); plain = refl },
  (
    refl,
    (
      refl,
      (
        (
          record {
            name_bytes = (refl, (refl, (refl, tt)));
            equal = refl;
            token_bytes = (refl, tt);
            plain = refl;
          },
          refl,
        ),
        omega arith,
      ),
    ),
  ),
)

parse_params-pairs_example :
    parse_params 2 two_params (λ i. true) class_uri (record { s = 1; len = 9 })
    ≡ some (all_read (pair_nodes two_params class_uri 0 1 (1, 0) ((3, 0) ∷ [])) 2 10)
parse_params-pairs_example =
    parse_params-pairs 2 two_params (λ i. true) class_uri 1 9 (1, 0) ((3, 0) ∷ []) (omega arith)
      (λ i. refl) (omega arith) two_params-IsPairs

parse_params-Returned_example :
    Yields (Returned 1 10) (parse_params 10 two_params (λ i. ltb i 1) class_uri two_params_text)
parse_params-Returned_example =
    parse_params-Returned 10 two_params (λ i. ltb i 1) class_uri two_params_text (omega arith)

parse_params-Other_example :
    Yields Others (parse_params 10 two_params (λ i. true) class_uri two_params_text)
parse_params-Other_example =
    parse_params-Other 10 two_params (λ i. true) class_uri two_params_text (omega arith) refl

do_duplicate_params-CopyOf_example :
    CopyOf
      (λ i. ltb i 1)
      (pair_nodes two_params class_uri 0 1 (1, 0) ((3, 0) ∷ []))
      (do_duplicate_params
        (λ i. ltb i 1)
        (pair_nodes two_params class_uri 0 1 (1, 0) ((3, 0) ∷ [])))
do_duplicate_params-CopyOf_example =
    do_duplicate_params-CopyOf (λ i. ltb i 1)
      (pair_nodes two_params class_uri 0 1 (1, 0) ((3, 0) ∷ []))

-- "tt" is `ttl` where an l stands behind it.
short_ttl : uri_type (at_zero (0 ∷ b't' ∷ b't' ∷ b'l' ∷ [])) (record { s = 1; len = 2 }) ≡ p_ttl
unfolding uri_type word
short_ttl = refl

abbrev full_line : Text
full_line = record { s = 0; len = 12 }

-- A request without a new URI.
abbrev full_msg : SipMsg
full_msg = record {
  new_uri = record { s = 0; len = 0 };
  request_uri = full_line;
  parsed_uri_ok = false;
  parsed_uri = none;
  parsed_orig_ruri_ok = false;
  parsed_orig_ruri = none;
}

abbrev full_parsed : SipUri
full_parsed = full_uri full_text 0 0 1 0 2

full_line-IsFullText : IsFullText full_text full_line full_parsed
full_line-IsFullText = record {
  buf = 0;
  user = 0;
  password = 1;
  host = 0;
  port = 2;
  full = full_text-IsFull;
  text = refl;
  uri = refl;
}

abbrev once : SipMsg
once = with_uri full_parsed full_msg

abbrev twice : SipMsg
twice = with_orig full_parsed once

parse_sip_msg_uri-full_example :
    (parse_sip_msg_uri full_text 99 full_msg ≡ (pos 0, once))
    × ((parse_orig_ruri full_text 99 once ≡ (pos 0, twice))
        × ((parse_sip_msg_uri full_text 99 twice ≡ (pos 1, twice))
            × (parse_orig_ruri full_text 99 twice ≡ (pos 1, twice))))
parse_sip_msg_uri-full_example =
    parse_sip_msg_uri-full full_text 99 full_msg full_line full_parsed full_parsed
      (inl (refl, refl)) full_line-IsFullText full_line-IsFullText refl refl
