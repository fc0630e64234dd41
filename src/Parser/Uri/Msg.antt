-- ===== src/Parser/Uri/Msg.antt =====
-- src/core/parser/parse_uri.c: `parse_sip_msg_uri` and `parse_orig_ruri`, which parse the URIs of a request once.
use opensips_ng.Prelude.{
  ℕ, ◌+◌, ◌-◌, ◌<◌, ◌⊎◌, inl, inr, ◌≡◌, refl, Bool, true, false, Option, none, some, ◌==◌,
  if◌then◌else◌, arith,
}
use opensips_ng.Prelude.Int.{ℤ, pos, negsuc}
use opensips_ng.Parser.Memory.{Memory, Text}
use opensips_ng.Parser.Uri.State.{SipUri, Outcome, ok, err}
use opensips_ng.Parser.Uri.Parse.{parse_uri}
use opensips_ng.Parser.Uri.Roundtrip.{IsFull, host_end, full_uri, parse_uri-full}

-- The URIs of `struct sip_msg`; `none` for what a failed call leaves in a parsed one.
pub record SipMsg : Type 0 where
  pub new_uri : Text
  pub request_uri : Text
  pub parsed_uri_ok : Bool
  pub parsed_uri : Option SipUri
  pub parsed_orig_ruri_ok : Bool
  pub parsed_orig_ruri : Option SipUri

-- `tmp`.
unfoldable pub current_uri : SipMsg → Text
current_uri m = if m.new_uri.s == 0 then m.request_uri else m.new_uri

unfoldable pub store_uri : SipMsg → Outcome SipUri → ℤ × SipMsg
store_uri m (ok u) = (pos 0, record m { parsed_uri_ok = true; parsed_uri = some u })
store_uri m (err f) = (negsuc 0, record m { parsed_uri_ok = false; parsed_uri = none })

-- `parse_sip_msg_uri`.
unfoldable pub parse_sip_msg_uri : Memory → ℕ → SipMsg → ℤ × SipMsg
unfolding store_uri
parse_sip_msg_uri mem nul m =
    let t = current_uri m in
    if m.parsed_uri_ok then (pos 1, m) else store_uri m (parse_uri mem nul t.s t.len)

unfoldable pub store_orig : SipMsg → Outcome SipUri → ℤ × SipMsg
store_orig m (ok u) = (pos 0, record m { parsed_orig_ruri_ok = true; parsed_orig_ruri = some u })
store_orig m (err f) = (negsuc 0, record m { parsed_orig_ruri_ok = false; parsed_orig_ruri = none })

-- `parse_orig_ruri`.
unfoldable pub parse_orig_ruri : Memory → ℕ → SipMsg → ℤ × SipMsg
unfolding store_orig
parse_orig_ruri mem nul m =
    let t = m.request_uri in
    if m.parsed_orig_ruri_ok then (pos 1, m) else store_orig m (parse_uri mem nul t.s t.len)

-- The text of a URI `sip:user:password@host:port`, and what it means.
pub record IsFullText (mem : Memory) (t : Text) (u : SipUri) : Type 0 where
  pub buf : ℕ
  pub user : ℕ
  pub password : ℕ
  pub host : ℕ
  pub port : ℕ
  pub full : IsFull mem buf user password host port
  pub text : t ≡ record { s = buf; len = host_end buf user password host + 1 + port - buf }
  pub uri : u ≡ full_uri mem buf user password host port

-- The URI of a message: the new one if there is one, else that of the request.
abbrev pub IsUriOf : SipMsg → Text → Type 0
IsUriOf m t = ((m.new_uri.s ≡ 0) × (m.request_uri ≡ t)) ⊎ ((0 < m.new_uri.s) × (m.new_uri ≡ t))

-- The message with its URI parsed, and with that of the request parsed as well.
abbrev pub with_uri : SipUri → SipMsg → SipMsg
with_uri u m = record m { parsed_uri_ok = true; parsed_uri = some u }

abbrev pub with_orig : SipUri → SipMsg → SipMsg
with_orig u m = record m { parsed_orig_ruri_ok = true; parsed_orig_ruri = some u }

current_uri-IsUriOf : (m : SipMsg) (t : Text) → IsUriOf m t → current_uri m ≡ t
unfolding current_uri
current_uri-IsUriOf m t (inl (e, f)) = rw e f
current_uri-IsUriOf m t (inr (l, f)) =
    let there : (m.new_uri.s == 0) ≡ false = ground (arith, l) in rw there f

parse_uri-text :
    (mem : Memory) (nul : ℕ) (t : Text) (u : SipUri)
    → IsFullText mem t u
    → parse_uri mem nul t.s t.len ≡ ok u
parse_uri-text mem nul t u f =
    rw (f.text, f.uri) (parse_uri-full mem f.buf f.user f.password f.host f.port f.full nul)

-- Where the new URI of a message, or that of its request if there is no new one, is the text of a URI
-- `sip:user:password@host:port`, as is that of its request, and neither is marked as parsed: `parse_sip_msg_uri`
-- returns 0, stores the parsed URI and marks it; `parse_orig_ruri` then does the same with that of the request; and
-- after these each of them returns 1 and changes nothing.
pub parse_sip_msg_uri-full :
    (mem : Memory) (nul : ℕ) (m : SipMsg) (t : Text) (u v : SipUri)
    → IsUriOf m t
    → IsFullText mem t u
    → IsFullText mem m.request_uri v
    → m.parsed_uri_ok ≡ false
    → m.parsed_orig_ruri_ok ≡ false
    → (parse_sip_msg_uri mem nul m ≡ (pos 0, with_uri u m))
      × ((parse_orig_ruri mem nul (with_uri u m) ≡ (pos 0, with_orig v (with_uri u m)))
          × ((parse_sip_msg_uri mem nul (with_orig v (with_uri u m))
                ≡ (pos 1, with_orig v (with_uri u m)))
              × (parse_orig_ruri mem nul (with_orig v (with_uri u m))
                  ≡ (pos 1, with_orig v (with_uri u m)))))
unfolding parse_sip_msg_uri parse_orig_ruri store_uri store_orig
parse_sip_msg_uri-full mem nul m t u v c f g a b = (
  rw (current_uri-IsUriOf m t c, parse_uri-text mem nul t u f, a) refl,
  (rw (parse_uri-text mem nul m.request_uri v g, b) refl, (refl, refl)),
)
