-- ===== src/Appliance/Firewall.antt =====
-- src/amnesic_pi/firewall.py: the firewall policy, rendered from a template with five tokens.
pub mod Replace
pub mod Rendered
use amnesic_pi.Prelude.{
  ℕ, zero, suc, ◌-◌, Bool, true, false, Option, none, some, List, [], ◌∷◌, ◌++◌, any, length, map,
  if◌then◌else◌,
}
use amnesic_pi.Prelude.Int.{ℤ, pos, negsuc, ltb_ℤ}
use amnesic_pi.Prelude.Text.{codes, starts, occurs}
use amnesic_pi.Value.Canonical.{decimal}
use amnesic_pi.Errors.{Result, ok, err, firewall_error, refuse_if, or_raise, ◌>>=◌, ◌>>◌}
use amnesic_pi.Appliance.Config.{Config, validate}

-- `tor_uid`, given `pwd.getpwnam(name).pw_uid`; `none` is `KeyError`.
abbrev pub tor_uid : (List ℕ → Option ℤ) → Config → Result ℤ
tor_uid passwd c = or_raise (passwd c.tor_user) firewall_error

-- `str(n)`
unfoldable pub show_int : ℤ → List ℕ
unfolding decimal
show_int (pos n) = decimal n
show_int (negsuc n) = b'-' ∷ decimal (suc n)

-- `s.replace(token, value)`: `skip` characters of an occurrence are still to be passed over.
unfoldable pub replace_from : ℕ → List ℕ → List ℕ → List ℕ → List ℕ
replace_from skip token value [] = []
replace_from (suc skip) token value (c ∷ s) = replace_from skip token value s
replace_from zero token value (c ∷ s) =
    let found = starts token (c ∷ s) in
    let rest = replace_from (if found then length token - 1 else 0) token value s in
    if found then value ++ rest else c ∷ rest

abbrev pub replace : List ℕ → List ℕ → List ℕ → List ℕ
replace token value s = replace_from 0 token value s

-- The keys of `replacements`.
pub data Token : Type 0 where
  uplink_if client_if trans_port dns_port tor_uid_ : Token

abbrev pub tokens : List Token
tokens = uplink_if ∷ client_if ∷ trans_port ∷ dns_port ∷ tor_uid_ ∷ []

abbrev pub name_of : Token → List ℕ
name_of uplink_if = codes "UPLINK_IF"
name_of client_if = codes "CLIENT_IF"
name_of trans_port = codes "TRANS_PORT"
name_of dns_port = codes "DNS_PORT"
name_of tor_uid_ = codes "TOR_UID"

abbrev pub text_of : Token → List ℕ
text_of t = 64 ∷ name_of t ++ 64 ∷ []

-- The values of `replacements`.
unfoldable pub value_of : Config → ℤ → Token → List ℕ
unfolding show_int
value_of c uid uplink_if = c.uplink_if
value_of c uid client_if = c.client_if
value_of c uid trans_port = show_int c.trans_port
value_of c uid dns_port = show_int c.dns_port
value_of c uid tor_uid_ = show_int uid

-- The loop over `replacements`.
unfoldable pub replace_all : Config → ℤ → List Token → List ℕ → List ℕ
unfolding value_of
replace_all c uid [] rendered = rendered
replace_all c uid (t ∷ ts) rendered =
    replace_all c uid ts (replace (text_of t) (value_of c uid t) rendered)

-- `render`
unfoldable pub render : List ℕ → Config → ℤ → Result (List ℕ)
unfolding occurs
render template c uid = do
  validate c
  refuse_if (ltb_ℤ uid (pos 0)) firewall_error
  let rendered = replace_all c uid tokens template
  refuse_if (any (λ t. occurs (text_of t) rendered) tokens) firewall_error
  ok rendered

-- `render_file`, given what `template_path.read_text` returns or raises.
abbrev pub render_file : Result (List ℕ) → Config → ℤ → Result (List ℕ)
render_file file c uid = do template ← file; render template c uid
