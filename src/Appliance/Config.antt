-- ===== src/Appliance/Config.antt =====
-- src/amnesic_pi/config.py: the configuration of the appliance and its file of KEY=VALUE lines.
pub mod Valid
pub mod Loaded
use amnesic_pi.Prelude.{
  ℕ, zero, suc, ◌+◌, ◌-◌, ◌*◌, String, Bool, true, false, not, ◌&&◌, ◌||◌, Option, none, some, List,
  [], ◌∷◌, all, any, is_empty, keep, length, map, ltb, leb, ◌==◌, if◌then◌else◌,
}
use amnesic_pi.Prelude.Int.{ℤ, pos, negsuc, leb_ℤ}
use amnesic_pi.Prelude.Text.{codes, strip, same_codes, between, starts, lines_from}
use amnesic_pi.Prelude.Dict
use amnesic_pi.Prelude.Dict.{Dict, codes_key}
use amnesic_pi.Errors.{
  Result, Done, ok, err, config_error, require, refuse_if, or_raise, ◌>>=◌, ◌>>◌,
}

pub record Config : Type 0 where
  pub uplink_if : List ℕ
  pub client_if : List ℕ
  pub trans_port : ℤ
  pub dns_port : ℤ
  pub socks_port : ℤ
  pub tor_user : List ℕ

-- `[A-Za-z0-9_.:-]`
abbrev pub is_iface_char : ℕ → Bool
is_iface_char c =
    between 65 90 c || between 97 122 c || between 45 46 c || between 48 58 c || c == 95

-- `_IFACE_RE.fullmatch`
abbrev pub is_iface : List ℕ → Bool
is_iface s = all is_iface_char s && between 1 15 (length s)

-- `[a-z_]` and `[a-z0-9_-]`
abbrev pub starts_user : ℕ → Bool
starts_user c = between 97 122 c || c == 95

abbrev pub is_user_char : ℕ → Bool
is_user_char c = starts_user c || between 48 57 c || c == 45

-- `re.fullmatch(r"[a-z_][a-z0-9_-]{0,31}", s)`
abbrev pub is_user : List ℕ → Bool
is_user [] = false
is_user (c ∷ s) = starts_user c && all is_user_char s && leb (length s) 31

-- `1 <= port <= 65535`
abbrev pub is_port : ℤ → Bool
is_port n = leb_ℤ (pos 1) n && leb_ℤ n (pos 65535)

abbrev pub same_ℤ : ℤ → ℤ → Bool
same_ℤ m n = leb_ℤ m n && leb_ℤ n m

-- `Config.validate`
unfoldable pub validate : Config → Done
validate c = do
  require (is_iface c.uplink_if) config_error
  require (is_iface c.client_if) config_error
  refuse_if (same_codes c.uplink_if c.client_if) config_error
  require (is_port c.trans_port) config_error
  require (is_port c.dns_port) config_error
  require (is_port c.socks_port) config_error
  refuse_if
      (same_ℤ c.trans_port c.dns_port
        || same_ℤ c.trans_port c.socks_port
        || same_ℤ c.dns_port c.socks_port)
      config_error
  require (is_user c.tor_user) config_error

-- `line.split("=", 1)`; `none` if there is no such character.
abbrev pub in_front {ℓ} : {A : Type ℓ} → A → Option (List A × List A) → Option (List A × List A)
in_front c none = none
in_front c (some (s, t)) = some (c ∷ s, t)

unfoldable pub cut : ℕ → List ℕ → Option (List ℕ × List ℕ)
cut sep [] = none
cut sep (c ∷ s) = if c == sep then some ([], s) else in_front c (cut sep s)

-- One pair of a line, under a key that no line had before.
abbrev pub add : Dict (List ℕ) (List ℕ) → Option (List ℕ × List ℕ) → Result (Dict (List ℕ) (List ℕ))
add values none = err config_error
add values (some (key, value)) = elim (Dict.lookup (strip key) values) [
  | some old ↦ err config_error
  | none ↦ ok (Dict.insert (strip key) (strip value) values)
]

-- One round of the loop over the lines.
unfoldable pub read_line : Dict (List ℕ) (List ℕ) → List ℕ → Result (Dict (List ℕ) (List ℕ))
read_line values raw =
    let line = strip raw in
    if is_empty line || starts (35 ∷ []) line then ok values else add values (cut 61 line)

unfoldable pub read_values :
    Dict (List ℕ) (List ℕ) → List (List ℕ) → Result (Dict (List ℕ) (List ℕ))
read_values values [] = ok values
read_values values (raw ∷ raws) = do values' ← read_line values raw; read_values values' raws

-- The zeros of the scripts that have decimal digits, in Unicode 14.
abbrev pub digit_zeros : List ℕ
digit_zeros =
    0x30 ∷ 0x660 ∷ 0x6f0 ∷ 0x7c0 ∷ 0x966 ∷ 0x9e6 ∷ 0xa66 ∷ 0xae6 ∷ 0xb66 ∷ 0xbe6 ∷ 0xc66 ∷ 0xce6
    ∷ 0xd66 ∷ 0xde6 ∷ 0xe50 ∷ 0xed0 ∷ 0xf20 ∷ 0x1040 ∷ 0x1090 ∷ 0x17e0 ∷ 0x1810 ∷ 0x1946 ∷ 0x19d0
    ∷ 0x1a80 ∷ 0x1a90 ∷ 0x1b50 ∷ 0x1bb0 ∷ 0x1c40 ∷ 0x1c50 ∷ 0xa620 ∷ 0xa8d0 ∷ 0xa900 ∷ 0xa9d0
    ∷ 0xa9f0 ∷ 0xaa50 ∷ 0xabf0 ∷ 0xff10 ∷ 0x104a0 ∷ 0x10d30 ∷ 0x11066 ∷ 0x110f0 ∷ 0x11136 ∷ 0x111d0
    ∷ 0x112f0 ∷ 0x11450 ∷ 0x114d0 ∷ 0x11650 ∷ 0x116c0 ∷ 0x11730 ∷ 0x118e0 ∷ 0x11950 ∷ 0x11c50
    ∷ 0x11d50 ∷ 0x11da0 ∷ 0x16a60 ∷ 0x16ac0 ∷ 0x16b50 ∷ 0x1d7ce ∷ 0x1d7d8 ∷ 0x1d7e2 ∷ 0x1d7ec
    ∷ 0x1d7f6 ∷ 0x1e140 ∷ 0x1e2f0 ∷ 0x1e950 ∷ 0x1fbf0 ∷ []

unfoldable pub digit_in : List ℕ → ℕ → Option ℕ
digit_in [] c = none
digit_in (z ∷ zs) c = if between z (z + 9) c then some (c - z) else digit_in zs c

abbrev pub is_digit : ℕ → Bool
unfolding digit_in
is_digit c = elim (digit_in digit_zeros c) [ none ↦ false | some d ↦ true ]

-- Digits in base ten, a single underscore between two of them; `after` says that a digit came last.
unfoldable pub read_digits : ℕ → Bool → List ℕ → Option ℕ
unfolding digit_in
read_digits n after [] = if after then some n else none
read_digits n after (c ∷ s) =
    let joined = read_digits n false s in
    elim (digit_in digit_zeros c) [
      | some d ↦ read_digits (n * 10 + d) true s
      | none ↦ if c == 95 && after then joined else none
    ]

abbrev pub negate : ℕ → ℤ
negate zero = pos 0
negate (suc n) = negsuc n

abbrev pub signed : (ℕ → ℤ) → Option ℕ → Option ℤ
signed sign none = none
signed sign (some n) = some (sign n)

-- `int(s)` of a text without outer space, which refuses more than 4300 digits; `none` is `ValueError`.
unfoldable pub parse_int : List ℕ → Option ℤ
parse_int [] = none
parse_int (c ∷ s) =
    if ltb 4300 (length (keep is_digit (c ∷ s)))
    then none
    else if c == b'-'
    then signed negate (read_digits 0 false s)
    else if c == b'+'
    then signed pos (read_digits 0 false s)
    else signed pos (read_digits 0 false (c ∷ s))

abbrev pub allowed : List (List ℕ)
allowed =
    map codes
      ("UPLINK_IF" ∷ "CLIENT_IF" ∷ "TRANS_PORT" ∷ "DNS_PORT" ∷ "SOCKS_PORT" ∷ "TOR_USER" ∷ [])

-- `values.get(key, default)`
abbrev pub value_or : String → String → Dict (List ℕ) (List ℕ) → List ℕ
value_or key default values = elim (Dict.lookup (codes key) values) [
  | none ↦ codes default
  | some v ↦ v
]

-- The configuration that the values give, before it is checked.
unfoldable pub build : Dict (List ℕ) (List ℕ) → Result Config
unfolding parse_int
build values = do
  require (all (λ e. any (same_codes e.0) allowed) values) config_error
  uplink_if ← or_raise (Dict.lookup (codes "UPLINK_IF") values) config_error
  client_if ← or_raise (Dict.lookup (codes "CLIENT_IF") values) config_error
  trans_port ← or_raise (parse_int (value_or "TRANS_PORT" "9040" values)) config_error
  dns_port ← or_raise (parse_int (value_or "DNS_PORT" "5353" values)) config_error
  socks_port ← or_raise (parse_int (value_or "SOCKS_PORT" "9050" values)) config_error
  ok (record {
    uplink_if = uplink_if;
    client_if = client_if;
    trans_port = trans_port;
    dns_port = dns_port;
    socks_port = socks_port;
    tor_user = value_or "TOR_USER" "debian-tor" values;
  })

-- `load_env`, given what `path.read_text` returns or raises.
unfoldable pub load_env : Result (List ℕ) → Result Config
load_env file = do
  text ← file
  values ← read_values [] (lines_from false [] text)
  c ← build values
  validate c
  ok c
