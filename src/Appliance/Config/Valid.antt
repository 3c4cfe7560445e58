-- ===== src/Appliance/Config/Valid.antt =====
-- What `Config.validate` of src/amnesic_pi/config.py accepts.
use amnesic_pi.Prelude.{ℕ, ◌≡◌, refl, ◌≤◌, ◌≢◌, Bool, true, false, ◌||◌, arith}
use amnesic_pi.Prelude.Int.{ℤ, pos, negsuc}
use amnesic_pi.Prelude.Text.{same_codes, same_codes_iff}
use amnesic_pi.Prelude.Dict.{codes_key}
use amnesic_pi.Errors.{Exn, ok, config_error, require, require_then, refuse_if_then}
use amnesic_pi.Appliance.Config.{Config, is_iface, is_user, is_port, same_ℤ, validate}

abbrev pub IsPort : ℤ → Type 0
IsPort z = (n : ℕ) × (z ≡ pos n) × (1 ≤ n) × (n ≤ 65535)

-- Two names of different interfaces, three different ports, and the name of a user.
pub record IsSound (c : Config) : Type 0 where
  pub uplink : is_iface c.uplink_if ≡ true
  pub client : is_iface c.client_if ≡ true
  pub apart : c.uplink_if ≢ c.client_if
  pub trans : IsPort c.trans_port
  pub dns : IsPort c.dns_port
  pub socks : IsPort c.socks_port
  pub trans_dns : c.trans_port ≢ c.dns_port
  pub trans_socks : c.trans_port ≢ c.socks_port
  pub dns_socks : c.dns_port ≢ c.socks_port
  pub user : is_user c.tor_user ≡ true

is_port-IsPort : (z : ℤ) → is_port z ≡ true → IsPort z
is_port-IsPort (pos n) h = (n, refl, ground arith, ground arith)
is_port-IsPort (negsuc n) h = absurd (ground arith)

same_self : (m n : ℤ) → m ≡ n → same_ℤ m n ≡ true
same_self (pos m) (pos n) h = let e : m ≡ n = cc in ground arith
same_self (pos m) (negsuc n) h = absurd (cc)
same_self (negsuc m) (pos n) h = absurd (cc)
same_self (negsuc m) (negsuc n) h = let e : m ≡ n = cc in ground arith

differ_then :
    (a b c : ℤ) → (same_ℤ a b || same_ℤ a c || same_ℤ b c) ≡ false → (a ≢ b) × (a ≢ c) × (b ≢ c)
differ_then a b c h = (
  λ e. let same = same_self a b e in ground arith,
  λ e. let same = same_self a c e in ground arith,
  λ e. let same = same_self b c e in ground arith,
)

require_done : (t : Bool) (e : Exn) → require t e ≡ ok tt → t ≡ true
require_done true e h = refl
require_done false e h = absurd (cc)

pub validate-IsSound : (c : Config) → validate c ≡ ok tt → IsSound c
unfolding validate
validate-IsSound c h = require_then (is_iface c.uplink_if) config_error _ h λ uplink h.
    require_then (is_iface c.client_if) config_error _ h λ client h.
      refuse_if_then (same_codes c.uplink_if c.client_if) config_error _ h λ apart h.
        require_then (is_port c.trans_port) config_error _ h λ trans h.
          require_then (is_port c.dns_port) config_error _ h λ dns h.
            require_then (is_port c.socks_port) config_error _ h λ socks h.
              refuse_if_then
                (same_ℤ c.trans_port c.dns_port
                  || same_ℤ c.trans_port c.socks_port
                  || same_ℤ c.dns_port c.socks_port)
                config_error _ h
                λ differ user.
                  let (trans_dns, trans_socks, dns_socks) =
                    differ_then c.trans_port c.dns_port c.socks_port differ in
                  record {
                    uplink = uplink;
                    client = client;
                    apart = λ e.
                        let same = (same_codes_iff c.uplink_if c.client_if).1 e in ground arith;
                    trans = is_port-IsPort c.trans_port trans;
                    dns = is_port-IsPort c.dns_port dns;
                    socks = is_port-IsPort c.socks_port socks;
                    trans_dns = trans_dns;
                    trans_socks = trans_socks;
                    dns_socks = dns_socks;
                    user = require_done (is_user c.tor_user) config_error user;
                  }
