-- ===== src/Appliance/Verify.antt =====
-- src/amnesic_pi/verify.py and `cmd_verify` of src/amnesic_pi/cli.py: what the appliance can prove
-- about itself. What `nft`, `ss`, the kernel's files and the sockets answer is a parameter.
pub mod Search
pub mod Proven
use amnesic_pi.Prelude.{
  ℕ, zero, suc, ◌+◌, String, Bool, true, false, not, ◌&&◌, List, [], ◌∷◌, ◌++◌, all, any, is_empty,
  map, if◌then◌else◌, Option, none, some,
}
use amnesic_pi.Prelude.Int.{ℤ, pos}
use amnesic_pi.Prelude.Text.{codes, strip, same_codes, between, starts, occurs}
use amnesic_pi.Errors.{Result, Done, ok, err, is_os_error, ◌>>=◌}
use amnesic_pi.Appliance.Config.{Config, same_ℤ}
use amnesic_pi.Appliance.Firewall.{show_int}
use amnesic_pi.Appliance.Cli.{load}

-- Without `detail`, which is a text for the reader.
pub record Check : Type 0 where
  pub name : String
  pub holds : Bool

-- `subprocess.CompletedProcess`
pub record Completed : Type 0 where
  pub returncode : ℤ
  pub stdout : List ℕ

-- The answers to `nft list table inet amnesic_pi` and to `ss -H -lun`, or `OSError` where there is no
-- such program; the texts of the kernel's files; and what `create_connection` to a
-- port of 127.0.0.1 raises.
pub record Answers : Type 0 where
  pub table : Result Completed
  pub ip_forward : Result (List ℕ)
  pub ipv6_all : Result (List ℕ)
  pub ipv6_default : Result (List ℕ)
  pub connect : ℤ → Done
  pub sockets : Result Completed

-- `_read_sysctl`
abbrev pub read_sysctl : Result (List ℕ) → Result (List ℕ)
read_sysctl file = do text ← file; ok (strip text)

-- `_port_open`
abbrev pub port_open : Done → Result Bool
port_open (ok connected) = ok true
port_open (err e) = if is_os_error e then ok false else err e

-- `text[text.find(marker):]`; `none` for -1.
unfoldable pub find_from : List ℕ → List ℕ → Option (List ℕ)
find_from marker [] = if is_empty marker then some [] else none
find_from marker (c ∷ s) =
    let later = find_from marker s in if starts marker (c ∷ s) then some (c ∷ s) else later

-- `s[:n]`
unfoldable pub take : ℕ → List ℕ → List ℕ
take n [] = []
take zero (c ∷ s) = []
take (suc n) (c ∷ s) = c ∷ take n s

-- `str.lower` on the letters of ASCII, which is what a search for words of ASCII can see of it.
abbrev pub lower : ℕ → ℕ
lower c = if between 65 90 c then c + 32 else c

abbrev pub chain_marker : String → List ℕ
chain_marker chain = codes "chain " ++ codes chain

-- `"policy drop" in segment.lower()`
abbrev pub drops : Option (List ℕ) → Bool
unfolding take occurs
drops none = false
drops (some s) = occurs (codes "policy drop") (map lower (take 700 s))

-- One round of the loop over the chains.
unfoldable pub chain_holds : List ℕ → String → Bool
unfolding find_from
chain_holds text chain = drops (find_from (chain_marker chain) text)

-- `forwarding == "1"`, where `OSError` gives another text.
abbrev pub is_one : Result (List ℕ) → Result Bool
is_one (ok value) = ok (same_codes value (codes "1"))
is_one (err e) = if is_os_error e then ok false else err e

abbrev pub dns_marker : Config → List ℕ
unfolding show_int
dns_marker c = codes ":" ++ show_int c.dns_port

-- `verify`
unfoldable pub verify : Answers → Config → Result (List Check)
unfolding chain_holds occurs dns_marker
verify a c = do
  nft ← a.table
  let text = nft.stdout
  forwarding ← is_one (read_sysctl a.ip_forward)
  all_off ← is_one (read_sysctl a.ipv6_all)
  default_off ← is_one (read_sysctl a.ipv6_default)
  trans ← port_open (a.connect c.trans_port)
  ss ← a.sockets
  ok (
      record { name = "nft table"; holds = same_ℤ nft.returncode (pos 0) }
      ∷ record { name = "input policy DROP"; holds = chain_holds text "input" }
      ∷ record { name = "forward policy DROP"; holds = chain_holds text "forward" }
      ∷ record { name = "output policy DROP"; holds = chain_holds text "output" }
      ∷ record { name = "IPv4 forwarding"; holds = forwarding }
      ∷ record { name = "IPv6 disabled"; holds = all_off && default_off }
      ∷ record { name = "Tor TransPort"; holds = trans }
      ∷ record {
        name = "Tor DNSPort";
        holds = same_ℤ ss.returncode (pos 0) && occurs (dns_marker c) ss.stdout;
      }
      ∷ [])

-- `cmd_verify`
unfoldable pub cmd_verify : Answers → Result (List ℕ) → Result ℤ
unfolding verify
cmd_verify a config = do
  c ← load config
  checks ← verify a c
  ok (if any (λ check. not check.holds) checks then pos 1 else pos 0)
