-- ===== src/Samples/Appliance.antt =====
-- Runs of the theorems on the appliance: a short configuration, a template of one rule, and a kernel
-- whose rules are the text that `nft` last ran.
use amnesic_pi.Prelude.{
  ℕ, ◌≡◌, ◌≢◌, ◌↔◌, ◌⊎◌, refl, Bool, true, false, Option, some, List, [], ◌∷◌, ◌++◌, is_empty,
  if◌then◌else◌,
}
use amnesic_pi.Prelude.Int.{pos}
use amnesic_pi.Prelude.Text.{codes, lines_from, occurs}
use amnesic_pi.Errors.{ok}
use amnesic_pi.Appliance.Config.{Config, validate, load_env}
use amnesic_pi.Appliance.Config.Valid.{IsSound}
use amnesic_pi.Appliance.Config.Loaded.{IsSaid, load_env-IsSound}
use amnesic_pi.Appliance.Firewall.{client_if, dns_port, text_of, value_of, render}
use amnesic_pi.Appliance.Firewall.Rendered.{Slots, fill, render-fill}
use amnesic_pi.Appliance.Cli.{Nft, Inputs, Host, IsTransactional, cmd_apply}
use amnesic_pi.Appliance.Cli.Applied.{IsApplied, cmd_apply-IsApplied}
use amnesic_pi.Appliance.Cli.Candidates.{Leaves, cmd_apply-candidates}
use amnesic_pi.Appliance.Verify.{Answers, chain_holds, dns_marker, cmd_verify}
use amnesic_pi.Appliance.Verify.Proven.{IsProven, cmd_verify_iff}

abbrev file : List ℕ
file = codes "# uplink first\nUPLINK_IF = eth0\n\nCLIENT_IF=wlan0\nDNS_PORT=53_53\n"

abbrev config : Config
config = record {
  uplink_if = codes "eth0";
  client_if = codes "wlan0";
  trans_port = pos 9040;
  dns_port = pos 5353;
  socks_port = pos 9050;
  tor_user = codes "debian-tor";
}

loaded : load_env (ok file) ≡ ok config
unfolding load_env amnesic_pi.Prelude.Text.lines_from amnesic_pi.Appliance.Config.read_values
    amnesic_pi.Appliance.Config.read_line amnesic_pi.Appliance.Config.cut
    amnesic_pi.Appliance.Config.build amnesic_pi.Appliance.Config.parse_int
    amnesic_pi.Appliance.Config.read_digits amnesic_pi.Appliance.Config.digit_in
    amnesic_pi.Appliance.Config.validate amnesic_pi.Prelude.Dict.lookup
    amnesic_pi.Prelude.Dict.insert amnesic_pi.Prelude.Text.strip
loaded = refl

load_env-IsSound_example : IsSound config × IsSaid (lines_from false [] file) config
load_env-IsSound_example = load_env-IsSound file config loaded

valid : validate config ≡ ok tt
unfolding validate
valid = refl

abbrev slots : Slots
slots = (client_if, codes "\" udp dport 53 redirect to :") ∷ (dns_port, codes "\n") ∷ []

render-fill_example :
    render (codes "iifname \"" ++ fill text_of slots) config (pos 107)
    ≡ ok (codes "iifname \"" ++ fill (value_of config (pos 107)) slots)
render-fill_example =
    render-fill config 107 (codes "iifname \"") slots valid refl ((refl, refl), ((refl, refl), tt))

abbrev nft : Nft (List ℕ)
nft = record {
  list_table = λ rules. ok (if is_empty rules then pos 1 else pos 0);
  check = λ text rules. ok (pos 0);
  run = λ text rules. (ok (pos 0), text);
}

nft-IsTransactional : IsTransactional nft
nft-IsTransactional text rules fails = absurd (fails refl)

abbrev inputs : Inputs
inputs = record {
  euid = some 0;
  config = ok file;
  template = ok (codes "iifname \"@CLIENT_IF@\"\n");
  passwd = λ name. some (pos 107);
  created = ok tt;
  written = ok tt;
}

abbrev host : Host (List ℕ)
host = record { rules = codes "old"; candidates = 0 }

abbrev applied : Host (List ℕ)
applied = record {
  rules = codes "delete table inet amnesic_pi\niifname \"wlan0\"\n";
  candidates = 0;
}

ran : cmd_apply nft inputs host ≡ (ok (pos 0), applied)
unfolding cmd_apply load_env amnesic_pi.Prelude.Text.lines_from
    amnesic_pi.Appliance.Config.read_values amnesic_pi.Appliance.Config.read_line
    amnesic_pi.Appliance.Config.cut amnesic_pi.Appliance.Config.build
    amnesic_pi.Appliance.Config.parse_int amnesic_pi.Appliance.Config.read_digits
    amnesic_pi.Appliance.Config.digit_in amnesic_pi.Appliance.Config.validate
    amnesic_pi.Prelude.Dict.lookup amnesic_pi.Prelude.Dict.insert amnesic_pi.Prelude.Text.strip
    render amnesic_pi.Appliance.Firewall.replace_all amnesic_pi.Appliance.Firewall.replace_from
    amnesic_pi.Appliance.Firewall.value_of
ran = refl

cmd_apply-IsApplied_example :
    ((ok (pos 0) ≡ ok (pos 0)) × IsApplied nft inputs host applied)
    ⊎ ((ok (pos 0) ≢ ok (pos 0)) × (applied.rules ≡ host.rules))
cmd_apply-IsApplied_example =
    cmd_apply-IsApplied nft nft-IsTransactional inputs host applied (ok (pos 0)) ran

cmd_apply-candidates_example :
    Leaves inputs.written host.candidates (cmd_apply nft inputs host).1.candidates
cmd_apply-candidates_example = cmd_apply-candidates nft inputs host

abbrev answers : Answers
answers = record {
  table = ok (record {
    returncode = pos 0;
    stdout =
        codes
          "chain input { policy drop; } chain forward { policy drop; } chain output { policy drop; }";
  });
  ip_forward = ok (codes "1\n");
  ipv6_all = ok (codes "1\n");
  ipv6_default = ok (codes "1\n");
  connect = λ port. ok tt;
  sockets = ok (record { returncode = pos 0; stdout = codes "UNCONN 0 0 127.0.0.1:5353" });
}

cmd_verify_iff_example :
    (cmd_verify answers (ok file) ≡ ok (pos 0))
    ↔ ((c : Config) × (load_env (ok file) ≡ ok c) × IsProven answers c)
cmd_verify_iff_example = cmd_verify_iff answers (ok file)

verified : cmd_verify answers (ok file) ≡ ok (pos 0)
unfolding cmd_verify load_env amnesic_pi.Prelude.Text.lines_from
    amnesic_pi.Appliance.Config.read_values amnesic_pi.Appliance.Config.read_line
    amnesic_pi.Appliance.Config.cut amnesic_pi.Appliance.Config.build
    amnesic_pi.Appliance.Config.parse_int amnesic_pi.Appliance.Config.read_digits
    amnesic_pi.Appliance.Config.digit_in amnesic_pi.Appliance.Config.validate
    amnesic_pi.Prelude.Dict.lookup amnesic_pi.Prelude.Dict.insert amnesic_pi.Prelude.Text.strip
    amnesic_pi.Appliance.Verify.verify amnesic_pi.Appliance.Verify.chain_holds
    amnesic_pi.Appliance.Verify.find_from amnesic_pi.Appliance.Verify.take
    amnesic_pi.Prelude.Text.occurs amnesic_pi.Appliance.Firewall.show_int
    amnesic_pi.Value.Canonical.decimal
verified = refl

-- A chain that accepts by policy passes if the next chain is near and drops; a DNS port passes if a
-- longer port begins with it.
chain_of_another :
    chain_holds (codes "chain input { policy accept; } chain forward { policy drop; }") "input"
    ≡ true
unfolding chain_holds amnesic_pi.Appliance.Verify.find_from amnesic_pi.Appliance.Verify.take
    amnesic_pi.Prelude.Text.occurs
chain_of_another = refl

port_of_another : occurs (dns_marker config) (codes "UNCONN 0 0 127.0.0.1:53530") ≡ true
unfolding occurs amnesic_pi.Appliance.Firewall.show_int amnesic_pi.Value.Canonical.decimal
port_of_another = refl
