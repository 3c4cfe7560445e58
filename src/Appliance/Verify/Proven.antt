-- ===== src/Appliance/Verify/Proven.antt =====
-- What the exit status 0 of `cmd_verify` (src/amnesic_pi/cli.py, verify.py) says of the appliance.
use amnesic_pi.Prelude.{
  ◌≢◌, ℕ, String, ◌≡◌, ◌↔◌, refl, ap, ◌∙◌, Bool, true, false, not, ◌&&◌, ◌||◌, Option, some, none,
  List, any, map, if◌then◌else◌, arith, suc, zero,
}
use amnesic_pi.Prelude.Int.{ℤ, pos, negsuc}
use amnesic_pi.Prelude.Text.{codes, strip, same_codes, same_codes_iff, occurs}
use amnesic_pi.Errors.{Exn, Result, Done, ok, err, is_os_error, bind_then, ok-injective, ◌>>=◌}
use amnesic_pi.Appliance.Config.{Config, same_ℤ, load_env}
use amnesic_pi.Appliance.Cli.{load, or_exit}
use amnesic_pi.Appliance.Verify.{
  Answers, Completed, Check, read_sysctl, port_open, find_from, take, lower, chain_marker, drops,
  chain_holds, is_one, dns_marker, verify, cmd_verify,
}
use amnesic_pi.Appliance.Verify.Search.{Within, FoundAt, occurs_iff, find_from_iff}

-- The listing has the chain, and `policy drop` in the 700 characters from its first mention on.
abbrev pub Drops : List ℕ → String → Type 0
Drops text chain =
    (rest : List ℕ) × FoundAt (chain_marker chain) text rest
    × Within (codes "policy drop") (map lower (take 700 rest))

-- The kernel's file reads 1.
abbrev pub ReadsOne : Result (List ℕ) → Type 0
ReadsOne file = (text : List ℕ) × (file ≡ ok text) × (strip text ≡ codes "1")

pub record IsProven (a : Answers) (c : Config) : Type 0 where
  pub nft : Completed
  pub table : a.table ≡ ok nft
  pub listed : nft.returncode ≡ pos 0
  pub input : Drops nft.stdout "input"
  pub forward : Drops nft.stdout "forward"
  pub output : Drops nft.stdout "output"
  pub forwarding : ReadsOne a.ip_forward
  pub ipv6_all : ReadsOne a.ipv6_all
  pub ipv6_default : ReadsOne a.ipv6_default
  pub trans : a.connect c.trans_port ≡ ok tt
  pub ss : Completed
  pub sockets : a.sockets ≡ ok ss
  pub returned : ss.returncode ≡ pos 0
  pub dns : Within (dns_marker c) ss.stdout

zero_iff : (z : ℤ) → (same_ℤ z (pos 0) ≡ true) ↔ (z ≡ pos 0)
zero_iff (pos n) = (λ h. ap pos (ground arith), λ h. let e : n ≡ 0 = cc in ground arith)
zero_iff (negsuc n) = (λ h. absurd (ground arith), λ h. absurd (cc))

chain_iff : (text : List ℕ) (chain : String) → (chain_holds text chain ≡ true) ↔ Drops text chain
unfolding chain_holds drops
chain_iff text chain =
    let marker = chain_marker chain in
    (
      λ h. first (find_from marker text) refl h,
      λ (rest, found, within).
          ap drops ((find_from_iff marker text rest).1 found)
          ∙ (occurs_iff (codes "policy drop") (map lower (take 700 rest))).1 within,
    )
  where
    first :
        (o : Option (List ℕ))
        → find_from (chain_marker chain) text ≡ o
        → drops o ≡ true
        → Drops text chain
    first none e h = absurd (cc)
    first (some rest) e h = (
      rest,
      (find_from_iff (chain_marker chain) text rest).0 e,
      (occurs_iff (codes "policy drop") (map lower (take 700 rest))).0 h,
    )

-- What is caught reads as a failed check, and the rest is raised: neither is a success.
not_true : {B : Type 0} (b : Bool) (e : Exn) → (if b then ok false else err e) ≡ ok true → B
not_true true e h = absurd (cc)
not_true false e h = absurd (cc)

one_iff : (file : Result (List ℕ)) → (is_one (read_sysctl file) ≡ ok true) ↔ ReadsOne file
one_iff (ok text) = (
  λ h. (text, refl, (same_codes_iff (strip text) (codes "1")).0 (ok-injective h)),
  λ (t, e, one). ap ok (
      ap (λ s. same_codes (strip s) (codes "1")) (ok-injective e)
      ∙ (same_codes_iff (strip t) (codes "1")).1 one),
)
one_iff (err e) = (λ h. not_true (is_os_error e) e h, λ (t, read, one). absurd (cc))

connect_iff : (d : Done) → (port_open d ≡ ok true) ↔ (d ≡ ok tt)
connect_iff (ok done) = (λ h. refl, λ h. refl)
connect_iff (err e) = (λ h. not_true (is_os_error e) e h, λ h. absurd (cc))

-- The checks of `verify` all hold.
abbrev NoneFails : Bool → Bool → Bool → Bool → Bool → Bool → Bool → Bool → Bool → Bool → Type 0
NoneFails t i f o on all default trans ran dns =
    (not t
      || (not i
          || (not f
              || (not o
                  || (not on
                      || (not (all && default) || (not trans || (not (ran && dns) || false))))))))
    ≡ false

each_holds :
    (t i f o on all default trans ran dns : Bool)
    → NoneFails t i f o on all default trans ran dns
    → ((t ≡ true) × (i ≡ true) × (f ≡ true) × (o ≡ true) × (on ≡ true))
      × ((all ≡ true) × (default ≡ true) × (trans ≡ true) × (ran ≡ true) × (dns ≡ true))
each_holds true true true true true true true true true true h =
    ((refl, refl, refl, refl, refl), (refl, refl, refl, refl, refl))
each_holds false i f o on all default trans ran dns h = absurd (cc)
each_holds true false f o on all default trans ran dns h = absurd (cc)
each_holds true true false o on all default trans ran dns h = absurd (cc)
each_holds true true true false on all default trans ran dns h = absurd (cc)
each_holds true true true true false all default trans ran dns h = absurd (cc)
each_holds true true true true true false default trans ran dns h = absurd (cc)
each_holds true true true true true true false trans ran dns h = absurd (cc)
each_holds true true true true true true true false ran dns h = absurd (cc)
each_holds true true true true true true true true false dns h = absurd (cc)
each_holds true true true true true true true true true false h = absurd (cc)

none_fails :
    (t i f o ran dns : Bool)
    → t ≡ true
    → i ≡ true
    → f ≡ true
    → o ≡ true
    → ran ≡ true
    → dns ≡ true
    → NoneFails t i f o true true true true ran dns
none_fails t i f o ran dns e1 e2 e3 e4 e5 e6 = ground arith

module _ (a : Answers) (c : Config) where
  -- Every check holds.
  abbrev AllHold : Result (List Check) → Type 0
  AllHold checks =
      (found : List Check) × (checks ≡ ok found) × (any (λ check. not check.holds) found ≡ false)

  hold→IsProven : AllHold (verify a c) → IsProven a c
  unfolding verify
  hold→IsProven (checks, h, good) = bind_then a.table _ h λ nft table h.
      bind_then (is_one (read_sysctl a.ip_forward)) _ h λ forwarding e1 h.
        bind_then (is_one (read_sysctl a.ipv6_all)) _ h λ all_off e2 h.
          bind_then (is_one (read_sysctl a.ipv6_default)) _ h λ default_off e3 h.
            bind_then (port_open (a.connect c.trans_port)) _ h λ trans e4 h.
              bind_then a.sockets _ h λ ss sockets h.
                let ((t, i, f, o, on), (all, default, connected, ran, dns)) =
                  each_holds (same_ℤ nft.returncode (pos 0)) (chain_holds nft.stdout "input")
                    (chain_holds nft.stdout "forward") (chain_holds nft.stdout "output") forwarding
                    all_off default_off trans (same_ℤ ss.returncode (pos 0))
                    (occurs (dns_marker c) ss.stdout)
                    (ap (any (λ check. not check.holds)) (ok-injective h) ∙ good) in
                record {
                  nft = nft;
                  table = table;
                  listed = (zero_iff nft.returncode).0 t;
                  input = (chain_iff nft.stdout "input").0 i;
                  forward = (chain_iff nft.stdout "forward").0 f;
                  output = (chain_iff nft.stdout "output").0 o;
                  forwarding = (one_iff a.ip_forward).0 (e1 ∙ ap ok on);
                  ipv6_all = (one_iff a.ipv6_all).0 (e2 ∙ ap ok all);
                  ipv6_default = (one_iff a.ipv6_default).0 (e3 ∙ ap ok default);
                  trans = (connect_iff (a.connect c.trans_port)).0 (e4 ∙ ap ok connected);
                  ss = ss;
                  sockets = sockets;
                  returned = (zero_iff ss.returncode).0 ran;
                  dns = (occurs_iff (dns_marker c) ss.stdout).0 dns;
                }

  IsProven→hold : IsProven a c → AllHold (verify a c)
  unfolding verify
  IsProven→hold proven = rw proven.table (
      rw ((one_iff a.ip_forward).1 proven.forwarding) (
        rw ((one_iff a.ipv6_all).1 proven.ipv6_all) (
          rw ((one_iff a.ipv6_default).1 proven.ipv6_default) (
            rw ((connect_iff (a.connect c.trans_port)).1 proven.trans) (
              rw proven.sockets (
                _,
                refl,
                none_fails (same_ℤ proven.nft.returncode (pos 0))
                    (chain_holds proven.nft.stdout "input")
                    (chain_holds proven.nft.stdout "forward")
                    (chain_holds proven.nft.stdout "output") (same_ℤ proven.ss.returncode (pos 0))
                    (occurs (dns_marker c) proven.ss.stdout)
                    ((zero_iff proven.nft.returncode).1 proven.listed)
                    ((chain_iff proven.nft.stdout "input").1 proven.input)
                    ((chain_iff proven.nft.stdout "forward").1 proven.forward)
                    ((chain_iff proven.nft.stdout "output").1 proven.output)
                    ((zero_iff proven.ss.returncode).1 proven.returned)
                    ((occurs_iff (dns_marker c) proven.ss.stdout).1 proven.dns),
              ))))))

loaded : (file : Result (List ℕ)) (c : Config) → load file ≡ ok c → load_env file ≡ ok c
loaded file c h = go (load_env file) h
  where
    go : (r : Result Config) → or_exit r ≡ ok c → r ≡ ok c
    go (ok d) h = h
    go (err e) h = absurd (cc)

verdict : (b : Bool) → ok (if b then pos 1 else pos 0) ≡ ok (pos 0) → b ≡ false
verdict true h = absurd (one (cc))
  where
    one : suc zero ≢ zero
    one h = absurd (ground arith)
verdict false h = refl

concluded :
    (m : Result Config) (v : Config → Result (List Check)) (c : Config) (checks : List Check)
    → m ≡ ok c
    → v c ≡ ok checks
    → any (λ check. not check.holds) checks ≡ false
    → (m >>= λ c.
        v c >>= λ checks. ok (if any (λ check. not check.holds) checks then pos 1 else pos 0))
      ≡ ok (pos 0)
concluded m v c checks e seen good = rw e (rw seen (rw good refl))

-- `amnesic-pi verify` returns 0 exactly when a valid configuration was loaded and all of this was seen:
-- the table is listed; the listing has the chains input, forward and output, and `policy drop` within
-- 700 characters from the first mention of each; IPv4 forwarding reads 1, and so do both switches that
-- turn IPv6 off; the transparent proxy's port takes a connection; and the list of UDP sockets has a
-- colon followed by the DNS port.
pub cmd_verify_iff :
    (a : Answers) (config : Result (List ℕ))
    → (cmd_verify a config ≡ ok (pos 0)) ↔ ((c : Config) × (load_env config ≡ ok c) × IsProven a c)
unfolding cmd_verify
cmd_verify_iff a config = (
  λ h. bind_then (load config) _ h λ c e h. bind_then (verify a c) _ h λ checks seen h. (
    c,
    loaded config c e,
    hold→IsProven a c (checks, seen, verdict (any (λ check. not check.holds) checks) h),
  ),
  λ (c, e, proven).
      let (checks, seen, good) = IsProven→hold a c proven in
      concluded (load config) (verify a) c checks (ap or_exit e) seen good,
)
