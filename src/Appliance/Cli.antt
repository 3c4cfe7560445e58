-- ===== src/Appliance/Cli.antt =====
-- src/amnesic_pi/cli.py: `render-firewall` and `apply-firewall`, and the exit status of the process.
-- What the kernel holds is a type of its own, on which `nft` acts.
pub mod Applied
pub mod Candidates
use amnesic_pi.Prelude.{
  ◌≡◌, ◌≢◌, ℕ, zero, suc, ◌+◌, ◌-◌, ◌%◌, Bool, true, false, Option, none, some, List, [], ◌++◌,
  ◌==◌, if◌then◌else◌,
}
use amnesic_pi.Prelude.Int.{ℤ, pos, negsuc}
use amnesic_pi.Prelude.Text.{codes}
use amnesic_pi.Errors.{
  Exn, Result, Done, ok, err, is_os_error, config_error, firewall_error, system_exit, ◌>>=◌,
}
use amnesic_pi.Appliance.Config.{Config, same_ℤ, load_env}
use amnesic_pi.Appliance.Firewall.{tor_uid, render_file}

-- `except (OSError, ConfigError)`, and `except (OSError, FirewallError)`.
abbrev pub is_load_error : Exn → Bool
is_load_error config_error = true
is_load_error e = is_os_error e

abbrev pub is_render_error : Exn → Bool
is_render_error firewall_error = true
is_render_error e = is_os_error e

-- `_load`
abbrev pub or_exit : Result Config → Result Config
or_exit (ok c) = ok c
or_exit (err e) = err (if is_load_error e then system_exit else e)

abbrev pub load : Result (List ℕ) → Result Config
load file = or_exit (load_env file)

-- `args.tor_uid if args.tor_uid is not None else tor_uid(config)`
abbrev pub chosen_uid : (List ℕ → Option ℤ) → Option ℤ → Config → Result ℤ
chosen_uid passwd none c = tor_uid passwd c
chosen_uid passwd (some uid) c = ok uid

-- `cmd_render`: what it returns, and what it writes to the standard output.
unfoldable pub cmd_render :
    (List ℕ → Option ℤ) → Result (List ℕ) → Result (List ℕ) → Option ℤ → Result (ℤ × List ℕ)
cmd_render passwd config template uid_arg = do
  c ← load config
  let rendered = do uid ← chosen_uid passwd uid_arg c; render_file template c uid
  elim rendered [
    | ok text ↦ ok (pos 0, text)
    | err e ↦ if is_render_error e then ok (pos 2, []) else err e
  ]

-- What `nft` answers over the rules that the kernel holds: `nft list table inet amnesic_pi`, `nft -c -f`
-- and `nft -f` on a text. A return code, or `OSError` if there is no such program.
pub record Nft (R : Type 0) : Type 0 where
  pub list_table : R → Result ℤ
  pub check : List ℕ → R → Result ℤ
  pub run : List ℕ → R → Result ℤ × R

-- A batch is a transaction: one that fails leaves the rules as they were.
abbrev pub IsTransactional : {R : Type 0} → Nft R → Type 0
IsTransactional {R} nft =
    (text : List ℕ) (rules : R)
    → (nft.run text rules).0 ≢ ok (pos 0)
    → (nft.run text rules).1 ≡ rules

-- What the process is given: its user, its two files, the password database, and whether the candidate
-- file can be made and written.
pub record Inputs : Type 0 where
  pub euid : Option ℕ
  pub config : Result (List ℕ)
  pub template : Result (List ℕ)
  pub passwd : List ℕ → Option ℤ
  pub created : Done
  pub written : Done

-- The rules in force, and how many candidate files there are.
pub record Host (R : Type 0) : Type 0 where
  pub rules : R
  pub candidates : ℕ

-- `hasattr(os, "geteuid") and os.geteuid() != 0`, negated; `none` where there is no such function.
abbrev pub may_apply : Option ℕ → Bool
may_apply none = true
may_apply (some uid) = uid == 0

abbrev pub rendered_for : Inputs → Config → Result (List ℕ)
rendered_for i c = do uid ← tor_uid i.passwd c; render_file i.template c uid

abbrev pub transaction : Bool → List ℕ → List ℕ
transaction present rendered =
    (if present then codes "delete table inet amnesic_pi\n" else codes "") ++ rendered

module _ {R : Type 0} where
  -- The `try` block: what follows the answer of `nft -c`.
  abbrev pub after_check : Nft R → List ℕ → R → Result ℤ → Result ℤ × R
  after_check nft text rules (err e) = (err e, rules)
  after_check nft text rules (ok code) =
      if same_ℤ code (pos 0) then nft.run text rules else (ok code, rules)

  -- `candidate.unlink(missing_ok=True)`, which `finally` runs however the block ends.
  abbrev pub unlink : Host R → Host R
  unlink host = record host { candidates = host.candidates - 1 }

  -- The candidate file, once it is made, and what follows it once it is written.
  abbrev pub after_write : Nft R → List ℕ → Host R → Done → Result ℤ × Host R
  after_write nft text host (err e) = (err e, host)
  after_write nft text host (ok done) =
      let (out, rules) = after_check nft text host.rules (nft.check text host.rules) in
      (out, unlink (record host { rules = rules }))

  abbrev pub after_create : Nft R → Inputs → List ℕ → Host R → Done → Result ℤ × Host R
  after_create nft i text host (err e) = (err e, host)
  after_create nft i text host (ok done) =
      after_write nft text (record host { candidates = suc host.candidates }) i.written

  -- `present` is that the listing returned 0.
  abbrev pub after_list : Nft R → Inputs → Host R → List ℕ → Result ℤ → Result ℤ × Host R
  after_list nft i host rendered (err e) = (err e, host)
  after_list nft i host rendered (ok code) =
      after_create nft i (transaction (same_ℤ code (pos 0)) rendered) host i.created

  abbrev pub after_render : Nft R → Inputs → Host R → Result (List ℕ) → Result ℤ × Host R
  after_render nft i host (err e) = (if is_render_error e then ok (pos 2) else err e, host)
  after_render nft i host (ok rendered) = after_list nft i host rendered (nft.list_table host.rules)

  abbrev pub after_load : Nft R → Inputs → Host R → Result Config → Result ℤ × Host R
  after_load nft i host (err e) = (err e, host)
  after_load nft i host (ok c) = after_render nft i host (rendered_for i c)

  -- `cmd_apply`
  unfoldable pub cmd_apply : Nft R → Inputs → Host R → Result ℤ × Host R
  cmd_apply nft i host =
      if may_apply i.euid then after_load nft i host (load i.config) else (ok (pos 2), host)

-- `raise SystemExit(args.func(args))` in `main`: the low byte of a number; 1 after a message or an
-- exception that nothing catches.
abbrev pub exit_status : Result ℤ → ℕ
exit_status (ok (pos n)) = n % 256
exit_status (ok (negsuc n)) = 255 - n % 256
exit_status (err e) = 1
