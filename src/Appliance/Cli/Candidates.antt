-- ===== src/Appliance/Cli/Candidates.antt =====
-- The candidate files that `cmd_apply` of src/amnesic_pi/cli.py leaves.
use amnesic_pi.Prelude.{
  ◌⊎◌, inl, inr, ℕ, suc, ◌≡◌, refl, Bool, true, false, List, if◌then◌else◌, arith,
}
use amnesic_pi.Prelude.Int.{ℤ, pos}
use amnesic_pi.Errors.{Exn, Result, Done, ok, err}
use amnesic_pi.Appliance.Config.{Config, same_ℤ}
use amnesic_pi.Appliance.Cli.{
  Nft, Inputs, Host, may_apply, load, rendered_for, transaction, after_write, after_create,
  after_list, after_render, after_load, cmd_apply,
}

-- No candidate file is left, or one, and that one only if its writing failed.
abbrev pub Leaves : Done → ℕ → ℕ → Type 0
Leaves written before after =
    (after ≡ before) ⊎ (((e : Exn) × (written ≡ err e)) × (after ≡ suc before))

module _ {R : Type 0} (nft : Nft R) (i : Inputs) (host : Host R) where
  write-Leaves :
      (text : List ℕ) (written : Done)
      → Leaves written host.candidates
          (after_write nft text
            (record host { candidates = suc host.candidates })
            written).1.candidates
  write-Leaves text (err e) = inr ((e, refl), refl)
  write-Leaves text (ok done) = inl (omega arith)

  create-Leaves :
      (text : List ℕ) (created : Done)
      → Leaves i.written host.candidates (after_create nft i text host created).1.candidates
  create-Leaves text (err e) = inl refl
  create-Leaves text (ok done) = write-Leaves text i.written

  list-Leaves :
      (rendered : List ℕ) (listed : Result ℤ)
      → Leaves i.written host.candidates (after_list nft i host rendered listed).1.candidates
  list-Leaves rendered (err e) = inl refl
  list-Leaves rendered (ok code) =
      create-Leaves (transaction (same_ℤ code (pos 0)) rendered) i.created

  render-Leaves :
      (answer : Result (List ℕ))
      → Leaves i.written host.candidates (after_render nft i host answer).1.candidates
  render-Leaves (err e) = inl refl
  render-Leaves (ok rendered) = list-Leaves rendered (nft.list_table host.rules)

  load-Leaves :
      (may : Bool) (c : Result Config)
      → Leaves i.written host.candidates
          (if may then after_load nft i host c else (ok (pos 2), host)).1.candidates
  load-Leaves false c = inl refl
  load-Leaves true (err e) = inl refl
  load-Leaves true (ok c) = render-Leaves (rendered_for i c)

-- However `apply-firewall` ends, an exception included, it leaves as many candidate files as there
-- were, or one more, and one more only where writing its candidate file failed.
pub cmd_apply-candidates :
    {R : Type 0} (nft : Nft R) (i : Inputs) (host : Host R)
    → Leaves i.written host.candidates (cmd_apply nft i host).1.candidates
unfolding cmd_apply
cmd_apply-candidates nft i host = load-Leaves nft i host (may_apply i.euid) (load i.config)
