-- ===== src/Gates/Waivers.antt =====
-- When `waive` writes a waiver record, and what it refuses.
use amnesic_pi.Prelude.{some, [], ◌∷◌, ℕ, String, ◌≡◌, refl, sym, subst, true, arith, elem, eq_iff}
use amnesic_pi.Errors.{err, policy_breach}
use amnesic_pi.Platform.{Platform}
use amnesic_pi.Value.{Value, Fields, str, obj, get, keys}
use amnesic_pi.Gates.{unwaivable, gate, find_gate, waive}

-- Waiving an unwaivable gate is a policy breach, whoever approves it and for whatever reason.
pub waive-unwaivable :
    (p : Platform) (now : ℕ) (name approver rationale : String)
    → elem name unwaivable ≡ true
    → waive p now name approver rationale ≡ err policy_breach
unfolding waive gate find_gate
waive-unwaivable p now name approver rationale h =
    subst (λ n. waive p now n approver rationale ≡ err policy_breach)
      (sym ((eq_iff name "FAIL_CLOSED_PASS").0 (ground arith))) refl

-- What a waiver record says under each of its keys, and that it has no other.
pub record IsWaiver (name approver rationale waived_at : String) (v : Value) : Type 0 where
  pub fields : Fields
  pub shape : v ≡ obj fields
  pub named : get fields "gate" ≡ some (str name)
  pub approved : get fields "waived_by" ≡ some (str approver)
  pub reasoned : get fields "rationale" ≡ some (str rationale)
  pub dated : get fields "waived_at" ≡ some (str waived_at)
  pub only : keys fields ≡ "gate" ∷ "waived_by" ∷ "rationale" ∷ "waived_at" ∷ []
