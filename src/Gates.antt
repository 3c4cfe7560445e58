-- ===== src/Gates.antt =====
-- src/orchestrator/gates.py: the seven gates, gate results and waivers.
pub mod Results
pub mod Waivers
use amnesic_pi.Prelude.{
  ℕ, String, Bool, true, false, not, ◌&&◌, ◌||◌, Option, none, some, List, [], ◌∷◌, any, elem,
  is_empty, keep, map, str_eq, if◌then◌else◌,
}
use amnesic_pi.Prelude.Text.{is_blank}
use amnesic_pi.Errors.{
  Exn, Result, Done, ok, err, schema_error, type_error, policy_breach, require, refuse_if, ◌>>=◌,
  ◌>>◌,
}
use amnesic_pi.Platform.{Platform, DateTime, utc}
use amnesic_pi.Value.{
  Value, null, bool, int, str, arr, obj, Fields, end, field, get_or_null, item, items_of, list_of,
  strs,
}
use amnesic_pi.Schema.Basics.{as_str, require_mapping, strict_keys}
use amnesic_pi.Schema.Node.{is_hashable}

pub record Gate : Type 0 where
  pub name : String
  pub owner_team : String
  pub passes_when : String
  pub upstream : String
  pub waivable : Bool

-- `GATES`
abbrev pub gates : List Gate
gates =
    record {
      name = "SPEC_COMPLETE";
      owner_team = "docs";
      upstream = "SPEC_COMPLETE";
      passes_when =
          "the authority being added or changed is stated, the threat-model delta is written, and a rollback path exists";
      waivable = true;
    }
    ∷ record {
      name = "POLICY_CLEAN";
      owner_team = "policy";
      upstream = "DATA_CLEAN";
      passes_when =
          "nft -c accepts the rendered ruleset, input/forward/output remain default DROP, no IPv6 path exists, and every egress principal is explicit and documented";
      waivable = true;
    }
    ∷ record {
      name = "RUNTIME_SOUND";
      owner_team = "runtime";
      upstream = "TRAIN_CONVERGED";
      passes_when =
          "ruff and pytest pass, no shell interpolation is unquoted, and a config parse failure provably leaves a known-good ruleset installed";
      waivable = true;
    }
    ∷ record {
      name = "VERIFY_PASS";
      owner_team = "verification";
      upstream = "EVAL_PASS";
      passes_when =
          "DNS, UDP/QUIC, and IPv6 leak tests fail closed from a downstream client and no regression test has been skipped or weakened";
      waivable = true;
    }
    ∷ record {
      name = "FAIL_CLOSED_PASS";
      owner_team = "verification";
      upstream = "SAFETY_PASS";
      passes_when =
          "stopping or crashing Tor removes downstream connectivity rather than exposing clearnet, confirmed on target hardware from a real client";
      waivable = false;
    }
    ∷ record {
      name = "PLATFORM_READY";
      owner_team = "platform";
      upstream = "INFRA_READY";
      passes_when =
          "provisioning is reproducible on Raspberry Pi OS Lite ARM64, OverlayFS amnesia is confirmed across reboot, and the maintenance-mode transition is tested";
      waivable = true;
    }
    ∷ record {
      name = "RELEASE_SIGNED";
      owner_team = "release";
      upstream = "RELEASE_SIGNED";
      passes_when =
          "every item in the README release gate passed on target hardware and a pre-registered rollback class is recorded";
      waivable = true;
    }
    ∷ []

-- `Gate.to_dict`
abbrev pub gate_to_dict : Gate → Value
gate_to_dict g = obj (
    field "name" (str g.name) (
      field "owner_team" (str g.owner_team) (
        field "passes_when" (str g.passes_when)
          (field "upstream" (str g.upstream) (field "waivable" (bool g.waivable) end)))))

abbrev pub gate_names : List String
gate_names = map (λ g. g.name) gates

-- `UNWAIVABLE`
abbrev pub unwaivable : List String
unwaivable = map (λ g. g.name) (keep (λ g. not g.waivable) gates)

unfoldable pub find_gate : String → List Gate → Result Gate
find_gate name [] = err schema_error
find_gate name (g ∷ gs) = if str_eq g.name name then ok g else find_gate name gs

-- `gate(name)`: a key that cannot be hashed is no `KeyError`.
unfoldable pub gate : Value → Result Gate
gate (str name) = find_gate name gates
gate v = if is_hashable v then err schema_error else err type_error

pub record GateResult : Type 0 where
  pub gate : String
  pub passed : Bool
  pub evidence : List String
  pub checked_by : String
  pub checked_at : DateTime

-- `GateResult.validate`; `passed` is a Boolean by its type.
unfoldable pub validate : GateResult → Done
validate r = do
  resolved ← gate (str r.gate)
  refuse_if (is_empty r.evidence) schema_error
  require (str_eq r.checked_by resolved.owner_team) schema_error

-- `GateResult.to_dict`
abbrev pub to_dict : Platform → GateResult → Value
to_dict p r = obj (
    field "gate" (str r.gate) (
      field "passed" (bool r.passed) (
        field "evidence" (arr (items_of (strs r.evidence))) (
          field "checked_by" (str r.checked_by)
            (field "checked_at" (str (p.isoformat r.checked_at)) end)))))

-- The evidence must be a list, and its members texts.
unfoldable pub read_texts : List Value → Result (List String)
read_texts [] = ok []
read_texts (v ∷ vs) = do s ← as_str schema_error v; ss ← read_texts vs; ok (s ∷ ss)

abbrev pub read_evidence : Value → Result (List String)
read_evidence (arr vs) = read_texts (list_of vs)
read_evidence _ = err schema_error

abbrev pub read_checked_at : Platform → ℕ → Value → Result DateTime
read_checked_at p now null = ok (utc now)
read_checked_at p now (str s) = elim (p.fromisoformat s) [ none ↦ err schema_error | some d ↦ ok d ]
read_checked_at p now _ = err schema_error

-- `type(self.passed) is not bool`
abbrev pub read_passed : Value → Result Bool
read_passed (bool b) = ok b
read_passed _ = err schema_error

abbrev pub result_keys : List String
result_keys = "gate" ∷ "passed" ∷ "evidence" ∷ "checked_by" ∷ "checked_at" ∷ []

abbrev pub result_required : List String
result_required = "gate" ∷ "passed" ∷ "evidence" ∷ "checked_by" ∷ []

-- `GateResult.parse` at the time `now`, with the checks of `validate` in their order.
unfoldable pub parse : Platform → ℕ → Value → Result GateResult
parse p now raw = do
  fields ← require_mapping raw
  strict_keys fields result_keys result_required
  gate_value ← item fields "gate"
  passed_value ← item fields "passed"
  evidence_value ← item fields "evidence"
  checker_value ← item fields "checked_by"
  evidence ← read_evidence evidence_value
  checked_at ← read_checked_at p now (get_or_null fields "checked_at")
  resolved ← gate gate_value
  passed ← read_passed passed_value
  refuse_if (is_empty evidence) schema_error
  checked_by ← as_str schema_error checker_value
  require (str_eq checked_by resolved.owner_team) schema_error
  ok (record {
    gate = resolved.name;
    passed = passed;
    evidence = evidence;
    checked_by = checked_by;
    checked_at = checked_at;
  })

-- The dictionary that `waive` returns.
abbrev pub waiver : Platform → ℕ → String → String → String → Value
waiver p now name approver rationale = obj (
    field "gate" (str name) (
      field "waived_by" (str approver)
        (field "rationale" (str rationale) (field "waived_at" (str (p.isoformat (utc now))) end))))

-- `waive`, by an approver with a reason, at the time `now`.
unfoldable pub waive : Platform → ℕ → String → String → String → Result Value
waive p now name approver rationale = do
  resolved ← gate (str name)
  require resolved.waivable policy_breach
  refuse_if (is_blank rationale) schema_error
  ok (waiver p now name approver rationale)
