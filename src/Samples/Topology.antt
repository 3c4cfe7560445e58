-- ===== src/Samples/Topology.antt =====
-- The teams of the shipped manifest, shortened, and runs of the theorems on them.
use amnesic_pi.Prelude.{String, ◌≡◌, ◌↔◌, refl, true, List, [], ◌∷◌}
use amnesic_pi.Prelude.Int.{pos}
use amnesic_pi.Prelude.Text.{strip}
use amnesic_pi.Errors.{ok}
use amnesic_pi.Gates.{gates, find_gate}
use amnesic_pi.Topology.{
  Team, Topology, validate, is_owned_by, team_for_gate, validate_team, check_teams, claim_gates,
  enroll, validate_gate_coverage,
}
use amnesic_pi.Topology.Validation.{IsSound, validate-IsSound_iff}
use amnesic_pi.Topology.Lookup.{team_for_gate_total}

abbrev team : String → String → String → List String → Team
team name lead worker owned = record {
  name = name;
  lead = lead;
  charter = "This charter says what the team does, and also what it refuses.";
  gates_owned = owned;
  subagents = worker ∷ [];
  tools = [];
}

abbrev pub topology : Topology
topology = record {
  version = pos 1;
  teams =
      team "docs" "docs-lead" "writer" ("SPEC_COMPLETE" ∷ [])
      ∷ team "policy" "policy-lead" "renderer" ("POLICY_CLEAN" ∷ [])
      ∷ team "runtime" "runtime-lead" "coder" ("RUNTIME_SOUND" ∷ [])
      ∷ team "verification" "verification-lead" "tester" ("VERIFY_PASS" ∷ "FAIL_CLOSED_PASS" ∷ [])
      ∷ team "platform" "platform-lead" "imager" ("PLATFORM_READY" ∷ [])
      ∷ team "release" "release-lead" "signer" ("RELEASE_SIGNED" ∷ [])
      ∷ [];
}

pub topology_valid : validate topology ≡ ok tt
unfolding validate validate_team check_teams claim_gates enroll validate_gate_coverage find_gate
    strip
topology_valid = refl

validate-IsSound_iff_example : (validate topology ≡ ok tt) ↔ IsSound topology
validate-IsSound_iff_example = validate-IsSound_iff topology

team_for_gate_total_example :
    (x : Team) × (team_for_gate topology "POLICY_CLEAN" ≡ ok x)
    × (is_owned_by x.name (find_gate "POLICY_CLEAN" gates) ≡ true)
team_for_gate_total_example = team_for_gate_total topology "POLICY_CLEAN" topology_valid refl
