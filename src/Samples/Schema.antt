-- ===== src/Samples/Schema.antt =====
-- A small work graph, and runs of the theorems on graphs.
use amnesic_pi.Prelude.{◌≡◌, ◌↔◌, none, [], ◌∷◌}
use amnesic_pi.Errors.{ok}
use amnesic_pi.Value.{str}
use amnesic_pi.Schema.Artifact.{ArtifactRef}
use amnesic_pi.Schema.Node.{WorkNode}
use amnesic_pi.Schema.Graph.{WorkGraph, validate}
use amnesic_pi.Schema.Graph.Validation.{IsWellFormed, validate_iff}

abbrev pub rules : ArtifactRef
rules = record { kind = "ruleset"; path = "nft/rules.nft"; sha256 = none }

abbrev pub first : WorkNode
first = record {
  id = "n1";
  title = "Render the ruleset";
  team = "policy";
  exit_gate = str "POLICY_CLEAN";
  acceptance = "nft -c accepts it" ∷ [];
  tier_max = "T2";
  inputs = [];
  deliverables = rules ∷ [];
  depends_on = [];
  deadline = none;
}

abbrev pub second : WorkNode
second = record {
  id = "n2";
  title = "Leak tests";
  team = "policy";
  exit_gate = str "VERIFY_PASS";
  acceptance = "no leak" ∷ [];
  tier_max = "T3";
  inputs = rules ∷ [];
  deliverables = rules ∷ [];
  depends_on = str "n1" ∷ [];
  deadline = none;
}

abbrev pub graph : WorkGraph
graph = record { goal = "Ship the ruleset"; nodes = second ∷ first ∷ []; invariants_touched = [] }

validate_iff_example : (validate graph ≡ ok tt) ↔ IsWellFormed graph
validate_iff_example = validate_iff graph
