-- ===== src/Topology.antt =====
-- src/orchestrator/topology.py: teams, their leads and rosters, and which team owns which gate.
pub mod Validation
pub mod Lookup
use amnesic_pi.Prelude.{
  ℕ, String, Bool, true, false, not, ◌&&◌, Option, none, some, List, [], ◌∷◌, ◌++◌, length, all,
  any, elem, is_empty, leb, map, str_eq, if◌then◌else◌,
}
use amnesic_pi.Prelude.Int.{ℤ, pos}
use amnesic_pi.Prelude.Text.{codes, strip}
use amnesic_pi.Errors.{Exn, Result, Done, ok, err, topology_error, require, refuse_if, ◌>>=◌, ◌>>◌}
use amnesic_pi.Value.{Value, int, str, arr, obj, end, field, items_of, strs}
use amnesic_pi.Schema.Node.{same_int}
use amnesic_pi.Schema.Graph.{Owners, owner}
use amnesic_pi.Gates.{Gate, gates, gate_names, find_gate}

abbrev pub min_charter_chars : ℕ
min_charter_chars = 40

pub record Team : Type 0 where
  pub name : String
  pub lead : String
  pub charter : String
  pub gates_owned : List String
  pub subagents : List String
  pub tools : List String

pub record Topology : Type 0 where
  pub version : ℤ
  pub teams : List Team

abbrev pub is_owned_by : String → Result Gate → Bool
is_owned_by team (ok g) = str_eq g.owner_team team
is_owned_by team (err e) = false

-- The last loop of `Team.validate`: each claimed gate is known, and the registry gives it this team.
abbrev pub check_gates : String → List String → Done
check_gates team [] = ok tt
check_gates team (g ∷ gs) = do
  require (is_owned_by team (find_gate g gates)) topology_error
  check_gates team gs

abbrev pub has_charter : Team → Bool
has_charter t = leb min_charter_chars (length (strip (codes t.charter)))

-- `Team.validate`
unfoldable pub validate_team : Team → Done
validate_team t = do
  require (has_charter t) topology_error
  refuse_if (str_eq t.lead "") topology_error
  refuse_if (is_empty t.subagents) topology_error
  check_gates t.name t.gates_owned

-- `Team.to_dict`
abbrev pub team_to_dict : Team → Value
team_to_dict t = obj (
    field "name" (str t.name) (
      field "lead" (str t.lead) (
        field "charter" (str t.charter) (
          field "gates_owned" (arr (items_of (strs t.gates_owned))) (
            field "subagents" (arr (items_of (strs t.subagents)))
              (field "tools" (arr (items_of (strs t.tools))) end))))))

abbrev pub is_taken : Option String → Bool
is_taken none = false
is_taken (some prior) = true

-- The loop over one team's names (its sub-agents, its gates) into a dict from name to team.
unfoldable pub enroll : String → List String → Owners → Result Owners
enroll team [] roster = ok roster
enroll team (x ∷ xs) roster = do
  refuse_if (is_taken (owner x roster)) topology_error
  enroll team xs ((x, team) ∷ roster)

-- The loop over the teams in `Topology.validate`.
unfoldable pub check_teams : List String → List String → Owners → List Team → Done
check_teams names leads roster [] = ok tt
check_teams names leads roster (t ∷ ts) = do
  validate_team t
  refuse_if (elem t.name names) topology_error
  refuse_if (elem t.lead leads) topology_error
  roster' ← enroll t.name t.subagents roster
  check_teams (t.name ∷ names) (t.lead ∷ leads) roster' ts

unfoldable pub claim_gates : List Team → Owners → Result Owners
claim_gates [] claimed = ok claimed
claim_gates (t ∷ ts) claimed = do
  claimed' ← enroll t.name t.gates_owned claimed
  claim_gates ts claimed'

-- `Topology._validate_gate_coverage`
unfoldable pub validate_gate_coverage : List Team → Done
validate_gate_coverage ts = do
  claimed ← claim_gates ts []
  refuse_if (any (λ g. not (is_taken (owner g claimed))) gate_names) topology_error

-- `Topology.validate`
unfoldable pub validate : Topology → Done
validate t = do
  require (same_int t.version (pos 1)) topology_error
  refuse_if (is_empty t.teams) topology_error
  check_teams [] [] [] t.teams
  validate_gate_coverage t.teams

unfoldable pub find_team : String → List Team → Result Team
find_team name [] = err topology_error
find_team name (t ∷ ts) = if str_eq t.name name then ok t else find_team name ts

-- `Topology.team`
unfoldable pub team : Topology → String → Result Team
unfolding find_team
team t name = find_team name t.teams

unfoldable pub find_owner : String → List Team → Result Team
find_owner g [] = err topology_error
find_owner g (t ∷ ts) = if elem g t.gates_owned then ok t else find_owner g ts

-- `Topology.team_for_gate`
unfoldable pub team_for_gate : Topology → String → Result Team
unfolding find_owner
team_for_gate t g = find_owner g t.teams

abbrev pub lead_names : Topology → List String
lead_names t = map (λ x. x.lead) t.teams

abbrev pub is_lead : Topology → String → Bool
is_lead t agent = elem agent (lead_names t)

abbrev pub is_subagent : Topology → String → Bool
is_subagent t agent = any (λ x. elem agent x.subagents) t.teams

-- `Topology.to_dict`
abbrev pub to_dict : Topology → Value
to_dict t = obj (
    field "version" (int t.version) (field "teams" (arr (items_of (map team_to_dict t.teams))) end))
