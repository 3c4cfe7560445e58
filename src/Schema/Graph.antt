-- ===== src/Schema/Graph.antt =====
-- `WorkGraph` of src/orchestrator/schema.py.
mod Peel
pub mod Cycles
pub mod Owners
pub mod Validation
pub mod Rounds
use amnesic_pi.Prelude.{
  ℕ, zero, suc, String, Bool, true, false, not, Option, none, some, List, [], ◌∷◌, length, elem,
  is_empty, map, keep, str_eq, if◌then◌else◌,
}
use amnesic_pi.Prelude.Text.{is_blank}
use amnesic_pi.Errors.{
  Exn, Result, Done, ok, err, schema_error, type_error, attribute_error, require, refuse_if, ◌>>=◌,
  ◌>>◌,
}
use amnesic_pi.Platform.{Platform}
use amnesic_pi.Value.{Value, str, arr, obj, end, field, get, item, items_of, strs}
use amnesic_pi.Schema.Basics.{invariants, as_str, as_tuple, require_mapping, strict_keys}
use amnesic_pi.Schema.Artifact.{ArtifactRef}
use amnesic_pi.Schema.Node
use amnesic_pi.Schema.Node.{WorkNode, tuple_or_empty}

pub record WorkGraph : Type 0 where
  pub goal : String
  pub nodes : List WorkNode
  pub invariants_touched : List String

abbrev pub node_ids : List WorkNode → List String
node_ids = map (λ n. n.id)

-- `{node.id: set(node.depends_on)}` as a list, in the order of the nodes.
abbrev pub Pending : Type 0
Pending = List (String × List Value)

abbrev pub pending_of : List WorkNode → Pending
pending_of = map (λ n. (n.id, n.depends_on))

abbrev pub pending_ids : Pending → List String
pending_ids = map (λ e. e.0)

-- `{nid for nid, deps in pending.items() if not deps}`
abbrev pub ready : Pending → List String
ready ps = pending_ids (keep (λ e. is_empty e.1) ps)

-- `v in ready`: a set of texts holds no other value.
abbrev pub is_ready : List String → Value → Bool
is_ready r (str s) = elem s r
is_ready r _ = false

-- `deps -= ready`
abbrev pub minus : List String → List Value → List Value
minus r = keep (λ v. not (is_ready r v))

abbrev pub reduce : List String → Pending → Pending
reduce r [] = []
reduce r ((id, deps) ∷ ps) = (id, minus r deps) ∷ reduce r ps

abbrev pub stalled : Pending → Pending
stalled = keep (λ e. not (is_empty e.1))

-- One round of the loop. The keys of a dict differ, so deleting the ready keys leaves the others.
abbrev pub waiting : Pending → Pending
waiting ps = reduce (ready ps) (stalled ps)

-- The loop of `_reject_cycles`, a round for each unit of fuel.
unfoldable pub peel : ℕ → Pending → Done
peel f [] = ok tt
peel zero (e ∷ ps) = err schema_error
peel (suc f) (e ∷ ps) =
    let rest = peel f (waiting (e ∷ ps)) in
    if is_empty (ready (e ∷ ps)) then err schema_error else rest

-- `WorkGraph._reject_cycles`; every round takes a node away, so a round for each node is enough.
unfoldable pub reject_cycles : List WorkNode → Done
unfolding peel
reject_cycles nodes = peel (length nodes) (pending_of nodes)

-- `owners`, by path; the node beside the team serves the message only.
abbrev pub Owners : Type 0
Owners = List (String × String)

abbrev pub owner : String → Owners → Option String
owner path [] = none
owner path ((p, team) ∷ owners) = if str_eq path p then some team else owner path owners

abbrev pub is_foreign : String → Option String → Bool
is_foreign team none = false
is_foreign team (some prior) = not (str_eq prior team)

-- The inner loop of `_reject_shared_deliverables`, for one node.
unfoldable pub claim : String → List ArtifactRef → Owners → Result Owners
claim team [] owners = ok owners
claim team (ref ∷ refs) owners = do
  refuse_if (is_foreign team (owner ref.path owners)) schema_error
  claim team refs ((ref.path, team) ∷ owners)

unfoldable pub claim_nodes : List WorkNode → Owners → Result Owners
claim_nodes [] owners = ok owners
claim_nodes (n ∷ ns) owners = do
  owners' ← claim n.team n.deliverables owners
  claim_nodes ns owners'

-- `WorkGraph._reject_shared_deliverables`
unfoldable pub reject_shared_deliverables : List WorkNode → Done
reject_shared_deliverables nodes = do owners ← claim_nodes nodes []; ok tt

abbrev pub check_invariants : List String → Done
check_invariants [] = ok tt
check_invariants (name ∷ names) = do
  require (elem name invariants) schema_error
  check_invariants names

-- The first loop of `validate`, with the set of ids that it has seen.
unfoldable pub check_nodes : List String → List WorkNode → Done
check_nodes seen [] = ok tt
check_nodes seen (n ∷ ns) = do
  Node.validate n
  refuse_if (elem n.id seen) schema_error
  check_nodes (n.id ∷ seen) ns

-- The second loop: every dependency is a node of the graph.
abbrev pub check_known : List String → List Value → Done
check_known seen [] = ok tt
check_known seen (d ∷ ds) = do require (is_ready seen d) schema_error; check_known seen ds

unfoldable pub check_edges : List String → List WorkNode → Done
check_edges seen [] = ok tt
check_edges seen (n ∷ ns) = do check_known seen n.depends_on; check_edges seen ns

-- `WorkGraph.validate`
unfoldable pub validate : WorkGraph → Done
validate g = do
  refuse_if (is_blank g.goal) schema_error
  refuse_if (is_empty g.nodes) schema_error
  check_invariants g.invariants_touched
  check_nodes [] g.nodes
  check_edges (node_ids g.nodes) g.nodes
  reject_cycles g.nodes
  reject_shared_deliverables g.nodes

unfoldable pub find_node : String → List WorkNode → Result WorkNode
find_node id [] = err schema_error
find_node id (n ∷ ns) = if str_eq n.id id then ok n else find_node id ns

-- `WorkGraph.node`
unfoldable pub node : WorkGraph → String → Result WorkNode
unfolding find_node
node g id = find_node id g.nodes

-- `WorkGraph.to_dict`
abbrev pub to_dict : Platform → WorkGraph → Value
to_dict p g = obj (
    field "goal" (str g.goal) (
      field "nodes" (arr (items_of (map (Node.to_dict p) g.nodes)))
        (field "invariants_touched" (arr (items_of (strs g.invariants_touched))) end)))

-- `tuple(WorkNode.parse(n) for n in raws)`
unfoldable pub parse_nodes : Platform → List Value → Result (List WorkNode)
parse_nodes p [] = ok []
parse_nodes p (v ∷ vs) = do n ← Node.parse p v; ns ← parse_nodes p vs; ok (n ∷ ns)

-- The names, each one of the seven; a value that is no text is none of them.
unfoldable pub read_invariants : List Value → Result (List String)
read_invariants [] = ok []
read_invariants (v ∷ vs) = do
  name ← as_str schema_error v
  require (elem name invariants) schema_error
  names ← read_invariants vs
  ok (name ∷ names)

-- `WorkGraph.parse`, with the checks of `validate` in their order.
unfoldable pub parse : Platform → Value → Result WorkGraph
parse p raw = do
  fields ← require_mapping raw
  strict_keys fields ("goal" ∷ "nodes" ∷ "invariants_touched" ∷ []) ("goal" ∷ "nodes" ∷ [])
  goal_value ← item fields "goal"
  nodes ← (item fields "nodes" >>= as_tuple >>= parse_nodes p)
  touched ← tuple_or_empty (get fields "invariants_touched")
  goal ← as_str attribute_error goal_value
  refuse_if (is_blank goal) schema_error
  refuse_if (is_empty nodes) schema_error
  names ← read_invariants touched
  let g : WorkGraph = record { goal = goal; nodes = nodes; invariants_touched = names }
  validate g
  ok g

-- `WorkGraph.from_json`
unfoldable pub from_json : Platform → List ℕ → Result WorkGraph
from_json p text = elim (p.loads text) [ none ↦ err schema_error | some raw ↦ parse p raw ]
