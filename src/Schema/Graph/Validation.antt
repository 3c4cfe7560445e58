-- ===== src/Schema/Graph/Validation.antt =====
-- What `WorkGraph.validate` accepts, as one predicate on graphs.
use amnesic_pi.Prelude.{
  ℕ, String, ◌≡◌, ◌↔◌, refl, ap, true, false, List, [], ◌∷◌, arith, All, elem, is_empty, distinct,
  length, eq_iff,
}
use amnesic_pi.Prelude.Text.{is_blank}
use amnesic_pi.Errors.{ok, schema_error, require-eq-ok, refuse_if-eq-ok, >>-eq-ok}
use amnesic_pi.Value.{Value, null, bool, int, str, arr, obj}
use amnesic_pi.Schema.Basics.{invariants}
use amnesic_pi.Schema.Node
use amnesic_pi.Schema.Node.{WorkNode}
use amnesic_pi.Schema.Graph.{
  WorkGraph, node_ids, pending_of, pending_ids, is_ready, reject_cycles, check_invariants,
  check_nodes, check_known, check_edges, validate,
}
use amnesic_pi.Schema.Graph.Cycles.{Below, IsRanked, Inside, round, peel-IsRanked, peel-eq-ok}
use amnesic_pi.Schema.Graph.Owners.{HasOwner, reject_shared-HasOwner, reject_shared-eq-ok}

-- The contract of a work graph: named, non-empty, of valid nodes with ids of their own, with edges
-- between them that lead down in some ranking, and with one team for every deliverable.
pub record IsWellFormed (g : WorkGraph) : Type 0 where
  pub goal_given : is_blank g.goal ≡ false
  pub has_nodes : is_empty g.nodes ≡ false
  pub invariants_known : All (λ name. elem name invariants ≡ true) g.invariants_touched
  pub nodes_valid : All (λ n. Node.validate n ≡ ok tt) g.nodes
  pub ids_differ : distinct (node_ids g.nodes) ≡ true
  pub edges_known : All (λ n. All (λ d. is_ready (node_ids g.nodes) d ≡ true) n.depends_on) g.nodes
  pub acyclic : (rank : String → ℕ) × IsRanked rank (pending_of g.nodes)
  pub one_owner : (own : String → String) × HasOwner own g.nodes

check_invariants-known :
    (names : List String)
    → check_invariants names ≡ ok tt
    → All (λ name. elem name invariants ≡ true) names
check_invariants-known [] e = tt
check_invariants-known (name ∷ names) e =
    let (known, rest) = require-eq-ok (elem name invariants) schema_error _ e in
    (known, check_invariants-known names rest)

check_invariants-eq-ok :
    (names : List String)
    → All (λ name. elem name invariants ≡ true) names
    → check_invariants names ≡ ok tt
check_invariants-eq-ok [] h = refl
check_invariants-eq-ok (name ∷ names) h = rw h.0 (check_invariants-eq-ok names h.1)

unseen_head :
    (i : String) (seen : List String) (ns : List WorkNode)
    → All (λ m. elem m.id (i ∷ seen) ≡ false) ns
    → (elem i (node_ids ns) ≡ false) × All (λ m. elem m.id seen ≡ false) ns
unseen_head i seen [] h = (refl, tt)
unseen_head i seen (n ∷ ns) h =
    let (differs, unseen) = unseen_head i seen ns h.1 in
    (ground (arith, eq_iff n.id i, eq_iff i n.id), (ground arith, unseen))

seen_head :
    (i : String) (seen : List String) (ns : List WorkNode)
    → elem i (node_ids ns) ≡ false
    → All (λ m. elem m.id seen ≡ false) ns
    → All (λ m. elem m.id (i ∷ seen) ≡ false) ns
seen_head i seen [] h k = tt
seen_head i seen (n ∷ ns) h k =
    (ground (arith, eq_iff n.id i, eq_iff i n.id), seen_head i seen ns (ground arith) k.1)

abbrev Checked : List String → List WorkNode → Type 0
Checked seen ns =
    All (λ n. Node.validate n ≡ ok tt) ns
    × (distinct (node_ids ns) ≡ true)
    × All (λ n. elem n.id seen ≡ false) ns

check_nodes-Checked :
    (seen : List String) (ns : List WorkNode) → check_nodes seen ns ≡ ok tt → Checked seen ns
unfolding check_nodes
check_nodes-Checked seen [] e = (tt, refl, tt)
check_nodes-Checked seen (n ∷ ns) e =
    let (valid, rest) = >>-eq-ok (Node.validate n) _ e in
    let (fresh, more) = refuse_if-eq-ok (elem n.id seen) schema_error _ rest in
    let (all_valid, differ, unseen) = check_nodes-Checked (n.id ∷ seen) ns more in
    let (alone, old) = unseen_head n.id seen ns unseen in
    ((valid, all_valid), ground arith, (fresh, old))

check_nodes-eq-ok :
    (seen : List String) (ns : List WorkNode) → Checked seen ns → check_nodes seen ns ≡ ok tt
unfolding check_nodes
check_nodes-eq-ok seen [] h = refl
check_nodes-eq-ok seen (n ∷ ns) (valid, differ, unseen) =
    rw (valid.0, unseen.0)
      (check_nodes-eq-ok (n.id ∷ seen) ns
        (valid.1, ground arith, seen_head n.id seen ns (ground arith) unseen.1))

check_known_iff :
    (seen : List String) (ds : List Value)
    → (check_known seen ds ≡ ok tt) ↔ All (λ d. is_ready seen d ≡ true) ds
check_known_iff seen [] = (λ e. tt, λ h. refl)
check_known_iff seen (d ∷ ds) = (
  λ e.
      let (known, rest) = require-eq-ok (is_ready seen d) schema_error _ e in
      (known, (check_known_iff seen ds).0 rest),
  λ h. rw h.0 ((check_known_iff seen ds).1 h.1),
)

check_edges_iff :
    (seen : List String) (ns : List WorkNode)
    → (check_edges seen ns ≡ ok tt) ↔ All (λ n. All (λ d. is_ready seen d ≡ true) n.depends_on) ns
unfolding check_edges
check_edges_iff seen [] = (λ e. tt, λ h. refl)
check_edges_iff seen (n ∷ ns) = (
  λ e.
      let (known, rest) = >>-eq-ok (check_known seen n.depends_on) _ e in
      ((check_known_iff seen n.depends_on).0 known, (check_edges_iff seen ns).0 rest),
  λ h. rw ((check_known_iff seen n.depends_on).1 h.0) ((check_edges_iff seen ns).1 h.1),
)

ids-pending_of : (ns : List WorkNode) → pending_ids (pending_of ns) ≡ node_ids ns
ids-pending_of [] = refl
ids-pending_of (n ∷ ns) = ap (λ ids. n.id ∷ ids) (ids-pending_of ns)

length-pending_of : (ns : List WorkNode) → length (pending_of ns) ≡ length ns
length-pending_of [] = refl
length-pending_of (n ∷ ns) = omega (arith, length-pending_of ns)

known_and_Below :
    (rank : String → ℕ) (ids : List String) (n : ℕ) (ds : List Value)
    → All (λ d. is_ready ids d ≡ true) ds
    → All (Below rank n) ds
    → All (Inside rank ids n) ds
known_and_Below rank ids n [] h k = tt
known_and_Below rank ids n (str d ∷ ds) h k = ((h.0, k.0), known_and_Below rank ids n ds h.1 k.1)
known_and_Below rank ids n (null ∷ ds) h k = absurd k.0
known_and_Below rank ids n (bool b ∷ ds) h k = absurd k.0
known_and_Below rank ids n (int i ∷ ds) h k = absurd k.0
known_and_Below rank ids n (arr vs ∷ ds) h k = absurd k.0
known_and_Below rank ids n (obj fs ∷ ds) h k = absurd k.0

entries-Inside :
    (rank : String → ℕ) (ids : List String) (ns : List WorkNode)
    → All (λ n. All (λ d. is_ready ids d ≡ true) n.depends_on) ns
    → IsRanked rank (pending_of ns)
    → All (λ e. All (Inside rank ids (rank e.0)) e.1) (pending_of ns)
entries-Inside rank ids [] h k = tt
entries-Inside rank ids (n ∷ ns) h k =
    (known_and_Below rank ids (rank n.id) n.depends_on h.0 k.0, entries-Inside rank ids ns h.1 k.1)

reject_cycles-IsRanked :
    (ns : List WorkNode)
    → distinct (node_ids ns) ≡ true
    → reject_cycles ns ≡ ok tt
    → (rank : String → ℕ) × IsRanked rank (pending_of ns)
unfolding reject_cycles
reject_cycles-IsRanked ns h e = (
  round (length ns) (pending_of ns),
  peel-IsRanked (length ns) (pending_of ns) (rw (ids-pending_of ns) h) e,
)

reject_cycles-eq-ok :
    (rank : String → ℕ) (ns : List WorkNode)
    → All (λ n. All (λ d. is_ready (node_ids ns) d ≡ true) n.depends_on) ns
    → IsRanked rank (pending_of ns)
    → reject_cycles ns ≡ ok tt
unfolding reject_cycles
reject_cycles-eq-ok rank ns known ranked =
    peel-eq-ok rank (length ns) (pending_of ns)
      (record { each = rw (ids-pending_of ns) (entries-Inside rank (node_ids ns) ns known ranked) })
      (omega (arith, length-pending_of ns))

pub validate-IsWellFormed : (g : WorkGraph) → validate g ≡ ok tt → IsWellFormed g
unfolding validate
validate-IsWellFormed g e =
    let (goal, e1) = refuse_if-eq-ok (is_blank g.goal) schema_error _ e in
    let (some_node, e2) = refuse_if-eq-ok (is_empty g.nodes) schema_error _ e1 in
    let (names, e3) = >>-eq-ok (check_invariants g.invariants_touched) _ e2 in
    let (nodes, e4) = >>-eq-ok (check_nodes [] g.nodes) _ e3 in
    let (edges, e5) = >>-eq-ok (check_edges (node_ids g.nodes) g.nodes) _ e4 in
    let (cycles, shared) = >>-eq-ok (reject_cycles g.nodes) _ e5 in
    let checked = check_nodes-Checked [] g.nodes nodes in
    record {
      goal_given = goal;
      has_nodes = some_node;
      invariants_known = check_invariants-known g.invariants_touched names;
      nodes_valid = checked.0;
      ids_differ = checked.1;
      edges_known = (check_edges_iff (node_ids g.nodes) g.nodes).0 edges;
      acyclic = reject_cycles-IsRanked g.nodes checked.1 cycles;
      one_owner = reject_shared-HasOwner g.nodes shared;
    }

nothing_seen : (ns : List WorkNode) → All (λ n. elem n.id [] ≡ false) ns
nothing_seen [] = tt
nothing_seen (n ∷ ns) = (refl, nothing_seen ns)

-- `WorkGraph.validate` accepts a graph exactly when it is well formed: non-blank goal, at least one
-- node, known invariants, every node valid, ids all different, every dependency a node of the graph,
-- no dependency cycle (some ranking puts each dependency below its node), and one team for every
-- deliverable path. In particular the peeling loop never runs out of rounds.
pub validate_iff : (g : WorkGraph) → (validate g ≡ ok tt) ↔ IsWellFormed g
unfolding validate
validate_iff g = (
  validate-IsWellFormed g,
  λ h. rw (
    h.goal_given,
    h.has_nodes,
    check_invariants-eq-ok g.invariants_touched h.invariants_known,
    check_nodes-eq-ok [] g.nodes (h.nodes_valid, h.ids_differ, nothing_seen g.nodes),
    (check_edges_iff (node_ids g.nodes) g.nodes).1 h.edges_known,
    reject_cycles-eq-ok h.acyclic.0 g.nodes h.edges_known h.acyclic.1,
    reject_shared-eq-ok h.one_owner.0 g.nodes h.one_owner.1,
  ),
)
