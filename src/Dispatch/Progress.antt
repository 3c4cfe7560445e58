-- ===== src/Dispatch/Progress.antt =====
-- Which nodes of an accepted graph `dispatch_graph` (src/orchestrator/dispatch.py) may hand out next.
use amnesic_pi.Prelude.{
  ℕ, zero, suc, ◌<◌, String, ◌≡◌, sym, ap, subst, inl, inr, Bool, true, false, not, ◌&&◌,
  Bool-cases, List, [], ◌∷◌, All, all, any, elem, str_eq, eq_iff, arith,
}
use amnesic_pi.Errors.{ok}
use amnesic_pi.Value.{Value, null, bool, int, str, arr, obj}
use amnesic_pi.Schema.Node.{WorkNode}
use amnesic_pi.Schema.Graph.{WorkGraph, node_ids, pending_of, is_ready, validate}
use amnesic_pi.Schema.Graph.Cycles.{Below, IsRanked}
use amnesic_pi.Schema.Graph.Validation.{validate-IsWellFormed}
use amnesic_pi.Dispatch.{is_subset}

-- Not yet passed, and with every dependency satisfied: what `dispatch_graph` hands out next.
abbrev pub is_next : List String → WorkNode → Bool
is_next satisfied n = not (elem n.id satisfied) && is_subset n.depends_on satisfied

-- A node of the graph, with what an accepted graph says of it.
record Found (names : List String) (rank : String → ℕ) (id : String) (ns : List WorkNode)
    : Type 0 where
  node : WorkNode
  same : node.id ≡ id
  known : All (λ d. is_ready names d ≡ true) node.depends_on
  below : All (Below rank (rank node.id)) node.depends_on
  counts : (p : WorkNode → Bool) → p node ≡ true → any p ns ≡ true

find :
    (names : List String) (rank : String → ℕ) (id : String) (ns : List WorkNode)
    → elem id (node_ids ns) ≡ true
    → All (λ n. All (λ d. is_ready names d ≡ true) n.depends_on) ns
    → IsRanked rank (pending_of ns)
    → Found names rank id ns
find names rank id [] h known below = absurd (cc)
find names rank id (n ∷ ns) h (known, others) (below, lower) = elim (Bool-cases (str_eq id n.id)) [
  | inl here ↦ record {
    node = n;
    same = sym ((eq_iff id n.id).0 here);
    known = known;
    below = below;
    counts = λ p e. ground arith;
  }
  | inr elsewhere ↦
      let rest = find names rank id ns (ground arith) others lower in
      record {
        node = rest.node;
        same = rest.same;
        known = rest.known;
        below = rest.below;
        counts = λ p e. let later = rest.counts p e in ground arith;
      }
]

-- A dependency that holds a node back.
record Blocker (names satisfied : List String) (rank : String → ℕ) (bound : ℕ) : Type 0 where
  id : String
  named : elem id names ≡ true
  open_ : elem id satisfied ≡ false
  lower : rank id < bound

blocker :
    (names satisfied : List String) (rank : String → ℕ) (bound : ℕ) (ds : List Value)
    → is_subset ds satisfied ≡ false
    → All (λ d. is_ready names d ≡ true) ds
    → All (Below rank bound) ds
    → Blocker names satisfied rank bound
blocker names satisfied rank bound [] h known below = absurd (cc)
blocker names satisfied rank bound (str d ∷ ds) h (known, others) (below, lower) =
    elim (Bool-cases (elem d satisfied)) [
      | inl passed ↦ blocker names satisfied rank bound ds (ground arith) others lower
      | inr waits ↦ record { id = d; named = known; open_ = waits; lower = below }
    ]
blocker names satisfied rank bound (null ∷ ds) h known (below, lower) = absurd below
blocker names satisfied rank bound (bool b ∷ ds) h known (below, lower) = absurd below
blocker names satisfied rank bound (int n ∷ ds) h known (below, lower) = absurd below
blocker names satisfied rank bound (arr vs ∷ ds) h known (below, lower) = absurd below
blocker names satisfied rank bound (obj fs ∷ ds) h known (below, lower) = absurd below

-- From a node that waits down to one that does not.
descend :
    (satisfied : List String) (rank : String → ℕ) (ns : List WorkNode)
    → All (λ n. All (λ d. is_ready (node_ids ns) d ≡ true) n.depends_on) ns
    → IsRanked rank (pending_of ns)
    → (bound : ℕ) (id : String) → rank id < bound
    → elem id (node_ids ns) ≡ true
    → elem id satisfied ≡ false
    → any (is_next satisfied) ns ≡ true
descend satisfied rank ns known below zero id less named waits = absurd (ground arith)
descend satisfied rank ns known below (suc bound) id less named waits =
    let at = find (node_ids ns) rank id ns named known below in
    let open_ : elem at.node.id satisfied ≡ false =
      subst (λ i. elem i satisfied ≡ false) (sym at.same) waits in
    elim (Bool-cases (is_subset at.node.depends_on satisfied)) [
      | inl ready ↦ at.counts (is_next satisfied) (ground arith)
      | inr held ↦
          let by =
            blocker (node_ids ns) satisfied rank (rank at.node.id) at.node.depends_on held at.known
              at.below in
          let lower : rank by.id < bound =
            let place : rank at.node.id ≡ rank id = ap rank at.same in
            let under = by.lower in omega arith in
          descend satisfied rank ns known below bound by.id lower by.named by.open_
    ]

waiting :
    (satisfied : List String) (ns : List WorkNode)
    → all (λ n. elem n.id satisfied) ns ≡ false
    → (id : String) × (elem id (node_ids ns) ≡ true) × (elem id satisfied ≡ false)
waiting satisfied [] h = absurd (cc)
waiting satisfied (n ∷ ns) h = elim (Bool-cases (elem n.id satisfied)) [
  | inr waits ↦ (n.id, ground (arith, eq_iff n.id n.id), waits)
  | inl passed ↦
      let (id, named, waits) = waiting satisfied ns (ground arith) in (id, ground arith, waits)
]

-- A work graph that `validate` accepts never gets stuck: whatever nodes have passed their gates, as long
-- as one has not, some node that has not passed has all of its dependencies satisfied, so
-- `dispatch_graph` does not hold it back.
pub validate_progress :
    (g : WorkGraph) (satisfied : List String)
    → validate g ≡ ok tt
    → all (λ n. elem n.id satisfied) g.nodes ≡ false
    → any (is_next satisfied) g.nodes ≡ true
validate_progress g satisfied valid left =
    let formed = validate-IsWellFormed g valid in
    let (rank, ranked) = formed.acyclic in
    let (id, named, waits) = waiting satisfied g.nodes left in
    descend satisfied rank g.nodes formed.edges_known ranked (suc (rank id)) id (omega arith) named
      waits
