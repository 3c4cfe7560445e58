-- ===== src/Dispatch/Runs.antt =====
-- Every method of src/orchestrator/dispatch.py grows the dispatcher's state, also where it raises.
use amnesic_pi.Prelude.{
  ℕ, suc, String, ◌≡◌, refl, sym, ◌∙◌, Bool, true, false, not, ◌&&◌, Option, none, some, List, [],
  ◌∷◌, elem, str_eq, eq_iff, if◌then◌else◌,
}
use amnesic_pi.Prelude.Int.{ℤ}
use amnesic_pi.Prelude.Dict
use amnesic_pi.Prelude.Dict.{text_key, pair_key, lookup-insert}
use amnesic_pi.Errors.{authority_error, dispatch_rejected}
use amnesic_pi.Platform.{Platform}
use amnesic_pi.Value.{Value, Fields}
use amnesic_pi.Schema.Node
use amnesic_pi.Schema.Node.{WorkNode}
use amnesic_pi.Schema.Basics.{dispatchable_tiers}
use amnesic_pi.Schema.Graph
use amnesic_pi.Schema.Graph.{WorkGraph}
use amnesic_pi.Schema.Status
use amnesic_pi.Schema.Envelope
use amnesic_pi.Schema.Envelope.{TaskEnvelope}
use amnesic_pi.Schema.Memo
use amnesic_pi.Schema.Memo.{DecisionMemo}
use amnesic_pi.Gates
use amnesic_pi.Gates.{GateResult}
use amnesic_pi.Topology
use amnesic_pi.Topology.{Topology}
use amnesic_pi.Tokens.{default_ttl}
use amnesic_pi.Dispatch.{
  append, next_seq, sign, require_writable, pause_team, resume_team, envelope_of, resubmitted,
  issue, dispatch, is_subset, satisfied_nodes, dispatch_nodes, dispatch_graph,
}
use amnesic_pi.Audit.Extended.{unextended}
use amnesic_pi.Dispatch.Records.{TaskRecord, Dispatcher, Draw}
use amnesic_pi.Dispatch.Monad
use amnesic_pi.Dispatch.Monad.{M, Does}
use amnesic_pi.Dispatch.Ingress.{find_record, put, ingest_status}
use amnesic_pi.Dispatch.Gating.{gated, accept_gate}
use amnesic_pi.Dispatch.Reclaim.{
  superseded, abandoned, is_superseded, forget_node, supersede, reclaim, record_decision,
}
use amnesic_pi.Dispatch.Grows.{
  HasVerdict, Grows, stays, bind, lifted, got, required, refused, pure_grows,
}
use amnesic_pi.Dispatch.Steps.{
  insert_grows, append_grows, next_seq_grows, sign_grows, put_grows, find_record_grows,
  forget_node_grows, envelope_of_grows,
}

not_passed :
    (state : String) {A : Type 0} → str_eq state "gate_pass" ≡ false → state ≡ "gate_pass" → A
not_passed state h e =
    let clash : true ≡ false = sym ((eq_iff state "gate_pass").1 e) ∙ h in absurd (cc)

verdict_fits :
    (g : GateResult) (r : TaskRecord) → g.gate ≡ r.envelope.exit_gate → HasVerdict (gated g r)
verdict_fits g r fits e = (g, refl, passed g.passed e, fits)
  where
    passed :
        (t : Bool)
        → ◌≡◌ {A = String} (if t then "gate_pass" else "gate_fail") "gate_pass"
        → t ≡ true
    passed true h = refl
    passed false h = not_passed "gate_fail" refl h

pub require_writable_grows : Does Grows require_writable
unfolding require_writable
require_writable_grows d = stays d

pub modify_grows :
    (f : Dispatcher → Dispatcher) → ((d : Dispatcher) → Grows d (f d)) → Does Grows (Monad.modify f)
modify_grows f h d = h d

pub pause_team_grows :
    (p : Platform) (now : ℕ) (team reason : String) → Does Grows (pause_team p now team reason)
unfolding pause_team
pause_team_grows p now team reason =
    got (λ d. d.topology) _
      λ t. lifted (Topology.team t team) _ λ found.
        bind (Monad.modify _) _
          (modify_grows _ λ d. record {
            topology = refl;
            used = λ i h. h;
            known = λ i h. h;
            verdicts = λ h. h;
            owners = λ h. h;
            opened = λ h. h;
            logged = unextended _;
          })
          λ u. append_grows p now "team_paused" _

pub resume_team_grows :
    (p : Platform) (now : ℕ) (team : String) → Does Grows (resume_team p now team)
unfolding resume_team
resume_team_grows p now team =
    got (λ d. d.topology) _
      λ t. lifted (Topology.team t team) _ λ found.
        bind (Monad.modify _) _
          (modify_grows _ λ d. record {
            topology = refl;
            used = λ i h. h;
            known = λ i h. h;
            verdicts = λ h. h;
            owners = λ h. h;
            opened = λ h. h;
            logged = unextended _;
          })
          λ u. append_grows p now "team_resumed" _

pub ingest_status_grows :
    (p : Platform) (now : ℕ) (raw : Value) → Does Grows (ingest_status p now raw)
unfolding ingest_status
ingest_status_grows p now raw = lifted (Status.parse p raw) _ λ update.
    bind (find_record update.task_id) _ (find_record_grows update.task_id) λ r.
      refused (str_eq update.state "gate_pass") dispatch_rejected _ (λ unpassed.
        bind (put update.task_id _) _
          (put_grows update.task_id _ (not_passed update.state unpassed))
          λ u.
            bind (append p now "status" _) _ (append_grows p now "status" _)
              λ entry. pure_grows update)

pub accept_gate_grows :
    (p : Platform) (now : ℕ) (task_id : String) (raw : Value)
    → Does Grows (accept_gate p now task_id raw)
unfolding accept_gate
accept_gate_grows p now task_id raw = bind (find_record task_id) _ (find_record_grows task_id) λ r.
    lifted (Gates.parse p now raw) _ λ result.
      required (str_eq result.gate r.envelope.exit_gate) dispatch_rejected _ (λ fits.
        bind (put task_id _) _
          (put_grows task_id _
            (verdict_fits result r ((eq_iff result.gate r.envelope.exit_gate).0 fits)))
          λ u.
            bind (append p now "gate_result" _) _ (append_grows p now "gate_result" _)
              λ entry. pure_grows result)

pub record_decision_grows :
    (p : Platform) (now : ℕ) (memo : DecisionMemo) → Does Grows (record_decision p now memo)
unfolding record_decision
record_decision_grows p now memo =
    lifted (Memo.validate memo) _ λ u. append_grows p now "decision_memo" _

pub issue_grows :
    (p : Platform) (draw : Draw) (node : WorkNode) (graph_id : String) (payload : Option Fields)
    (task_id : Option String) (ttl : ℤ)
    → Does Grows (issue p draw node graph_id payload task_id ttl)
unfolding issue
issue_grows p draw node graph_id payload task_id ttl =
    got (λ d. d.topology) _
      λ t. lifted (Topology.team t node.team) _ λ team.
        lifted (Gates.gate node.exit_gate) _ λ exit_gate.
          lifted (Topology.team_for_gate t exit_gate.name) _ λ gate_team.
            got (λ d. d.paused) _
              λ paused. refused (elem team.name paused) dispatch_rejected _ (λ running.
                required (elem node.tier_max dispatchable_tiers) authority_error _ (λ tier.
                  bind (sign p draw.now draw.entropy _ _ _ _ _) _
                    (sign_grows p draw.now draw.entropy _ _ _ _ _)
                    λ token. bind (next_seq p) _ (next_seq_grows p) λ seq.
                      lifted (Envelope.validate _) _ λ valid.
                        bind (append p draw.now "dispatch" _) _
                          (append_grows p draw.now "dispatch" _)
                          λ entry.
                            bind (Monad.modify _) _
                              (modify_grows _
                                λ d. insert_grows _ _ _ (not_passed "dispatched" refl) d)
                              λ u. (λ d. stays d)))

pub dispatch_grows :
    (p : Platform) (draw : Draw) (node : WorkNode) (graph_id : String) (payload : Option Fields)
    (task_id : Option String) (ttl : ℤ)
    → Does Grows (dispatch p draw node graph_id payload task_id ttl)
unfolding dispatch
dispatch_grows p draw node graph_id payload task_id ttl =
    bind require_writable _ require_writable_grows λ u. lifted (Node.validate node) _ λ v.
      got (resubmitted task_id) _
        λ known. got (λ d. Dict.lookup (graph_id, node.id) d.by_node) _ λ owner. choose known owner
  where
    choose :
        (known owner : Option String)
        → Does Grows (elim known [
          | some id ↦ envelope_of id
          | none ↦ elim owner [
            | some id ↦ envelope_of id
            | none ↦ issue p draw node graph_id payload task_id ttl
          ]
        ])
    choose (some id) owner = envelope_of_grows id
    choose none (some id) = envelope_of_grows id
    choose none none = issue_grows p draw node graph_id payload task_id ttl

pub dispatch_nodes_grows :
    (p : Platform) (draw : ℕ → Draw) (i : ℕ) (graph_id : String) (satisfied : List String)
    (ready_only : Bool) (ns : List WorkNode)
    → Does Grows (dispatch_nodes p draw i graph_id satisfied ready_only ns)
unfolding dispatch_nodes
dispatch_nodes_grows p draw i graph_id satisfied ready_only [] = λ d. stays d
dispatch_nodes_grows p draw i graph_id satisfied ready_only (n ∷ ns) =
    choose (dispatch_nodes_grows p draw (suc i) graph_id satisfied ready_only ns)
      (ready_only && not (is_subset n.depends_on satisfied))
  where
    choose :
        Does Grows (dispatch_nodes p draw (suc i) graph_id satisfied ready_only ns)
        → (held : Bool)
        → Does Grows (elim held [
          | true ↦ dispatch_nodes p draw (suc i) graph_id satisfied ready_only ns
          | false ↦ Monad.◌>>=◌ (dispatch p (draw i) n graph_id none none default_ttl) λ env.
              Monad.◌>>=◌
                (dispatch_nodes p draw (suc i) graph_id satisfied ready_only ns)
                λ envs. Monad.pure (env ∷ envs)
        ])
    choose rest true = rest
    choose rest false =
        bind (dispatch p (draw i) n graph_id none none default_ttl) _
          (dispatch_grows p (draw i) n graph_id none none default_ttl)
          λ env.
            bind (dispatch_nodes p draw (suc i) graph_id satisfied ready_only ns) _ rest
              λ envs d. stays d

pub dispatch_graph_grows :
    (p : Platform) (draw : ℕ → Draw) (graph : WorkGraph) (graph_id : String) (ready_only : Bool)
    → Does Grows (dispatch_graph p draw graph graph_id ready_only)
unfolding dispatch_graph
dispatch_graph_grows p draw graph graph_id ready_only = lifted (Graph.validate graph) _ λ u.
    got (λ d. satisfied_nodes graph_id (Dict.values d.tasks)) _
      λ satisfied. dispatch_nodes_grows p draw 0 graph_id satisfied ready_only graph.nodes

pub supersede_grows :
    (task_id : String) (r : TaskRecord) (env : TaskEnvelope) → Does Grows (supersede task_id r env)
unfolding supersede
supersede_grows task_id r env = choose (str_eq task_id env.task_id)
  where
    choose :
        (t : Bool)
        → Does Grows (if t then Monad.pure tt else put task_id (superseded env (abandoned r)))
    choose true = λ d. stays d
    choose false = put_grows task_id (superseded env (abandoned r)) (not_passed "abandoned" refl)

pub reclaim_grows :
    (p : Platform) (draw : Draw) (task_id reason : String) (graph : WorkGraph)
    → Does Grows (reclaim p draw task_id reason graph)
unfolding reclaim
reclaim_grows p draw task_id reason graph = bind require_writable _ require_writable_grows λ u.
    bind (find_record task_id) _ (find_record_grows task_id) λ r.
      refused (str_eq r.state "gate_pass") dispatch_rejected _ (λ unpassed.
        refused (is_superseded r) dispatch_rejected _ (λ live.
          bind (put task_id _) _ (put_grows task_id _ (not_passed "abandoned" refl)) λ v.
            bind (append p draw.now "reclaim" _) _ (append_grows p draw.now "reclaim" _) λ entry.
              lifted (Graph.node graph r.envelope.node_id) _ λ node.
                bind (forget_node r.envelope.graph_id node.id) _
                  (forget_node_grows r.envelope.graph_id node.id)
                  λ w.
                    bind (dispatch p draw node r.envelope.graph_id none none default_ttl) _
                      (dispatch_grows p draw node r.envelope.graph_id none none default_ttl)
                      λ env.
                        bind (supersede task_id r env) _ (supersede_grows task_id r env)
                          λ x d. stays d))
