-- ===== src/Dispatch/Issuing.antt =====
-- Dispatch in src/orchestrator/dispatch.py: one task per node, and none while read-only.
use amnesic_pi.Prelude.{
  ◌+◌, String, ◌≡◌, refl, sym, ap, ◌∙◌, subst, Bool, true, false, Option, none, some, elem,
  if◌then◌else◌,
}
use amnesic_pi.Prelude.Int.{ℤ}
use amnesic_pi.Prelude.Dict
use amnesic_pi.Prelude.Dict.{text_key, pair_key, lookup-insert, same_self}
use amnesic_pi.Errors.{
  Result, ok, err, read_only_mode, dispatch_rejected, authority_error, ok-injective,
}
use amnesic_pi.Platform.{Platform}
use amnesic_pi.Value.{Fields}
use amnesic_pi.Schema.Basics.{dispatchable_tiers}
use amnesic_pi.Schema.Node
use amnesic_pi.Schema.Node.{WorkNode}
use amnesic_pi.Schema.Graph.{WorkGraph}
use amnesic_pi.Schema.Envelope
use amnesic_pi.Schema.Envelope.{TaskEnvelope}
use amnesic_pi.Gates.{gate}
use amnesic_pi.Topology
use amnesic_pi.Topology.{Team}
use amnesic_pi.Audit.{AuditEntry}
use amnesic_pi.Dispatch.{
  append, next_seq, sign, require_writable, envelope_in, envelope_of, resubmitted, issue, dispatch,
  enqueue,
}
use amnesic_pi.Dispatch.Records.{new_record, dispatched_to, TaskRecord, Dispatcher, Draw}
use amnesic_pi.Dispatch.Monad
use amnesic_pi.Dispatch.Monad.{
  M, bind_ok, bind_m_then, lift_then, gets_then, modify_then, require_m_then, refuse_if_m_then,
}
use amnesic_pi.Dispatch.Reclaim.{reclaim}
use amnesic_pi.Dispatch.Runs.{dispatch_grows}

-- While the dispatcher is read-only, `dispatch` and `reclaim` are refused and change nothing,
-- whatever they are asked for.
pub dispatch_read_only :
    (p : Platform) (draw : Draw) (node : WorkNode) (graph_id : String) (payload : Option Fields)
    (task_id : Option String) (ttl : ℤ) (reclaimed reason : String) (graph : WorkGraph)
    (d : Dispatcher)
    → d.read_only ≡ true
    → (dispatch p draw node graph_id payload task_id ttl d ≡ (err read_only_mode, d))
      × (reclaim p draw reclaimed reason graph d ≡ (err read_only_mode, d))
unfolding dispatch reclaim require_writable Monad.◌>>=◌
dispatch_read_only p draw node graph_id payload task_id ttl reclaimed reason graph d h =
    (rw h refl, rw h refl)

-- The node has an owner, and its task has this envelope.
abbrev pub IsOwned : String → String → TaskEnvelope → Dispatcher → Type 0
IsOwned graph_id node_id env d =
    (id : String) × (r : TaskRecord) × (Dict.lookup (graph_id, node_id) d.by_node ≡ some id)
    × (Dict.lookup id d.tasks ≡ some r)
    × (r.envelope ≡ env)

-- Writing a record under an id that becomes the owner of the node.
IsOwned-insert :
    (graph_id node_id id : String) (r : TaskRecord) (d : Dispatcher)
    → IsOwned graph_id node_id r.envelope (record d {
      tasks = Dict.insert id r d.tasks;
      by_node = Dict.insert (graph_id, node_id) id d.by_node;
    })
IsOwned-insert graph_id node_id id r d = (
  id,
  r,
  lookup-insert (graph_id, node_id) (graph_id, node_id) id d.by_node
      ∙ ap (λ t. if t then some id else Dict.lookup (graph_id, node_id) d.by_node)
          (same_self {K = String × String} (graph_id, node_id)),
  lookup-insert id id r d.tasks
      ∙ ap (λ t. if t then some r else Dict.lookup id d.tasks) (same_self id),
  refl,
)

enqueued :
    (draw : Draw) (made env : TaskEnvelope) (team : Team) (entry : AuditEntry) (d b : Dispatcher)
    → ◌≡◌ {A = Result TaskEnvelope × Dispatcher}
        (ok made, enqueue draw made team entry d)
        (ok env, b)
    → IsOwned made.graph_id made.node_id env b
enqueued draw made env team entry d b h =
    let same : made ≡ env = ok-injective (ap (λ r. r.0) h) in
    subst (λ (c : Dispatcher). IsOwned made.graph_id made.node_id env c) (ap (λ r. r.1) h)
      (subst
        (λ (e : TaskEnvelope).
          IsOwned made.graph_id made.node_id e (enqueue draw made team entry d))
        same
        (IsOwned-insert made.graph_id made.node_id made.task_id
          (new_record made (draw.now + d.ack_slo) (dispatched_to entry.seq team.lead)) d))

issue-IsOwned :
    (p : Platform) (draw : Draw) (node : WorkNode) (graph_id : String) (payload : Option Fields)
    (task_id : Option String) (ttl : ℤ) (env : TaskEnvelope) (a b : Dispatcher)
    → issue p draw node graph_id payload task_id ttl a ≡ (ok env, b)
    → IsOwned graph_id node.id env b
unfolding issue
issue-IsOwned p draw node graph_id payload task_id ttl env a b h =
    gets_then (λ d. d.topology) _ h
      λ h0. lift_then (Topology.team a.topology node.team) _ h0 λ team e1 h1.
        lift_then (gate node.exit_gate) _ h1 λ exit_gate e2 h2.
          lift_then (Topology.team_for_gate a.topology exit_gate.name) _ h2 λ owner e3 h3.
            gets_then (λ d. d.paused) _ h3
              λ h4. refuse_if_m_then (elem team.name a.paused) dispatch_rejected _ h4 λ running h5.
                require_m_then (elem node.tier_max dispatchable_tiers) authority_error _ h5
                  λ tier h6.
                    bind_m_then (sign p draw.now draw.entropy _ _ _ _ _) _ h6 λ token d1 e7 h7.
                      bind_m_then (next_seq p) _ h7 λ seq d2 e8 h8.
                        lift_then (Envelope.validate _) _ h8 λ valid e9 h9.
                          bind_m_then (append p draw.now "dispatch" _) _ h9 λ entry d3 e10 h10.
                            modify_then _ _ h10 λ h11. enqueued draw _ env team entry d3 b h11

writable :
    (u : Unit {0}) (a d : Dispatcher)
    → require_writable a ≡ (ok u, d)
    → (a.read_only ≡ false) × (a ≡ d)
unfolding require_writable
writable u a d h = (go a.read_only (ap (λ r. r.0) h), ap (λ r. r.1) h)
  where
    go :
        (t : Bool)
        → ◌≡◌ {A = Result (Unit {0})} (if t then err read_only_mode else ok tt) (ok u)
        → t ≡ false
    go true e = cc
    go false e = refl

-- The second half of `dispatch`, once it has looked up the task id and the node.
abbrev route :
    Platform
    → Draw
    → WorkNode
    → String
    → Option Fields
    → Option String
    → ℤ
    → Option String
    → Option String
    → M TaskEnvelope
route p draw node graph_id payload task_id ttl known owner = elim known [
  | some id ↦ envelope_of id
  | none ↦ elim owner [
    | some id ↦ envelope_of id
    | none ↦ issue p draw node graph_id payload task_id ttl
  ]
]

-- A successful `dispatch`: it may write, the node is valid, and the rest ran on the same state.
dispatch_then :
    {P : Type 0} (p : Platform) (draw : Draw) (node : WorkNode) (graph_id : String)
    (payload : Option Fields) (task_id : Option String) (ttl : ℤ) (env : TaskEnvelope)
    (a b : Dispatcher)
    → dispatch p draw node graph_id payload task_id ttl a ≡ (ok env, b)
    → (a.read_only ≡ false
        → Node.validate node ≡ ok tt
        → route p draw node graph_id payload task_id ttl
            (resubmitted task_id a)
            (Dict.lookup (graph_id, node.id) a.by_node)
            a
          ≡ (ok env, b)
        → P)
    → P
unfolding dispatch
dispatch_then p draw node graph_id payload task_id ttl env a b h k =
    bind_m_then require_writable _ h λ u d e1 h1. lift_then (Node.validate node) _ h1 λ v valid h2.
      gets_then (resubmitted task_id) _ h2 λ h3.
        gets_then (λ x. Dict.lookup (graph_id, node.id) x.by_node) _ h3
          λ h4.
            let (open_now, same) = writable u a d e1 in
            k open_now valid (
              subst
                (λ (x : Dispatcher).
                  route p draw node graph_id payload task_id ttl (resubmitted task_id x)
                    (Dict.lookup (graph_id, node.id) x.by_node) x
                  ≡ (ok env, b))
                (sym same) h4)

found_owner :
    (graph_id node_id id : String) (env : TaskEnvelope) (a b : Dispatcher)
    → Dict.lookup (graph_id, node_id) a.by_node ≡ some id
    → envelope_of id a ≡ (ok env, b)
    → IsOwned graph_id node_id env b
unfolding envelope_of
found_owner graph_id node_id id env a b e g =
    subst (λ (d : Dispatcher). IsOwned graph_id node_id env d) (ap (λ r. r.1) g)
      (go (Dict.lookup id a.tasks) refl (ap (λ r. r.0) g))
  where
    go :
        (o : Option TaskRecord)
        → Dict.lookup id a.tasks ≡ o
        → envelope_in o ≡ ok env
        → IsOwned graph_id node_id env a
    go none at h = cc
    go (some r) at h = (id, r, e, at, ok-injective h)

-- A `dispatch` that succeeds leaves the node owned by a task with the envelope that it returned.
dispatch-IsOwned :
    (p : Platform) (draw : Draw) (node : WorkNode) (graph_id : String) (payload : Option Fields)
    (task_id : Option String) (ttl : ℤ) (env : TaskEnvelope) (a b : Dispatcher)
    → resubmitted task_id a ≡ none
    → route p draw node graph_id payload task_id ttl
        (resubmitted task_id a)
        (Dict.lookup (graph_id, node.id) a.by_node)
        a
      ≡ (ok env, b)
    → IsOwned graph_id node.id env b
dispatch-IsOwned p draw node graph_id payload task_id ttl env a b unknown h =
    go (Dict.lookup (graph_id, node.id) a.by_node) refl (
      subst
        (λ o.
          route p draw node graph_id payload task_id ttl o
            (Dict.lookup (graph_id, node.id) a.by_node) a
          ≡ (ok env, b))
        unknown h)
  where
    go :
        (o : Option String)
        → Dict.lookup (graph_id, node.id) a.by_node ≡ o
        → route p draw node graph_id payload task_id ttl none o a ≡ (ok env, b)
        → IsOwned graph_id node.id env b
    go none e g = issue-IsOwned p draw node graph_id payload task_id ttl env a b g
    go (some id) e g = found_owner graph_id node.id id env a b e g

owned_dispatch :
    (p : Platform) (draw : Draw) (node : WorkNode) (graph_id : String) (payload : Option Fields)
    (task_id : Option String) (ttl : ℤ) (env : TaskEnvelope) (d : Dispatcher)
    → d.read_only ≡ false
    → Node.validate node ≡ ok tt
    → resubmitted task_id d ≡ none
    → IsOwned graph_id node.id env d
    → dispatch p draw node graph_id payload task_id ttl d ≡ (ok env, d)
unfolding dispatch require_writable envelope_of
owned_dispatch p draw node graph_id payload task_id ttl env d open_now valid unknown
      (id, r, owner, found, same) =
    bind_ok require_writable _ tt d d
      (ap (λ (t : Bool). (if t then err read_only_mode else ok tt, d)) open_now)
    ∙ bind_ok (Monad.lift (Node.validate node)) _ tt d d (ap (λ v. (v, d)) valid)
    ∙ bind_ok (Monad.gets (resubmitted task_id)) _ none d d (ap (λ o. (ok o, d)) unknown)
    ∙ bind_ok (Monad.gets (λ x. Dict.lookup (graph_id, node.id) x.by_node)) _ (some id) d d
        (ap (λ o. (ok o, d)) owner)
    ∙ ap (λ o. (envelope_in o, d)) found
    ∙ ap (λ e. (ok e, d)) same

-- One task per node: where a `dispatch` of a node returned an envelope, a second `dispatch` of the node
-- in the same graph, made in the state that the first one left, returns the same envelope and changes
-- nothing, whatever payload, lifetime, time or random bits it has. (Neither call names a task that is
-- already known. Nothing is said of a call behind another one, such as a `reclaim` of the task.)
pub dispatch_idempotent :
    (p : Platform) (draw again : Draw) (node : WorkNode) (graph_id : String)
    (payload other : Option Fields) (task_id new_id : Option String) (ttl ttl' : ℤ)
    (env : TaskEnvelope) (a b : Dispatcher)
    → resubmitted task_id a ≡ none
    → resubmitted new_id b ≡ none
    → dispatch p draw node graph_id payload task_id ttl a ≡ (ok env, b)
    → dispatch p again node graph_id other new_id ttl' b ≡ (ok env, b)
dispatch_idempotent p draw again node graph_id payload other task_id new_id ttl ttl' env a b unknown
      unknown' h =
    dispatch_then p draw node graph_id payload task_id ttl env a b h λ open_now valid routed.
      owned_dispatch p again node graph_id other new_id ttl' env b
        (subst (λ (d : Dispatcher). d.read_only ≡ false) (ap (λ r. r.1) h)
          ((dispatch_grows p draw node graph_id payload task_id ttl a).opened open_now))
        valid unknown'
        (dispatch-IsOwned p draw node graph_id payload task_id ttl env a b unknown routed)
