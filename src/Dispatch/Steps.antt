-- ===== src/Dispatch/Steps.antt =====
-- Each step of a method of src/orchestrator/dispatch.py keeps what `Grows` says.
use amnesic_pi.Prelude.{
  ℕ, String, ◌≡◌, refl, sym, ap, ◌∙◌, subst, Bool, true, false, Option, none, some, arith, str_eq,
  if◌then◌else◌,
}
use amnesic_pi.Prelude.Int.{ℤ}
use amnesic_pi.Prelude.Dict
use amnesic_pi.Prelude.Dict.{text_key, pair_key, lookup-insert, lookup-remove, same_self}
use amnesic_pi.Errors.{Result, ok, err, authority_error}
use amnesic_pi.Platform.{Platform}
use amnesic_pi.Value.{Value, Fields}
use amnesic_pi.Schema.Envelope.{TaskEnvelope}
use amnesic_pi.Topology
use amnesic_pi.Topology.{Topology}
use amnesic_pi.Tokens
use amnesic_pi.Tokens.{HandoffToken, Entropy, prior, was_consumed, default_ttl, Ledger}
use amnesic_pi.Tokens.Replay.{consume-was_consumed}
use amnesic_pi.Audit
use amnesic_pi.Audit.Extended.{unextended, append-Extends, next_seq-Extends}
use amnesic_pi.Dispatch.{with_audit, actor, with_keys, append, next_seq, sign, envelope_of}
use amnesic_pi.Dispatch.Records.{TaskRecord, Dispatcher}
use amnesic_pi.Dispatch.Monad.{Does}
use amnesic_pi.Dispatch.Ingress.{
  with_replay, token_of, scope_of, consume, ingress_fields, deliver, find_record, put,
}
use amnesic_pi.Dispatch.Reclaim.{forget_at, forget_node}
use amnesic_pi.Dispatch.Grows.{
  knows, HasVerdict, HasVerdicts, HasOwners, Grows, stays, knows-insert, bind, lifted, got,
  required, pure_grows,
}

pub with_keys_grows :
    {A : Type 0} (d : Dispatcher) (r : Result (A × Tokens.KeyRing)) → Grows d (with_keys d r).1
with_keys_grows d (ok (a, keys)) = record {
  topology = refl;
  used = λ id h. h;
  known = λ id h. h;
  verdicts = λ h. h;
  owners = λ h. h;
  opened = λ h. h;
  logged = unextended _;
}
with_keys_grows d (err e) = stays d

pub append_grows :
    (p : Platform) (now : ℕ) (event : String) (fields : Fields)
    → Does Grows (append p now event fields)
unfolding append
append_grows p now event fields d = record {
  topology = refl;
  used = λ id h. h;
  known = λ id h. h;
  verdicts = λ h. h;
  owners = λ h. h;
  opened = λ h. h;
  logged = append-Extends p now d.audit actor event fields;
}

pub next_seq_grows : (p : Platform) → Does Grows (next_seq p)
unfolding next_seq
next_seq_grows p d = go (Audit.next_seq p d.audit) refl
  where
    go :
        (r : Result (ℤ × Audit.AuditLog))
        → Audit.next_seq p d.audit ≡ r
        → Grows d (with_audit d r).1
    go (ok (n, audit)) e = record {
      topology = refl;
      used = λ id h. h;
      known = λ id h. h;
      verdicts = λ h. h;
      owners = λ h. h;
      opened = λ h. h;
      logged = next_seq-Extends p d.audit audit n e;
    }
    go (err x) e = stays d

pub sign_grows :
    (p : Platform) (now : ℕ) (e : Entropy) (task_id team tier_max : String) (payload : Value)
    (ttl : ℤ)
    → Does Grows (sign p now e task_id team tier_max payload ttl)
unfolding sign
sign_grows p now e task_id team tier_max payload ttl d =
    with_keys_grows d (Tokens.sign p now e d.keys task_id team tier_max payload ttl)

pub consume_grows : (token : HandoffToken) → Does Grows (consume token)
unfolding consume
consume_grows token d = go (Tokens.consume token d.replay) refl
  where
    used_by :
        (ledger : Ledger)
        → Tokens.consume token d.replay ≡ ok ledger
        → (id : String) → was_consumed id d.replay ≡ true
        → was_consumed id ledger ≡ true
    used_by ledger e id h = rw (consume-was_consumed token d.replay ledger e id) (ground arith)

    go : (r : Result Ledger) → Tokens.consume token d.replay ≡ r → Grows d (with_replay d r).1
    go (ok ledger) e = record {
      topology = refl;
      used = used_by ledger e;
      known = λ id h. h;
      verdicts = λ h. h;
      owners = λ h. h;
      opened = λ h. h;
      logged = unextended _;
    }
    go (err x) e = stays d

-- A record that is put under an id is either the one looked up, or one that was there.
lookup_inserted :
    (id key : String) (r x : TaskRecord) (d : Dispatcher)
    → HasVerdict r
    → HasVerdicts d
    → Dict.lookup id (Dict.insert key r d.tasks) ≡ some x
    → HasVerdict x
lookup_inserted id key r x d fits all e =
    go (str_eq id key) (sym (lookup-insert key id r d.tasks) ∙ e)
  where
    go : (t : Bool) → (if t then some r else Dict.lookup id d.tasks) ≡ some x → HasVerdict x
    go true h = let same : r ≡ x = cc in subst HasVerdict same fits
    go false h = all id x h

pub put_grows : (id : String) (r : TaskRecord) → HasVerdict r → Does Grows (put id r)
unfolding put
put_grows id r fits d = record {
  topology = refl;
  used = λ i h. h;
  known = λ i. knows-insert i id r d;
  verdicts = λ all i x. lookup_inserted i id r x d fits all;
  owners = λ own key i h. knows-insert i id r d (own key i h);
  opened = λ h. h;
  logged = unextended _;
}

knows_inserted :
    (id : String) (r : TaskRecord) (d : Dispatcher)
    → knows id (record d { tasks = Dict.insert id r d.tasks }) ≡ true
knows_inserted id r d =
    subst (λ (o : Option TaskRecord). elim o [ none ↦ false | some x ↦ true ] ≡ true)
      (sym (
        lookup-insert id id r d.tasks
        ∙ ap (λ t. if t then some r else Dict.lookup id d.tasks) (same_self id)))
      refl

-- A new record under an id, as the new owner of a node.
pub insert_grows :
    (key : String × String) (id : String) (r : TaskRecord)
    → HasVerdict r
    → (d : Dispatcher)
    → Grows d
        (record d { tasks = Dict.insert id r d.tasks; by_node = Dict.insert key id d.by_node })
insert_grows key id r fits d = record {
  topology = refl;
  used = λ i h. h;
  known = λ i. knows-insert i id r d;
  verdicts = λ all i x. lookup_inserted i id r x d fits all;
  owners = λ own at i h.
      owner own at i (pair_key.same at key) (sym (lookup-insert key at id d.by_node) ∙ h);
  opened = λ h. h;
  logged = unextended _;
}
  where
    owner :
        HasOwners d
        → (at : String × String) (i : String) (t : Bool)
        → (if t then some id else Dict.lookup at d.by_node) ≡ some i
        → knows i (record d { tasks = Dict.insert id r d.tasks }) ≡ true
    owner own at i true h =
        let same : id ≡ i = cc in
        subst (λ x. knows x (record d { tasks = Dict.insert id r d.tasks }) ≡ true) same
          (knows_inserted id r d)
    owner own at i false h = knows-insert i id r d (own at i h)

pub find_record_grows : (id : String) → Does Grows (find_record id)
unfolding find_record
find_record_grows id d = stays d

pub forget_node_grows : (graph_id node_id : String) → Does Grows (forget_node graph_id node_id)
unfolding forget_node
forget_node_grows graph_id node_id d = go (Dict.lookup (graph_id, node_id) d.by_node)
  where
    kept :
        (t : Bool) (at : String × String) (i : String)
        → HasOwners d
        → (if t then none else Dict.lookup at d.by_node) ≡ some i
        → knows i d ≡ true
    kept true at i own h = cc
    kept false at i own h = own at i h

    go : (o : Option String) → Grows d (forget_at graph_id node_id d o).1
    go none = stays d
    go (some id) = record {
      topology = refl;
      used = λ i h. h;
      known = λ i h. h;
      verdicts = λ h. h;
      owners = λ own at i h.
          kept (pair_key.same at (graph_id, node_id)) at i own
            (sym (lookup-remove (graph_id, node_id) at d.by_node) ∙ h);
      opened = λ h. h;
      logged = unextended _;
    }

pub envelope_of_grows : (id : String) → Does Grows (envelope_of id)
unfolding envelope_of
envelope_of_grows id d = stays d

pub deliver_grows :
    (p : Platform) (now : ℕ) (env : TaskEnvelope) (to_agent : String)
    → Does Grows (deliver p now env to_agent)
unfolding deliver
deliver_grows p now env to_agent =
    got {A = Topology × Tokens.KeyRing} (λ d. (d.topology, d.keys)) _
      λ s. lifted (Topology.team s.0 env.team) _ λ team. lifted (token_of env.token) _ λ token.
        required (str_eq to_agent team.lead) authority_error _ (λ to_lead.
          required (str_eq env.task_id token.task_id) authority_error _ (λ own.
            lifted
              (Tokens.verify p now s.1 token (scope_of env) (some env.team) (some env.tier_max)) _
              λ u. bind (consume token) _ (consume_grows token) λ v.
                bind (append p now "ingress_accepted" (ingress_fields env team)) _
                  (append_grows p now "ingress_accepted" (ingress_fields env team))
                  λ entry. pure_grows tt))
