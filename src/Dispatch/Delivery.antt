-- ===== src/Dispatch/Delivery.antt =====
-- What `deliver` of src/orchestrator/dispatch.py accepts.
use amnesic_pi.Prelude.{
  ℕ, String, ◌≡◌, refl, sym, ap, ◌∙◌, subst, Bool, true, false, Option, none, some, ◌∷◌, str_eq,
  eq_iff,
}
use amnesic_pi.Errors.{Result, ok, err, authority_error, replay_error, refuse_if, ◌>>◌}
use amnesic_pi.Platform.{Platform}
use amnesic_pi.Value.{Fields}
use amnesic_pi.Schema.Envelope.{TaskEnvelope}
use amnesic_pi.Topology
use amnesic_pi.Topology.{Team}
use amnesic_pi.Tokens
use amnesic_pi.Tokens.{HandoffToken, Ledger, was_consumed}
use amnesic_pi.Tokens.Ingress.{IsAuthentic, verify-IsAuthentic}
use amnesic_pi.Audit
use amnesic_pi.Audit.{AuditEntry}
use amnesic_pi.Dispatch.{actor, append}
use amnesic_pi.Dispatch.Records.{Dispatcher}
use amnesic_pi.Dispatch.Monad.{bind_m_then, lift_then, gets_then, require_m_then}
use amnesic_pi.Dispatch.Ingress.{with_replay, token_of, scope_of, consume, ingress_fields, deliver}

-- An entry that was appended, and nothing else changed.
pub record IsLogged (p : Platform) (now : ℕ) (event : String) (fields : Fields) (a b : Dispatcher)
    (entry : AuditEntry) : Type 0 where
  pub written : Audit.append p now a.audit actor event fields ≡ (ok entry, b.audit)
  pub rest : b ≡ record a { audit = b.audit }

pub append-IsLogged :
    (p : Platform) (now : ℕ) (event : String) (fields : Fields) (a b : Dispatcher)
    (entry : AuditEntry)
    → append p now event fields a ≡ (ok entry, b)
    → IsLogged p now event fields a b entry
unfolding append
append-IsLogged p now event fields a b entry h =
    let (outcome, left) = Audit.append p now a.audit actor event fields in
    let to : record a { audit = left } ≡ b = ap (λ r. r.1) h in
    let same : outcome ≡ ok entry = ap (λ r. r.0) h in
    subst (λ (c : Dispatcher). IsLogged p now event fields a c entry) to
      (record { written = ap (λ r. (r, left)) same; rest = refl })

-- The ledger before and after a consumed token.
pub record IsSpent (token : HandoffToken) (a b : Dispatcher) : Type 0 where
  pub unused : was_consumed token.task_id a.replay ≡ false
  pub rest : b ≡ record a { replay = (token.task_id, token.mac) ∷ a.replay }

consume-IsSpent :
    (token : HandoffToken) (a b : Dispatcher) → consume token a ≡ (ok tt, b) → IsSpent token a b
unfolding consume Tokens.consume
consume-IsSpent token a b h = go (was_consumed token.task_id a.replay) refl h
  where
    go :
        (t : Bool)
        → was_consumed token.task_id a.replay ≡ t
        → ◌≡◌ {A = Result (Unit {0}) × Dispatcher}
            (with_replay a (refuse_if t replay_error >> ok ((token.task_id, token.mac) ∷ a.replay)))
            (ok tt, b)
        → IsSpent token a b
    go true e g =
        let failed : ◌≡◌ {A = Result (Unit {0})} (err replay_error) (ok tt) = ap (λ r. r.0) g in
        absurd (cc)
    go false e g = record { unused = e; rest = sym (ap (λ r. r.1) g) }

-- What holds of an envelope that a lead has accepted, and of the dispatcher after it.
pub record IsDelivered (p : Platform) (now : ℕ) (env : TaskEnvelope) (to_agent : String)
    (a b : Dispatcher) : Type 0 where
  pub team : Team
  pub token : HandoffToken
  pub declared : Topology.team a.topology env.team ≡ ok team
  pub signed : env.token ≡ some token
  pub to_lead : to_agent ≡ team.lead
  pub own_task : env.task_id ≡ token.task_id
  pub authentic : IsAuthentic p now a.keys token (scope_of env) (some env.team) (some env.tier_max)
  pub first_use : was_consumed env.task_id a.replay ≡ false
  pub entry : AuditEntry
  pub logged :
      Audit.append p now a.audit actor "ingress_accepted" (ingress_fields env team)
      ≡ (ok entry, b.audit)
  pub after : b ≡ record a { audit = b.audit; replay = (token.task_id, token.mac) ∷ a.replay }

token_of-some : (o : Option HandoffToken) (t : HandoffToken) → token_of o ≡ ok t → o ≡ some t
token_of-some none t e = cc
token_of-some (some u) t e = cc

delivered :
    (p : Platform) (now : ℕ) (env : TaskEnvelope) (to_agent : String) (a b d : Dispatcher)
    (team : Team) (token : HandoffToken)
    → Topology.team a.topology env.team ≡ ok team
    → env.token ≡ some token
    → to_agent ≡ team.lead
    → env.task_id ≡ token.task_id
    → IsAuthentic p now a.keys token (scope_of env) (some env.team) (some env.tier_max)
    → IsSpent token a d
    → (entry : AuditEntry) → IsLogged p now "ingress_accepted" (ingress_fields env team) d b entry
    → IsDelivered p now env to_agent a b
delivered p now env to_agent a b d team token declared signed to_lead own_task authentic spent entry
      logged =
    record {
      team = team;
      token = token;
      declared = declared;
      signed = signed;
      to_lead = to_lead;
      own_task = own_task;
      authentic = authentic;
      first_use = subst (λ id. was_consumed id a.replay ≡ false) (sym own_task) spent.unused;
      entry = entry;
      logged =
          subst
            (λ (c : Dispatcher).
              Audit.append p now c.audit actor "ingress_accepted" (ingress_fields env team)
              ≡ (ok entry, b.audit))
            spent.rest logged.written;
      after = logged.rest ∙ ap (λ (c : Dispatcher). record c { audit = b.audit }) spent.rest;
    }

-- `deliver` accepts an envelope only at the lead of a team of the topology, with a token for this
-- very task that is authentic for the envelope's own graph, node, gate, payload, deliverables, team
-- and tier, and whose task was never accepted before; it then marks the task as used and logs the
-- acceptance, and changes nothing else. An unsigned envelope, as a restart restores them, is refused.
pub deliver-IsDelivered :
    (p : Platform) (now : ℕ) (env : TaskEnvelope) (to_agent : String) (a b : Dispatcher)
    → deliver p now env to_agent a ≡ (ok tt, b)
    → IsDelivered p now env to_agent a b
unfolding deliver
deliver-IsDelivered p now env to_agent a b h =
    gets_then (λ d. (d.topology, d.keys)) _ h
      λ h0. lift_then (Topology.team a.topology env.team) _ h0 λ team declared h1.
        lift_then (token_of env.token) _ h1 λ token signed h2.
          require_m_then (str_eq to_agent team.lead) authority_error _ h2 λ to_lead h3.
            require_m_then (str_eq env.task_id token.task_id) authority_error _ h3 λ own_task h4.
              lift_then
                (Tokens.verify p now a.keys token (scope_of env) (some env.team)
                  (some env.tier_max))
                _ h4
                λ u passed h5. bind_m_then (consume token) _ h5 λ v d used h6.
                  bind_m_then (append p now "ingress_accepted" (ingress_fields env team)) _ h6
                    λ entry c logged h7.
                      delivered p now env to_agent a b d team token declared
                        (token_of-some env.token token signed)
                        ((eq_iff to_agent team.lead).0 to_lead)
                        ((eq_iff env.task_id token.task_id).0 own_task)
                        (verify-IsAuthentic p now a.keys token (scope_of env) (some env.team)
                          (some env.tier_max) passed)
                        (consume-IsSpent token a d used) entry
                        (append-IsLogged p now "ingress_accepted" (ingress_fields env team) d b
                          entry
                          (subst
                            (λ (x : Dispatcher).
                              append p now "ingress_accepted" (ingress_fields env team) d
                              ≡ (ok entry, x))
                            (ap (λ r. r.1) h7) logged))
