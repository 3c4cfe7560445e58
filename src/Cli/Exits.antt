-- ===== src/Cli/Exits.antt =====
-- What the exit codes of `cmd_dispatch` and `cmd_validate_graph` (src/orchestrator/cli.py) say.
use amnesic_pi.Prelude.{
  ℕ, String, ◌≡◌, subst, ◌||◌, ◌↔◌, ◌⊎◌, inl, inr, refl, sym, ap, ◌∙◌, Bool, true, false, Option,
  none, some, List, [], ◌∷◌, All, elem, map, str_eq, eq_iff, if◌then◌else◌, arith,
}
use amnesic_pi.Prelude.Int.{ℤ, pos}
use amnesic_pi.Errors.{Result, Done, ok, err, bind_then, >>-eq-ok, ok-injective, ◌>>=◌}
use amnesic_pi.Platform.{Platform}
use amnesic_pi.Schema.Node.{WorkNode}
use amnesic_pi.Schema.Graph.{WorkGraph, from_json}
use amnesic_pi.Schema.Graph
use amnesic_pi.Schema.Graph.Validation.{IsWellFormed, validate-IsWellFormed}
use amnesic_pi.Schema.Envelope.{TaskEnvelope}
use amnesic_pi.Topology
use amnesic_pi.Topology.{Team, Topology, find_team}
use amnesic_pi.Tokens.{Entropy}
use amnesic_pi.Audit.{AuditLog}
use amnesic_pi.ColdStart.{Outcome, Report, cold_start, known_teams}
use amnesic_pi.ColdStart.Ready.{IsReady, cold_start-IsReady}
use amnesic_pi.ColdStart.Refused.{cold_start-refused}
use amnesic_pi.Dispatch.{dispatch_graph}
use amnesic_pi.Dispatch.Monad.{lift_then}
use amnesic_pi.Dispatch.Records.{Dispatcher, Draw}
use amnesic_pi.Cli.{
  graph_id_or, find_teams, find_leads, after_graph, with_graph, after_cold_start,
  cmd_validate_graph, cmd_dispatch,
}

-- What was dispatched, and from what.
pub record IsDispatched (p : Platform) (now : ℕ) (e : Entropy) (loaded : Result Topology)
    (log : AuditLog) (file : Result (List ℕ)) (graph_id : String) (draw : ℕ → Draw)
    (after : AuditLog) : Type 0 where
  pub d : Dispatcher
  pub report : Report
  pub ready : IsReady p now e loaded log none d report
  pub text : List ℕ
  pub read : file ≡ ok text
  pub graph : WorkGraph
  pub parsed : from_json p text ≡ ok graph
  pub formed : IsWellFormed graph
  pub envelopes : List TaskEnvelope
  pub left : Dispatcher
  pub dispatched : dispatch_graph p draw graph graph_id true d ≡ (ok envelopes, left)
  pub logged : after ≡ left.audit

-- The two ways in which the command returns.
abbrev Returns : Type 0 → ℤ → AuditLog → AuditLog → Type 0
Returns Run code log after = ((code ≡ pos 0) × Run) ⊎ ((code ≡ pos 1) × (after ≡ log))

graph_formed :
    (p : Platform) (draw : ℕ → Draw) (g : WorkGraph) (id : String) (d left : Dispatcher)
    (envelopes : List TaskEnvelope)
    → dispatch_graph p draw g id true d ≡ (ok envelopes, left)
    → IsWellFormed g
unfolding dispatch_graph
graph_formed p draw g id d left envelopes h =
    lift_then (Graph.validate g) _ h λ u valid rest. validate-IsWellFormed g valid

pair_of : {A B : Type 0} {a c : A} {b d : B} → ◌≡◌ {A = A × B} (a, b) (c, d) → (a ≡ c) × (b ≡ d)
pair_of h = (ap (λ x. x.0) h, ap (λ x. x.1) h)

module _ (p : Platform) (now : ℕ) (e : Entropy) (loaded : Result Topology) (log : AuditLog)
    (file : Result (List ℕ)) (id : String) (draw : ℕ → Draw) (printed : Done) (code : ℤ)
    (after : AuditLog) where
  abbrev Run : Type 0
  Run = IsDispatched p now e loaded log file id draw after

  after_graph_code :
      (r : Result (List TaskEnvelope) × Dispatcher)
      → after_graph printed r ≡ (ok code, after)
      → (code ≡ pos 0)
        × (envelopes : List TaskEnvelope) × (left : Dispatcher) × (r ≡ (ok envelopes, left))
        × (after ≡ left.audit)
  after_graph_code (err x, d) h = let (clash, same) = pair_of h in absurd (cc)
  after_graph_code (ok xs, d) h =
      let (given, same) = pair_of h in
      let rest = (>>-eq-ok (find_leads d.topology xs) _ given).1 in
      let last = (>>-eq-ok printed _ rest).1 in (sym (ok-injective last), xs, d, refl, sym same)

  with_graph_code :
      (d : Dispatcher) (report : Report) (graph : Result WorkGraph)
      → (cold_start p now e loaded log none).0 ≡ ok (some d, report)
      → (file >>= from_json p) ≡ graph
      → with_graph p draw id printed d graph ≡ (ok code, after)
      → (code ≡ pos 0) × Run
  with_graph_code d report (err x) opened parsed h = let (clash, same) = pair_of h in absurd (cc)
  with_graph_code d report (ok graph) opened parsed h =
      let (zero_code, envelopes, left, ran, logged) =
        after_graph_code (dispatch_graph p draw graph id true d) h in
      (
        zero_code,
        bind_then file (from_json p) parsed λ text read parsed. record {
          d = d;
          report = report;
          ready = cold_start-IsReady p now e loaded log none d report opened;
          text = text;
          read = read;
          graph = graph;
          parsed = parsed;
          formed = graph_formed p draw graph id d left envelopes ran;
          envelopes = envelopes;
          left = left;
          dispatched = ran;
          logged = logged;
        },
      )

  outcome_code :
      (o : Outcome)
      → cold_start p now e loaded log none ≡ o
      → after_cold_start p draw id (file >>= from_json p) printed o ≡ (ok code, after)
      → Returns Run code log after
  outcome_code (err x, log') started h = let (clash, same) = pair_of h in absurd (cc)
  outcome_code (ok (none, report), log') started h =
      let (given, same) = pair_of h in
      let refused = cold_start-refused p now e loaded log none report log' started in
      inr (sym (ok-injective (>>-eq-ok printed _ given).1), sym same ∙ refused.0)
  outcome_code (ok (some d, report), log') started h =
      inl (with_graph_code d report (file >>= from_json p) (ap (λ o. o.0) started) refl h)

-- When `dispatch` returns, the exit code tells what happened. It is 0 if the cold start passed all of
-- its checks, the graph file held a well-formed work graph, and exactly what `dispatch_graph` wrote
-- on the dispatcher that the cold start handed out is in the log. It is 1 if the cold start refused,
-- and then the log is as it was: nothing was dispatched.
pub cmd_dispatch-IsDispatched :
    (p : Platform) (now : ℕ) (e : Entropy) (loaded : Result Topology) (log : AuditLog)
    (file : Result (List ℕ)) (graph_id : Option String) (first : Draw) (draw : ℕ → Draw)
    (printed : Done) (code : ℤ) (after : AuditLog)
    → cmd_dispatch p now e loaded log file graph_id first draw printed ≡ (ok code, after)
    → ((code ≡ pos 0)
        × IsDispatched p now e loaded log file (graph_id_or graph_id first) draw after)
      ⊎ ((code ≡ pos 1) × (after ≡ log))
unfolding cmd_dispatch
cmd_dispatch-IsDispatched p now e loaded log file graph_id first draw printed code after h =
    outcome_code p now e loaded log file (graph_id_or graph_id first) draw printed code after
      (cold_start p now e loaded log none) refl h

-- A team of the topology has this name.
abbrev pub IsTeam : Topology → String → Type 0
IsTeam t name = elem name (known_teams t) ≡ true

first_or_later :
    (b r : Bool) (t : Team) (m : Result Team)
    → ((found : Team) × (m ≡ ok found)) ↔ (r ≡ true)
    → ((found : Team) × ((if b then ok t else m) ≡ ok found)) ↔ ((b || r) ≡ true)
first_or_later true r t m later = (λ h. refl, λ h. (t, refl))
first_or_later false r t m later = later

eq_swap : (s t : String) → str_eq s t ≡ str_eq t s
eq_swap s t = ground (arith, eq_iff s t, eq_iff t s)

find_team_iff :
    (name : String) (ts : List Team)
    → ((found : Team) × (find_team name ts ≡ ok found)) ↔ (elem name (map (λ x. x.name) ts) ≡ true)
unfolding find_team
find_team_iff name [] = (λ (found, h). absurd (cc), λ h. absurd (cc))
find_team_iff name (t ∷ ts) =
    let rest = elem name (map (λ (x : Team). x.name) ts) in
    subst (λ b. ((found : Team) × (find_team name (t ∷ ts) ≡ ok found)) ↔ ((b || rest) ≡ true))
      (eq_swap t.name name)
      (first_or_later (str_eq t.name name) rest t (find_team name ts) (find_team_iff name ts))

find_teams_iff :
    (t : Topology) (ns : List WorkNode) → (find_teams t ns ≡ ok tt) ↔ All (λ n. IsTeam t n.team) ns
unfolding find_teams Topology.team
find_teams_iff t [] = (λ h. tt, λ h. refl)
find_teams_iff t (n ∷ ns) =
    let here = find_team_iff n.team t.teams in
    let later = find_teams_iff t ns in
    (
      λ h.
          bind_then (find_team n.team t.teams) _ h
            λ found e rest. (here.0 (found, e), later.0 rest),
      λ (known, others). let (found, e) = here.1 known in rw e (later.1 others),
    )

-- `validate-graph` (where printing works) exits with 0 exactly when the manifest loads, the file holds
-- a work graph that `from_json` accepts, and every node's team is a team of the manifest.
pub cmd_validate_graph_iff :
    (p : Platform) (loaded : Result Topology) (file : Result (List ℕ))
    → (cmd_validate_graph p loaded file (ok tt) ≡ ok (pos 0)) ↔ (
        (t : Topology) × (text : List ℕ) × (graph : WorkGraph) × (loaded ≡ ok t)
        × (file ≡ ok text)
        × (from_json p text ≡ ok graph)
        × All (λ n. IsTeam t n.team) graph.nodes)
unfolding cmd_validate_graph
cmd_validate_graph_iff p loaded file = (
  λ h. bind_then loaded _ h λ t e1 h1. bind_then file _ h1 λ text e2 h2.
      bind_then (from_json p text) _ h2 λ graph e3 h3. (
        t,
        text,
        graph,
        e1,
        e2,
        e3,
        (find_teams_iff t graph.nodes).0 (>>-eq-ok (find_teams t graph.nodes) _ h3).0,
      ),
  λ (t, text, graph, e1, e2, e3, known).
      rw e1 (rw e2 (rw e3 (rw ((find_teams_iff t graph.nodes).1 known) refl))),
)
