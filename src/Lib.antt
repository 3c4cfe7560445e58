-- ===== src/Lib.antt =====
-- amnesic-pi: a library over src/orchestrator, its agent orchestrator, and src/amnesic_pi, the tools of
-- the appliance that routes its clients through Tor.
--
-- An orchestrator plans work as a graph of nodes, signs each node into a task envelope with an HMAC
-- handoff token, hands it to the lead of one team, and advances it only on an evidenced gate result;
-- everything it does is appended to a hash-chained log. The files follow the source:
--
--   Errors, Value    the exceptions, and JSON values with canonical_json (schema.py)
--   Platform         what is taken from outside: sha256, HMAC, isoformat, json.loads, str(), failing writes
--   Schema/*         schema.py: artifacts, work nodes, work graphs, status updates, envelopes, memos
--   Gates/*          gates.py: the seven gates, gate results, waivers
--   Topology/*       topology.py: teams, leads, rosters, gate owners
--   Tokens/*         tokens.py: key ring, handoff tokens, task ids, the replay ledger
--   Audit/*          audit.py: the log, its mirror and its cached head
--   Replay           state.py: what the log says is in flight
--   ColdStart/*      state.py: the five checks before dispatch opens
--   Dispatch/*       dispatch.py: the dispatcher's state and methods
--   Cli/*            cli.py: the commands, what they leave in the log, and the exit status
--   Appliance/Config, Firewall, Cli, Verify (and below)
--                    src/amnesic_pi: network.env, the nftables policy rendered from its template,
--                    render-firewall and apply-firewall, and the self-checks of verify
--   Prelude/*        names, tests, lists, texts and dicts that the others share
--   Samples/*        a concrete platform, and runs of the theorems at concrete inputs
--
-- A method is a function of the source's name; its guards stand in the source's order. Stateless code
-- returns `Result`; a method of the dispatcher runs in `M`, which keeps the state beside an
-- exception, since a method may raise after it has written. Fields of records have the types that the
-- code relies on; what JSON gives in their place is read by `parse`, which raises Python's own
-- exception where the code does not check a type first.
--
-- Times are native numbers of microseconds, and a call takes one `now` for every clock reading in it.
-- Durations are integers. Random bytes are arguments. Hash functions, HMAC, text forms of timestamps,
-- the JSON reader, and how far a write to the audit log gets before an OSError are fields of
-- `Platform`; what a theorem needs of them it says: ReadsIso, CollisionFree, MacBinds, PrintsAscii. The
-- only loop that is no structural recursion is the peeling loop of WorkGraph._reject_cycles; its fuel is
-- the number of nodes, and each round takes one away.
--
-- The appliance's files are lists of code points. Files come in as their reading returned or raised;
-- `nft`, `ss`, the password database and the sockets are parameters. A command of either program is a
-- function to its exit code, with what it leaves: the log, or the rules in force and the number of
-- candidate files. `nft -f` acts on a type of rules that is left open; that a failed batch changes
-- nothing is the hypothesis IsTransactional.
--
-- Not modelled: wordings of messages and of what is printed, floats, the file locks (an append is one
-- step), argument parsing, and the reading of the TOML manifest (Topology.load and
-- Topology.parse; a loaded topology is an argument). The tables of the dispatcher are keyed by texts, as
-- they are annotated: a restored task id that is no text enters them as its str().
pub mod Prelude
pub mod Errors
pub mod Value
pub mod Platform
pub mod Schema
pub mod Gates
pub mod Topology
pub mod Tokens
pub mod Audit
pub mod Dispatch
pub mod Replay
pub mod ColdStart
pub mod Appliance
pub mod Cli
pub mod Samples
