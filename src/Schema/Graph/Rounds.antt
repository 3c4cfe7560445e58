-- ===== src/Schema/Graph/Rounds.antt =====
-- The loop of `WorkGraph._reject_cycles` (src/orchestrator/schema.py) as a relation, without a bound on
-- its rounds.
use amnesic_pi.Prelude.{
  ℕ, zero, suc, ◌≤◌, ◌≡◌, ◌↔◌, refl, subst, sym, String, true, false, Bool-cases, inl, inr, List,
  [], ◌∷◌, is_empty, length, arith,
}
use amnesic_pi.Errors.{Done, ok, err, schema_error}
use amnesic_pi.Value.{Value}
use amnesic_pi.Schema.Node.{WorkNode}
use amnesic_pi.Schema.Graph.{Pending, ready, waiting, pending_of, peel, reject_cycles}
use amnesic_pi.Schema.Graph.Peel.{length-waiting-lt}

-- The `while` loop, as the source has it: it ends with nothing pending, stops with an error when
-- nothing is ready, and otherwise goes on with what waits.
pub data Peels : Pending → Done → Type 0 where
  finished : Peels [] (ok tt)
  stuck :
      (e : String × List Value) (ps : Pending)
      → is_empty (ready (e ∷ ps)) ≡ true
      → Peels (e ∷ ps) (err schema_error)
  next :
      (e : String × List Value) (ps : Pending) (out : Done)
      → is_empty (ready (e ∷ ps)) ≡ false
      → Peels (waiting (e ∷ ps)) out
      → Peels (e ∷ ps) out

length-pending_of : (ns : List WorkNode) → length (pending_of ns) ≤ length ns
length-pending_of [] = omega arith
length-pending_of (n ∷ ns) = omega (arith, length-pending_of ns)

peel-Peels : (f : ℕ) (ps : Pending) → length ps ≤ f → Peels ps (peel f ps)
unfolding peel
peel-Peels f [] enough = finished
peel-Peels zero (e ∷ ps) enough = absurd (omega arith)
peel-Peels (suc f) (e ∷ ps) enough = elim (Bool-cases (is_empty (ready (e ∷ ps)))) [
  | inl none ↦ rw none (stuck e ps none)
  | inr found ↦ rw found (
      next e ps (peel f (waiting (e ∷ ps))) found
        (peel-Peels f (waiting (e ∷ ps)) (omega (arith, length-waiting-lt (e ∷ ps) found))))
]

-- Whatever result the loop has, it is the one that the bounded loop gives.
same_out : (f : ℕ) {ps : Pending} {out : Done} → length ps ≤ f → Peels ps out → out ≡ peel f ps
unfolding peel
same_out f enough finished = refl
same_out zero enough (stuck e ps none) = absurd (omega arith)
same_out zero enough (next e ps out found run) = absurd (omega arith)
same_out (suc f) enough (stuck e ps none) = rw none refl
same_out (suc f) enough (next e ps out found run) =
    rw found (same_out f (omega (arith, length-waiting-lt (e ∷ ps) found)) run)

-- The `while` loop of `_reject_cycles`, which has no bound on its rounds, always ends, also on a graph
-- with cycles, and it has one result: the one of `reject_cycles`, for which a round for each node is
-- enough.
pub reject_cycles_ends :
    (nodes : List WorkNode) (out : Done)
    → Peels (pending_of nodes) out ↔ (out ≡ reject_cycles nodes)
unfolding reject_cycles
reject_cycles_ends nodes out =
    let enough : length (pending_of nodes) ≤ length nodes = length-pending_of nodes in
    (
      same_out (length nodes) enough,
      λ e.
          subst (Peels (pending_of nodes)) (sym e)
            (peel-Peels (length nodes) (pending_of nodes) enough),
    )
