-- ===== src/Samples/Progress.antt =====
-- Runs of the theorems on a graph of two nodes, of which the first has passed its gate.
use amnesic_pi.Prelude.{◌≡◌, ◌↔◌, refl, true, false, [], ◌∷◌, any}
use amnesic_pi.Errors.{ok}
use amnesic_pi.Schema.Graph.{validate, pending_of, reject_cycles}
use amnesic_pi.Schema.Graph.Rounds.{Peels, reject_cycles_ends}
use amnesic_pi.Dispatch.Progress.{is_next, validate_progress}
use amnesic_pi.Samples.Schema.{graph}

valid : validate graph ≡ ok tt
unfolding validate amnesic_pi.Prelude.Text.is_blank amnesic_pi.Schema.Graph.check_nodes
    amnesic_pi.Schema.Node.validate amnesic_pi.Schema.Basics.matches_id
    amnesic_pi.Schema.Artifact.validate_all amnesic_pi.Schema.Artifact.validate
    amnesic_pi.Schema.Artifact.is_trimmed amnesic_pi.Schema.Artifact.is_contained
    amnesic_pi.Prelude.Text.split amnesic_pi.Schema.Node.distinct_values
    amnesic_pi.Schema.Node.elem_value amnesic_pi.Schema.Node.same_value
    amnesic_pi.Schema.Graph.check_edges amnesic_pi.Schema.Graph.reject_cycles
    amnesic_pi.Schema.Graph.reject_shared_deliverables amnesic_pi.Schema.Graph.claim_nodes
    amnesic_pi.Schema.Graph.claim amnesic_pi.Prelude.Text.strip
valid = refl

validate_progress_example : any (is_next ("n1" ∷ [])) graph.nodes ≡ true
validate_progress_example = validate_progress graph ("n1" ∷ []) valid refl

reject_cycles_ends_example :
    Peels (pending_of graph.nodes) (ok tt) ↔ (ok tt ≡ reject_cycles graph.nodes)
reject_cycles_ends_example = reject_cycles_ends graph.nodes (ok tt)
