-- ===== src/Schema/Graph/Peel.antt =====
-- One round of `_reject_cycles`: what it takes away and what it leaves.
use amnesic_pi.Prelude.{
  suc, ◌<◌, String, ◌≡◌, refl, ap, length-keep-le, true, false, not, List, [], ◌∷◌, arith, length,
  elem, is_empty, distinct,
}
use amnesic_pi.Schema.Graph.{Pending, pending_ids, ready, reduce, stalled, waiting}

pub ids-stalled_mem :
    (d : String) (ps : Pending)
    → elem d (pending_ids (stalled ps)) ≡ true
    → elem d (pending_ids ps) ≡ true
ids-stalled_mem d [] h = h
ids-stalled_mem d ((i, []) ∷ ps) h = ground (arith, ids-stalled_mem d ps h)
ids-stalled_mem d ((i, v ∷ vs) ∷ ps) h = ground (arith, ids-stalled_mem d ps)

pub ready_mem :
    (d : String) (ps : Pending) → elem d (ready ps) ≡ true → elem d (pending_ids ps) ≡ true
ready_mem d [] h = h
ready_mem d ((i, []) ∷ ps) h = ground (arith, ready_mem d ps)
ready_mem d ((i, v ∷ vs) ∷ ps) h = ground (arith, ready_mem d ps h)

-- A name that is not ready stays.
pub stalled_of_not-ready :
    (d : String) (ps : Pending)
    → elem d (pending_ids ps) ≡ true
    → elem d (ready ps) ≡ false
    → elem d (pending_ids (stalled ps)) ≡ true
stalled_of_not-ready d [] h n = h
stalled_of_not-ready d ((i, []) ∷ ps) h n = ground (arith, stalled_of_not-ready d ps)
stalled_of_not-ready d ((i, v ∷ vs) ∷ ps) h n = ground (arith, stalled_of_not-ready d ps)

pub distinct-stalled :
    (ps : Pending) → distinct (pending_ids ps) ≡ true → distinct (pending_ids (stalled ps)) ≡ true
distinct-stalled [] h = h
distinct-stalled ((i, []) ∷ ps) h = ground (arith, distinct-stalled ps)
distinct-stalled ((i, v ∷ vs) ∷ ps) h = ground (arith, distinct-stalled ps, ids-stalled_mem i ps)

-- The ids of the next round are those of the stalled entries.
pub ids-reduce : (r : List String) (ps : Pending) → pending_ids (reduce r ps) ≡ pending_ids ps
ids-reduce r [] = refl
ids-reduce r ((id, deps) ∷ ps) = ap (λ ids. id ∷ ids) (ids-reduce r ps)

pub length-reduce : (r : List String) (ps : Pending) → length (reduce r ps) ≡ length ps
length-reduce r [] = refl
length-reduce r ((id, deps) ∷ ps) = ap suc (length-reduce r ps)

-- A round that takes something away leaves fewer entries.
pub length-waiting-lt :
    (ps : Pending) → is_empty (ready ps) ≡ false → length (waiting ps) < length ps
length-waiting-lt ps h = omega (arith, length-reduce (ready ps) (stalled ps), go ps h)
  where
    go : (qs : Pending) → is_empty (ready qs) ≡ false → length (stalled qs) < length qs
    go [] h = cc
    go ((i, []) ∷ qs) h = omega (arith, length-keep-le (λ e. not (is_empty e.1)) qs)
    go ((i, v ∷ vs) ∷ qs) h = omega (arith, go qs h)
