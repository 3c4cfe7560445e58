-- ===== src/Schema/Graph/Cycles.antt =====
-- `_reject_cycles` accepts exactly the graphs whose dependencies can be ranked.
use amnesic_pi.Prelude.{
  ℕ, zero, suc, ◌≤◌, ◌<◌, String, ◌≡◌, refl, sym, ap, subst, Bool, true, false, List, [], ◌∷◌,
  arith, length, All, elem, is_empty, distinct, str_eq, eq_iff, if◌then◌else◌, inl, inr, Bool-cases,
}
use amnesic_pi.Errors.{ok}
use amnesic_pi.Value.{Value, null, bool, int, str, arr, obj}
use amnesic_pi.Schema.Graph.{Pending, pending_ids, ready, minus, reduce, stalled, waiting, peel}
use amnesic_pi.Schema.Graph.Peel.{
  ready_mem, stalled_of_not-ready, distinct-stalled, ids-reduce, length-waiting-lt,
}

-- A dependency is a node of rank below `n`.
abbrev pub Below : (String → ℕ) → ℕ → Value → Type 0
Below rank n (str d) = rank d < n
Below rank n _ = ⊥

-- `rank` puts the dependencies of every entry below it: there is no cycle.
abbrev pub IsRanked : (String → ℕ) → Pending → Type 0
IsRanked rank = All (λ e. All (Below rank (rank e.0)) e.1)

-- The round in which a name is taken away.
pub round : ℕ → Pending → String → ℕ
round zero ps d = 0
round (suc f) ps d =
    let later = round f (waiting ps) d in if elem d (ready ps) then 0 else suc later

-- One round more for the names that are not ready.
abbrev bump : List String → (String → ℕ) → String → ℕ
bump r rank d = if elem d r then 0 else suc (rank d)

Below-bump :
    (r : List String) (rank : String → ℕ) (n : ℕ) (ds : List Value)
    → All (Below rank n) (minus r ds)
    → All (Below (bump r rank) (suc n)) ds
Below-bump r rank n [] h = tt
Below-bump r rank n (str d ∷ ds) h = ground (arith, Below-bump r rank n ds)
Below-bump r rank n (null ∷ ds) h = absurd h.0
Below-bump r rank n (bool b ∷ ds) h = absurd h.0
Below-bump r rank n (int i ∷ ds) h = absurd h.0
Below-bump r rank n (arr vs ∷ ds) h = absurd h.0
Below-bump r rank n (obj fs ∷ ds) h = absurd h.0

IsRanked-bump :
    (r : List String) (rank : String → ℕ) (qs : Pending)
    → All (λ e. is_empty e.1 ≡ false → elem e.0 r ≡ false) qs
    → IsRanked rank (reduce r (stalled qs))
    → IsRanked (bump r rank) qs
IsRanked-bump r rank [] h k = tt
IsRanked-bump r rank ((i, []) ∷ qs) h k = (tt, IsRanked-bump r rank qs h.1 k)
IsRanked-bump r rank ((i, v ∷ vs) ∷ qs) h k = (
  subst (λ n. All (Below (bump r rank) n) (v ∷ vs))
      (sym (ap (λ (b : Bool). if b then 0 else suc (rank i)) (h.0 refl)))
      (Below-bump r rank (rank i) (v ∷ vs) k.0),
  IsRanked-bump r rank qs h.1 k.1,
)

-- In a dict no key is both ready and stalled.
others_differ :
    (i : String) (qs : Pending)
    → elem i (pending_ids qs) ≡ false
    → All (λ e. str_eq e.0 i ≡ false) qs
others_differ i [] h = tt
others_differ i ((j, ds) ∷ qs) h = ground (arith, eq_iff i j, eq_iff j i, others_differ i qs)

with_ready :
    (i : String) (r : List String) (qs : Pending)
    → All (λ e. str_eq e.0 i ≡ false) qs
    → All (λ e. is_empty e.1 ≡ false → elem e.0 r ≡ false) qs
    → All (λ e. is_empty e.1 ≡ false → elem e.0 (i ∷ r) ≡ false) qs
with_ready i r [] h k = tt
with_ready i r ((j, ds) ∷ qs) h k = (λ e. ground (arith, k.0 e), with_ready i r qs h.1 k.1)

stalled_not_ready :
    (ps : Pending)
    → distinct (pending_ids ps) ≡ true
    → All (λ e. is_empty e.1 ≡ false → elem e.0 (ready ps) ≡ false) ps
stalled_not_ready [] h = tt
stalled_not_ready ((i, []) ∷ ps) h = (
  λ e. cc,
  with_ready i (ready ps) ps (others_differ i ps (ground arith))
      (stalled_not_ready ps (ground arith)),
)
stalled_not_ready ((i, v ∷ vs) ∷ ps) h =
    (λ e. ground (arith, ready_mem i ps), stalled_not_ready ps (ground arith))

distinct-waiting :
    (ps : Pending) → distinct (pending_ids ps) ≡ true → distinct (pending_ids (waiting ps)) ≡ true
distinct-waiting ps h = rw (ids-reduce (ready ps) (stalled ps)) (distinct-stalled ps h)

-- A loop that ends without a complaint has ranked the graph, by rounds.
pub peel-IsRanked :
    (f : ℕ) (ps : Pending)
    → distinct (pending_ids ps) ≡ true
    → peel f ps ≡ ok tt
    → IsRanked (round f ps) ps
unfolding peel round
peel-IsRanked f [] h e = tt
peel-IsRanked zero (p ∷ ps) h e = cc
peel-IsRanked (suc f) (p ∷ ps) h e =
    IsRanked-bump (ready (p ∷ ps)) (round f (waiting (p ∷ ps))) (p ∷ ps)
      (stalled_not_ready (p ∷ ps) h)
      (peel-IsRanked f (waiting (p ∷ ps)) (distinct-waiting (p ∷ ps) h) (ground arith))

-- What stays true of the entries while the loop runs: they depend on one another only, and downwards.
abbrev pub Inside : (String → ℕ) → List String → ℕ → Value → Type 0
Inside rank ids n (str d) = (elem d ids ≡ true) × (rank d < n)
Inside rank ids n _ = ⊥

pub record IsClosed (rank : String → ℕ) (ids : List String) (ps : Pending) : Type 0 where
  pub each : All (λ e. All (Inside rank ids (rank e.0)) e.1) ps

All-elem :
    (P : String → Type 0) (d : String) (ps : Pending)
    → All (λ e. P e.0) ps
    → elem d (pending_ids ps) ≡ true
    → P d
All-elem P d [] h m = cc
All-elem P d ((i, ds) ∷ ps) h m = elim (Bool-cases (str_eq d i)) [
  | inl same ↦ subst P (sym ((eq_iff d i).0 same)) h.0
  | inr other ↦ All-elem P d ps h.1 (ground arith)
]

-- If every entry waits, no entry has a rank below any bound.
module _ (rank : String → ℕ) (ids : List String) where
  no_descent :
      (n : ℕ) (ds : List Value) (k : ℕ)
      → ((d : String) → elem d ids ≡ true → ¬ (rank d < n))
      → is_empty ds ≡ false
      → All (Inside rank ids k) ds
      → ¬ (k < suc n)
  no_descent n [] k least e h lt = cc
  no_descent n (str d ∷ ds) k least e h lt = least d h.0.0 (omega arith)
  no_descent n (null ∷ ds) k least e h lt = h.0
  no_descent n (bool b ∷ ds) k least e h lt = h.0
  no_descent n (int i ∷ ds) k least e h lt = h.0
  no_descent n (arr vs ∷ ds) k least e h lt = h.0
  no_descent n (obj fs ∷ ds) k least e h lt = h.0

  descent_step :
      (n : ℕ) (ps : Pending)
      → ((d : String) → elem d ids ≡ true → ¬ (rank d < n))
      → ready ps ≡ []
      → All (λ e. All (Inside rank ids (rank e.0)) e.1) ps
      → All (λ e. ¬ (rank e.0 < suc n)) ps
  descent_step n [] least idle h = tt
  descent_step n ((i, []) ∷ ps) least idle h = cc
  descent_step n ((i, v ∷ vs) ∷ ps) least idle h =
      (no_descent n (v ∷ vs) (rank i) least refl h.0, descent_step n ps least idle h.1)

-- With all dependencies inside and downwards, a round always finds a ready entry.
descent :
    (rank : String → ℕ) (ps : Pending)
    → ready ps ≡ []
    → IsClosed rank (pending_ids ps) ps
    → (n : ℕ) (d : String) → elem d (pending_ids ps) ≡ true
    → ¬ (rank d < n)
descent rank ps idle closed zero d m lt = omega arith
descent rank ps idle closed (suc n) d m lt =
    All-elem (λ d. ¬ (rank d < suc n)) d ps
      (descent_step rank (pending_ids ps) n ps (descent rank ps idle closed n) idle closed.each) m
      lt

ready_exists :
    (rank : String → ℕ) (p : String × List Value) (ps : Pending)
    → IsClosed rank (pending_ids (p ∷ ps)) (p ∷ ps)
    → is_empty (ready (p ∷ ps)) ≡ false
ready_exists rank p ps closed = go (ready (p ∷ ps)) refl
  where
    go : (r : List String) → ready (p ∷ ps) ≡ r → is_empty r ≡ false
    go [] idle = absurd (
        descent rank (p ∷ ps) idle closed (suc (rank p.0)) p.0 (ground (arith, eq_iff p.0 p.0))
          (omega arith))
    go (x ∷ r) e = refl

-- What is left of the dependencies of a waiting entry are waiting entries.
module _ (rank : String → ℕ) (all : Pending) (n : ℕ) where
  Inside-minus :
      (ds : List Value)
      → All (Inside rank (pending_ids all) n) ds
      → All (Inside rank (pending_ids (stalled all)) n) (minus (ready all) ds)
  Inside-minus [] h = tt
  Inside-minus (str d ∷ ds) h = elim (Bool-cases (elem d (ready all))) [
    | inl gone ↦ rw gone (Inside-minus ds h.1)
    | inr stays ↦ rw stays ((stalled_of_not-ready d all h.0.0 stays, h.0.1), Inside-minus ds h.1)
  ]
  Inside-minus (null ∷ ds) h = absurd h.0
  Inside-minus (bool b ∷ ds) h = absurd h.0
  Inside-minus (int i ∷ ds) h = absurd h.0
  Inside-minus (arr vs ∷ ds) h = absurd h.0
  Inside-minus (obj fs ∷ ds) h = absurd h.0

closed_below :
    (rank : String → ℕ) (all qs : Pending)
    → All (λ e. All (Inside rank (pending_ids all) (rank e.0)) e.1) qs
    → All
        (λ e. All (Inside rank (pending_ids (stalled all)) (rank e.0)) e.1)
        (reduce (ready all) (stalled qs))
closed_below rank all [] h = tt
closed_below rank all ((i, []) ∷ qs) h = closed_below rank all qs h.1
closed_below rank all ((i, v ∷ vs) ∷ qs) h =
    (Inside-minus rank all (rank i) (v ∷ vs) h.0, closed_below rank all qs h.1)

IsClosed-waiting :
    (rank : String → ℕ) (ps : Pending)
    → IsClosed rank (pending_ids ps) ps
    → IsClosed rank (pending_ids (waiting ps)) (waiting ps)
IsClosed-waiting rank ps h = record {
  each = rw (ids-reduce (ready ps) (stalled ps)) (closed_below rank ps ps h.each);
}

-- A ranked graph with known dependencies passes, with a round of fuel for each node.
pub peel-eq-ok :
    (rank : String → ℕ) (f : ℕ) (ps : Pending)
    → IsClosed rank (pending_ids ps) ps
    → length ps ≤ f
    → peel f ps ≡ ok tt
unfolding peel
peel-eq-ok rank f [] h le = refl
peel-eq-ok rank zero (p ∷ ps) h le = absurd (omega arith)
peel-eq-ok rank (suc f) (p ∷ ps) h le =
    let some_ready = ready_exists rank p ps h in
    rw some_ready (
      peel-eq-ok rank f (waiting (p ∷ ps)) (IsClosed-waiting rank (p ∷ ps) h)
        (omega (arith, length-waiting-lt (p ∷ ps) some_ready)))
