-- ===== src/Schema/Graph/Owners.antt =====
-- `_reject_shared_deliverables` accepts exactly the graphs in which every path has one team.
use amnesic_pi.Prelude.{
  String, ◌≡◌, refl, true, false, Option, none, some, List, [], ◌∷◌, arith, All, str_eq, eq_iff,
  inl, inr, Bool-cases,
}
use amnesic_pi.Errors.{ok, schema_error, >>=-eq-ok, refuse_if-eq-ok}
use amnesic_pi.Schema.Artifact.{ArtifactRef}
use amnesic_pi.Schema.Node.{WorkNode}
use amnesic_pi.Schema.Graph.{
  Owners, owner, is_foreign, claim, claim_nodes, reject_shared_deliverables,
}

-- `own` gives every deliverable of every node to the node's own team.
abbrev pub HasOwner : (String → String) → List WorkNode → Type 0
HasOwner own = All (λ n. All (λ ref. own ref.path ≡ n.team) n.deliverables)

-- Whoever owns a path goes on owning it.
abbrev Keeps : Owners → Owners → Type 0
Keeps a b = (path team : String) → owner path a ≡ some team → owner path b ≡ some team

claim-step-Keeps :
    (path team : String) (a : Owners)
    → is_foreign team (owner path a) ≡ false
    → Keeps a ((path, team) ∷ a)
claim-step-Keeps path team a own p t e = elim (Bool-cases (str_eq p path)) [
  | inl same ↦ go (owner path a) (ground (arith, eq_iff p path)) own same
  | inr other ↦ rw other e
]
  where
    go :
        (o : Option String)
        → o ≡ some t
        → is_foreign team o ≡ false
        → str_eq p path ≡ true
        → owner p ((path, team) ∷ a) ≡ some t
    go none x own same = cc
    go (some prior) x own same = ground (arith, eq_iff prior team)

claim-Keeps :
    (team : String) (refs : List ArtifactRef) (a b : Owners)
    → claim team refs a ≡ ok b
    → Keeps a b × All (λ ref. owner ref.path b ≡ some team) refs
unfolding claim
claim-Keeps team [] a b e = (λ p t h. ground arith, tt)
claim-Keeps team (ref ∷ refs) a b e =
    let (own, rest) = refuse_if-eq-ok (is_foreign team (owner ref.path a)) schema_error _ e in
    let (keeps, owned) = claim-Keeps team refs ((ref.path, team) ∷ a) b rest in
    (
      λ p t h. keeps p t (claim-step-Keeps ref.path team a own p t h),
      (keeps ref.path team (ground (arith, eq_iff ref.path ref.path)), owned),
    )

-- The owner that a list of owners names, `other` where it names none.
abbrev owner_or : Owners → String → String
owner_or b path = elim (owner path b) [ none ↦ path | some team ↦ team ]

owned_here :
    (b c : Owners) (team : String) (refs : List ArtifactRef)
    → Keeps b c
    → All (λ ref. owner ref.path b ≡ some team) refs
    → All (λ ref. owner_or c ref.path ≡ team) refs
owned_here b c team [] k h = tt
owned_here b c team (ref ∷ refs) k h =
    (rw (k ref.path team h.0, owner_or), owned_here b c team refs k h.1)

claim_nodes-HasOwner :
    (nodes : List WorkNode) (a b : Owners)
    → claim_nodes nodes a ≡ ok b
    → Keeps a b × HasOwner (owner_or b) nodes
unfolding claim_nodes
claim_nodes-HasOwner [] a b e = (λ p t h. ground arith, tt)
claim_nodes-HasOwner (n ∷ ns) a b e =
    let (mid, first, rest) = >>=-eq-ok (claim n.team n.deliverables a) (claim_nodes ns) e in
    let (keeps, owned) = claim-Keeps n.team n.deliverables a mid first in
    let (later, others) = claim_nodes-HasOwner ns mid b rest in
    (λ p t h. later p t (keeps p t h), (owned_here mid b n.team n.deliverables later owned, others))

pub reject_shared-HasOwner :
    (nodes : List WorkNode)
    → reject_shared_deliverables nodes ≡ ok tt
    → (own : String → String) × HasOwner own nodes
unfolding reject_shared_deliverables
reject_shared-HasOwner nodes e =
    let (b, claimed, done) = >>=-eq-ok (claim_nodes nodes []) (λ _. ok tt) e in
    (owner_or b, (claim_nodes-HasOwner nodes [] b claimed).1)

-- The other way round: every owner that was written down is the one that `own` names.
abbrev Agrees : (String → String) → Owners → Type 0
Agrees own = All (λ e. own e.0 ≡ e.1)

not_foreign :
    (own : String → String) (path team : String) (a : Owners)
    → Agrees own a
    → own path ≡ team
    → is_foreign team (owner path a) ≡ false
not_foreign own path team [] h e = refl
not_foreign own path team ((p, t) ∷ a) h e =
    ground (arith, eq_iff path p, eq_iff t team, not_foreign own path team a h.1 e)

claim-Agrees :
    (own : String → String) (team : String) (refs : List ArtifactRef) (a : Owners)
    → Agrees own a
    → All (λ ref. own ref.path ≡ team) refs
    → (b : Owners) × (claim team refs a ≡ ok b) × Agrees own b
unfolding claim
claim-Agrees own team [] a h k = (a, refl, h)
claim-Agrees own team (ref ∷ refs) a h k =
    rw (not_foreign own ref.path team a h k.0)
      (claim-Agrees own team refs ((ref.path, team) ∷ a) (k.0, h) k.1)

claim_nodes-eq-ok :
    (own : String → String) (nodes : List WorkNode) (a : Owners)
    → Agrees own a
    → HasOwner own nodes
    → (b : Owners) × (claim_nodes nodes a ≡ ok b)
unfolding claim_nodes
claim_nodes-eq-ok own [] a h k = (a, refl)
claim_nodes-eq-ok own (n ∷ ns) a h k =
    let (mid, first, agrees) = claim-Agrees own n.team n.deliverables a h k.0 in
    rw first (claim_nodes-eq-ok own ns mid agrees k.1)

pub reject_shared-eq-ok :
    (own : String → String) (nodes : List WorkNode)
    → HasOwner own nodes
    → reject_shared_deliverables nodes ≡ ok tt
unfolding reject_shared_deliverables
reject_shared-eq-ok own nodes h =
    let (b, claimed) = claim_nodes-eq-ok own nodes [] tt h in rw claimed
