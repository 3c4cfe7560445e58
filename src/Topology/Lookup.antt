-- ===== src/Topology/Lookup.antt =====
-- In a sound topology every gate leads to the team that the registry names as its owner.
use amnesic_pi.Prelude.{
  String, ◌≡◌, refl, sym, subst, true, List, [], ◌∷◌, arith, All, all, elem, is_empty, str_eq,
  eq_iff, Bool-cases, inl, inr,
}
use amnesic_pi.Errors.{ok, topology_error, require_then, refuse_if_then}
use amnesic_pi.Gates.{gates, gate_names, find_gate}
use amnesic_pi.Topology.{
  Team, Topology, is_owned_by, has_charter, check_gates, validate_team, find_team, team, find_owner,
  team_for_gate, validate,
}
use amnesic_pi.Topology.Validation.{claims, elem-append, validate-IsSound_iff}

-- A gate that a valid team claims is registered to that team.
check_gates-owner :
    (name g : String) (gs : List String)
    → check_gates name gs ≡ ok tt
    → elem g gs ≡ true
    → is_owned_by name (find_gate g gates) ≡ true
check_gates-owner name g [] e m = cc
check_gates-owner name g (h ∷ gs) e m =
    require_then (is_owned_by name (find_gate h gates)) topology_error _ e λ owned rest.
      elim (Bool-cases (str_eq g h)) [
        | inl same ↦
            subst (λ x. is_owned_by name (find_gate x gates) ≡ true) (sym ((eq_iff g h).0 same))
              owned
        | inr other ↦ check_gates-owner name g gs rest (ground arith)
      ]

pub claimed-owner :
    (t : Team) (g : String)
    → validate_team t ≡ ok tt
    → elem g t.gates_owned ≡ true
    → is_owned_by t.name (find_gate g gates) ≡ true
unfolding validate_team
claimed-owner t g e m = require_then (has_charter t) topology_error _ e λ charter e1.
    refuse_if_then (str_eq t.lead "") topology_error _ e1 λ lead e2.
      refuse_if_then (is_empty t.subagents) topology_error _ e2
        λ subs e3. check_gates-owner t.name g t.gates_owned e3 m

find_owner_total :
    (g : String) (ts : List Team)
    → All (λ x. validate_team x ≡ ok tt) ts
    → elem g (claims ts) ≡ true
    → (t : Team) × (find_owner g ts ≡ ok t) × (is_owned_by t.name (find_gate g gates) ≡ true)
unfolding find_owner
find_owner_total g [] h m = absurd (cc)
find_owner_total g (t ∷ ts) h m = elim (Bool-cases (elem g t.gates_owned)) [
  | inl mine ↦ rw mine (t, refl, claimed-owner t g h.0 mine)
  | inr not_mine ↦
      rw not_mine
        (find_owner_total g ts h.1 (ground (arith, elem-append g t.gates_owned (claims ts))))
]

all-elem :
    (xs names : List String) (g : String)
    → all (λ n. elem n xs) names ≡ true
    → elem g names ≡ true
    → elem g xs ≡ true
all-elem xs [] g h m = cc
all-elem xs (n ∷ names) g h m = elim (Bool-cases (str_eq g n)) [
  | inl same ↦ subst (λ x. elem x xs ≡ true) (sym ((eq_iff g n).0 same)) (ground arith)
  | inr other ↦ all-elem xs names g (ground arith) (ground arith)
]

-- In a topology that passes validation, `team_for_gate` finds a team for every registered gate, and
-- it is the team that the gate registry names as the gate's owner.
pub team_for_gate_total :
    (t : Topology) (g : String)
    → validate t ≡ ok tt
    → elem g gate_names ≡ true
    → (x : Team) × (team_for_gate t g ≡ ok x) × (is_owned_by x.name (find_gate g gates) ≡ true)
unfolding team_for_gate
team_for_gate_total t g e m =
    let sound = (validate-IsSound_iff t).0 e in
    find_owner_total g t.teams sound.teams_valid
      (all-elem (claims t.teams) gate_names g sound.all_claimed m)

pub find_team-name :
    (name : String) (ts : List Team) (t : Team) → find_team name ts ≡ ok t → t.name ≡ name
unfolding find_team
find_team-name name [] t e = cc
find_team-name name (x ∷ ts) t e = ground (arith, eq_iff x.name name, find_team-name name ts t)

-- The team that is found has the name that was looked up.
pub team-name : (t : Topology) (name : String) (x : Team) → team t name ≡ ok x → x.name ≡ name
unfolding team
team-name t name x e = find_team-name name t.teams x e
