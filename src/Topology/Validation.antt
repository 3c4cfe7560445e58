-- ===== src/Topology/Validation.antt =====
-- What `Topology.validate` accepts, as one predicate.
use amnesic_pi.Prelude.{
  String, ◌≡◌, ◌↔◌, refl, sym, ap, subst, ◌∙◌, Bool, true, false, not, ◌||◌, List, [], ◌∷◌, ◌++◌,
  arith, All, NoRepeat, NoRepeat-iff, all, any, elem, is_empty, distinct, map,
}
use amnesic_pi.Prelude.Int.{pos}
use amnesic_pi.Errors.{
  ok, topology_error, refuse_if, bind_then, check_then, refuse_if_then, require_then, ok-injective,
}
use amnesic_pi.Schema.Node.{same_int}
use amnesic_pi.Schema.Graph.{Owners, owner}
use amnesic_pi.Gates.{gate_names}
use amnesic_pi.Topology.{
  Team, Topology, validate_team, is_taken, enroll, check_teams, claim_gates, validate_gate_coverage,
  validate,
}

abbrev pub rosters : List Team → List String
rosters [] = []
rosters (t ∷ ts) = t.subagents ++ rosters ts

abbrev pub claims : List Team → List String
claims [] = []
claims (t ∷ ts) = t.gates_owned ++ claims ts

-- The contract of a topology: version 1, some team, every team valid, no two teams with one name or
-- one lead, every sub-agent on one roster once, and every gate claimed by one team.
pub record IsSound (t : Topology) : Type 0 where
  pub version_one : same_int t.version (pos 1) ≡ true
  pub some_team : is_empty t.teams ≡ false
  pub teams_valid : All (λ x. validate_team x ≡ ok tt) t.teams
  pub names_differ : distinct (map (λ x. x.name) t.teams) ≡ true
  pub leads_differ : distinct (map (λ x. x.lead) t.teams) ≡ true
  pub one_roster : distinct (rosters t.teams) ≡ true
  pub one_claim : distinct (claims t.teams) ≡ true
  pub all_claimed : all (λ g. elem g (claims t.teams)) gate_names ≡ true

abbrev names_of : Owners → List String
names_of = map (λ e. e.0)

is_taken-owner : (x : String) (o : Owners) → is_taken (owner x o) ≡ elem x (names_of o)
is_taken-owner x [] = refl
is_taken-owner x ((y, t) ∷ o) = ground (arith, is_taken-owner x o)

module _ (team : String) where
  enroll-NoRepeat :
      (xs ys : List String) (a b : Owners)
      → enroll team xs a ≡ ok b
      → NoRepeat (names_of b) ys
      → NoRepeat (names_of a) (xs ++ ys)
  unfolding enroll
  enroll-NoRepeat [] ys a b e h = subst (λ o. NoRepeat (names_of o) ys) (sym (ok-injective e)) h
  enroll-NoRepeat (x ∷ xs) ys a b e h =
      refuse_if_then (is_taken (owner x a)) topology_error _ e λ free rest.
        (sym (is_taken-owner x a) ∙ free, enroll-NoRepeat xs ys ((x, team) ∷ a) b rest h)

  enroll-eq-ok :
      (xs ys : List String) (a : Owners)
      → NoRepeat (names_of a) (xs ++ ys)
      → (b : Owners) × (enroll team xs a ≡ ok b) × NoRepeat (names_of b) ys
  unfolding enroll
  enroll-eq-ok [] ys a h = (a, refl, h)
  enroll-eq-ok (x ∷ xs) ys a h =
      rw (is_taken-owner x a ∙ h.0) (enroll-eq-ok xs ys ((x, team) ∷ a) h.1)

-- Names enrolled are found again.
enroll-elem :
    (team x : String) (xs : List String) (a b : Owners)
    → enroll team xs a ≡ ok b
    → elem x (names_of b) ≡ elem x (xs ++ names_of a)
unfolding enroll
enroll-elem team x [] a b e = ap (λ o. elem x (names_of o)) (sym (ok-injective e))
enroll-elem team x (y ∷ xs) a b e =
    refuse_if_then (is_taken (owner y a)) topology_error _ e
      λ free rest. enroll-elem team x xs ((y, team) ∷ a) b rest ∙ swap xs
  where
    swap : (zs : List String) → elem x (zs ++ y ∷ names_of a) ≡ elem x (y ∷ (zs ++ names_of a))
    swap [] = refl
    swap (z ∷ zs) = ground (arith, swap zs)

abbrev Enrolled : List String → List String → Owners → List Team → Type 0
Enrolled names leads roster ts =
    All (λ x. validate_team x ≡ ok tt) ts
    × NoRepeat names (map (λ x. x.name) ts)
    × NoRepeat leads (map (λ x. x.lead) ts)
    × NoRepeat (names_of roster) (rosters ts)

check_teams-Enrolled :
    (names leads : List String) (roster : Owners) (ts : List Team)
    → check_teams names leads roster ts ≡ ok tt
    → Enrolled names leads roster ts
unfolding check_teams
check_teams-Enrolled names leads roster [] e = (tt, tt, tt, tt)
check_teams-Enrolled names leads roster (t ∷ ts) e = check_then (validate_team t) _ e λ valid e1.
    refuse_if_then (elem t.name names) topology_error _ e1 λ new_name e2.
      refuse_if_then (elem t.lead leads) topology_error _ e2 λ new_lead e3.
        bind_then (enroll t.name t.subagents roster) _ e3 λ roster' enrolled e4.
          let (all_valid, some_names, some_leads, some_subs) =
            check_teams-Enrolled (t.name ∷ names) (t.lead ∷ leads) roster' ts e4 in
          (
            (valid, all_valid),
            (new_name, some_names),
            (new_lead, some_leads),
            enroll-NoRepeat t.name t.subagents (rosters ts) roster roster' enrolled some_subs,
          )

check_teams-eq-ok :
    (names leads : List String) (roster : Owners) (ts : List Team)
    → Enrolled names leads roster ts
    → check_teams names leads roster ts ≡ ok tt
unfolding check_teams
check_teams-eq-ok names leads roster [] h = refl
check_teams-eq-ok names leads roster (t ∷ ts) (valid, new_names, new_leads, subs) =
    let (roster', enrolled, rest) = enroll-eq-ok t.name t.subagents (rosters ts) roster subs in
    rw (valid.0, new_names.0, new_leads.0, enrolled)
      (check_teams-eq-ok (t.name ∷ names) (t.lead ∷ leads) roster' ts
        (valid.1, new_names.1, new_leads.1, rest))

pub elem-append : (x : String) (xs ys : List String) → elem x (xs ++ ys) ≡ (elem x xs || elem x ys)
elem-append x [] ys = refl
elem-append x (z ∷ xs) ys = ground (arith, elem-append x xs ys)

claim_gates-NoRepeat :
    (ts : List Team) (a b : Owners)
    → claim_gates ts a ≡ ok b
    → NoRepeat (names_of a) (claims ts)
      × ((x : String) → elem x (names_of b) ≡ (elem x (claims ts) || elem x (names_of a)))
unfolding claim_gates
claim_gates-NoRepeat [] a b e = (tt, λ x. ap (λ o. elem x (names_of o)) (sym (ok-injective e)))
claim_gates-NoRepeat (t ∷ ts) a b e =
    bind_then (enroll t.name t.gates_owned a) _ e λ mid enrolled rest.
      let (fresh, members) = claim_gates-NoRepeat ts mid b rest in
      (
        enroll-NoRepeat t.name t.gates_owned (claims ts) a mid enrolled fresh,
        λ x. ground (
          arith,
          members x,
          enroll-elem t.name x t.gates_owned a mid enrolled,
          elem-append x t.gates_owned (names_of a),
          elem-append x t.gates_owned (claims ts),
        ),
      )

claim_gates-eq-ok :
    (ts : List Team) (a : Owners)
    → NoRepeat (names_of a) (claims ts)
    → (b : Owners) × (claim_gates ts a ≡ ok b)
unfolding claim_gates
claim_gates-eq-ok [] a h = (a, refl)
claim_gates-eq-ok (t ∷ ts) a h =
    let (mid, enrolled, rest) = enroll-eq-ok t.name t.gates_owned (claims ts) a h in
    rw enrolled (claim_gates-eq-ok ts mid rest)

-- Looking for an unclaimed gate is checking that all are claimed.
any-not-taken :
    (b : Owners) (xs names : List String)
    → ((x : String) → elem x (names_of b) ≡ (elem x xs || elem x []))
    → any (λ g. not (is_taken (owner g b))) names ≡ not (all (λ g. elem g xs) names)
any-not-taken b xs [] h = refl
any-not-taken b xs (g ∷ names) h =
    ground (arith, h g, is_taken-owner g b, any-not-taken b xs names h)

coverage_iff :
    (ts : List Team)
    → (validate_gate_coverage ts ≡ ok tt)
      ↔ ((distinct (claims ts) ≡ true) × (all (λ g. elem g (claims ts)) gate_names ≡ true))
unfolding validate_gate_coverage
coverage_iff ts = (
  λ e. bind_then (claim_gates ts []) _ e λ b claimed e1.
      let (fresh, members) = claim_gates-NoRepeat ts [] b claimed in
      (
        (NoRepeat-iff (claims ts)).0 fresh,
        refused (any (λ g. not (is_taken (owner g b))) gate_names) _ e1
            (any-not-taken b (claims ts) gate_names members),
      ),
  λ h.
      let (b, claimed) = claim_gates-eq-ok ts [] ((NoRepeat-iff (claims ts)).1 h.0) in
      rw claimed (
        passes _ _ h.1
          (any-not-taken b (claims ts) gate_names (claim_gates-NoRepeat ts [] b claimed).1)),
)
  where
    refused : (x y : Bool) → refuse_if x topology_error ≡ ok tt → x ≡ not y → y ≡ true
    refused x y e h = ground arith

    passes : (x y : Bool) → y ≡ true → x ≡ not y → refuse_if x topology_error ≡ ok tt
    passes x y e h = ground arith

-- `Topology.validate` accepts exactly the sound topologies: version 1, at least one team, each team
-- valid on its own, names and leads all different, no sub-agent rostered twice, no gate claimed
-- twice, and every registered gate claimed.
pub validate-IsSound_iff : (t : Topology) → (validate t ≡ ok tt) ↔ IsSound t
unfolding validate
validate-IsSound_iff t = (
  λ e. require_then (same_int t.version (pos 1)) topology_error _ e λ version e1.
      refuse_if_then (is_empty t.teams) topology_error _ e1 λ some_team e2.
        check_then (check_teams [] [] [] t.teams) _ e2 λ teams coverage.
          let (valid, names, leads, subs) = check_teams-Enrolled [] [] [] t.teams teams in
          let (once, covered) = (coverage_iff t.teams).0 coverage in
          record {
            version_one = version;
            some_team = some_team;
            teams_valid = valid;
            names_differ = (NoRepeat-iff _).0 names;
            leads_differ = (NoRepeat-iff _).0 leads;
            one_roster = (NoRepeat-iff _).0 subs;
            one_claim = once;
            all_claimed = covered;
          },
  λ h.
      let teams = check_teams-eq-ok [] [] [] t.teams (
        h.teams_valid,
        (NoRepeat-iff _).1 h.names_differ,
        (NoRepeat-iff _).1 h.leads_differ,
        (NoRepeat-iff _).1 h.one_roster,
      ) in
      rw (h.version_one, h.some_team, teams)
        ((coverage_iff t.teams).1 (h.one_claim, h.all_claimed)),
)
