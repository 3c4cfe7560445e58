-- ===== src/Appliance/Config/Loaded.antt =====
-- What `load_env` of src/amnesic_pi/config.py accepts.
use amnesic_pi.Prelude.{
  append_nil, append_assoc, ℕ, String, ◌≡◌, refl, sym, ap, subst, ◌∙◌, ◌⊎◌, inl, inr, Bool, true,
  false, ◌||◌, Option, none, some, List, [], ◌∷◌, ◌++◌, is_empty, if◌then◌else◌,
}
use amnesic_pi.Prelude.Int.{ℤ}
use amnesic_pi.Prelude.Text.{codes, strip, starts, same_codes, same_codes_iff, lines_from}
use amnesic_pi.Prelude.Dict
use amnesic_pi.Prelude.Dict.{Dict, codes_key, lookup-insert}
use amnesic_pi.Errors.{
  ok, err, config_error, or_raise, bind_then, check_then, require_then, ok-injective,
}
use amnesic_pi.Appliance.Config.Valid.{IsSound, validate-IsSound}
use amnesic_pi.Appliance.Config.{
  Config, validate, cut, add, read_line, read_values, parse_int, value_or, build, load_env,
}

-- The values that the lines give to a key, in their order.
abbrev pair_of : List ℕ → Option (List ℕ × List ℕ)
pair_of raw =
    if is_empty (strip raw) || starts (35 ∷ []) (strip raw) then none else cut 61 (strip raw)

abbrev says : List ℕ → Option (List ℕ × List ℕ) → List (List ℕ)
says key none = []
says key (some (k, v)) = if same_codes key (strip k) then strip v ∷ [] else []

pub said : List (List ℕ) → List ℕ → List (List ℕ)
said [] key = []
said (raw ∷ raws) key = says key (pair_of raw) ++ said raws key

abbrev one_or_none : Option (List ℕ) → List (List ℕ)
one_or_none none = []
one_or_none (some v) = v ∷ []

add_fresh :
    (k v : List ℕ) (vs ws : Dict (List ℕ) (List ℕ))
    → add vs (some (k, v)) ≡ ok ws
    → (Dict.lookup (strip k) vs ≡ none) × (ws ≡ Dict.insert (strip k) (strip v) vs)
add_fresh k v vs ws h = go (Dict.lookup (strip k) vs) h
  where
    go :
        (o : Option (List ℕ))
        → elim o [ some old ↦ err config_error | none ↦ ok (Dict.insert (strip k) (strip v) vs) ]
          ≡ ok ws
        → (o ≡ none) × (ws ≡ Dict.insert (strip k) (strip v) vs)
    go none h = (refl, sym (ok-injective h))
    go (some old) h = absurd (cc)

grown :
    (b : Bool) (v : List ℕ) (old new : Option (List ℕ))
    → new ≡ (if b then some v else old)
    → (b ≡ true → old ≡ none)
    → one_or_none new ≡ one_or_none old ++ (if b then v ∷ [] else [])
grown true v none new e f = ap one_or_none e
grown true v (some w) new e f = absurd (let clash = f refl in cc)
grown false v none new e f = ap one_or_none e
grown false v (some w) new e f = ap one_or_none e

-- One line adds what it says.
add-says :
    (key : List ℕ) (pair : Option (List ℕ × List ℕ)) (vs ws : Dict (List ℕ) (List ℕ))
    → add vs pair ≡ ok ws
    → one_or_none (Dict.lookup key ws) ≡ one_or_none (Dict.lookup key vs) ++ says key pair
add-says key none vs ws h = absurd (cc)
add-says key (some (k, v)) vs ws h =
    let (free, grew) = add_fresh k v vs ws h in
    grown (same_codes key (strip k)) (strip v) (Dict.lookup key vs) (Dict.lookup key ws)
      (ap (Dict.lookup key) grew ∙ lookup-insert (strip k) key (strip v) vs)
      λ same. ap (λ j. Dict.lookup j vs) ((same_codes_iff key (strip k)).0 same) ∙ free

line_says :
    (key raw : List ℕ) (vs ws : Dict (List ℕ) (List ℕ))
    → read_line vs raw ≡ ok ws
    → one_or_none (Dict.lookup key ws) ≡ one_or_none (Dict.lookup key vs) ++ says key (pair_of raw)
unfolding read_line
line_says key raw vs ws h = go (is_empty (strip raw) || starts (35 ∷ []) (strip raw)) h
  where
    go :
        (skip : Bool)
        → (if skip then ok vs else add vs (cut 61 (strip raw))) ≡ ok ws
        → one_or_none (Dict.lookup key ws)
          ≡ one_or_none (Dict.lookup key vs) ++ says key (if skip then none else cut 61 (strip raw))
    go true h =
        ap (λ ds. one_or_none (Dict.lookup key ds)) (sym (ok-injective h))
        ∙ append_nil (one_or_none (Dict.lookup key vs))
    go false h = add-says key (cut 61 (strip raw)) vs ws h

-- A file that is read gives each key what its lines say, at most one value.
pub read_values-said :
    (key : List ℕ) (raws : List (List ℕ)) (vs ws : Dict (List ℕ) (List ℕ))
    → read_values vs raws ≡ ok ws
    → one_or_none (Dict.lookup key ws) ≡ one_or_none (Dict.lookup key vs) ++ said raws key
unfolding read_values said
read_values-said key [] vs ws h =
    ap (λ ds. one_or_none (Dict.lookup key ds)) (sym (ok-injective h))
    ∙ append_nil (one_or_none (Dict.lookup key vs))
read_values-said key (raw ∷ raws) vs ws h = bind_then (read_line vs raw) _ h λ us first rest.
    read_values-said key raws us ws rest
    ∙ ap (λ xs. xs ++ said raws key) (line_says key raw vs us first)
    ∙ append_assoc (one_or_none (Dict.lookup key vs)) (says key (pair_of raw)) (said raws key)

-- What stands in the configuration for an optional key.
abbrev pub IsGiven : List (List ℕ) → String → String → List ℕ → Type 0
IsGiven raws key default v =
    (said raws (codes key) ≡ v ∷ []) ⊎ ((said raws (codes key) ≡ []) × (v ≡ codes default))

-- What a configuration has from the lines of its file.
pub record IsSaid (raws : List (List ℕ)) (c : Config) : Type 0 where
  pub uplink_said : said raws (codes "UPLINK_IF") ≡ c.uplink_if ∷ []
  pub client_said : said raws (codes "CLIENT_IF") ≡ c.client_if ∷ []
  pub user_said : IsGiven raws "TOR_USER" "debian-tor" c.tor_user
  pub trans_said :
      (v : List ℕ) × IsGiven raws "TRANS_PORT" "9040" v × (parse_int v ≡ some c.trans_port)
  pub dns_said : (v : List ℕ) × IsGiven raws "DNS_PORT" "5353" v × (parse_int v ≡ some c.dns_port)
  pub socks_said :
      (v : List ℕ) × IsGiven raws "SOCKS_PORT" "9050" v × (parse_int v ≡ some c.socks_port)

given :
    (raws : List (List ℕ)) (values : Dict (List ℕ) (List ℕ)) (key default : String)
    → read_values [] raws ≡ ok values
    → IsGiven raws key default (value_or key default values)
unfolding Dict.lookup
given raws values key default h =
    go (Dict.lookup (codes key) values) (read_values-said (codes key) raws [] values h)
  where
    go :
        (o : Option (List ℕ))
        → one_or_none o ≡ said raws (codes key)
        → IsGiven raws key default (elim o [ none ↦ codes default | some v ↦ v ])
    go none e = inr (sym e, refl)
    go (some v) e = inl (sym e)

or_raise-eq-ok : {A : Type 0} (o : Option A) (a : A) → or_raise o config_error ≡ ok a → o ≡ some a
or_raise-eq-ok none a h = absurd (cc)
or_raise-eq-ok (some b) a h = ap some (ok-injective h)

required :
    (raws : List (List ℕ)) (values : Dict (List ℕ) (List ℕ)) (key : String) (v : List ℕ)
    → read_values [] raws ≡ ok values
    → or_raise (Dict.lookup (codes key) values) config_error ≡ ok v
    → said raws (codes key) ≡ v ∷ []
unfolding Dict.lookup
required raws values key v h found =
    sym (read_values-said (codes key) raws [] values h)
    ∙ ap one_or_none (or_raise-eq-ok (Dict.lookup (codes key) values) v found)

port :
    (raws : List (List ℕ)) (values : Dict (List ℕ) (List ℕ)) (key default : String) (z : ℤ)
    → read_values [] raws ≡ ok values
    → or_raise (parse_int (value_or key default values)) config_error ≡ ok z
    → (v : List ℕ) × IsGiven raws key default v × (parse_int v ≡ some z)
port raws values key default z h read =
    let v = value_or key default values in
    (v, given raws values key default h, or_raise-eq-ok (parse_int v) z read)

built :
    (raws : List (List ℕ)) (values : Dict (List ℕ) (List ℕ)) (c : Config)
    → read_values [] raws ≡ ok values
    → build values ≡ ok c
    → IsSaid raws c
unfolding build
built raws values c h made = require_then _ config_error _ made λ known made.
    bind_then (or_raise (Dict.lookup (codes "UPLINK_IF") values) config_error) _ made
      λ uplink e1 made.
        bind_then (or_raise (Dict.lookup (codes "CLIENT_IF") values) config_error) _ made
          λ client e2 made.
            bind_then (or_raise (parse_int (value_or "TRANS_PORT" "9040" values)) config_error) _
              made
              λ trans e3 made.
                bind_then (or_raise (parse_int (value_or "DNS_PORT" "5353" values)) config_error) _
                  made
                  λ dns e4 made.
                    bind_then
                      (or_raise (parse_int (value_or "SOCKS_PORT" "9050" values)) config_error) _
                      made
                      λ socks e5 made. subst (IsSaid raws) (ok-injective made) (record {
                        uplink_said = required raws values "UPLINK_IF" uplink h e1;
                        client_said = required raws values "CLIENT_IF" client h e2;
                        user_said = given raws values "TOR_USER" "debian-tor" h;
                        trans_said = port raws values "TRANS_PORT" "9040" trans h e3;
                        dns_said = port raws values "DNS_PORT" "5353" dns h e4;
                        socks_said = port raws values "SOCKS_PORT" "9050" socks h e5;
                      })

-- A file that `load_env` accepts gives each key at most one value, each interface exactly one; the
-- configuration has those values, the defaults for the keys that the file leaves out, and ports as
-- `int` reads them. It is sound: two different interfaces with valid names, three different ports
-- from 1 to 65535, and a valid name of a user.
pub load_env-IsSound :
    (text : List ℕ) (c : Config)
    → load_env (ok text) ≡ ok c
    → IsSound c × IsSaid (lines_from false [] text) c
unfolding load_env
load_env-IsSound text c h =
    let raws = lines_from false [] text in
    bind_then (read_values [] raws) _ h λ values read h. bind_then (build values) _ h λ made e h.
      check_then (validate made) _ h λ valid same.
        subst (λ (c : Config). IsSound c × IsSaid raws c) (ok-injective same)
          (validate-IsSound made valid, built raws values made read e)
