-- ===== src/Gates/Results.antt =====
-- What a gate result has been through when it is accepted.
use amnesic_pi.Prelude.{
  ℕ, String, ◌≡◌, refl, sym, ap, ◌∙◌, subst, Bool, true, false, some, List, [], ◌∷◌, arith,
  is_empty, str_eq, eq_iff,
}
use amnesic_pi.Errors.{
  ok, schema_error, >>=-eq-ok, refuse_if-eq-ok, bind_then, check_then, require_then, refuse_if_then,
  ok-injective,
}
use amnesic_pi.Platform.{Platform, DateTime, ReadsIso}
use amnesic_pi.Value.{
  Value, null, bool, int, str, arr, obj, Items, Fields, get, get_or_null, item, items_of, list_of,
  strs,
}
use amnesic_pi.Schema.Basics.{as_str, require_mapping, strict_keys}
use amnesic_pi.Gates.{
  Gate, gates, gate, find_gate, GateResult, validate, to_dict, read_texts, read_evidence,
  read_passed, read_checked_at, result_keys, result_required, parse,
}

find_gate-name :
    (name : String) (gs : List Gate) (g : Gate) → find_gate name gs ≡ ok g → g.name ≡ name
unfolding find_gate
find_gate-name name [] g e = cc
find_gate-name name (h ∷ gs) g e = ground (arith, eq_iff h.name name, find_gate-name name gs g)

-- A gate that is found has the name that it was asked for by, so only texts find one.
pub gate-name : (v : Value) (g : Gate) → gate v ≡ ok g → v ≡ str g.name
unfolding gate
gate-name (str name) g e = ap str (sym (find_gate-name name gates g e))
gate-name null g e = cc
gate-name (bool b) g e = cc
gate-name (int i) g e = cc
gate-name (arr vs) g e = cc
gate-name (obj fs) g e = cc

pub gate-found : (v : Value) (g : Gate) → gate v ≡ ok g → gate (str g.name) ≡ ok g
gate-found v g e = rw (gate-name v g e) at e

read_texts-strs : (ss : List String) → read_texts (list_of (items_of (strs ss))) ≡ ok ss
unfolding read_texts
read_texts-strs [] = refl
read_texts-strs (s ∷ ss) = rw (read_texts-strs ss)

round_trip_at :
    (p : Platform) (now : ℕ) (r : GateResult) (g : Gate)
    → ReadsIso p
    → gate (str r.gate) ≡ ok g
    → is_empty r.evidence ≡ false
    → str_eq r.checked_by g.owner_team ≡ true
    → parse p now (to_dict p r) ≡ ok r
unfolding parse require_mapping strict_keys
round_trip_at p now r g iso found some_evidence owned =
    rw (read_texts-strs r.evidence, iso r.checked_at, found, some_evidence, owned)
      (ground (arith, gate-name (str r.gate) g found))

-- A valid result comes back from its own dictionary.
pub parse-to_dict :
    (p : Platform) (now : ℕ) (r : GateResult)
    → ReadsIso p
    → validate r ≡ ok tt
    → parse p now (to_dict p r) ≡ ok r
unfolding validate
parse-to_dict p now r iso valid =
    let (g, found, rest) = >>=-eq-ok (gate (str r.gate)) _ valid in
    let (some_evidence, last) = refuse_if-eq-ok (is_empty r.evidence) schema_error _ rest in
    round_trip_at p now r g iso found some_evidence (ground arith)

-- What an accepted result says of the payload it came from.
pub record IsCertified (raw : Value) (r : GateResult) : Type 0 where
  pub fields : Fields
  pub is_object : raw ≡ obj fields
  pub names_gate : get fields "gate" ≡ some (str r.gate)
  -- `passed` is a JSON Boolean: no number, text or list counts as a pass.
  pub hard_boolean : get fields "passed" ≡ some (bool r.passed)
  pub evidence : Items
  pub evidenced : get fields "evidence" ≡ some (arr evidence)
  pub texts_only : read_texts (list_of evidence) ≡ ok r.evidence
  pub some_evidence : is_empty r.evidence ≡ false
  pub owner : Gate
  pub registered : gate (str r.gate) ≡ ok owner
  pub checked_by_owner : r.checked_by ≡ owner.owner_team

item-get : (fs : Fields) (k : String) (v : Value) → item fs k ≡ ok v → get fs k ≡ some v
item-get fs k v e = ground arith

read_evidence-arr :
    (v : Value) (ss : List String)
    → read_evidence v ≡ ok ss
    → (vs : Items) × (v ≡ arr vs) × (read_texts (list_of vs) ≡ ok ss)
read_evidence-arr (arr vs) ss e = (vs, refl, e)
read_evidence-arr null ss e = cc
read_evidence-arr (bool b) ss e = cc
read_evidence-arr (int i) ss e = cc
read_evidence-arr (str s) ss e = cc
read_evidence-arr (obj fs) ss e = cc

read_passed-bool : (v : Value) (b : Bool) → read_passed v ≡ ok b → v ≡ bool b
read_passed-bool v b e = ground arith

require_mapping-obj : (v : Value) (fs : Fields) → require_mapping v ≡ ok fs → v ≡ obj fs
unfolding require_mapping
require_mapping-obj (obj gs) fs e = ground arith
require_mapping-obj _ fs e = ground arith

certify :
    (raw : Value) (fields : Fields) (resolved : Gate)
    (gate_value passed_value evidence_value : Value) (evidence : List String) (checked_by : String)
    (passed : Bool) (checked_at : DateTime)
    → raw ≡ obj fields
    → get fields "gate" ≡ some gate_value
    → get fields "passed" ≡ some passed_value
    → get fields "evidence" ≡ some evidence_value
    → read_evidence evidence_value ≡ ok evidence
    → gate gate_value ≡ ok resolved
    → read_passed passed_value ≡ ok passed
    → is_empty evidence ≡ false
    → str_eq checked_by resolved.owner_team ≡ true
    → IsCertified raw (record {
      gate = resolved.name;
      passed = passed;
      evidence = evidence;
      checked_by = checked_by;
      checked_at = checked_at;
    })
certify raw fields resolved gate_value passed_value evidence_value evidence checked_by passed
      checked_at is_obj got_gate got_passed got_evidence read found hard filled owned =
    let (items, is_arr, texts) = read_evidence-arr evidence_value evidence read in
    record {
      fields = fields;
      is_object = is_obj;
      names_gate = got_gate ∙ ap some (gate-name gate_value resolved found);
      hard_boolean = got_passed ∙ ap some (read_passed-bool passed_value passed hard);
      evidence = items;
      evidenced = got_evidence ∙ ap some is_arr;
      texts_only = texts;
      some_evidence = filled;
      owner = resolved;
      registered = gate-found gate_value resolved found;
      checked_by_owner = (eq_iff checked_by resolved.owner_team).0 owned;
    }

-- A payload that is accepted as a gate result names a registered gate, carries a JSON Boolean as its
-- verdict (the one recorded), a non-empty list of texts as its evidence (the one recorded), and was
-- checked by the team that owns the gate.
pub parse-IsCertified :
    (p : Platform) (now : ℕ) (raw : Value) (r : GateResult)
    → parse p now raw ≡ ok r
    → IsCertified raw r
unfolding parse
parse-IsCertified p now raw r e = bind_then (require_mapping raw) _ e λ fields mapping e1.
    check_then (strict_keys fields result_keys result_required) _ e1 λ keys_fit e2.
      bind_then (item fields "gate") _ e2 λ gate_value got_gate e3.
        bind_then (item fields "passed") _ e3 λ passed_value got_passed e4.
          bind_then (item fields "evidence") _ e4 λ evidence_value got_evidence e5.
            bind_then (item fields "checked_by") _ e5 λ checker_value got_checker e6.
              bind_then (read_evidence evidence_value) _ e6 λ evidence read e7.
                bind_then (read_checked_at p now (get_or_null fields "checked_at")) _ e7
                  λ checked_at stamped e8. bind_then (gate gate_value) _ e8 λ resolved found e9.
                    bind_then (read_passed passed_value) _ e9 λ passed hard e10.
                      refuse_if_then (is_empty evidence) schema_error _ e10 λ filled e11.
                        bind_then (as_str schema_error checker_value) _ e11 λ checked_by named e12.
                          require_then (str_eq checked_by resolved.owner_team) schema_error _ e12
                            λ owned e13. subst (IsCertified raw) (ok-injective e13) (
                              certify raw fields resolved gate_value passed_value evidence_value
                                evidence checked_by passed checked_at
                                (require_mapping-obj raw fields mapping)
                                (item-get fields "gate" gate_value got_gate)
                                (item-get fields "passed" passed_value got_passed)
                                (item-get fields "evidence" evidence_value got_evidence) read found
                                hard filled owned)
