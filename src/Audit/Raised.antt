-- ===== src/Audit/Raised.antt =====
-- What `append` of src/orchestrator/audit.py has written where it raises.
use amnesic_pi.Prelude.{
  ℕ, String, ◌≡◌, refl, sym, ap, ◌∙◌, subst, Bool, true, false, Option, none, some, List, [], ◌∷◌,
  ◌++◌, any, elem, if◌then◌else◌,
}
use amnesic_pi.Prelude.Int.{ℤ}
use amnesic_pi.Errors.{Exn, Result, ok, err, audit_chain_error, os_error}
use amnesic_pi.Platform.{Platform}
use amnesic_pi.Value.{Fields, keys, obj}
use amnesic_pi.Value.Canonical.{canonical_json}
use amnesic_pi.Audit.{
  core_fields, to_dict, AuditEntry, AuditLog, head, seq_after, size, write_mirror, write_primary,
  chained, line_of, append_entry, append_after, append,
}
use amnesic_pi.Audit.Writing.{head-files}

-- What a call that raised `x` may have left of the two files.
pub data IsLeft (p : Platform) (x : Exn) (log log' : AuditLog) : Type 0 where
  untouched : log'.primary ≡ log.primary → log'.mirror ≡ log.mirror → IsLeft p x log log'
  cut_short :
      (entry : AuditEntry) (part : List ℕ)
      → x ≡ os_error
      → p.log_stops log.primary (canonical_json (obj (to_dict p entry)) ++ 10 ∷ []) ≡ some part
      → log'.primary ≡ log.primary ++ part
      → log'.mirror ≡ log.mirror
      → IsLeft p x log log'
  one_ahead :
      (entry : AuditEntry) (before part : List ℕ)
      → x ≡ os_error
      → log.mirror ≡ some before
      → p.mirror_stops before (canonical_json (obj (to_dict p entry)) ++ 10 ∷ []) ≡ some part
      → log'.primary ≡ log.primary ++ (canonical_json (obj (to_dict p entry)) ++ 10 ∷ [])
      → log'.mirror ≡ some (before ++ part)
      → IsLeft p x log log'

abbrev Ends : AuditLog → Result AuditEntry → Exn → AuditLog → Type 0
Ends log r x log' = ◌≡◌ {A = Result AuditEntry × AuditLog} (r, log) (err x, log')

module _ (p : Platform) (log log' : AuditLog) (x : Exn) where
  unwritten-IsLeft :
      (y : Exn) (scanned : AuditLog)
      → scanned.primary ≡ log.primary
      → scanned.mirror ≡ log.mirror
      → Ends scanned (err y) x log'
      → IsLeft p x log log'
  unwritten-IsLeft y scanned same_primary same_mirror h =
      subst (IsLeft p x log) (ap (λ r. r.1) h) (untouched same_primary same_mirror)

  no_entry :
      (entry : AuditEntry) (left : AuditLog) → Ends left (ok entry) x log' → IsLeft p x log log'
  no_entry entry left h =
      let failed : ◌≡◌ {A = Result AuditEntry} (ok entry) (err x) = ap (λ r. r.0) h in absurd (cc)

  raised : (left : AuditLog) → Ends left (err os_error) x log' → x ≡ os_error
  raised left h =
      let failed : ◌≡◌ {A = Result AuditEntry} (err os_error) (err x) = ap (λ r. r.0) h in cc

  module _ (entry : AuditEntry) (scanned : AuditLog) (same_primary : scanned.primary ≡ log.primary)
      (same_mirror : scanned.mirror ≡ log.mirror) where
    abbrev written : AuditLog
    written = record scanned {
      primary = scanned.primary ++ line_of p entry;
      cached_head = some entry;
      cached_size = some (size (scanned.primary ++ line_of p entry));
    }

    mirror-IsLeft :
        (before : Option (List ℕ))
        → scanned.mirror ≡ before
        → write_mirror p entry (line_of p entry) written before ≡ (err x, log')
        → IsLeft p x log log'
    mirror-IsLeft none e h = no_entry entry written h
    mirror-IsLeft (some before) e h = go (p.mirror_stops before (line_of p entry)) refl h
      where
        go :
            (stops : Option (List ℕ))
            → p.mirror_stops before (line_of p entry) ≡ stops
            → ◌≡◌ {A = Result AuditEntry × AuditLog}
                (elim stops [
                  | none ↦ (ok entry, record written { mirror = some (before ++ line_of p entry) })
                  | some part ↦ (err os_error, record written { mirror = some (before ++ part) })
                ])
                (err x, log')
            → IsLeft p x log log'
        go none full h =
            no_entry entry (record written { mirror = some (before ++ line_of p entry) }) h
        go (some part) full h = subst (IsLeft p x log) (ap (λ r. r.1) h) (
            one_ahead entry before part
              (raised (record written { mirror = some (before ++ part) }) h) (sym same_mirror ∙ e)
              full (ap (λ t. t ++ line_of p entry) same_primary) refl)

    primary-IsLeft :
        (stops : Option (List ℕ))
        → p.log_stops scanned.primary (line_of p entry) ≡ stops
        → write_primary p entry (line_of p entry) scanned stops ≡ (err x, log')
        → IsLeft p x log log'
    primary-IsLeft none full h = mirror-IsLeft scanned.mirror refl h
    primary-IsLeft (some part) full h = subst (IsLeft p x log) (ap (λ r. r.1) h) (
        cut_short entry part (raised (record scanned { primary = scanned.primary ++ part }) h)
          (subst (λ t. p.log_stops t (line_of p entry) ≡ some part) same_primary full)
          (ap (λ t. t ++ part) same_primary) same_mirror)

-- Where `append` raises, either both files are as they were, or it raised an OSError because a write
-- stopped: then either the primary has the part of the new entry's text that was written and the mirror
-- is as it was, or the primary has the whole text of a new entry and the mirror only the part of it that
-- was written there. What was in the files is never overwritten.
pub append_raises :
    (p : Platform) (now : ℕ) (log : AuditLog) (actor event : String) (fields : Fields) (x : Exn)
    (log' : AuditLog)
    → append p now log actor event fields ≡ (err x, log')
    → IsLeft p x log log'
unfolding append
append_raises p now log actor event fields x log' h =
    guarded (any (λ name. elem name (keys fields)) core_fields) p.opens h
  where
    numbered :
        (last : Option AuditEntry) (log1 : AuditLog)
        → head p log ≡ ok (last, log1)
        → (n : Result ℤ)
        → ◌≡◌ {A = Result AuditEntry × AuditLog}
            (elim n [
              | ok seq ↦ append_entry p log1 (chained p now actor event fields last seq)
              | err e ↦ (err e, log1)
            ])
            (err x, log')
        → IsLeft p x log log'
    numbered last log1 looked (ok seq) h =
        let (same_primary, same_mirror) = head-files p log log1 last looked in
        let entry = chained p now actor event fields last seq in
        primary-IsLeft p log log' x entry log1 same_primary same_mirror
          (p.log_stops log1.primary (line_of p entry)) refl h
    numbered last log1 looked (err y) h =
        let (same_primary, same_mirror) = head-files p log log1 last looked in
        unwritten-IsLeft p log log' x y log1 same_primary same_mirror h

    found :
        (r : Result (Option AuditEntry × AuditLog))
        → head p log ≡ r
        → append_after p now log actor event fields r ≡ (err x, log')
        → IsLeft p x log log'
    found (ok (last, log1)) looked h = numbered last log1 looked (seq_after last) h
    found (err y) looked h = unwritten-IsLeft p log log' x y log refl refl h

    guarded :
        (reserved opens : Bool)
        → ◌≡◌ {A = Result AuditEntry × AuditLog}
            (if reserved
              then (err audit_chain_error, log)
              else if opens
              then append_after p now log actor event fields (head p log)
              else (err os_error, log))
            (err x, log')
        → IsLeft p x log log'
    guarded true t h = unwritten-IsLeft p log log' x audit_chain_error log refl refl h
    guarded false true h = found (head p log) refl h
    guarded false false h = unwritten-IsLeft p log log' x os_error log refl refl h
