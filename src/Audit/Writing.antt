-- ===== src/Audit/Writing.antt =====
-- The way that a successful `append` of src/orchestrator/audit.py takes through its guards and writes.
use amnesic_pi.Prelude.{
  ℕ, String, ◌≡◌, refl, sym, ap, subst, Bool, true, false, Option, none, some, List, ◌++◌, any,
  elem, if◌then◌else◌,
}
use amnesic_pi.Prelude.Int.{ℤ}
use amnesic_pi.Errors.{Exn, Result, ok, err, audit_chain_error, os_error, ◌>>=◌, ok-injective}
use amnesic_pi.Platform.{Platform}
use amnesic_pi.Value.{Fields, keys}
use amnesic_pi.Audit.{
  core_fields, AuditEntry, AuditLog, read_lines, head, seq_after, same_size, last_entry, size,
  write_mirror, write_primary, chained, append_entry, append_after, append,
}

-- A mirror before and after a text was added to it; without one, there is still none.
abbrev pub Mirrored : List ℕ → Option (List ℕ) → Option (List ℕ) → Type 0
Mirrored text none after = after ≡ none
Mirrored text (some before) after = after ≡ some (before ++ text)

pub head-files :
    (p : Platform) (log log1 : AuditLog) (last : Option AuditEntry)
    → head p log ≡ ok (last, log1)
    → (log1.primary ≡ log.primary) × (log1.mirror ≡ log.mirror)
unfolding head
head-files p log log1 last h =
    go (same_size log.cached_size (size log.primary)) (last_entry p none (read_lines log.primary)) h
  where
    go :
        (t : Bool) (r : Result (Option AuditEntry))
        → ◌≡◌ {A = Result (Option AuditEntry × AuditLog)}
            (if t
              then ok (log.cached_head, log)
              else (r >>= λ x.
                  ok (x, record log { cached_head = x; cached_size = some (size log.primary) })))
            (ok (last, log1))
        → (log1.primary ≡ log.primary) × (log1.mirror ≡ log.mirror)
    go true r e =
        (sym (ap (λ x. x.1.primary) (ok-injective e)), sym (ap (λ x. x.1.mirror) (ok-injective e)))
    go false (ok y) e =
        (sym (ap (λ x. x.1.primary) (ok-injective e)), sym (ap (λ x. x.1.mirror) (ok-injective e)))
    go false (err x) e = absurd (cc)

-- What a write that succeeded left.
pub record IsWritten (log : AuditLog) (text : List ℕ) (entry : AuditEntry) (log' : AuditLog)
    : Type 0 where
  pub primary : log'.primary ≡ log.primary ++ text
  pub mirror : Mirrored text log.mirror log'.mirror
  pub cached : log'.cached_head ≡ some entry
  pub sized : log'.cached_size ≡ some (size log'.primary)

pub write_primary-IsWritten :
    (p : Platform) (entry out : AuditEntry) (text : List ℕ) (log log' : AuditLog)
    (stops : Option (List ℕ))
    → write_primary p entry text log stops ≡ (ok out, log')
    → (entry ≡ out) × IsWritten log text entry log'
write_primary-IsWritten p entry out text log log' (some part) h =
    let failed : ◌≡◌ {A = Result AuditEntry} (err os_error) (ok out) = ap (λ r. r.0) h in
    absurd (cc)
write_primary-IsWritten p entry out text log log' none h = mirrored log.mirror refl h
  where
    written : AuditLog
    written = record log {
      primary = log.primary ++ text;
      cached_head = some entry;
      cached_size = some (size (log.primary ++ text));
    }

    mirrored :
        (before : Option (List ℕ))
        → log.mirror ≡ before
        → write_mirror p entry text written before ≡ (ok out, log')
        → (entry ≡ out) × IsWritten log text entry log'
    mirrored none e h = (
      ok-injective (ap (λ r. r.0) h),
      subst (IsWritten log text entry) (ap (λ r. r.1) h) (record {
        primary = refl;
        mirror = subst (λ m. Mirrored text m m) (sym e) refl;
        cached = refl;
        sized = refl;
      }),
    )
    mirrored (some before) e h = go (p.mirror_stops before text) h
      where
        go :
            (stops : Option (List ℕ))
            → ◌≡◌ {A = Result AuditEntry × AuditLog}
                (elim stops [
                  | none ↦ (ok entry, record written { mirror = some (before ++ text) })
                  | some part ↦ (err os_error, record written { mirror = some (before ++ part) })
                ])
                (ok out, log')
            → (entry ≡ out) × IsWritten log text entry log'
        go none h = (
          ok-injective (ap (λ r. r.0) h),
          subst (IsWritten log text entry) (ap (λ r. r.1) h) (record {
            primary = refl;
            mirror = subst (λ m. Mirrored text m (some (before ++ text))) (sym e) refl;
            cached = refl;
            sized = refl;
          }),
        )
        go (some part) h =
            let failed : ◌≡◌ {A = Result AuditEntry} (err os_error) (ok out) = ap (λ r. r.0) h in
            absurd (cc)

-- What a successful `append` goes through.
pub record IsTaken (p : Platform) (now : ℕ) (log : AuditLog) (actor event : String)
    (fields : Fields) (entry : AuditEntry) (log' : AuditLog) : Type 0 where
  pub unreserved : any (λ name. elem name (keys fields)) core_fields ≡ false
  pub last : Option AuditEntry
  pub scanned : AuditLog
  pub looked : head p log ≡ ok (last, scanned)
  pub seq : ℤ
  pub counted : seq_after last ≡ ok seq
  pub wrote : append_entry p scanned (chained p now actor event fields last seq) ≡ (ok entry, log')

pub append-IsTaken :
    (p : Platform) (now : ℕ) (log : AuditLog) (actor event : String) (fields : Fields)
    (entry : AuditEntry) (log' : AuditLog)
    → append p now log actor event fields ≡ (ok entry, log')
    → IsTaken p now log actor event fields entry log'
unfolding append
append-IsTaken p now log actor event fields entry log' h =
    guarded (any (λ name. elem name (keys fields)) core_fields) p.opens refl h
  where
    Goal : Type 0
    Goal = IsTaken p now log actor event fields entry log'

    refused :
        (x : Exn) (l : AuditLog)
        → ◌≡◌ {A = Result AuditEntry × AuditLog} (err x, l) (ok entry, log')
        → Goal
    refused x l h =
        let failed : ◌≡◌ {A = Result AuditEntry} (err x) (ok entry) = ap (λ r. r.0) h in absurd (cc)

    numbered :
        any (λ name. elem name (keys fields)) core_fields ≡ false
        → (last : Option AuditEntry) (log1 : AuditLog) → head p log ≡ ok (last, log1)
        → (n : Result ℤ) → seq_after last ≡ n
        → ◌≡◌ {A = Result AuditEntry × AuditLog}
            (elim n [
              | ok seq ↦ append_entry p log1 (chained p now actor event fields last seq)
              | err e ↦ (err e, log1)
            ])
            (ok entry, log')
        → Goal
    numbered free last log1 looked (ok seq) counted h = record {
      unreserved = free;
      last = last;
      scanned = log1;
      looked = looked;
      seq = seq;
      counted = counted;
      wrote = h;
    }
    numbered free last log1 looked (err x) counted h = refused x log1 h

    found :
        any (λ name. elem name (keys fields)) core_fields ≡ false
        → (r : Result (Option AuditEntry × AuditLog)) → head p log ≡ r
        → append_after p now log actor event fields r ≡ (ok entry, log')
        → Goal
    found free (ok (last, log1)) looked h = numbered free last log1 looked (seq_after last) refl h
    found free (err x) looked h = refused x log h

    guarded :
        (reserved open_now : Bool)
        → any (λ name. elem name (keys fields)) core_fields ≡ reserved
        → ◌≡◌ {A = Result AuditEntry × AuditLog}
            (if reserved
              then (err audit_chain_error, log)
              else if open_now
              then append_after p now log actor event fields (head p log)
              else (err os_error, log))
            (ok entry, log')
        → Goal
    guarded true t free h = refused audit_chain_error log h
    guarded false true free h = found free (head p log) refl h
    guarded false false free h = refused os_error log h
