-- ===== src/Audit/Appended.antt =====
-- What `append` of src/orchestrator/audit.py writes, and that it keeps the two sinks in agreement.
use amnesic_pi.Prelude.{
  ℕ, suc, String, ◌≡◌, refl, sym, ap, ◌∙◌, subst, ◌⊎◌, inl, inr, true, false, Option, none, some,
  List, [], ◌∷◌, ◌++◌, any, elem, arith,
}
use amnesic_pi.Prelude.Int.{ℤ, pos, negsuc}
use amnesic_pi.Errors.{ok, ok-injective}
use amnesic_pi.Platform.{Platform, utc}
use amnesic_pi.Value.{Value, null, bool, str, int, arr, Fields, keys, obj}
use amnesic_pi.Value.Canonical.{canonical_json}
use amnesic_pi.Audit.{
  core_fields, to_dict, AuditEntry, AuditLog, read_lines, head, seq_after, hash_after, same_size,
  size, increment, chained, line_of, append, check_mirror,
}
use amnesic_pi.Audit.Writing.{Mirrored, head-files, write_primary-IsWritten, append-IsTaken}
use amnesic_pi.Audit.Mirror.{ends_line, read_lines-append, check_mirror_iff}

-- The integer `n` is the one behind `m`.
abbrev pub IsNext : ℤ → ℤ → Type 0
IsNext (pos m) (pos n) = n ≡ suc m
IsNext (pos m) (negsuc n) = ⊥
IsNext (negsuc m) (pos n) = (m ≡ 0) × (n ≡ 0)
IsNext (negsuc m) (negsuc n) = m ≡ suc n

-- The integer that a value counts as: Python adds a Boolean as 0 or 1.
abbrev pub Counts : Value → ℤ → Type 0
Counts v n = (v ≡ int n) ⊎ (((v ≡ bool false) × (n ≡ pos 0)) ⊎ ((v ≡ bool true) × (n ≡ pos 1)))

-- The number of an entry behind the last one: 0 in an empty log, else one more.
abbrev pub Numbered : Option AuditEntry → Value → Type 0
Numbered none v = v ≡ int (pos 0)
Numbered (some e) v = (m : ℤ) × (n : ℤ) × Counts e.seq m × IsNext m n × (v ≡ int n)

-- The link of an entry to the last one: 64 zeros in an empty log, else the digest of the whole last
-- entry in its canonical form.
abbrev pub Linked : Platform → Option AuditEntry → Value → Type 0
Linked p none v = v ≡ str "0000000000000000000000000000000000000000000000000000000000000000"
Linked p (some e) v = v ≡ str (p.sha256_hex (canonical_json (obj (to_dict p e))))

-- What `append` made and wrote.
pub record IsAppended (p : Platform) (now : ℕ) (log : AuditLog) (actor event : String)
    (fields : Fields) (entry : AuditEntry) (log' : AuditLog) : Type 0 where
  pub unreserved : any (λ name. elem name (keys fields)) core_fields ≡ false
  pub last : Option AuditEntry
  pub scanned : AuditLog
  pub looked : head p log ≡ ok (last, scanned)
  pub numbered : Numbered last entry.seq
  pub linked : Linked p last entry.prev_hash
  pub stamped : entry.ts ≡ utc now
  pub by : entry.actor ≡ str actor
  pub of : entry.event ≡ str event
  pub with_fields : entry.fields ≡ fields
  pub primary : log'.primary ≡ log.primary ++ (canonical_json (obj (to_dict p entry)) ++ 10 ∷ [])
  pub mirror : Mirrored (canonical_json (obj (to_dict p entry)) ++ 10 ∷ []) log.mirror log'.mirror
  pub next : head p log' ≡ ok (some entry, log')

increment-IsNext : (n : ℤ) → IsNext n (increment n)
increment-IsNext (pos n) = refl
increment-IsNext (negsuc ℕ.zero) = (refl, refl)
increment-IsNext (negsuc (suc n)) = refl

seq_after-Numbered :
    (last : Option AuditEntry) (n : ℤ) → seq_after last ≡ ok n → Numbered last (int n)
seq_after-Numbered none n h = ap int (sym (ok-injective h))
seq_after-Numbered (some e) n h = go e.seq refl h
  where
    go :
        (v : Value)
        → e.seq ≡ v
        → seq_after (some (record e { seq = v })) ≡ ok n
        → Numbered (some e) (int n)
    go (int m) e h = (m, increment m, inl e, increment-IsNext m, ap int (sym (ok-injective h)))
    go (bool false) e h = (pos 0, pos 1, inr (inl (e, refl)), refl, ap int (sym (ok-injective h)))
    go (bool true) e h = (pos 1, pos 2, inr (inr (e, refl)), refl, ap int (sym (ok-injective h)))
    go null e h = absurd (cc)
    go (str s) e h = absurd (cc)
    go (arr vs) e h = absurd (cc)
    go (obj fs) e h = absurd (cc)

hash_after-Linked :
    (p : Platform) (last : Option AuditEntry) → Linked p last (str (hash_after p last))
hash_after-Linked p none = refl
hash_after-Linked p (some e) = refl

same_size_refl : (n : ℕ) → same_size (some n) n ≡ true
same_size_refl n = ground arith

head-cached :
    (p : Platform) (log : AuditLog) (entry : AuditEntry)
    → log.cached_head ≡ some entry
    → log.cached_size ≡ some (size log.primary)
    → head p log ≡ ok (some entry, log)
unfolding head
head-cached p log entry cached sized = rw (sized, same_size_refl (size log.primary), cached) refl

pub append-IsAppended :
    (p : Platform) (now : ℕ) (log : AuditLog) (actor event : String) (fields : Fields)
    (entry : AuditEntry) (log' : AuditLog)
    → append p now log actor event fields ≡ (ok entry, log')
    → IsAppended p now log actor event fields entry log'
append-IsAppended p now log actor event fields entry log' h =
    let taken = append-IsTaken p now log actor event fields entry log' h in
    let made = chained p now actor event fields taken.last taken.seq in
    let (same, written) =
      write_primary-IsWritten p made entry (line_of p made) taken.scanned log'
        (p.log_stops taken.scanned.primary (line_of p made)) taken.wrote in
    let (same_primary, same_mirror) = head-files p log taken.scanned taken.last taken.looked in
    subst (λ e. IsAppended p now log actor event fields e log') same
      (record {
        unreserved = taken.unreserved;
        last = taken.last;
        scanned = taken.scanned;
        looked = taken.looked;
        numbered = seq_after-Numbered taken.last taken.seq taken.counted;
        linked = hash_after-Linked p taken.last;
        stamped = refl;
        by = refl;
        of = refl;
        with_fields = refl;
        primary = written.primary ∙ ap (λ t. t ++ line_of p made) same_primary;
        mirror = subst (λ m. Mirrored (line_of p made) m log'.mirror) same_mirror written.mirror;
        next = head-cached p log' made written.cached written.sized;
      })

-- A log with a mirror that agrees with it, both ending with a whole line.
pub record IsAgreed (log : AuditLog) : Type 0 where
  pub text : List ℕ
  pub configured : log.mirror ≡ some text
  pub primary_ends : ends_line log.primary ≡ true
  pub mirror_ends : ends_line text ≡ true
  pub agrees : check_mirror log ≡ ok tt

pub ends_line-line : (t line : List ℕ) → ends_line (t ++ (line ++ 10 ∷ [])) ≡ true
ends_line-line [] [] = refl
ends_line-line [] (c ∷ []) = refl
ends_line-line [] (c ∷ d ∷ line) = ends_line-line [] (d ∷ line)
ends_line-line (c ∷ []) [] = refl
ends_line-line (c ∷ []) (d ∷ line) = ends_line-line [] (d ∷ line)
ends_line-line (c ∷ d ∷ t) line = ends_line-line (d ∷ t) line

-- An `append` that succeeds keeps the primary and its mirror in agreement: where `check_mirror` passed
-- before, and both files were empty or ended with a newline, the same holds after it.
pub append-IsAgreed :
    (p : Platform) (now : ℕ) (log : AuditLog) (actor event : String) (fields : Fields)
    (entry : AuditEntry) (log' : AuditLog)
    → append p now log actor event fields ≡ (ok entry, log')
    → IsAgreed log
    → IsAgreed log'
append-IsAgreed p now log actor event fields entry log' h agreed =
    let done = append-IsAppended p now log actor event fields entry log' h in
    let line = canonical_json (obj (to_dict p entry)) in
    let both : read_lines log.primary ≡ read_lines agreed.text =
      (check_mirror_iff log agreed.text agreed.configured).0 agreed.agrees in
    let mirrored : log'.mirror ≡ some (agreed.text ++ (line ++ 10 ∷ [])) =
      subst (λ m. Mirrored (line ++ 10 ∷ []) m log'.mirror) agreed.configured done.mirror in
    record {
      text = agreed.text ++ (line ++ 10 ∷ []);
      configured = mirrored;
      primary_ends =
          subst (λ t. ends_line t ≡ true) (sym done.primary) (ends_line-line log.primary line);
      mirror_ends = ends_line-line agreed.text line;
      agrees = (check_mirror_iff log' (agreed.text ++ (line ++ 10 ∷ [])) mirrored).1 (
          ap read_lines done.primary
          ∙ read_lines-append log.primary (line ++ 10 ∷ []) agreed.primary_ends
          ∙ ap (λ ls. ls ++ read_lines (line ++ 10 ∷ [])) both
          ∙ sym (read_lines-append agreed.text (line ++ 10 ∷ []) agreed.mirror_ends));
    }
