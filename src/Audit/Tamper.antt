-- ===== src/Audit/Tamper.antt =====
-- What a line of a verified log says of the lines before it: `verify_chain` of src/orchestrator/audit.py
-- against lines that are replaced, dropped, added or moved.
use amnesic_pi.Prelude.{
  ℕ, suc, ◌+◌, String, ◌≡◌, subst, sym, ap, ◌∙◌, true, false, List, [], ◌∷◌, ◌++◌, length, eq_iff,
  arith,
}
use amnesic_pi.Prelude.Int.{pos, negsuc}
use amnesic_pi.Errors.{ok, audit_chain_error, bind_then, require_then, ok-injective}
use amnesic_pi.Platform.{Platform, CollisionFree}
use amnesic_pi.Value.{Value, null, bool, int, str, arr, obj}
use amnesic_pi.Value.Canonical.{canonical_json}
use amnesic_pi.Schema.Node.{same_value}
use amnesic_pi.Audit.{
  AuditEntry, AuditLog, genesis_hash, read_lines, to_dict, entry_hash, parse_line, verify_from,
  verify_chain,
}

same_number :
    (v : Value) (m n : ℕ)
    → same_value v (int (pos m)) ≡ true
    → same_value v (int (pos n)) ≡ true
    → m ≡ n
unfolding same_value
same_number null m n h k = absurd (cc)
same_number (bool true) m n h k = ground arith
same_number (bool false) m n h k = ground arith
same_number (int (pos i)) m n h k = ground arith
same_number (int (negsuc i)) m n h k = absurd (cc)
same_number (str s) m n h k = absurd (cc)
same_number (arr vs) m n h k = absurd (cc)
same_number (obj fs) m n h k = absurd (cc)

same_text :
    (v : Value) (s t : String) → same_value v (str s) ≡ true → same_value v (str t) ≡ true → s ≡ t
unfolding same_value
same_text null s t h k = absurd (cc)
same_text (bool b) s t h k = absurd (cc)
same_text (int n) s t h k = absurd (cc)
same_text (str u) s t h k = sym ((eq_iff u s).0 h) ∙ (eq_iff u t).0 k
same_text (arr vs) s t h k = absurd (cc)
same_text (obj fs) s t h k = absurd (cc)

-- The text that an entry is hashed by.
abbrev pub hashed_text : Platform → AuditEntry → List ℕ
hashed_text p e = canonical_json (obj (to_dict p e))

-- What a verified log says at two lines that follow each other.
record Links (p : Platform) (l m : List ℕ) (index : ℕ) : Type 0 where
  first : AuditEntry
  second : AuditEntry
  parsed : parse_line p l ≡ ok first
  parsed' : parse_line p m ≡ ok second
  numbered : same_value second.seq (int (pos index)) ≡ true
  chained : same_value second.prev_hash (str (entry_hash p first)) ≡ true

verify_from-Links :
    (p : Platform) (before : List (List ℕ)) (l m : List ℕ) (after : List (List ℕ)) (prev : String)
    (seq count n index : ℕ)
    → index ≡ suc (length before + seq)
    → verify_from p prev seq count (before ++ l ∷ m ∷ after) ≡ ok n
    → Links p l m index
unfolding verify_from
verify_from-Links p [] l m after prev seq count n index place h =
    bind_then (parse_line p l) _ h λ e parsed h1.
      require_then (same_value e.seq (int (pos seq))) audit_chain_error _ h1 λ numbered h2.
        require_then (same_value e.prev_hash (str prev)) audit_chain_error _ h2 λ chained h3.
          bind_then (parse_line p m) _ h3 λ f parsed' h4.
            require_then (same_value f.seq (int (pos (suc seq)))) audit_chain_error _ h4
              λ numbered' h5.
                require_then (same_value f.prev_hash (str (entry_hash p e))) audit_chain_error _ h5
                  λ chained' h6. record {
                    first = e;
                    second = f;
                    parsed = parsed;
                    parsed' = parsed';
                    numbered =
                        subst (λ i. same_value f.seq (int (pos i)) ≡ true)
                          (let here : suc seq ≡ index = omega arith in here) numbered';
                    chained = chained';
                  }
verify_from-Links p (b ∷ before) l m after prev seq count n index place h =
    bind_then (parse_line p b) _ h λ e parsed h1.
      require_then (same_value e.seq (int (pos seq))) audit_chain_error _ h1 λ numbered h2.
        require_then (same_value e.prev_hash (str prev)) audit_chain_error _ h2 λ chained h3.
          verify_from-Links p before l m after (entry_hash p e) (suc seq) (suc count) n index
            (omega arith) h3

verify_chain-Links :
    (p : Platform) (log : AuditLog) (before : List (List ℕ)) (l m : List ℕ) (after : List (List ℕ))
    (n : ℕ)
    → read_lines log.primary ≡ before ++ l ∷ m ∷ after
    → verify_chain p log ≡ ok n
    → Links p l m (suc (length before))
unfolding verify_chain
verify_chain-Links p log before l m after n lines h =
    verify_from-Links p before l m after genesis_hash 0 0 n (suc (length before)) (omega arith)
      (ap (verify_from p genesis_hash 0 0) (sym lines) ∙ h)

-- The log is tamper-evident: if digests do not collide, a line of a log that verifies fixes its own
-- place and the line before it. Any other log that verifies and holds that line has it at the same
-- place, behind a line whose entry has the same canonical text. So `verify_chain` fails if lines are
-- dropped, added or moved in front of it, or if the line right before it is replaced by one with
-- another canonical text.
pub verify_chain_binds :
    (p : Platform)
    → CollisionFree p
    → (log other : AuditLog) (before before' after after' : List (List ℕ)) (l l' m : List ℕ)
      (e e' : AuditEntry) (n n' : ℕ)
    → read_lines log.primary ≡ before ++ l ∷ m ∷ after
    → read_lines other.primary ≡ before' ++ l' ∷ m ∷ after'
    → parse_line p l ≡ ok e
    → parse_line p l' ≡ ok e'
    → verify_chain p log ≡ ok n
    → verify_chain p other ≡ ok n'
    → (length before ≡ length before') × (hashed_text p e ≡ hashed_text p e')
verify_chain_binds p apart log other before before' after after' l l' m e e' n n' lines lines'
      parsed parsed' h h' =
    let a = verify_chain-Links p log before l m after n lines h in
    let b = verify_chain-Links p other before' l' m after' n' lines' h' in
    let same : a.second ≡ b.second = ok-injective (sym a.parsed' ∙ b.parsed') in
    let first : a.first ≡ e = ok-injective (sym a.parsed ∙ parsed) in
    let first' : b.first ≡ e' = ok-injective (sym b.parsed ∙ parsed') in
    let place =
      same_number b.second.seq (suc (length before)) (suc (length before'))
        (subst (λ (x : AuditEntry). same_value x.seq (int (pos (suc (length before)))) ≡ true) same
          a.numbered)
        b.numbered in
    let hashes =
      same_text b.second.prev_hash (entry_hash p a.first) (entry_hash p b.first)
        (subst (λ (x : AuditEntry). same_value x.prev_hash (str (entry_hash p a.first)) ≡ true) same
          a.chained)
        b.chained in
    (
      omega arith,
      ap (hashed_text p) (sym first)
          ∙ apart (hashed_text p a.first) (hashed_text p b.first) hashes
          ∙ ap (hashed_text p) first',
    )
