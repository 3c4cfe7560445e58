-- ===== src/Audit.antt =====
-- src/orchestrator/audit.py: the hash-chained log and its mirror. A file is its text. A call of `append`
-- is one step: its lock on the primary is left out, and the mirror is written right behind the primary.

pub mod Mirror
pub mod Writing
pub mod Appended
pub mod Raised
pub mod Extended
pub mod Tamper
use amnesic_pi.Prelude.{
  ℕ, suc, ◌+◌, String, Bool, true, false, not, ◌&&◌, ◌||◌, Option, none, some, List, [], ◌∷◌, ◌++◌,
  all, any, elem, is_empty, keep, length, ltb, ◌==◌, if◌then◌else◌,
}
use amnesic_pi.Prelude.Int.{ℤ, pos, negsuc}
use amnesic_pi.Prelude.Text.{codes, strip, same_codes, lines_from, occurs}
use amnesic_pi.Errors.{
  Result, Done, ok, err, audit_chain_error, audit_divergence_error, type_error, attribute_error,
  os_error, require, refuse_if, ◌>>=◌, ◌>>◌,
}
use amnesic_pi.Platform.{Platform, DateTime, utc}
use amnesic_pi.Value.{Value, bool, int, str, arr, obj, Fields, end, field, keys, item, list_of}
use amnesic_pi.Value.Canonical.{canonical_json}
use amnesic_pi.Schema.Node.{same_value, as_number, elem_value}

abbrev pub genesis_hash : String
genesis_hash = "0000000000000000000000000000000000000000000000000000000000000000"

abbrev pub core_fields : List String
core_fields = "ts" ∷ "seq" ∷ "actor" ∷ "event" ∷ "prev_hash" ∷ []

-- Four fields hold whatever the line held: only `ts` is parsed.
pub record AuditEntry : Type 0 where
  pub seq : Value
  pub ts : DateTime
  pub actor : Value
  pub event : Value
  pub prev_hash : Value
  pub fields : Fields

-- `AuditEntry.to_dict`; the fields hold no core key, so updating is appending.
abbrev pub to_dict : Platform → AuditEntry → Fields
to_dict p e = field "ts" (str (p.isoformat e.ts)) (
    field "seq" e.seq
      (field "actor" e.actor (field "event" e.event (field "prev_hash" e.prev_hash e.fields))))

-- `AuditEntry.entry_hash`
abbrev pub entry_hash : Platform → AuditEntry → String
entry_hash p e = p.sha256_hex (canonical_json (obj (to_dict p e)))

-- `{k: v for k, v in raw.items() if k not in _CORE_FIELDS}`
abbrev pub without_core : Fields → Fields
without_core end = end
without_core (field k v fs) =
    let rest = without_core fs in if elem k core_fields then rest else field k v rest

-- `datetime.fromisoformat(raw["ts"])`, with its exceptions turned into one.
abbrev pub read_ts : Platform → Value → Result DateTime
read_ts p (str s) = elim (p.fromisoformat s) [ none ↦ err audit_chain_error | some d ↦ ok d ]
read_ts p _ = err audit_chain_error

-- `_entry_from_dict`
unfoldable pub entry_from_dict : Platform → Fields → Result AuditEntry
entry_from_dict p raw = do
  refuse_if (any (λ name. not (elem name (keys raw))) core_fields) audit_chain_error
  ts_value ← item raw "ts"
  ts ← read_ts p ts_value
  seq ← item raw "seq"
  actor ← item raw "actor"
  event ← item raw "event"
  prev_hash ← item raw "prev_hash"
  ok (record {
    seq = seq;
    ts = ts;
    actor = actor;
    event = event;
    prev_hash = prev_hash;
    fields = without_core raw;
  })

-- `AuditLog._read_lines`; a file that is not there reads as an empty one.
unfoldable pub read_lines : List ℕ → List (List ℕ)
read_lines text = keep (λ line. not (same_codes (strip line) [])) (lines_from false [] text)

pub record AuditLog : Type 0 where
  pub primary : List ℕ
  pub mirror : Option (List ℕ)
  pub cached_head : Option AuditEntry
  -- `none` for the -1 before the first scan.
  pub cached_size : Option ℕ

-- `AuditLog.__init__` over the files as they are.
abbrev pub open_log : List ℕ → Option (List ℕ) → AuditLog
open_log primary mirror = record {
  primary = primary;
  mirror = mirror;
  cached_head = none;
  cached_size = none;
}

-- Bytes of one character in UTF-8, and the size of a file.
abbrev pub utf8_len : ℕ → ℕ
utf8_len c = if ltb c 128 then 1 else if ltb c 2048 then 2 else if ltb c 65536 then 3 else 4

abbrev pub size : List ℕ → ℕ
size [] = 0
size (c ∷ s) = utf8_len c + size s

-- What `_entry_from_dict` makes of a line that is JSON: a number, `null` or a Boolean cannot be
-- searched for the core fields, and a list or a text that has them all has no `items`.
unfoldable pub entry_from_json : Platform → Value → Result AuditEntry
unfolding occurs
entry_from_json p (obj fs) = entry_from_dict p fs
entry_from_json p (arr vs) =
    if all (λ name. elem_value (str name) (list_of vs)) core_fields
    then err attribute_error
    else err audit_chain_error
entry_from_json p (str s) =
    if all (λ name. occurs (codes name) (codes s)) core_fields
    then err attribute_error
    else err audit_chain_error
entry_from_json p _ = err type_error

-- One step of `entries`.
unfoldable pub parse_line : Platform → List ℕ → Result AuditEntry
parse_line p line = elim (p.loads line) [
  | none ↦ err audit_chain_error
  | some raw ↦ entry_from_json p raw
]

-- The last of `entries`, read to the end.
unfoldable pub last_entry :
    Platform → Option AuditEntry → List (List ℕ) → Result (Option AuditEntry)
last_entry p last [] = ok last
last_entry p last (l ∷ ls) = do e ← parse_line p l; last_entry p (some e) ls

-- `list(self.entries())`
unfoldable pub entries_of : Platform → List (List ℕ) → Result (List AuditEntry)
entries_of p [] = ok []
entries_of p (l ∷ ls) = do e ← parse_line p l; es ← entries_of p ls; ok (e ∷ es)

abbrev pub entries : Platform → AuditLog → Result (List AuditEntry)
entries p log = entries_of p (read_lines log.primary)

abbrev pub same_size : Option ℕ → ℕ → Bool
same_size none n = false
same_size (some m) n = m == n

-- `AuditLog.head`, with the cache that it leaves.
unfoldable pub head : Platform → AuditLog → Result (Option AuditEntry × AuditLog)
head p log =
    let scan = do
      last ← last_entry p none (read_lines log.primary)
      ok (last, record log { cached_head = last; cached_size = some (size log.primary) })
    in if same_size log.cached_size (size log.primary) then ok (log.cached_head, log) else scan

-- `head.seq + 1`
abbrev pub increment : ℤ → ℤ
increment (pos n) = pos (suc n)
increment (negsuc ℕ.zero) = pos 0
increment (negsuc (suc n)) = negsuc n

abbrev pub seq_after : Option AuditEntry → Result ℤ
seq_after none = ok (pos 0)
seq_after (some e) = elim e.seq [
  | int n ↦ ok (increment n)
  | bool b ↦ ok (increment (as_number b))
  | _ ↦ err type_error
]

abbrev pub hash_after : Platform → Option AuditEntry → String
hash_after p none = genesis_hash
hash_after p (some e) = entry_hash p e

-- `AuditLog.next_seq`
unfoldable pub next_seq : Platform → AuditLog → Result (ℤ × AuditLog)
next_seq p log = do (last, log') ← head p log; n ← seq_after last; ok (n, log')

-- `self._write(self._mirror, line)`, if there is a mirror: the entry is returned only behind it.
abbrev pub write_mirror :
    Platform → AuditEntry → List ℕ → AuditLog → Option (List ℕ) → Result AuditEntry × AuditLog
write_mirror p entry text log none = (ok entry, log)
write_mirror p entry text log (some mirror) = elim (p.mirror_stops mirror text) [
  | none ↦ (ok entry, record log { mirror = some (mirror ++ text) })
  | some part ↦ (err os_error, record log { mirror = some (mirror ++ part) })
]

-- `fh.write(line + "\n")` on the primary, and what follows it: the cache is set behind the write only.
abbrev pub write_primary :
    Platform → AuditEntry → List ℕ → AuditLog → Option (List ℕ) → Result AuditEntry × AuditLog
write_primary p entry text log (some part) =
    (err os_error, record log { primary = log.primary ++ part })
write_primary p entry text log none =
    write_mirror p entry text
      (record log {
        primary = log.primary ++ text;
        cached_head = some entry;
        cached_size = some (size (log.primary ++ text));
      })
      log.mirror

-- The entry that `append` makes behind the last one.
abbrev pub chained : Platform → ℕ → String → String → Fields → Option AuditEntry → ℤ → AuditEntry
chained p now actor event fields last seq = record {
  seq = int seq;
  ts = utc now;
  actor = str actor;
  event = str event;
  prev_hash = str (hash_after p last);
  fields = fields;
}

-- `canonical_json(entry.to_dict()) + "\n"`
abbrev pub line_of : Platform → AuditEntry → List ℕ
line_of p entry = canonical_json (obj (to_dict p entry)) ++ 10 ∷ []

abbrev pub append_entry : Platform → AuditLog → AuditEntry → Result AuditEntry × AuditLog
append_entry p log entry =
    write_primary p entry (line_of p entry) log (p.log_stops log.primary (line_of p entry))

abbrev pub append_after :
    Platform
    → ℕ
    → AuditLog
    → String
    → String
    → Fields
    → Result (Option AuditEntry × AuditLog)
    → Result AuditEntry × AuditLog
append_after p now log actor event fields (err e) = (err e, log)
append_after p now log actor event fields (ok (last, log')) = elim (seq_after last) [
  | ok seq ↦ append_entry p log' (chained p now actor event fields last seq)
  | err e ↦ (err e, log')
]

-- `AuditLog.append` at the time `now`, with the log that it leaves, also where it raises.
unfoldable pub append :
    Platform → ℕ → AuditLog → String → String → Fields → Result AuditEntry × AuditLog
append p now log actor event fields =
    if any (λ name. elem name (keys fields)) core_fields
    then (err audit_chain_error, log)
    else if p.opens
    then append_after p now log actor event fields (head p log)
    else (err os_error, log)

-- The loop of `AuditLog.verify_chain`.
unfoldable pub verify_from : Platform → String → ℕ → ℕ → List (List ℕ) → Result ℕ
verify_from p expected_prev expected_seq count [] = ok count
verify_from p expected_prev expected_seq count (l ∷ ls) = do
  e ← parse_line p l
  require (same_value e.seq (int (pos expected_seq))) audit_chain_error
  require (same_value e.prev_hash (str expected_prev)) audit_chain_error
  verify_from p (entry_hash p e) (suc expected_seq) (suc count) ls

-- `AuditLog.verify_chain`
unfoldable pub verify_chain : Platform → AuditLog → Result ℕ
verify_chain p log = verify_from p genesis_hash 0 0 (read_lines log.primary)

abbrev pub same_lines : List (List ℕ) → List (List ℕ) → Bool
same_lines [] rest = true
same_lines (l ∷ ls) [] = true
same_lines (l ∷ ls) (m ∷ ms) = same_codes l m && same_lines ls ms

-- `AuditLog.check_mirror`
unfoldable pub check_mirror : AuditLog → Done
check_mirror log = elim log.mirror [
  | none ↦ ok tt
  | some mirror ↦
      let ours = read_lines log.primary in
      let theirs = read_lines mirror in
      (do
        refuse_if (ltb (length theirs) (length ours)) audit_divergence_error
        refuse_if (ltb (length ours) (length theirs)) audit_divergence_error
        require (same_lines ours theirs) audit_divergence_error)
]
