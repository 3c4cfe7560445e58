-- ===== src/Samples/Tamper.antt =====
-- A run of the theorem on tampering: two logs of two lines, whose first lines differ in their text and
-- hold the same entry.
use amnesic_pi.Prelude.{ℕ, ◌≡◌, refl, Option, none, some, List, [], ◌∷◌, length, if◌then◌else◌}
use amnesic_pi.Prelude.Int.{pos}
use amnesic_pi.Prelude.Text.{codes, same_codes}
use amnesic_pi.Errors.{ok}
use amnesic_pi.Platform.{Platform, utc}
use amnesic_pi.Value.{Value, int, str, obj, Fields, field, end}
use amnesic_pi.Audit.{
  AuditEntry, AuditLog, genesis_hash, open_log, read_lines, to_dict, entry_hash, parse_line,
  verify_chain,
}
use amnesic_pi.Audit.Tamper.{hashed_text, verify_chain_binds}
use amnesic_pi.Samples.Hashing.{sample, sample-CollisionFree}

abbrev printer : Platform
printer = sample (λ s. none)

abbrev first : AuditEntry
first = record {
  seq = int (pos 0);
  ts = utc 5;
  actor = str "a";
  event = str "e";
  prev_hash = str genesis_hash;
  fields = end;
}

abbrev second : AuditEntry
second = record first { seq = int (pos 1); prev_hash = str (entry_hash printer first) }

abbrev loads : List ℕ → Option Value
loads s =
    if same_codes s (codes "b")
    then some (obj (to_dict printer second))
    else some (obj (to_dict printer first))

abbrev log : AuditLog
log = open_log (codes "a\nb\n") none

abbrev other : AuditLog
other = open_log (codes "c\nb\n") none

log_lines : read_lines log.primary ≡ codes "a" ∷ codes "b" ∷ []
unfolding read_lines amnesic_pi.Prelude.Text.lines_from amnesic_pi.Prelude.Text.strip
log_lines = refl

other_lines : read_lines other.primary ≡ codes "c" ∷ codes "b" ∷ []
unfolding read_lines amnesic_pi.Prelude.Text.lines_from amnesic_pi.Prelude.Text.strip
other_lines = refl

parsed :
    (parse_line (sample loads) (codes "a") ≡ ok first)
    × (parse_line (sample loads) (codes "c") ≡ ok first)
unfolding parse_line amnesic_pi.Audit.entry_from_json amnesic_pi.Audit.entry_from_dict sample
    amnesic_pi.Value.Canonical.canonical_json amnesic_pi.Samples.Codec.decode
    amnesic_pi.Samples.Codec.to_text amnesic_pi.Samples.Codec.encode
parsed = (refl, refl)

verified : (verify_chain (sample loads) log ≡ ok 2) × (verify_chain (sample loads) other ≡ ok 2)
unfolding verify_chain read_lines amnesic_pi.Prelude.Text.lines_from amnesic_pi.Prelude.Text.strip
    amnesic_pi.Audit.verify_from parse_line amnesic_pi.Audit.entry_from_json
    amnesic_pi.Audit.entry_from_dict sample amnesic_pi.Value.Canonical.canonical_json
    amnesic_pi.Schema.Node.same_value amnesic_pi.Samples.Codec.decode
    amnesic_pi.Samples.Codec.to_text amnesic_pi.Samples.Codec.encode
verified = (refl, refl)

verify_chain_binds_example :
    (length {A = List ℕ} [] ≡ length {A = List ℕ} [])
    × (hashed_text (sample loads) first ≡ hashed_text (sample loads) first)
verify_chain_binds_example =
    verify_chain_binds (sample loads) (sample-CollisionFree loads) log other [] [] [] [] (codes "a")
      (codes "c") (codes "b") first first 2 2 log_lines other_lines parsed.0 parsed.1 verified.0
      verified.1
