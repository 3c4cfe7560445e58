-- ===== src/Samples/Audit.antt =====
-- Runs of the theorems on the audit log.
use amnesic_pi.Prelude.{◌≡◌, ◌↔◌, refl, some, [], ◌∷◌}
use amnesic_pi.Errors.{ok, err, os_error}
use amnesic_pi.Platform.{Platform, utc}
use amnesic_pi.Prelude.Int.{pos}
use amnesic_pi.Prelude.Text.{lines_from}
use amnesic_pi.Value.{int, str, Fields, field, end}
use amnesic_pi.Audit.{
  AuditEntry, AuditLog, genesis_hash, open_log, read_lines, head, last_entry, append, check_mirror,
}
use amnesic_pi.Audit.Mirror.{check_mirror_iff}
use amnesic_pi.Audit.Appended.{IsAgreed, append-IsAgreed}
use amnesic_pi.Audit.Raised.{IsLeft, append_raises}
use amnesic_pi.Samples.Dispatch.{flat}

abbrev pub log : AuditLog
log = open_log [] (some [])

abbrev pub fields : Fields
fields = field "team" (str "policy") (field "reason" (str "incident") end)

abbrev pub entry : AuditEntry
entry = record {
  seq = int (pos 0);
  ts = utc 20;
  actor = str "orchestrator";
  event = str "team_paused";
  prev_hash = str genesis_hash;
  fields = fields;
}

abbrev after : AuditLog
after = (append flat 20 log "orchestrator" "team_paused" fields).1

appended : append flat 20 log "orchestrator" "team_paused" fields ≡ (ok entry, after)
unfolding append head last_entry read_lines lines_from
appended = refl

log_agrees : check_mirror log ≡ ok tt
unfolding check_mirror read_lines lines_from
log_agrees = refl

log-IsAgreed : IsAgreed log
log-IsAgreed = record {
  text = [];
  configured = refl;
  primary_ends = refl;
  mirror_ends = refl;
  agrees = log_agrees;
}

-- The disk of the mirror is full behind the first byte.
abbrev full : Platform
full = record flat { mirror_stops = λ file text. some (123 ∷ []) }

abbrev ahead : AuditLog
ahead = (append full 20 log "orchestrator" "team_paused" fields).1

stopped : append full 20 log "orchestrator" "team_paused" fields ≡ (err os_error, ahead)
unfolding append head last_entry read_lines lines_from
stopped = refl

append_raises_example : IsLeft full os_error log ahead
append_raises_example =
    append_raises full 20 log "orchestrator" "team_paused" fields os_error ahead stopped

append-IsAgreed_example : IsAgreed after
append-IsAgreed_example =
    append-IsAgreed flat 20 log "orchestrator" "team_paused" fields entry after appended
      log-IsAgreed

check_mirror_iff_example :
    (check_mirror (open_log (65 ∷ []) (some (66 ∷ []))) ≡ ok tt)
    ↔ (read_lines (65 ∷ []) ≡ read_lines (66 ∷ []))
check_mirror_iff_example = check_mirror_iff (open_log (65 ∷ []) (some (66 ∷ []))) (66 ∷ []) refl
