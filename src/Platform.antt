-- ===== src/Platform.antt =====
-- What the control plane takes from outside its own sources: the hash functions, the text forms of
-- timestamps, the JSON reader, and whether a write to the audit log succeeds. Each is a parameter; what a theorem needs of one is a hypothesis
-- named here.
use amnesic_pi.Prelude.{ℕ, String, ◌≡◌, Bool, Option, some, List}
use amnesic_pi.Prelude.Int.{ℤ, pos}
use amnesic_pi.Value.{Value}

-- A `datetime`: microseconds on the clock on the wall, or an instant in UTC with the offset from it.
pub data DateTime : Type 0 where
  naive : ℕ → DateTime
  aware : ℕ → ℤ → DateTime

abbrev pub utc : ℕ → DateTime
utc t = aware t (pos 0)

pub record Platform : Type 0 where
  -- `hashlib.sha256(text.encode("utf-8")).hexdigest()`
  pub sha256_hex : List ℕ → String
  -- `hmac.new(key, text.encode("utf-8"), "sha256").hexdigest()`
  pub hmac_hex : String → List ℕ → String
  -- `datetime.isoformat` and `datetime.fromisoformat`; `none` is `ValueError`.
  pub isoformat : DateTime → String
  pub fromisoformat : String → Option DateTime
  -- `str(v)` of a value that is no text.
  pub show : Value → String
  -- `json.loads`; `none` is `JSONDecodeError`.
  pub loads : List ℕ → Option Value
  -- Whether the file of the audit log opens for appending.
  pub opens : Bool
  -- From the text of the log's file, or of its mirror, and a text that is appended to it: how much of
  -- that text reaches the file before an `OSError`, or `none` where all of it is written.
  pub log_stops : List ℕ → List ℕ → Option (List ℕ)
  pub mirror_stops : List ℕ → List ℕ → Option (List ℕ)

-- `fromisoformat` reads back what `isoformat` printed.
abbrev pub ReadsIso : Platform → Type 0
ReadsIso p = (d : DateTime) → p.fromisoformat (p.isoformat d) ≡ some d

-- No two texts with one digest are ever met.
abbrev pub CollisionFree : Platform → Type 0
CollisionFree p = (s t : List ℕ) → p.sha256_hex s ≡ p.sha256_hex t → s ≡ t

-- No two texts with one authentication code under a key are ever met.
abbrev pub MacBinds : Platform → Type 0
MacBinds p = (key : String) (s t : List ℕ) → p.hmac_hex key s ≡ p.hmac_hex key t → s ≡ t
