-- ===== src/Model.antt =====
-- internal/model: the words and records that the other parts share. A Go string that holds one of a
-- fixed set of words is a data type of those words; `unset` is the empty string.
use container_app_service_mo.Base.{ℕ, Bool, true, false, String, ltb, if◌then◌else◌}

pub data Verdict : Type 0 where
  up degraded down error unset : Verdict

-- The ranks of `verdictRank`; a word that the map lacks reads as 0.
abbrev pub verdict_rank : Verdict → ℕ
verdict_rank up = 0
verdict_rank error = 1
verdict_rank degraded = 2
verdict_rank down = 3
verdict_rank unset = 0

unfoldable pub worse_verdict : Verdict → Verdict → Verdict
worse_verdict a b = if ltb (verdict_rank a) (verdict_rank b) then b else a

abbrev pub is_up : Verdict → Bool
is_up up = true
is_up _ = false

abbrev pub is_down : Verdict → Bool
is_down down = true
is_down _ = false

abbrev pub is_error : Verdict → Bool
is_error error = true
is_error _ = false

abbrev pub is_unset : Verdict → Bool
is_unset unset = true
is_unset _ = false

-- Equality of two verdicts.
abbrev pub same_verdict : Verdict → Verdict → Bool
same_verdict up up = true
same_verdict degraded degraded = true
same_verdict down down = true
same_verdict error error = true
same_verdict unset unset = true
same_verdict _ _ = false

-- A component's rule. `any` stands for "any", for the empty string and for any other word.
pub data Rollup : Type 0 where
  all any majority : Rollup

-- A folded reading. The counts are those of the readings by verdict.
pub record Bucket : Type 0 where
  pub monitor_id : String
  pub component_id : String
  pub service_id : String
  pub start : ℕ
  pub width : ℕ
  pub up_count : ℕ
  pub degraded_count : ℕ
  pub down_count : ℕ
  pub error_count : ℕ
  pub maint_count : ℕ
  pub latency_p50 : ℕ
  pub latency_p95 : ℕ
  pub latency_max : ℕ
  pub verdict : Verdict

-- One run of a journey.
pub record Sample : Type 0 where
  pub id : String
  pub monitor_id : String
  pub component_id : String
  pub service_id : String
  pub started_at : ℕ
  pub duration_ms : ℕ
  pub verdict : Verdict
  pub detail : String
  pub manual : Bool
  pub in_maintenance : Bool
