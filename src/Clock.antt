-- ===== src/Clock.antt =====
-- internal/clock and internal/model/clock.go: what the monitor knows of an enclave's clock.
pub mod Decide
pub mod Answers
pub mod Rounds
pub mod Grounds
pub mod Silence
pub mod Counting
pub mod Tracked
use text.Mathlib.Text.{◌==◌ as str_eq}
use container_app_service_mo.Base.{
  ℕ, ◌+◌, Bool, true, false, not, ◌&&◌, ◌||◌, ◌==◌, if◌then◌else◌, leb, ltb, String, Option, none,
  some,
}
use container_app_service_mo.Base.Int.{ℤ, pos, ◌+ℤ◌, ◌-ℤ◌, ltb_ℤ, leb_ℤ, i64, quot}

-- What the code calls of Go's package strings, and of the control plane.
pub record Library : Type 0 where
  pub equal_fold : String → String → Bool
  pub contains : String → String → Bool
  pub to_lower : String → String

pub data PollOutcome : Type 0 where
  ok unreachable unverified refused invalid : PollOutcome

abbrev pub is_unreachable : PollOutcome → Bool
is_unreachable unreachable = true
is_unreachable _ = false

-- The word of a runtime's verdict, with its spelling where it is none of the three.
pub data ClockVerdict : Type 0 where
  in_sync monitor_clock_wrong host_clock_wrong : ClockVerdict
  another : String → ClockVerdict

pub record ClockReading : Type 0 where
  pub id : String
  pub enclave_id : String
  pub sent_ms : ℤ
  pub monitor_ms : ℤ
  pub outcome : PollOutcome
  pub error : String
  pub http_status : ℕ
  pub host_ms : ℤ
  pub trusted_ms : ℤ
  pub flagged : Bool
  pub reason : String
  pub verdict : ClockVerdict
  pub nts_ms : ℤ
  pub config_key_id : String
  pub drift_ms : ℤ

-- The text of a reason, as the words and numbers that it is printed from.
pub data Reason : Type 0 where
  wrong_host : ℤ → ℤ → ℤ → Reason
  no_trusted_time frozen failed_closed : String → Reason
  drifted : ℤ → ℤ → ℤ → Reason
  back_in_sync : ℤ → Reason
  silent : ℕ → String → Reason
  was_flagged : String → PollOutcome → Reason
  never_acknowledged : ℕ → Reason
  now_acknowledged : ℕ → Reason

pub record ClockEnclave : Type 0 where
  pub enclave_id : String
  pub name : String
  pub tee_type : String
  pub mgr_hostname : String
  pub last_reading_id : String
  pub last_outcome : Option PollOutcome
  pub last_ms : ℤ
  pub last_ok_ms : ℤ
  pub last_verdict : Option ClockVerdict
  pub last_flagged : Bool
  pub last_reason : String
  pub last_drift_ms : ℤ
  pub last_host_ms : ℤ
  pub last_config_key : String
  pub config_missing : Bool
  pub failed_polls : ℕ
  pub quarantined : Bool
  pub quarantined_ms : ℤ
  pub quarantine_reason : Option Reason
  pub updated_ms : ℤ

-- A runtime as the control plane lists it. A version is not negative.
pub record Enclave : Type 0 where
  pub id : String
  pub kind : String
  pub name : String
  pub tee_type : String
  pub mgr_hostname : String
  pub clock_config_version : ℕ
  pub quarantined : Bool
  pub quarantine_reason : Option Reason
  pub clock_config_current : ℕ
  pub clock_config_known : Bool

abbrev pub clock_armed : Enclave → Bool
clock_armed e =
    e.clock_config_known
    && (ltb 0 e.clock_config_current && leb e.clock_config_current e.clock_config_version)

abbrev pub clock_never_configured : Enclave → Bool
clock_never_configured e = e.clock_config_known && e.clock_config_version == 0

abbrev pub is_vault : Library → Enclave → Bool
is_vault lib e = lib.equal_fold e.kind "vault"

-- `Drift`, on int64: the host's time less the monitor's at the midpoint of the round trip.
unfoldable pub drift : ℤ → ℤ → ℤ → ℤ
unfolding i64 quot
drift host_ms sent_ms received_ms =
    i64 (host_ms -ℤ i64 (sent_ms +ℤ quot (i64 (received_ms -ℤ sent_ms)) (pos 2)))

-- `abs`, on int64.
abbrev pub abs : ℤ → ℤ
abs v = if ltb_ℤ v (pos 0) then i64 (pos 0 -ℤ v) else v

abbrev pub tolerance : ℤ
tolerance = pos 10000

abbrev pub is_zero : ℤ → Bool
is_zero v = leb_ℤ v (pos 0) && leb_ℤ (pos 0) v
