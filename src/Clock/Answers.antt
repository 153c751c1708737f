-- ===== src/Clock/Answers.antt =====
-- internal/clock/service.go: the reading that `Poll` records of what the poller returns.
use text.Mathlib.Text.{◌==◌ as str_eq}
use container_app_service_mo.Base.{ℕ, Bool, false, ◌==◌, if◌then◌else◌, String, Option, none, some}
use container_app_service_mo.Base.Int.{ℤ, pos}
use container_app_service_mo.Clock.{
  ok, unreachable, unverified, refused, invalid, ClockVerdict, ClockReading, Enclave, drift,
}

-- A runtime's answer to a floor.
pub record PollReply : Type 0 where
  pub enclave_id : String
  pub host_time_ms : ℤ
  pub trusted_time_ms : ℤ
  pub flagged : Bool
  pub reason : String
  pub verdict : ClockVerdict
  pub nts_ms : ℤ
  pub config_key_id : String

-- What the poller returns: an error of one of three kinds, or a status with its body, parsed or not.
pub data PollAnswer : Type 0 where
  no_connection not_verified own_failure : String → PollAnswer
  answered : ℕ → String → Option PollReply → PollAnswer

-- The reading before the answer is looked at.
abbrev pub blank_reading : Enclave → String → ℤ → ℤ → ClockReading
blank_reading e id sent received = record {
  id = id;
  enclave_id = e.id;
  sent_ms = sent;
  monitor_ms = received;
  outcome = invalid;
  error = "";
  http_status = 0;
  host_ms = pos 0;
  trusted_ms = pos 0;
  flagged = false;
  reason = "";
  verdict = ClockVerdict.another "";
  nts_ms = pos 0;
  config_key_id = "";
  drift_ms = pos 0;
}

abbrev pub reading_of_reply : Enclave → ClockReading → PollReply → ClockReading
reading_of_reply e r rep =
    if str_eq rep.enclave_id e.id
    then record r {
      outcome = ok;
      host_ms = rep.host_time_ms;
      trusted_ms = rep.trusted_time_ms;
      flagged = rep.flagged;
      reason = rep.reason;
      verdict = rep.verdict;
      nts_ms = rep.nts_ms;
      config_key_id = rep.config_key_id;
      drift_ms = drift rep.host_time_ms r.sent_ms r.monitor_ms;
    }
    else record r { outcome = invalid; error = rep.enclave_id }

-- The `switch` of `Poll` on the answer; `none` is a failure of the monitor's own side, which is not
-- recorded. The error of an invalid answer is the part of its text that varies.
unfoldable pub reading_of : Enclave → String → ℤ → ℤ → PollAnswer → Option ClockReading
unfolding drift
reading_of e id sent received (no_connection why) =
    some (record (blank_reading e id sent received) { outcome = unreachable; error = why })
reading_of e id sent received (not_verified why) =
    some (record (blank_reading e id sent received) { outcome = unverified; error = why })
reading_of e id sent received (own_failure why) = none
reading_of e id sent received (answered status body none) =
    some (record (blank_reading e id sent received) {
      http_status = status;
      error = body;
      outcome = if status == 200 then invalid else refused;
    })
reading_of e id sent received (answered status body (some rep)) =
    let r = record (blank_reading e id sent received) { http_status = status } in
    some (
      if status == 200
      then reading_of_reply e r rep
      else record r { outcome = refused; error = body })
