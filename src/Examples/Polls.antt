-- ===== src/Examples/Polls.antt =====
-- An enclave that goes silent, and the theorems on polls at it (internal/clock).
use container_app_service_mo.Base.{◌≡◌, true, false, String, none, some, All}
use container_app_service_mo.Base.Int.{pos}
use container_app_service_mo.Clock.{
  Library, ok, unreachable, ClockVerdict, host_clock_wrong, ClockReading, Reason, ClockEnclave,
  Enclave,
}
use container_app_service_mo.Clock.Decide.{ClockOp}
use container_app_service_mo.Clock.Rounds.{CallResult, Held, poll}
use container_app_service_mo.Clock.Tracked.{Rests, MayQuarantine, MayRelease, poll-Rests}
use container_app_service_mo.Clock.Silence.{quarantines, poll-quarantines}

-- Strings are compared as they stand, and no text contains another.
abbrev library : Library
library = record {
  equal_fold = λ a b. false;
  contains = λ text part. false;
  to_lower = λ text. text;
}

abbrev accepts : ClockOp → String → Reason → CallResult
accepts op id reason = record { status = 200; failure = none }

abbrev enclave : Enclave
enclave = record {
  id = "enc_1";
  kind = "enclave";
  name = "EU 1";
  tee_type = "sgx";
  mgr_hostname = "";
  clock_config_version = 4;
  quarantined = false;
  quarantine_reason = none;
  clock_config_current = 4;
  clock_config_known = true;
}

abbrev position : ClockEnclave
position = record {
  enclave_id = "enc_1";
  name = "EU 1";
  tee_type = "sgx";
  mgr_hostname = "";
  last_reading_id = "clk_0";
  last_outcome = some unreachable;
  last_ms = pos 1000;
  last_ok_ms = pos 0;
  last_verdict = none;
  last_flagged = false;
  last_reason = "";
  last_drift_ms = pos 0;
  last_host_ms = pos 0;
  last_config_key = "";
  config_missing = false;
  failed_polls = 1;
  quarantined = false;
  quarantined_ms = pos 0;
  quarantine_reason = none;
  updated_ms = pos 1000;
}

abbrev held : Held
held = record { position = position; listed = some enclave; standing = none }

-- The platform shows a quarantine that an operator placed.
abbrev held_out : Held
held_out = record held { listed = some (record enclave { quarantined = true }) }

abbrev silence : ClockReading
silence = record {
  id = "clk_1";
  enclave_id = "enc_1";
  sent_ms = pos 301000;
  monitor_ms = pos 302000;
  outcome = unreachable;
  error = "no route";
  http_status = 0;
  host_ms = pos 0;
  trusted_ms = pos 0;
  flagged = false;
  reason = "";
  verdict = ClockVerdict.another "";
  nts_ms = pos 0;
  config_key_id = "";
  drift_ms = pos 0;
}

abbrev wrong_answer : ClockReading
wrong_answer = record silence { outcome = ok; verdict = host_clock_wrong; config_key_id = "key" }

poll-quarantines_example :
    quarantines (poll accepts library "key" enclave held silence (pos 303000)) ≡ true
poll-quarantines_example = poll-quarantines accepts library "key" enclave held silence (pos 303000)

poll-Rests_example :
    All
      (Rests
        (MayQuarantine accepts library "key" enclave held silence (pos 303000))
        (MayRelease accepts library "key" enclave held silence (pos 303000)))
      (poll accepts library "key" enclave held silence (pos 303000)).actions
poll-Rests_example = poll-Rests accepts library "key" enclave held silence (pos 303000)
