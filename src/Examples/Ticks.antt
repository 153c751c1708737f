-- ===== src/Examples/Ticks.antt =====
-- A component with one monitor that fails, and the theorems on detection at it
-- (internal/core/detect.go).
use container_app_service_mo.Base.{ℕ, ◌≡◌, refl, Bool, true, false, [], ◌∷◌, arith, String}
use container_app_service_mo.Model.{Verdict, up, down, error, is_down, Sample, Rollup}
use container_app_service_mo.Detection.{
  State, StateKind, Monitor, Component, advance_monitor, tally, roll_verdict,
}
use container_app_service_mo.Detection.Changes.{Incident, investigating, open_auto_incident}
use container_app_service_mo.Detection.Ticks.{
  Db, new_state, roll_up, detect, find_state, monitor_states,
}
use container_app_service_mo.Detection.Runs.{
  advance_run, downs-declare, errors-mask, IsSettled, advance_monitor-IsSettled, IsMove,
  advance_monitor-IsMove,
}
use container_app_service_mo.Detection.Rules.{roll_verdict-is_bad}
use container_app_service_mo.Detection.Alerts.{IsLawful, detect-IsLawful}
use container_app_service_mo.Detection.Incidents.{IsTied, open_auto_incident-IsTied}
use container_app_service_mo.Detection.Written.{
  IsChanged, states_written, roll_up-IsChanged, called_for,
}

abbrev reading : ℕ → Verdict → Sample
reading at verdict = record {
  id = "smp";
  monitor_id = "a";
  component_id = "api";
  service_id = "shop";
  started_at = at;
  duration_ms = 42;
  verdict = verdict;
  detail = "timeout";
  manual = false;
  in_maintenance = true;
}

abbrev monitor_a : Monitor
monitor_a = record {
  id = "a";
  component_id = "api";
  enabled = true;
  failure_threshold = 3;
  recovery_threshold = 2;
}

abbrev api : Component
api = record { id = "api"; service_id = "shop"; name = "API"; rollup = Rollup.any }

abbrev fresh : State
fresh = new_state StateKind.monitor "a" 100

abbrev failed : State
failed = record fresh { verdict = down; raw = down; consecutive = 3 }

abbrev open_incident : Incident
open_incident = record {
  id = "inc_1";
  service_id = "shop";
  components = "api";
  status = investigating;
  opened_at = 90;
  resolved_at = 0;
  auto = true;
  triggers = [];
}

abbrev db : Db
db = record {
  monitors = monitor_a ∷ [];
  components = api ∷ [];
  states = [];
  incidents = open_incident ∷ [];
}

abbrev like_any : String → String → Bool
like_any pattern text = true

downs-declare_example :
    is_down
      (advance_run fresh monitor_a
        (reading 130 down ∷ reading 160 down ∷ reading 190 down ∷ [])).verdict
    ≡ true
downs-declare_example =
    downs-declare fresh monitor_a (reading 130 down ∷ reading 160 down ∷ reading 190 down ∷ []) refl
      (omega arith) (refl, (refl, (refl, tt)))

errors-mask_example :
    is_down
      (advance_run fresh monitor_a
        (reading 130 error ∷ reading 160 down ∷ reading 190 error ∷ reading 220 down ∷ [])).verdict
    ≡ false
errors-mask_example =
    errors-mask fresh monitor_a
      (reading 130 error ∷ reading 160 down ∷ reading 190 error ∷ reading 220 down ∷ []) refl
      (omega arith) ((λ h. absurd (cc h)), ((λ h. refl), ((λ h. absurd (cc h)), ((λ h. refl), tt))))

fresh-IsSettled : IsSettled fresh monitor_a
fresh-IsSettled = record { falling = λ h. omega arith; rising = λ v d e h. absurd (cc h) }

advance_monitor-IsSettled_example : IsSettled (advance_monitor fresh monitor_a down 130) monitor_a
advance_monitor-IsSettled_example =
    advance_monitor-IsSettled fresh monitor_a 130 down (omega arith) (omega arith) fresh-IsSettled

advance_monitor-IsMove_example :
    IsMove fresh (advance_monitor fresh monitor_a down 130) monitor_a down 130
advance_monitor-IsMove_example = advance_monitor-IsMove fresh monitor_a down 130

roll_verdict-is_bad_example :
    is_down (roll_verdict Rollup.majority (tally (failed ∷ fresh ∷ []))) ≡ false
roll_verdict-is_bad_example = roll_verdict-is_bad Rollup.majority (failed ∷ fresh ∷ [])

detect-IsLawful_example :
    IsLawful db.incidents (detect like_any db (reading 190 down ∷ []) 190 (λ id. "inc_2"))
detect-IsLawful_example = detect-IsLawful like_any db (reading 190 down ∷ []) 190 (λ id. "inc_2")

open_auto_incident-IsTied_example :
    IsTied like_any api
      (open_incident ∷ [])
      "inc_2"
      (open_auto_incident like_any (open_incident ∷ []) api (reading 190 down ∷ []) 190 "inc_2")
open_auto_incident-IsTied_example =
    open_auto_incident-IsTied like_any api (open_incident ∷ []) (reading 190 down ∷ []) 190 "inc_2"

roll_up-IsChanged_example :
    (st : State) × (states_written
        (roll_up like_any db api (failed ∷ []) (reading 190 down ∷ []) 190 "inc_2").ops
      ≡ st ∷ [])
    × IsChanged
        (open_auto_incident like_any db.incidents api (reading 190 down ∷ []) 190 "inc_2").0
        up
        (called_for db api (failed ∷ []))
        190
        st
unfolding find_state monitor_states tally roll_verdict
roll_up-IsChanged_example =
    roll_up-IsChanged like_any db api (failed ∷ []) (reading 190 down ∷ []) 190 "inc_2"
      (omega arith) refl
