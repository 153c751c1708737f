-- ===== src/Examples/Service.antt =====
-- A component with two monitors, and a period of two minutes with a window (internal/availability).
use container_app_service_mo.Base.{ℕ, true, List, [], ◌∷◌, String}
use container_app_service_mo.Base.Int.{pos}
use container_app_service_mo.Model.{Verdict, up, down, Bucket, Rollup}
use container_app_service_mo.Availability.Interval.{Interval}
use container_app_service_mo.Availability.Compute.{Exclusion, ComponentInput, Input}
use container_app_service_mo.Availability.Compute.Objectives.{
  Objective, availability as availability_metric,
}

abbrev pub bucket : String → ℕ → ℕ → ℕ → ℕ → Verdict → Bucket
bucket id start width ups downs verdict = record {
  monitor_id = id;
  component_id = "api";
  service_id = "shop";
  start = start;
  width = width;
  up_count = ups;
  degraded_count = 0;
  down_count = downs;
  error_count = 0;
  maint_count = 0;
  latency_p50 = 12;
  latency_p95 = 40;
  latency_max = 55;
  verdict = verdict;
}

-- The coarse bucket of monitor a says up; the finer one inside it says down.
abbrev pub buckets : List Bucket
buckets = bucket "a" 0 60 5 0 up ∷ bucket "a" 20 10 0 2 down ∷ bucket "b" 0 60 6 0 up ∷ []

abbrev pub window : Exclusion
window = record {
  window_id = "mnt_1";
  class = "planned";
  title = "upgrade";
  declared_at = 0;
  lead_time = pos 90000;
  from = 80;
  to = 100;
  seconds = 0;
  applied = true;
  reason = "";
  tx_id = "tx_1";
}

abbrev pub api : ComponentInput
api = record {
  id = "api";
  name = "API";
  user_weight = pos 3;
  rollup = Rollup.any;
  buckets = buckets;
}

abbrev pub input : Input
input = record {
  period = record { from = 0; to = 120 };
  scheduled = record { from = 0; to = 60 } ∷ record { from = 70; to = 200 } ∷ [];
  exclusions = window ∷ [];
  components = api ∷ [];
}

abbrev pub three_nines : Objective
three_nines = record {
  id = "slo_1";
  name = "availability";
  metric = availability_metric;
  window = "month";
  target_ppm = pos 999000;
  latency_budget_ms = pos 0;
  credits =
      record { below_ppm = pos 999000; credit_percent = pos 10 }
      ∷ record { below_ppm = pos 950000; credit_percent = pos 25 }
      ∷ [];
}

-- Out of order, and overlapping.
abbrev pub two_intervals : List Interval
two_intervals = record { from = 40; to = 90 } ∷ record { from = 4; to = 50 } ∷ []
