-- ===== src/Examples/Tables.antt =====
-- Tables of readings with an hour that closes late, and the theorems on the folding at them
-- (internal/core/samples.go).
use container_app_service_mo.Base.{
  ℕ, ◌≡◌, refl, ◌+◌, true, false, [], ◌∷◌, ◌++◌, arith, select, sum_by,
}
use container_app_service_mo.Model.{Verdict, up, down, error, Sample}
use container_app_service_mo.Readings.{open_fold, add_sample, verdict}
use container_app_service_mo.Readings.Tables.{Tables, fold, fold_minutes, fold_hours}
use container_app_service_mo.Readings.Verdicts.{
  add_samples, verdict-add_samples, add_sample-error, add_buckets, verdict-add_buckets,
}
use container_app_service_mo.Readings.Counts.{bucket_size}
use container_app_service_mo.Readings.Once.{IsMarked, fold-appends}
use container_app_service_mo.Readings.Late.{is_part, fold_hours-misses}
use container_app_service_mo.Examples.Service.{bucket}

abbrev sample : ℕ → Verdict → Sample
sample at verdict = record {
  id = "smp";
  monitor_id = "a";
  component_id = "api";
  service_id = "shop";
  started_at = at;
  duration_ms = 42;
  verdict = verdict;
  detail = "";
  manual = false;
  in_maintenance = false;
}

-- Minute 3480 is folded; the readings of minute 3540 are not, and the hour ends at 3600.
abbrev tables : Tables
tables = record {
  samples = sample 3550 up ∷ sample 3590 down ∷ [];
  buckets = bucket "a" 3480 60 4 0 up ∷ [];
  fold_minute = 3540;
  fold_hour = 0;
}

tables-IsMarked : IsMarked tables
tables-IsMarked = record {
  minutes_before = (λ h. omega arith, tt);
  hours_before = (λ h. omega arith, tt);
  minute_aligned = refl;
  hour_aligned = refl;
}

-- The next hour.
abbrev later : Tables
later = record {
  samples = sample 7150 up ∷ sample 7190 down ∷ [];
  buckets = bucket "a" 7080 60 4 0 up ∷ [];
  fold_minute = 7140;
  fold_hour = 3600;
}

later-IsMarked : IsMarked later
later-IsMarked = record {
  minutes_before = (λ h. omega arith, tt);
  hours_before = (λ h. omega arith, tt);
  minute_aligned = refl;
  hour_aligned = refl;
}

-- One reading of two is down: an even split is down.
verdict-add_samples_example :
    verdict (add_samples (open_fold "a" "api" "shop" 3540 60) tables.samples) ≡ down
verdict-add_samples_example =
    verdict-add_samples (open_fold "a" "api" "shop" 3540 60) tables.samples (omega arith) refl

verdict-add_buckets_example :
    verdict (
      add_buckets
        (open_fold "a" "api" "shop" 0 3600)
        (bucket "a" 60 60 4 0 up ∷ bucket "a" 120 60 1 3 down ∷ []))
    ≡ down
verdict-add_buckets_example =
    verdict-add_buckets (open_fold "a" "api" "shop" 0 3600) (bucket "a" 60 60 4 0 up)
      (bucket "a" 120 60 1 3 down ∷ []) (omega arith) (refl, refl, refl, refl)

add_sample-error_example :
    (verdict (add_sample (open_fold "a" "api" "shop" 0 60) error 9000 true)
      ≡ verdict (open_fold "a" "api" "shop" 0 60))
    × ((add_sample (open_fold "a" "api" "shop" 0 60) error 9000 true).latencies ≡ [])
add_sample-error_example = add_sample-error (open_fold "a" "api" "shop" 0 60) 9000 true

fold-appends_example :
    (fold tables 3600).buckets
    ≡ tables.buckets ++ ((fold_minutes tables 3600).rows ++ (fold_hours tables 3600).rows)
fold-appends_example = fold-appends tables 3600 tables-IsMarked

-- The hour row counts four of the six readings that its minute rows count.
fold_hours-misses_example :
    (sum_by bucket_size (select (is_part 3600 7200) (fold later 7230).buckets)
      ≡ sum_by bucket_size (fold_hours later 7200).rows + 2)
    × ((fold later 7230).fold_hour ≡ 7200)
fold_hours-misses_example =
    fold_hours-misses later 7230 later-IsMarked (omega arith) (omega arith) (omega arith)
      (omega arith)
