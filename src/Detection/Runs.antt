-- ===== src/Detection/Runs.antt =====
-- The thresholds of `advanceMonitor` (internal/core/detect.go) over runs of readings.
use container_app_service_mo.Base.{
  ℕ, ◌≡◌, ◌∙◌, ◌<◌, ◌≤◌, ◌+◌, Bool, true, false, List, [], ◌∷◌, arith, All, if◌then◌else◌, leb,
  length, Bool-cases, inl, inr,
}
use container_app_service_mo.Model.{Verdict, down, is_down, is_error, same_verdict, Sample}
use container_app_service_mo.Detection.{State, Monitor, advance_monitor}

-- The readings of a monitor, tick after tick; each tick is at the instant of its reading.
unfoldable pub advance_run : State → Monitor → List Sample → State
unfolding advance_monitor
advance_run st mon [] = st
advance_run st mon (s ∷ ss) = advance_run (advance_monitor st mon s.verdict s.started_at) mon ss

-- The length of the run of this verdict that the state ends with.
abbrev pub run_of : Verdict → State → ℕ
run_of v st = if same_verdict st.raw v then st.consecutive else 0

abbrev pub AllSay : Verdict → List Sample → Type 0
AllSay v = All (λ s. s.verdict ≡ v)

stay_down :
    (st : State) (mon : Monitor) (ss : List Sample)
    → is_down st.verdict ≡ true
    → AllSay down ss
    → is_down (advance_run st mon ss).verdict ≡ true
unfolding advance_run
stay_down st mon [] h a = h
stay_down st mon (s ∷ ss) h a =
    stay_down (advance_monitor st mon s.verdict s.started_at) mon ss (ground (arith, a.0)) a.1

module _ (st : State) (mon : Monitor) (now : ℕ) where
  step_down :
      (v : Verdict)
      → v ≡ down
      → is_down st.verdict ≡ false
      → let st' = advance_monitor st mon v now in
        (run_of down st' ≡ run_of down st + 1)
        × (is_down st'.verdict ≡ leb mon.failure_threshold (run_of down st + 1))
  unfolding advance_monitor
  step_down v e h = ground arith

-- From a state that is not down, whose run of down readings is below the failure threshold,
-- further down readings declare the monitor down exactly when the run together with them reaches
-- the threshold.
pub downs-declare :
    (st : State) (mon : Monitor) (ss : List Sample)
    → is_down st.verdict ≡ false
    → run_of down st < mon.failure_threshold
    → AllSay down ss
    → is_down (advance_run st mon ss).verdict
      ≡ leb mon.failure_threshold (run_of down st + length ss)
unfolding advance_run
downs-declare st mon [] h k a = ground (arith, h, k)
downs-declare st mon (s ∷ ss) h k a =
    let st' : State = advance_monitor st mon s.verdict s.started_at in
    let one = step_down st mon s.started_at s.verdict a.0 h in
    elim (Bool-cases (leb mon.failure_threshold (run_of down st + 1))) [
      | inl on ↦ ground (arith, one.1, on, stay_down st' mon ss (one.1 ∙ on) a.1)
      | inr off ↦
          ground (arith, one.0, downs-declare st' mon ss (one.1 ∙ off) (ground (arith, one.0)) a.1)
    ]

-- A state that is not down after a run of some other verdict.
stay_up :
    (v : Verdict) (st : State) (mon : Monitor) (ss : List Sample)
    → is_down v ≡ false
    → is_error v ≡ false
    → st.verdict ≡ v
    → AllSay v ss
    → (advance_run st mon ss).verdict ≡ v
unfolding advance_run
stay_up v st mon [] d e h a = h
stay_up v st mon (s ∷ ss) d e h a =
    stay_up v (advance_monitor st mon s.verdict s.started_at) mon ss d e (ground (arith, a.0)) a.1

module _ (v : Verdict) (st : State) (mon : Monitor) (now : ℕ) where
  step_up :
      (w : Verdict)
      → w ≡ v
      → is_down v ≡ false
      → is_error v ≡ false
      → st.verdict ≡ down
      → let st' = advance_monitor st mon w now in
        (run_of v st' ≡ run_of v st + 1)
        × (st'.verdict ≡ (if leb mon.recovery_threshold (run_of v st + 1) then v else down))
  unfolding advance_monitor
  step_up w e d r h = ground arith

-- From a state that is down, whose run of one passing verdict is below the recovery threshold,
-- further readings of that verdict give the monitor that verdict when the run together with them
-- reaches the threshold, and leave it down otherwise.
pub passes-recover :
    (v : Verdict) (st : State) (mon : Monitor) (ss : List Sample)
    → is_down v ≡ false
    → is_error v ≡ false
    → st.verdict ≡ down
    → run_of v st < mon.recovery_threshold
    → AllSay v ss
    → (advance_run st mon ss).verdict
      ≡ (if leb mon.recovery_threshold (run_of v st + length ss) then v else down)
unfolding advance_run
passes-recover v st mon [] d r h k a = ground (arith, h, k)
passes-recover v st mon (s ∷ ss) d r h k a =
    let st' : State = advance_monitor st mon s.verdict s.started_at in
    let one = step_up v st mon s.started_at s.verdict a.0 d r h in
    elim (Bool-cases (leb mon.recovery_threshold (run_of v st + 1))) [
      | inl on ↦ ground (arith, one.1, on, stay_up v st' mon ss d r (ground (arith, one.1, on)) a.1)
      | inr off ↦ ground (
        arith,
        one.0,
        passes-recover v st' mon ss d r (ground (arith, one.1, off)) (ground (arith, one.0)) a.1,
      )
    ]

-- No run that the state ends with has reached its threshold already.
pub record IsSettled (st : State) (mon : Monitor) : Type 0 where
  pub falling : is_down st.verdict ≡ false → run_of down st < mon.failure_threshold
  pub rising :
      (v : Verdict)
      → is_down v ≡ false
      → is_error v ≡ false
      → is_down st.verdict ≡ true
      → run_of v st < mon.recovery_threshold

module _ (st : State) (mon : Monitor) (now : ℕ) where
  -- With positive thresholds every reading keeps the run that a state ends with below the
  -- threshold that it counts towards.
  pub advance_monitor-IsSettled :
      (v : Verdict)
      → 0 < mon.failure_threshold
      → 0 < mon.recovery_threshold
      → IsSettled st mon
      → IsSettled (advance_monitor st mon v now) mon
  unfolding advance_monitor
  advance_monitor-IsSettled v f r i = record {
    falling = λ h. ground (arith, f, r, i.falling);
    rising = λ w d e h. ground (arith, f, r, i.rising w d e);
  }

-- What one reading may do to the verdict.
pub record IsMove (st st' : State) (mon : Monitor) (v : Verdict) (now : ℕ) : Type 0 where
  pub kept : same_verdict st'.verdict st.verdict ≡ true → st'.since ≡ st.since
  pub moved : same_verdict st'.verdict st.verdict ≡ false → (st'.verdict ≡ v) × (st'.since ≡ now)
  pub fell :
      is_down st.verdict ≡ false
      → is_down st'.verdict ≡ true
      → (v ≡ down) × (mon.failure_threshold ≤ run_of down st')
  pub rose :
      is_down st.verdict ≡ true
      → is_down st'.verdict ≡ false
      → (mon.recovery_threshold ≤ run_of v st')

-- A reading that does not change the verdict leaves the instant of the last change; one that does
-- gives the reading's verdict and instant; the verdict falls to down only by a down reading whose
-- run reaches the failure threshold, and rises from down only by a reading whose run reaches the
-- recovery threshold.
pub advance_monitor-IsMove :
    (st : State) (mon : Monitor) (v : Verdict) (now : ℕ)
    → IsMove st (advance_monitor st mon v now) mon v now
unfolding advance_monitor
advance_monitor-IsMove st mon v now = record {
  kept = λ h. ground arith;
  moved = λ h. ground arith;
  fell = λ h k. ground arith;
  rose = λ h k. ground arith;
}

-- Every reading of down follows directly on an error.
abbrev pub Interrupted : Bool → List Sample → Type 0
Interrupted after [] = Unit
Interrupted after (s ∷ ss) = (s.verdict ≡ down → after ≡ true) × Interrupted (is_error s.verdict) ss

step_interrupted :
    (st : State) (mon : Monitor) (v : Verdict) (now : ℕ)
    → is_down st.verdict ≡ false
    → 1 < mon.failure_threshold
    → (v ≡ down → is_error st.raw ≡ true)
    → let st' = advance_monitor st mon v now in
      (is_down st'.verdict ≡ false) × (is_error st'.raw ≡ is_error v)
unfolding advance_monitor
step_interrupted st mon v now h k i = (ground arith, ground arith)

-- With a failure threshold above one, a monitor that is not down is never declared down by
-- readings of which each down one follows directly on an error, however many they are.
pub errors-mask :
    (st : State) (mon : Monitor) (ss : List Sample)
    → is_down st.verdict ≡ false
    → 1 < mon.failure_threshold
    → Interrupted (is_error st.raw) ss
    → is_down (advance_run st mon ss).verdict ≡ false
unfolding advance_run
errors-mask st mon [] h k i = h
errors-mask st mon (s ∷ ss) h k i =
    let one = step_interrupted st mon s.verdict s.started_at h k i.0 in
    errors-mask (advance_monitor st mon s.verdict s.started_at) mon ss one.0 k (rw one.1 i.1)
