-- ===== src/Detection.antt =====
-- internal/core/detect.go: readings turned into the state of a monitor, and of a component.
pub mod Changes
pub mod Ticks
pub mod Runs
pub mod Rules
pub mod Alerts
pub mod Incidents
pub mod Written
use container_app_service_mo.Base.{
  ℕ, zero, suc, ◌+◌, ◌-◌, ◌*◌, Bool, true, false, not, ◌&&◌, ◌||◌, List, [], ◌∷◌, if◌then◌else◌,
  ltb, leb, ◌==◌, String, Option, none, some,
}
use container_app_service_mo.Model.{
  Verdict, up, degraded, down, error, unset, is_up, is_down, is_error, is_unset, same_verdict,
  worse_verdict, Rollup,
}

pub data StateKind : Type 0 where
  monitor component service : StateKind

-- A row of the table `states`.
pub record State : Type 0 where
  pub subject : String
  pub kind : StateKind
  pub verdict : Verdict
  pub raw : Verdict
  pub since : ℕ
  pub consecutive : ℕ
  pub flaps : ℕ
  pub flaps_since : ℕ
  pub incident_id : String
  pub updated_at : ℕ

-- What detection reads of a monitor's definition.
pub record Monitor : Type 0 where
  pub id : String
  pub component_id : String
  pub enabled : Bool
  pub failure_threshold : ℕ
  pub recovery_threshold : ℕ

pub record Component : Type 0 where
  pub id : String
  pub service_id : String
  pub name : String
  pub rollup : Rollup

-- The last `switch` of `advanceMonitor`, after the run was counted.
abbrev pub settle : State → Monitor → Verdict → ℕ → State
settle st mon verdict now =
    let moved = record st { verdict = verdict; since = now } in
    if not (is_down st.verdict) && is_down verdict
    then (if leb mon.failure_threshold st.consecutive then moved else st)
    else if is_down st.verdict && not (is_down verdict)
    then (if leb mon.recovery_threshold st.consecutive then moved else st)
    else if same_verdict st.verdict verdict
    then st
    else moved

-- The run of equal readings that ends with this one.
abbrev pub count_run : State → Verdict → State
count_run st verdict =
    if same_verdict st.raw verdict
    then record st { consecutive = st.consecutive + 1 }
    else record st { raw = verdict; consecutive = 1 }

unfoldable pub advance_monitor : State → Monitor → Verdict → ℕ → State
advance_monitor st mon verdict now =
    let seen = record st { updated_at = now } in
    if is_error verdict
    then record seen { raw = error }
    else settle (count_run seen verdict) mon verdict now

-- The state of a monitor that counts for its component.
abbrev pub is_known : State → Bool
is_known st = not (is_unset st.verdict || is_error st.raw && (is_up st.verdict && st.since == 0))

-- `seen`, `down` and `worst` after the loop over a component's monitors.
pub record Tally : Type 0 where
  pub seen : ℕ
  pub down : ℕ
  pub worst : Verdict

abbrev pub add_state : State → Tally → Tally
add_state st t = record {
  seen = t.seen + 1;
  down = if is_down st.verdict then t.down + 1 else t.down;
  worst = worse_verdict t.worst st.verdict;
}

unfoldable pub tally_from : Tally → List State → Tally
unfolding worse_verdict
tally_from t [] = t
tally_from t (st ∷ sts) = tally_from (if is_known st then add_state st t else t) sts

unfoldable pub tally : List State → Tally
unfolding tally_from
tally sts = tally_from (record { seen = 0; down = 0; worst = up }) sts

-- `worst`, where the rule does not make the component down.
abbrev pub not_quite_down : Verdict → Verdict
not_quite_down v = if is_down v then degraded else v

-- The `switch` on the component's rule.
unfoldable pub roll_verdict : Rollup → Tally → Verdict
roll_verdict Rollup.all t = if t.down == t.seen then down else not_quite_down t.worst
roll_verdict Rollup.majority t = if ltb t.seen (t.down * 2) then down else not_quite_down t.worst
roll_verdict Rollup.any t = t.worst

abbrev pub flap_window : ℕ
flap_window = 3600

abbrev pub flap_threshold : ℕ
flap_threshold = 6

-- The flap counter after one more change.
abbrev pub count_flap : State → ℕ → State
count_flap st now =
    if ltb flap_window (now - st.flaps_since)
    then record st { flaps = 1; flaps_since = now }
    else record st { flaps = st.flaps + 1 }

abbrev pub is_flapping : State → Bool
is_flapping st = ltb flap_threshold st.flaps
