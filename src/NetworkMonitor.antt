-- ===== src/NetworkMonitor.antt =====
-- brook-quicclient/src/core/network-monitor.js: the checks of the probe endpoints and what is reported.
pub mod Reports
mod Tests
use iwa_brook_quic.Base.{ℕ, ◌+◌, if◌then◌else◌, Bool, true, false, not, ◌||◌, List, [], ◌∷◌, ◌++◌}

-- The fields of a monitor; `intervalId` counts as set or not, and `reports` has the arguments that
-- `onStatusChange` was called with.
pub record NetworkMonitor : Type 0 where
  pub consecutive_failures : ℕ
  pub is_online : Bool
  pub is_checking : Bool
  pub is_running : Bool
  pub has_interval : Bool
  pub reports : List Bool

abbrev pub new_monitor : NetworkMonitor
new_monitor = record {
  consecutive_failures = 0;
  is_online = true;
  is_checking = false;
  is_running = false;
  has_interval = false;
  reports = [];
}

-- `results.some(...)`, over whether each probe was answered with an ok status.
unfoldable pub any_success : List Bool → Bool
any_success [] = false
any_success (r ∷ results) = r || any_success results

abbrev pub same_status : Bool → Bool → Bool
same_status true b = b
same_status false b = not b

-- `checkOnce` up to its `await`.
unfoldable pub check_begins : NetworkMonitor → NetworkMonitor
check_begins s = record s { is_checking = true }

-- The rest of `checkOnce`, with the results of the probes.
abbrev pub check_settled : Bool → NetworkMonitor → NetworkMonitor
check_settled success s = record s {
  consecutive_failures = if success then 0 else s.consecutive_failures + 1;
  is_online = success;
  is_checking = false;
  reports = if same_status s.is_online success then s.reports else s.reports ++ (success ∷ []);
}

unfoldable pub check_ends : List Bool → NetworkMonitor → NetworkMonitor
check_ends results s = if s.is_checking then check_settled (any_success results) s else s

unfoldable pub start_monitor : NetworkMonitor → NetworkMonitor
start_monitor s =
    if s.is_running then s else check_begins (record s { is_running = true; has_interval = true })

unfoldable pub stop_monitor : NetworkMonitor → NetworkMonitor
stop_monitor s = record s { is_running = false; has_interval = false }

-- A tick comes only while the interval is set.
unfoldable pub tick_monitor : NetworkMonitor → NetworkMonitor
tick_monitor s = if s.has_interval then check_begins s else s

pub data MonitorEvent : Type 0 where
  starts stops ticks checks : MonitorEvent
  probes_settle : List Bool → MonitorEvent

unfoldable pub monitor_step : MonitorEvent → NetworkMonitor → NetworkMonitor
monitor_step starts s = start_monitor s
monitor_step stops s = stop_monitor s
monitor_step ticks s = tick_monitor s
monitor_step checks s = check_begins s
monitor_step (probes_settle results) s = check_ends results s

unfoldable pub monitor_run : List MonitorEvent → NetworkMonitor → NetworkMonitor
monitor_run [] s = s
monitor_run (event ∷ events) s = monitor_run events (monitor_step event s)
