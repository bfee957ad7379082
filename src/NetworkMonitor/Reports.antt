-- ===== src/NetworkMonitor/Reports.antt =====
-- The monitor's state as a function of the outcomes of its checks.
use iwa_brook_quic.Base.{
  ℕ, ◌+◌, ◌≡◌, ◌∙◌, refl, sym, ap, if◌then◌else◌, either_way, Bool, true, false, List, [], ◌∷◌,
  ◌++◌, append-nil, append_assoc,
}
use iwa_brook_quic.NetworkMonitor.{
  NetworkMonitor, any_success, same_status, check_begins, check_settled, check_ends, start_monitor,
  stop_monitor, tick_monitor, MonitorEvent, starts, stops, ticks, checks, probes_settle,
  monitor_step, monitor_run,
}

-- The outcome of a check that a turn ends.
abbrev pub outcome : MonitorEvent → NetworkMonitor → List Bool
outcome (probes_settle results) s = if s.is_checking then any_success results ∷ [] else []
outcome _ s = []

abbrev pub outcomes : List MonitorEvent → NetworkMonitor → List Bool
outcomes [] s = []
outcomes (event ∷ events) s = outcome event s ++ outcomes events (monitor_step event s)

-- The last status, the failures since the last success, and the changes of status, from a first one.
unfoldable pub last_status : Bool → List Bool → Bool
last_status status [] = status
last_status status (o ∷ os) = last_status o os

unfoldable pub failures_after : ℕ → List Bool → ℕ
failures_after n [] = n
failures_after n (o ∷ os) = failures_after (if o then 0 else n + 1) os

unfoldable pub changes : Bool → List Bool → List Bool
changes status [] = []
changes status (o ∷ os) = if same_status status o then changes o os else o ∷ changes o os

-- What a monitor has come to, from another with some outcomes in between.
pub record IsAfter (s : NetworkMonitor) (os : List Bool) (t : NetworkMonitor) : Type 0 where
  pub online : t.is_online ≡ last_status s.is_online os
  pub failures : t.consecutive_failures ≡ failures_after s.consecutive_failures os
  pub reported : t.reports ≡ s.reports ++ changes s.is_online os

settled-IsAfter :
    (success : Bool) (s t : NetworkMonitor) (os : List Bool)
    → IsAfter (check_settled success s) os t
    → IsAfter s (success ∷ os) t
unfolding last_status failures_after changes
settled-IsAfter success s t os h = record {
  online = h.online;
  failures = h.failures;
  reported =
      either_way (λ (xs : List Bool). t.reports ≡ s.reports ++ xs) (same_status s.is_online success)
        (changes success os) (success ∷ changes success os) (λ e. rw e at h.reported)
        (λ e. (rw e at h.reported) ∙ append_assoc s.reports (success ∷ []) (changes success os));
}

-- A turn that ends no check leaves the status, the count and the reports alone.
record IsKept (s s' : NetworkMonitor) : Type 0 where
  online : s'.is_online ≡ s.is_online
  failures : s'.consecutive_failures ≡ s.consecutive_failures
  reported : s'.reports ≡ s.reports

kept-IsAfter :
    (s s' t : NetworkMonitor) (os : List Bool) → IsKept s s' → IsAfter s' os t → IsAfter s os t
kept-IsAfter s s' t os k h = record {
  online = h.online ∙ ap (λ b. last_status b os) k.online;
  failures = h.failures ∙ ap (λ n. failures_after n os) k.failures;
  reported =
      h.reported
      ∙ ap (λ xs. xs ++ changes s'.is_online os) k.reported
      ∙ ap (λ b. s.reports ++ changes b os) k.online;
}

start_monitor-IsKept : (s : NetworkMonitor) → IsKept s (start_monitor s)
unfolding start_monitor check_begins
start_monitor-IsKept s =
    either_way (IsKept s) s.is_running s
      (check_begins (record s { is_running = true; has_interval = true }))
      (λ _. record { online = refl; failures = refl; reported = refl })
      (λ _. record { online = refl; failures = refl; reported = refl })

tick_monitor-IsKept : (s : NetworkMonitor) → IsKept s (tick_monitor s)
unfolding tick_monitor check_begins
tick_monitor-IsKept s =
    either_way (IsKept s) s.has_interval (check_begins s) s
      (λ _. record { online = refl; failures = refl; reported = refl })
      (λ _. record { online = refl; failures = refl; reported = refl })

monitor_step-IsAfter :
    (event : MonitorEvent) (s t : NetworkMonitor) (os : List Bool)
    → IsAfter (monitor_step event s) os t
    → IsAfter s (outcome event s ++ os) t
unfolding monitor_step check_begins stop_monitor check_ends
monitor_step-IsAfter starts s t os h =
    kept-IsAfter s (start_monitor s) t os (start_monitor-IsKept s) h
monitor_step-IsAfter stops s t os h =
    kept-IsAfter s (stop_monitor s) t os
      (record { online = refl; failures = refl; reported = refl }) h
monitor_step-IsAfter ticks s t os h = kept-IsAfter s (tick_monitor s) t os (tick_monitor-IsKept s) h
monitor_step-IsAfter checks s t os h =
    kept-IsAfter s (check_begins s) t os
      (record { online = refl; failures = refl; reported = refl }) h
monitor_step-IsAfter (probes_settle results) s t os h = by_check s.is_checking h
  where
    by_check :
        (checking : Bool)
        → IsAfter (if checking then check_settled (any_success results) s else s) os t
        → IsAfter s ((if checking then any_success results ∷ [] else []) ++ os) t
    by_check true h' = settled-IsAfter (any_success results) s t os h'
    by_check false h' = h'

-- Whatever is started, stopped, ticked and probed: the monitor is online as the last check that came
-- to its end says, it counts the failures since the last success, and it has reported exactly the
-- changes of the status, in order, from the status and the reports that it began with.
pub monitor_run-IsAfter :
    (events : List MonitorEvent) (s : NetworkMonitor)
    → IsAfter s (outcomes events s) (monitor_run events s)
unfolding monitor_run last_status failures_after changes
monitor_run-IsAfter [] s = record {
  online = refl;
  failures = refl;
  reported = sym (append-nil s.reports);
}
monitor_run-IsAfter (event ∷ events) s =
    monitor_step-IsAfter event s (monitor_run events (monitor_step event s))
      (outcomes events (monitor_step event s)) (monitor_run-IsAfter events (monitor_step event s))
