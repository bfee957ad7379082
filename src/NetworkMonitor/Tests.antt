-- ===== src/NetworkMonitor/Tests.antt =====
-- A monitor that goes offline and comes back.
use iwa_brook_quic.Base.{◌≡◌, refl, true, false, List, [], ◌∷◌}
use iwa_brook_quic.NetworkMonitor.{
  new_monitor, any_success, check_begins, check_ends, start_monitor, tick_monitor, MonitorEvent,
  starts, ticks, probes_settle, monitor_step, monitor_run,
}
use iwa_brook_quic.NetworkMonitor.Reports.{IsAfter, outcomes, monitor_run-IsAfter}

abbrev some_checks : List MonitorEvent
some_checks =
    starts
    ∷ probes_settle (false ∷ true ∷ false ∷ [])
    ∷ ticks
    ∷ probes_settle (false ∷ false ∷ false ∷ [])
    ∷ ticks
    ∷ ticks
    ∷ probes_settle (false ∷ false ∷ false ∷ [])
    ∷ ticks
    ∷ probes_settle (true ∷ [])
    ∷ []

reports_run : (monitor_run some_checks new_monitor).reports ≡ false ∷ true ∷ []
unfolding monitor_run monitor_step start_monitor tick_monitor check_begins check_ends any_success
reports_run = refl

monitor_run-IsAfter_example :
    IsAfter new_monitor (outcomes some_checks new_monitor) (monitor_run some_checks new_monitor)
monitor_run-IsAfter_example = monitor_run-IsAfter some_checks new_monitor
