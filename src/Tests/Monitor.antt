-- ===== src/Tests/Monitor.antt =====
-- Three events in a log with room for two.
use ghost_meter.Prelude.{ℕ, ◌≡◌, refl, List, [], ◌∷◌, take}
use ghost_meter.Services.Monitor.{EventLogEntry, new_monitor, get_events}
use ghost_meter.Services.Monitor.EventLog.{log_all, newest_first, get_events-log_all}

abbrev event_at : ℕ → EventLogEntry
event_at now = record {
  timestamp = now;
  device_id = 1;
  device_name = "meter";
  event_type = "device_start";
  detail = "Device started";
}

abbrev three : List EventLogEntry
three = event_at 1 ∷ (event_at 2 ∷ (event_at 3 ∷ []))

get_events-log_all_example :
    get_events (log_all (new_monitor 2) three) ≡ take 2 (newest_first [] three)
get_events-log_all_example = get_events-log_all 2 three

two_newest : take 2 (newest_first [] three) ≡ event_at 3 ∷ (event_at 2 ∷ [])
unfolding newest_first
two_newest = refl
