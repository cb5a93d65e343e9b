-- ===== src/Services/Monitor.antt =====
-- The event log of `MonitorService`, backend/app/services/monitor_service.py, and its summary of
-- client writes. Times are numbers, and `asdict` and `isoformat` change no content.
pub mod EventLog
use ghost_meter.Prelude.{ℕ, String, Option, none, some, List, [], ◌∷◌, reverse}
use ghost_meter.Deque.{append}
use ghost_meter.Simulation.WriteTracker.{WriteTracker, WriteEvent, latest, get_unread_count}

pub record EventLogEntry : Type 0 where
  pub timestamp : ℕ
  pub device_id : ℕ
  pub device_name : String
  pub event_type : String
  pub detail : String

-- `max_events` is the deque's maxlen.
pub record MonitorService : Type 0 where
  pub max_events : ℕ
  pub event_log : List EventLogEntry

abbrev pub new_monitor : ℕ → MonitorService
new_monitor max_events = record { max_events = max_events; event_log = [] }

unfoldable pub log_event : MonitorService → ℕ → ℕ → String → String → String → MonitorService
log_event s now device_id device_name event_type detail = record s {
  event_log = append s.max_events s.event_log (record {
    timestamp = now;
    device_id = device_id;
    device_name = device_name;
    event_type = event_type;
    detail = detail;
  });
}

unfoldable pub get_events : MonitorService → List EventLogEntry
get_events s = reverse s.event_log

pub record WriteEventsPayload : Type 0 where
  pub unread : ℕ
  pub latest_data : Option WriteEvent

unfoldable pub build_write_events_payload : WriteTracker → ℕ → WriteEventsPayload
build_write_events_payload tracker device_id = record {
  unread = get_unread_count tracker device_id;
  latest_data = latest tracker device_id;
}
