-- ===== src/Services/Monitor/EventLog.antt =====
-- The event log after any sequence of events.
use ghost_meter.Prelude.{ℕ, ◌≡◌, refl, List, [], ◌∷◌, take, zero, suc, sym}
use ghost_meter.Deque
use ghost_meter.Deque.{append}
use ghost_meter.Services.Monitor.{EventLogEntry, MonitorService, new_monitor, log_event, get_events}

-- The events are logged, the first one first.
unfoldable pub log_all : MonitorService → List EventLogEntry → MonitorService
log_all s [] = s
log_all s (e ∷ events) =
    log_all (log_event s e.timestamp e.device_id e.device_name e.event_type e.detail) events

-- The events so far, the newest first.
unfoldable pub newest_first : List EventLogEntry → List EventLogEntry → List EventLogEntry
newest_first seen [] = seen
newest_first seen (e ∷ events) = newest_first (e ∷ seen) events

log_event-take :
    (s : MonitorService) (seen : List EventLogEntry) (e : EventLogEntry)
    → get_events s ≡ take s.max_events seen
    → get_events (log_event s e.timestamp e.device_id e.device_name e.event_type e.detail)
      ≡ take s.max_events (e ∷ seen)
unfolding get_events log_event
log_event-take s seen e h = Deque.reverse-append s.max_events s.event_log seen e h

log_all-take :
    (s : MonitorService) (seen events : List EventLogEntry)
    → get_events s ≡ take s.max_events seen
    → get_events (log_all s events) ≡ take s.max_events (newest_first seen events)
unfolding log_all newest_first log_event
log_all-take s seen [] h = h
log_all-take s seen (e ∷ events) h =
    log_all-take (log_event s e.timestamp e.device_id e.device_name e.event_type e.detail)
      (e ∷ seen) events (log_event-take s seen e h)

take-nil : (n : ℕ) → take {A = EventLogEntry} n [] ≡ []
take-nil zero = refl
take-nil (suc n) = refl

-- After any events a new log with room for n shows the n newest of them, the newest first.
pub get_events-log_all :
    (max_events : ℕ) (events : List EventLogEntry)
    → get_events (log_all (new_monitor max_events) events)
      ≡ take max_events (newest_first [] events)
unfolding get_events
get_events-log_all max_events events =
    log_all-take (new_monitor max_events) [] events (sym (take-nil max_events))
