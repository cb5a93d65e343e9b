-- ===== src/Tests/WriteTracker.antt =====
-- The write tracker at a short history of calls.
use ghost_meter.Prelude.{ℕ, ◌≡◌, refl, none, List, [], ◌∷◌, take, nat_eq, string_eq}
use ghost_meter.Dict.{get, get_or, put}
use ghost_meter.Floats.Exact.{exact}
use ghost_meter.Deque.{append}
use ghost_meter.Simulation.WriteTracker.{
  WriteEvent, get_events, get_unread_count, latest, init, record_event, mark_read,
  max_events_per_device,
}
use ghost_meter.Simulation.WriteTracker.History.{
  Call, record_call, mark_read_call, step, run, received, empty_inbox, head_of, run-received,
}

abbrev write_at : ℕ → WriteEvent
write_at now = record {
  timestamp = now;
  operation = "Write Register";
  address = 40;
  values = "7" ∷ [];
  register_name = none;
}

abbrev tracker_calls : List Call
tracker_calls =
    record_call 1 (write_at 10)
    ∷ (record_call 2 (write_at 11) ∷ (mark_read_call 1 ∷ (record_call 1 (write_at 12) ∷ [])))

run-received_example :
    (get_events (run init tracker_calls) 1
      ≡ take max_events_per_device (received 1 empty_inbox tracker_calls).events)
    × (get_unread_count (run init tracker_calls) 1 ≡ (received 1 empty_inbox tracker_calls).unread)
    × (latest (run init tracker_calls) 1 ≡ head_of (received 1 empty_inbox tracker_calls).events)
run-received_example = run-received 1 tracker_calls

tracker_events : get_events (run init tracker_calls) 1 ≡ write_at 12 ∷ (write_at 10 ∷ [])
unfolding run step record_event mark_read get_events append get put get_or
tracker_events = refl
