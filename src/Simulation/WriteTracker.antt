-- ===== src/Simulation/WriteTracker.antt =====
-- backend/app/simulation/write_tracker.py: client write attempts, a ring buffer for each device.
-- The clock is an argument of `record_event`; device ids are UUIDs, as numbers.
pub mod History
use ghost_meter.Prelude.{ℕ, ◌+◌, String, Option, none, some, List, [], ◌∷◌, reverse, nat_eq}
use ghost_meter.Dict.{Dict, get, get_or, put, pop}
use ghost_meter.Deque.{append}

abbrev pub max_events_per_device : ℕ
max_events_per_device = 50

pub record WriteEvent : Type 0 where
  pub timestamp : ℕ
  pub operation : String
  pub address : ℕ
  pub values : List String
  pub register_name : Option String

pub record WriteTracker : Type 0 where
  pub buffers : Dict ℕ (List WriteEvent)
  pub unread : Dict ℕ ℕ

abbrev pub init : WriteTracker
init = record { buffers = []; unread = [] }

-- A missing buffer is created empty.
unfoldable pub record_event : WriteTracker → ℕ → WriteEvent → WriteTracker
record_event t device_id event =
    let buf = get_or t.buffers device_id [] in
    record t {
      buffers = put t.buffers device_id (append max_events_per_device buf event);
      unread = put t.unread device_id (get_or t.unread device_id 0 + 1);
    }

-- The emptiness test: `reversed` of an empty buffer is empty too.
abbrev newest_first : Option (List WriteEvent) → List WriteEvent
newest_first none = []
newest_first (some []) = []
newest_first (some (e ∷ buf)) = reverse (e ∷ buf)

unfoldable pub get_events : WriteTracker → ℕ → List WriteEvent
get_events t device_id = newest_first (get t.buffers device_id)

unfoldable pub get_unread_count : WriteTracker → ℕ → ℕ
get_unread_count t device_id = get_or t.unread device_id 0

-- `buf[-1]`
abbrev last_of : List WriteEvent → Option WriteEvent
last_of [] = none
last_of (e ∷ []) = some e
last_of (e ∷ (f ∷ buf)) = last_of (f ∷ buf)

abbrev latest_of : Option (List WriteEvent) → Option WriteEvent
latest_of none = none
latest_of (some buf) = last_of buf

unfoldable pub latest : WriteTracker → ℕ → Option WriteEvent
latest t device_id = latest_of (get t.buffers device_id)

unfoldable pub mark_read : WriteTracker → ℕ → WriteTracker
mark_read t device_id = record t { unread = put t.unread device_id 0 }

unfoldable pub clear : WriteTracker → ℕ → WriteTracker
clear t device_id = record t { buffers = pop t.buffers device_id; unread = pop t.unread device_id }

unfoldable pub clear_all : WriteTracker → WriteTracker
clear_all t = record t { buffers = []; unread = [] }
