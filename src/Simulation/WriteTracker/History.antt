-- ===== src/Simulation/WriteTracker/History.antt =====
-- The tracker against the history of its calls: what one device's readers see is a function of
-- the calls that name the device.
use mathlib.Core.List.{reverse-cons}
use ghost_meter.Prelude.{
  ℕ, ◌+◌, ◌≡◌, refl, ap, sym, ◌∙◌, Option, none, some, List, [], ◌∷◌, ◌++◌, reverse, arith, take,
  nat_eq, ◌==◌, ==_iff, if◌then◌else◌,
}
use ghost_meter.Dict.{get, get_or, get_or-nil, get_or-put, get_or-pop}
use ghost_meter.Deque
use ghost_meter.Deque.{append}
use ghost_meter.Simulation.WriteTracker.{
  WriteEvent, WriteTracker, init, record_event, get_events, get_unread_count, latest, mark_read,
  clear, clear_all, max_events_per_device, newest_first, last_of, latest_of,
}

pub data Call : Type 0 where
  record_call : ℕ → WriteEvent → Call
  mark_read_call clear_call : ℕ → Call
  clear_all_call : Call

unfoldable pub step : WriteTracker → Call → WriteTracker
step t (record_call d e) = record_event t d e
step t (mark_read_call d) = mark_read t d
step t (clear_call d) = clear t d
step t clear_all_call = clear_all t

unfoldable pub run : WriteTracker → List Call → WriteTracker
run t [] = t
run t (c ∷ cs) = run (step t c) cs

-- What one device has received: every event since its last clear, newest first, and how many
-- came since it was last read.
pub record Inbox : Type 0 where
  pub events : List WriteEvent
  pub unread : ℕ

unfoldable pub receive : ℕ → Inbox → Call → Inbox
receive d b (record_call j e) =
    if d == j then record { events = e ∷ b.events; unread = b.unread + 1 } else b
receive d b (mark_read_call j) = if d == j then record b { unread = 0 } else b
receive d b (clear_call j) = if d == j then record { events = []; unread = 0 } else b
receive d b clear_all_call = record { events = []; unread = 0 }

unfoldable pub received : ℕ → Inbox → List Call → Inbox
received d b [] = b
received d b (c ∷ cs) = received d (receive d b c) cs

abbrev pub empty_inbox : Inbox
empty_inbox = record { events = []; unread = 0 }

-- The stored buffer, oldest first, missing as empty.
abbrev stored : WriteTracker → ℕ → List WriteEvent
stored t d = get_or t.buffers d []

record Shows (d : ℕ) (t : WriteTracker) (b : Inbox) : Type 0 where
  events : reverse (stored t d) ≡ take max_events_per_device b.events
  unread : get_or t.unread d 0 ≡ b.unread

module _ (d j : ℕ) (t : WriteTracker) (b : Inbox) (h : Shows d t b) where
  record_event-Shows :
      (e : WriteEvent) → Shows d (record_event t j e) (receive d b (record_call j e))
  unfolding record_event receive
  record_event-Shows e = record {
    events = ground (
      arith,
      get_or-put t.buffers j d (append 50 (get_or t.buffers j []) e) [],
      ==_iff d j,
      Deque.reverse-append 50 (stored t d) b.events e h.events,
    );
    unread = ground (arith, get_or-put t.unread j d (get_or t.unread j 0 + 1) 0, ==_iff d j);
  }

  mark_read-Shows : Shows d (mark_read t j) (receive d b (mark_read_call j))
  unfolding mark_read receive
  mark_read-Shows = record {
    events = ground arith;
    unread = ground (arith, get_or-put t.unread j d 0 0);
  }

  clear-Shows : Shows d (clear t j) (receive d b (clear_call j))
  unfolding clear receive
  clear-Shows = record {
    events = ground (arith, get_or-pop t.buffers j d []);
    unread = ground (arith, get_or-pop t.unread j d 0);
  }

step-Shows :
    (d : ℕ) (t : WriteTracker) (b : Inbox) (c : Call)
    → Shows d t b
    → Shows d (step t c) (receive d b c)
unfolding step
step-Shows d t b (record_call j e) h = record_event-Shows d j t b h e
step-Shows d t b (mark_read_call j) h = mark_read-Shows d j t b h
step-Shows d t b (clear_call j) h = clear-Shows d j t b h
step-Shows d t b clear_all_call h =
    unfold clear_all receive in record { events = rw get_or-nil; unread = rw get_or-nil }

run-Shows :
    (d : ℕ) (t : WriteTracker) (b : Inbox) (cs : List Call)
    → Shows d t b
    → Shows d (run t cs) (received d b cs)
unfolding run received
run-Shows d t b [] h = h
run-Shows d t b (c ∷ cs) h = run-Shows d (step t c) (receive d b c) cs (step-Shows d t b c h)

init-Shows : (d : ℕ) → Shows d init empty_inbox
init-Shows d = record { events = rw get_or-nil; unread = rw get_or-nil }

newest_first-reverse :
    (o : Option (List WriteEvent)) → newest_first o ≡ reverse (elim o [ none ↦ [] | some b ↦ b ])
newest_first-reverse none = refl
newest_first-reverse (some []) = refl
newest_first-reverse (some (e ∷ buf)) = refl

abbrev pub head_of : List WriteEvent → Option WriteEvent
head_of [] = none
head_of (e ∷ _) = some e

head_of-append :
    (xs : List WriteEvent) (x y : WriteEvent)
    → head_of ((xs ++ x ∷ []) ++ y ∷ []) ≡ head_of (xs ++ x ∷ [])
head_of-append [] x y = refl
head_of-append (z ∷ xs) x y = refl

last_of-reverse : (xs : List WriteEvent) → last_of xs ≡ head_of (reverse xs)
last_of-reverse [] = refl
last_of-reverse (x ∷ []) = refl
last_of-reverse (x ∷ (y ∷ xs)) =
    last_of-reverse (y ∷ xs)
    ∙ rw (reverse-cons x (y ∷ xs), reverse-cons y xs) (sym (head_of-append (reverse xs) y x))

latest_of-head_of :
    (o : Option (List WriteEvent))
    → latest_of o ≡ head_of (reverse (elim o [ none ↦ [] | some b ↦ b ]))
latest_of-head_of none = refl
latest_of-head_of (some b) = last_of-reverse b

head_of-take : (es : List WriteEvent) → head_of (take max_events_per_device es) ≡ head_of es
head_of-take [] = refl
head_of-take (e ∷ es) = refl

-- After any calls a device's reader sees the last fifty events that it has received since its
-- last clear, newest first, and their number since it was last read or cleared.
pub run-received :
    (d : ℕ) (cs : List Call)
    → (get_events (run init cs) d ≡ take max_events_per_device (received d empty_inbox cs).events)
      × (get_unread_count (run init cs) d ≡ (received d empty_inbox cs).unread)
      × (latest (run init cs) d ≡ head_of (received d empty_inbox cs).events)
unfolding get_events get_unread_count latest get_or
run-received d cs =
    let h = run-Shows d init empty_inbox cs (init-Shows d) in
    (
      newest_first-reverse (get (run init cs).buffers d) ∙ h.events,
      h.unread,
      latest_of-head_of (get (run init cs).buffers d)
          ∙ ap head_of h.events
          ∙ head_of-take (received d empty_inbox cs).events,
    )
