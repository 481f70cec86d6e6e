-- ===== src/Scheduler/Pushed.antt =====
-- controler/AgvScheduler.cpp: the events that the scheduler pushes, seen on the queue.
use hxdl_driving_control.Prelude.{
  ℕ, ◌≤◌, ◌≡◌, refl, List, [], ◌∷◌, ◌++◌, Option, some, arith, leb, if◌then◌else◌,
}
use hxdl_driving_control.Prelude.Int.{ℤ, pos}
use hxdl_driving_control.Event.{Event, EventHelper, EventList}
use hxdl_driving_control.Event.Order.{Holds}
use hxdl_driving_control.Event.Refine.{push_event-Holds}
use hxdl_driving_control.Scheduler.{Scheduler, Shared, send_event}

-- Nothing but the queue changes, and it gets the event at its end.
pub send_event-Holds :
    (k : ℕ) (event : EventList) (param : ℤ) (payload : Option Shared) (s : Scheduler)
    (queue : List (Event Shared))
    → k ≤ 2
    → Holds s.events queue
    → (events : EventHelper Shared) × (send_event (pos k) event param payload s
        ≡ some (tt, record s { events = events }))
      × Holds events (
          queue
          ++ record { event = event; param = param; priority = pos k; payload = payload } ∷ [])
unfolding send_event
send_event-Holds k event param payload s queue l h =
    let e : Event Shared = record {
      event = event;
      param = param;
      priority = pos k;
      payload = payload;
    } in
    let (events, pushed, holds) = push_event-Holds s.events queue e k h refl in
    let cut : (if leb 3 k then pos 2 else pos k) ≡ pos k = ground arith in
    (events, rw (pushed, send_event), rw cut at holds)
