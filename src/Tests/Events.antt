-- ===== src/Tests/Events.antt =====
-- The event helper of event/AgvEventHelper.cpp on a small queue.
use hxdl_driving_control.Prelude.{
  ℕ, ◌≡◌, refl, ◌⊎◌, List, [], ◌∷◌, ◌++◌, Bool, none, some, arith, ◌==◌, ◌+◌,
}
use hxdl_driving_control.Prelude.Int.{pos}
use hxdl_driving_control.Event.{
  Event, EventHelper, ev_key_start, ev_key_stop, ev_battery, normal, urgent, push_event, pop_event,
  has_listener,
}
use hxdl_driving_control.Event.Order.{lane, Holds, Pops}
use hxdl_driving_control.Event.Refine.{pop_event-Pops, push_event-Holds}
use hxdl_driving_control.Event.Listeners.{Distinct}

abbrev start : Event ℕ
start = record { event = ev_key_start; param = pos 0; priority = normal; payload = none }

abbrev battery : Event ℕ
battery = record { event = ev_battery; param = pos 80; priority = normal; payload = none }

-- A priority that is too high.
abbrev stop : Event ℕ
stop = record { event = ev_key_stop; param = pos 0; priority = pos 9; payload = none }

abbrev stop_cut : Event ℕ
stop_cut = record stop { priority = urgent }

abbrev helper : EventHelper ℕ
helper = record {
  normal_list = start ∷ battery ∷ [];
  important_list = [];
  urgent_list = stop_cut ∷ [];
  listener_list = 3 ∷ 4 ∷ [];
}

abbrev queue : List (Event ℕ)
queue = start ∷ stop_cut ∷ battery ∷ []

helper-Holds : Holds helper queue
unfolding lane
helper-Holds = record { lows = refl; mids = refl; highs = refl; ranked = omega arith }

helper-Distinct : Distinct helper.listener_list
unfolding has_listener
helper-Distinct = (refl, (refl, tt))

-- Listener 4 handles each event; the state counts the calls.
abbrev handle : ℕ → Event ℕ → ℕ → Bool × ℕ
handle l e n = (l == 4, n + 1)

pop_event-Pops_example :
    ((queue ≡ []) × (pop_event helper ≡ (none, helper)))
    ⊎ ((e : Event ℕ) × (h' : EventHelper ℕ) × (pop_event helper ≡ (some e, h')) × Pops queue e h')
pop_event-Pops_example = pop_event-Pops helper queue helper-Holds

push_event-Holds_example :
    (h' : EventHelper ℕ) × (push_event (some stop) helper ≡ some (pos 0, h'))
    × Holds h' (queue ++ stop_cut ∷ [])
push_event-Holds_example = push_event-Holds helper queue stop 9 helper-Holds refl
