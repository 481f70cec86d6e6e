-- ===== src/Event.antt =====
-- event/AgvEvent.h and event/AgvEventHelper.cpp: the queue of events and its listeners.
-- An event's name is the text of its number, for the log, and is left out. The helper's one mutex is
-- held for each change of a list; a call is one step here.
pub mod Order
pub mod Refine
pub mod Listeners
use hxdl_driving_control.Prelude.{
  ℕ, ◌+◌, List, [], ◌∷◌, ◌++◌, Bool, true, false, Option, none, some, leb, ◌==◌, if◌then◌else◌,
}
use hxdl_driving_control.Prelude.Int.{ℤ, pos, negsuc}

pub data EventList : Type 0 where
  ev_none ev_10ms_timer ev_100ms_timer ev_500ms_timer ev_1s_timer ev_up_down ev_user ev_sys_ready
        ev_sys_close ev_power_down ev_sys_reboot ev_network_ok ev_network_error ev_modem_on_line
        ev_modem_off_line ev_near_barrier ev_mid_barrier ev_far_barrier ev_barrier_touched
        ev_barrier_ok ev_derailed ev_urgent_stop ev_lift_height ev_lift_arrived ev_lift_at_top
        ev_lift_at_bottom ev_key_start ev_key_stop ev_key_auto_mode ev_key_manual_mode
        ev_key_lift_up ev_key_lift_down ev_battery ev_battery_low ev_battery_charge ev_start_charge
        ev_stop_charge ev_set_speed ev_get_new_path ev_request_path ev_apply_path ev_next_path_point
        ev_path_finished ev_scheduler_online ev_scheduler_offline ev_sensor_offline ev_sensor_online
        ev_position ev_lost_position ev_path_mag_error ev_turn_on_charge ev_turn_off_charge
        ev_set_barrier_distance ev_agv_sleep ev_agv_wake_up ev_lifter_init :
      EventList

-- The enumerator's number.
unfoldable pub value_of : EventList → ℕ
value_of ev_none = 0
value_of ev_10ms_timer = 1
value_of ev_100ms_timer = 2
value_of ev_500ms_timer = 3
value_of ev_1s_timer = 4
value_of ev_up_down = 5
value_of ev_user = 6
value_of ev_sys_ready = 7
value_of ev_sys_close = 8
value_of ev_power_down = 9
value_of ev_sys_reboot = 10
value_of ev_network_ok = 11
value_of ev_network_error = 12
value_of ev_modem_on_line = 13
value_of ev_modem_off_line = 14
value_of ev_near_barrier = 15
value_of ev_mid_barrier = 16
value_of ev_far_barrier = 17
value_of ev_barrier_touched = 18
value_of ev_barrier_ok = 19
value_of ev_derailed = 20
value_of ev_urgent_stop = 21
value_of ev_lift_height = 22
value_of ev_lift_arrived = 23
value_of ev_lift_at_top = 24
value_of ev_lift_at_bottom = 25
value_of ev_key_start = 26
value_of ev_key_stop = 27
value_of ev_key_auto_mode = 28
value_of ev_key_manual_mode = 29
value_of ev_key_lift_up = 30
value_of ev_key_lift_down = 31
value_of ev_battery = 32
value_of ev_battery_low = 33
value_of ev_battery_charge = 34
value_of ev_start_charge = 35
value_of ev_stop_charge = 36
value_of ev_set_speed = 37
value_of ev_get_new_path = 38
value_of ev_request_path = 39
value_of ev_apply_path = 40
value_of ev_next_path_point = 41
value_of ev_path_finished = 42
value_of ev_scheduler_online = 43
value_of ev_scheduler_offline = 44
value_of ev_sensor_offline = 45
value_of ev_sensor_online = 46
value_of ev_position = 47
value_of ev_lost_position = 48
value_of ev_path_mag_error = 49
value_of ev_turn_on_charge = 50
value_of ev_turn_off_charge = 51
value_of ev_set_barrier_distance = 52
value_of ev_agv_sleep = 53
value_of ev_agv_wake_up = 54
value_of ev_lifter_init = 55

-- `D` is what the data pointer leads to.
pub record Event (D : Type 0) : Type 0 where
  pub event : EventList
  pub param : ℤ
  pub priority : ℤ
  pub payload : Option D

abbrev pub normal : ℤ
normal = pos 0

abbrev pub important : ℤ
important = pos 1

abbrev pub urgent : ℤ
urgent = pos 2

-- `eventList[PriorityMax]`, a list for each priority, and the listeners, by their addresses.
pub record EventHelper (D : Type 0) : Type 0 where
  pub normal_list : List (Event D)
  pub important_list : List (Event D)
  pub urgent_list : List (Event D)
  pub listener_list : List ℕ

-- A priority of `PriorityMax` or more becomes `Urgent`.
unfoldable pub clamp_priority : ℤ → ℤ
clamp_priority (negsuc n) = negsuc n
clamp_priority (pos n) = if leb 3 n then urgent else pos n

unfoldable pub has_listener : ℕ → List ℕ → Bool
has_listener l [] = false
has_listener l (x ∷ xs) = if x == l then true else has_listener l xs

-- `list::remove`: every entry that is equal.
unfoldable pub remove_listener : ℕ → List ℕ → List ℕ
remove_listener l [] = []
remove_listener l (x ∷ xs) = let rest = remove_listener l xs in if x == l then rest else x ∷ rest

module _ {D : Type 0} where
  -- The number returned, and the helper; `none` is an index below the array.
  unfoldable pub push_at : ℤ → Event D → EventHelper D → Option (EventHelper D)
  push_at (negsuc n) e h = none
  push_at (pos n) e h =
      if n == 0
      then some (record h { normal_list = h.normal_list ++ (e ∷ []) })
      else if n == 1
      then some (record h { important_list = h.important_list ++ (e ∷ []) })
      else some (record h { urgent_list = h.urgent_list ++ (e ∷ []) })

  unfoldable pub push_event : Option (Event D) → EventHelper D → Option (ℤ × EventHelper D)
  unfolding push_at clamp_priority
  push_event none h = some (negsuc 0, h)
  push_event (some e) h =
      let e' = record e { priority = clamp_priority e.priority } in
      elim (push_at e'.priority e' h) [ none ↦ none | some h' ↦ some (pos 0, h') ]

  -- The front of a lane, and what is left of it.
  unfoldable pub pop_lane : List (Event D) → Option (Event D × List (Event D))
  pop_lane [] = none
  pop_lane (e ∷ lane) = some (e, lane)

  -- The first event of the highest list that is not empty.
  unfoldable pub pop_event : EventHelper D → Option (Event D) × EventHelper D
  unfolding pop_lane
  pop_event h = elim (pop_lane h.urgent_list) [
    | some (e, lane) ↦ (some e, record h { urgent_list = lane })
    | none ↦ elim (pop_lane h.important_list) [
      | some (e, lane) ↦ (some e, record h { important_list = lane })
      | none ↦ elim (pop_lane h.normal_list) [
        | some (e, lane) ↦ (some e, record h { normal_list = lane })
        | none ↦ (none, h)
      ]
    ]
  ]

  unfoldable pub same_event : EventList → Event D → Bool
  unfolding value_of
  same_event event e = value_of e.event == value_of event

  unfoldable pub delete_from : EventList → List (Event D) → List (Event D)
  delete_from event [] = []
  delete_from event (e ∷ lane) =
      let rest = delete_from event lane in if same_event event e then rest else e ∷ rest

  unfoldable pub delete_event : EventList → EventHelper D → EventHelper D
  delete_event event h = record h {
    normal_list = delete_from event h.normal_list;
    important_list = delete_from event h.important_list;
    urgent_list = delete_from event h.urgent_list;
  }

  unfoldable pub clear_all : EventHelper D → EventHelper D
  clear_all h = record h { normal_list = []; important_list = []; urgent_list = [] }

  unfoldable pub register_listener : Option ℕ → EventHelper D → ℤ × EventHelper D
  register_listener none h = (negsuc 0, h)
  register_listener (some l) h =
      if has_listener l h.listener_list
      then (pos 0, h)
      else (pos 0, record h { listener_list = h.listener_list ++ (l ∷ []) })

  unfoldable pub deregister_listener : ℕ → EventHelper D → EventHelper D
  deregister_listener l h = record h { listener_list = remove_listener l h.listener_list }

  unfoldable pub deregister_all_listener : EventHelper D → EventHelper D
  deregister_all_listener h = record h { listener_list = [] }

  -- The listeners in turn, until one says that it has handled the event. A handler is code of the
  -- listener's class: it changes the state `S` around it and answers.
  unfoldable pub process_events :
      {S : Type 0} → (ℕ → Event D → S → Bool × S) → List ℕ → Event D → S → S
  process_events handle [] e s = s
  process_events handle (l ∷ listeners) e s =
      let (done, s') = handle l e s in
      elim done [ true ↦ s' | false ↦ process_events handle listeners e s' ]
