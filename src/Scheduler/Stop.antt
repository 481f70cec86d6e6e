-- ===== src/Scheduler/Stop.antt =====
-- controler/AgvScheduler.cpp: the server's command to stop, from the packet to the queue of events.
use hxdl_driving_control.Prelude.{
  ℕ, suc, ◌≡◌, refl, ap, ap₂, ◌∙◌, inr, List, [], ◌∷◌, ◌++◌, true, false, none, some, arith, ◌==◌,
  length,
}
use hxdl_driving_control.Prelude.Int.{ℤ, pos}
use hxdl_driving_control.Wire.{buffer2bin, buffer2bin_loop, unpack_section, unpack_empty_section}
use hxdl_driving_control.Protocol.{Protocol, external, new, new_cmd, pack_data}
use hxdl_driving_control.Protocol.Scan.{Lacks}
use hxdl_driving_control.Messages.Commands.{DoAction, do_action_unpack}
use hxdl_driving_control.Event.{Event, ev_key_stop, urgent}
use hxdl_driving_control.Event.Order.{Holds}
use hxdl_driving_control.Scheduler.{
  Outside, Scheduler, Shared, send_event, send_ack_to_server, server_send_action, server_send_path,
  agv_heart_beat,
}
use hxdl_driving_control.Scheduler.Receive.{
  data_bytes, do_action, on_send_action, handle_cmd, parse_loop, parse_receive_data,
}
use hxdl_driving_control.Scheduler.Acknowledge.{send_ack_to_server-Kept}
use hxdl_driving_control.Scheduler.Pushed.{send_event-Holds}
use hxdl_driving_control.Scheduler.Frames.{data_bytes-payload, go_on, parse_loop-pack_data}

abbrev pub stop : Event Shared
stop = record { event = ev_key_stop; param = pos 0; priority = urgent; payload = none }

-- The message, with its three reserved bytes.
stop_unpacked :
    (a b c : ℕ) (more : List ℕ)
    → do_action_unpack (1 ∷ a ∷ b ∷ c ∷ more) 4
      ≡ some (pos 4, some (record { action = 1; reserved = a ∷ b ∷ c ∷ [] }))
unfolding do_action_unpack unpack_section buffer2bin buffer2bin_loop unpack_empty_section
stop_unpacked a b c more = ground arith

-- The message, unpacked.
abbrev message : ℕ → ℕ → ℕ → DoAction
message a b c = record { action = 1; reserved = a ∷ b ∷ c ∷ [] }

module _ (out : Outside) where
  action_handled :
      (p : Protocol) (s : Scheduler)
      → p.cmd ≡ server_send_action
      → handle_cmd out p s ≡ on_send_action out p s
  unfolding handle_cmd
  action_handled p s cmd =
      let no_beat : (p.cmd == agv_heart_beat) ≡ false = ground arith in
      let no_path : (p.cmd == server_send_path) ≡ false = ground arith in
      let an_action : (p.cmd == server_send_action) ≡ true = ground arith in
      rw (no_beat, handle_cmd, no_path, an_action)

  action_unpacked :
      (p : Protocol) (s : Scheduler) (m : DoAction)
      → do_action_unpack (data_bytes p) p.data_length ≡ some (pos 4, some m)
      → on_send_action out p s ≡ do_action out p m s
  unfolding on_send_action
  action_unpacked p s m e = rw (e, on_send_action)

  stop_done :
      (p : Protocol) (s s1 s2 : Scheduler) (a b c : ℕ) (ret : ℤ)
      → send_event (pos 2) ev_key_stop (pos 0) none s ≡ some (tt, s1)
      → send_ack_to_server out p.cmd 0 (some (1 ∷ a ∷ b ∷ c ∷ [])) 2 s1 ≡ some (ret, s2)
      → do_action out p (message a b c) s ≡ some (tt, s2)
  unfolding do_action
  stop_done p s s1 s2 a b c ret pushed acked = cc

  stop_handled :
      (p : Protocol) (s : Scheduler) (queue : List (Event Shared)) (a b c : ℕ) (more : List ℕ)
      → p.cmd ≡ server_send_action
      → p.data_length ≡ 4
      → data_bytes p ≡ 1 ∷ a ∷ b ∷ c ∷ more
      → length s.send_buf ≡ 2048
      → Holds s.events queue
      → (s' : Scheduler) × (handle_cmd out p s ≡ some (tt, s'))
        × Holds s'.events (queue ++ stop ∷ [])
  stop_handled p s queue a b c more cmd n there room h =
      let (events, pushed, holds) =
        send_event-Holds 2 ev_key_stop (pos 0) none s queue (omega arith) h in
      let s1 = record s { events = events } in
      let (ret, s', acked, kept, _, _, _) =
        send_ack_to_server-Kept out p.cmd 0 2 (some (1 ∷ a ∷ b ∷ c ∷ [])) s1 room (omega arith)
          (inr (1 ∷ a ∷ b ∷ c ∷ [], refl, omega arith)) in
      (
        s',
        action_handled p s cmd
            ∙ action_unpacked p s (message a b c)
                (ap₂ do_action_unpack there n ∙ stop_unpacked a b c more)
            ∙ stop_done p s s1 s' a b c ret pushed acked,
        rw kept.events_kept holds,
      )

  -- A packet that ends with the frame of a command to stop, with any three reserved bytes, behind bytes
  -- that are no flag: ParseReceiveData returns 1, and the queue of events gets one more, the urgent
  -- event to stop. The send buffer has 2048 bytes.
  pub parse_receive_data-Holds :
      (a b c : ℕ) (more noise : List ℕ) (s : Scheduler) (queue : List (Event Shared))
      → Lacks noise
      → length s.send_buf ≡ 2048
      → Holds s.events queue
      → (q : Protocol) × (frame : List ℕ) × (s' : Scheduler) × (pack_data
            (new_cmd server_send_action (external ((1 ∷ a ∷ b ∷ c ∷ []) ++ more)) 4)
          ≡ some (q, frame))
        × (parse_receive_data out (noise ++ (frame ++ [])) s ≡ some (pos 1, s'))
        × Holds s'.events (queue ++ stop ∷ [])
  unfolding parse_receive_data go_on
  parse_receive_data-Holds a b c more noise s queue ln room h =
      let (q, p, frame, packed, cmd, n, got, ph, pt, round) =
        parse_loop-pack_data out server_send_action 0 (1 ∷ a ∷ b ∷ c ∷ []) more noise [] new s
          (omega arith) (omega arith) ln (unfold new in refl) (unfold new in refl) in
      let (behind, there) = data_bytes-payload p (1 ∷ a ∷ b ∷ c ∷ []) got n (omega arith) in
      let (s', handled, holds) = stop_handled p s queue a b c behind cmd n there room h in
      let packet = noise ++ (frame ++ []) in
      (
        q,
        frame,
        s',
        packed,
        ap (λ k. parse_loop out k new packet (length packet) 0 s) {y = suc (length packet)}
              (omega arith)
            ∙ round (length packet)
            ∙ rw (go_on, handled),
        holds,
      )
