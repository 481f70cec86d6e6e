-- ===== src/Scheduler/Acknowledge.antt =====
-- controler/AgvScheduler.cpp: SendAckToServer, and what it leaves alone.
use hxdl_driving_control.Prelude.{
  ℕ, ◌+◌, ◌%◌, ◌≤◌, ◌≡◌, refl, sym, ap, ap₂, ◌∙◌, ◌⊎◌, inl, inr, List, [], ◌∷◌, ◌++◌, true, false,
  Option, none, some, arith, ltb, length, length-append, length-take, take, drop, take-append-drop,
  Bool-cases,
}
use hxdl_driving_control.Prelude.Int.{ℤ, pos, negsuc}
use hxdl_driving_control.Wire.{u16}
use hxdl_driving_control.Protocol.{Protocol, external, new_cmd, pack_data, encode}
use hxdl_driving_control.Protocol.Stuffing.{length-encode_le, flag}
use hxdl_driving_control.Protocol.Layout.{pack_data_lem, contents, length-contents}
use hxdl_driving_control.Messages.Reports.{AckToServer, ack_to_server_pack}
use hxdl_driving_control.Messages.Reports.Laws.{ack_to_server_pack_lem}
use hxdl_driving_control.Scheduler.{
  Outside, Scheduler, send_cmd, send_packed, send_ack_to_server, agv_cmd_ack,
}

-- The parts that sending leaves alone.
pub record Kept (s s' : Scheduler) : Type 0 where
  pub events_kept : s'.events ≡ s.events
  pub path_kept : s'.path_list ≡ s.path_list
  pub cmd_kept : s'.last_cmd ≡ s.last_cmd
  pub timeout_kept : s'.heart_beat_timeout ≡ s.heart_beat_timeout
  pub room_kept : length s'.send_buf ≡ length s.send_buf

Kept-refl : (s : Scheduler) → Kept s s
Kept-refl s = record {
  events_kept = refl;
  path_kept = refl;
  cmd_kept = refl;
  timeout_kept = refl;
  room_kept = refl;
}

-- A frame with a payload of at most 1000 bytes fits the array that it is packed into.
packed_fits :
    (cmd : ℕ) (bytes more : List ℕ)
    → length bytes ≤ 1000
    → (q : Protocol) × (frame : List ℕ) × (pack_data
          (new_cmd cmd (external (bytes ++ more)) (length bytes))
        ≡ some (q, frame))
      × (length frame ≤ 2048)
unfolding new_cmd
packed_fits cmd bytes more h =
    let len = length bytes + 6 in
    let (crc, q, packed, summed, hc) =
      pack_data_lem (len % 65536) 1 (cmd % 65536) bytes (omega arith)
        (new_cmd cmd (external (bytes ++ more)) (length bytes)) (inr (more, refl)) refl refl refl
        (omega arith) in
    let body = contents (len % 65536) crc 1 (cmd % 65536) bytes in
    (
      q,
      _,
      packed,
      omega (
        arith,
        length-append (encode flag body) (flag ∷ []),
        length-encode_le flag body,
        length-contents (len % 65536) crc 1 (cmd % 65536) bytes,
      ),
    )

-- What became of a frame: it was not sent, as there is no connection or the write failed, or it was.
abbrev pub Posted : Outside → List ℕ → ℤ → Scheduler → Scheduler → Type 0
Posted out frame ret s s' =
    ((s.is_connected ≡ false) × (ret ≡ negsuc 0) × (s'.sent ≡ s.sent))
    ⊎ ((s.is_connected ≡ true)
        × (out.socket_write frame ≡ false)
        × (ret ≡ negsuc 1)
        × (s'.sent ≡ s.sent))
    ⊎ ((s.is_connected ≡ true)
        × (out.socket_write frame ≡ true)
        × (ret ≡ pos 0)
        × (s'.sent ≡ s.sent ++ frame ∷ []))

-- The frame of a command with the first `len` bytes of `buf`, and what became of it.
pub record IsPosted (out : Outside) (cmd : ℕ) (buf : List ℕ) (len : ℕ) (ret : ℤ) (s s' : Scheduler)
    : Type 0 where
  pub object : Protocol
  pub frame : List ℕ
  pub packed : pack_data (new_cmd cmd (external buf) len) ≡ some (object, frame)
  pub posted : Posted out frame ret s s'

module _ (out : Outside) where
  -- A payload of at most 1000 bytes is posted.
  send_cmd-Kept :
      (cmd : ℕ) (bytes more : List ℕ) (s : Scheduler)
      → length bytes ≤ 1000
      → (ret : ℤ) × (s' : Scheduler) × (send_cmd out cmd (external (bytes ++ more)) (length bytes) s
          ≡ some (ret, s'))
        × Kept s s'
        × IsPosted out cmd (bytes ++ more) (length bytes) ret s s'
  unfolding send_cmd
  send_cmd-Kept cmd bytes more s h =
      let (q, frame, packed, fits) = packed_fits cmd bytes more h in
      elim (Bool-cases s.is_connected) [
        | inl online ↦
            let small : ltb 2048 (length frame) ≡ false = ground arith in
            elim (Bool-cases (out.socket_write frame)) [
              | inl wrote ↦ (
                pos 0,
                record s { sent = s.sent ++ (frame ∷ []) },
                ground (arith, packed, small, wrote),
                record {
                  events_kept = refl;
                  path_kept = refl;
                  cmd_kept = refl;
                  timeout_kept = refl;
                  room_kept = refl;
                },
                record {
                  object = q;
                  frame = frame;
                  packed = packed;
                  posted = inr (inr (online, wrote, refl, refl));
                },
              )
              | inr failed ↦ (
                negsuc 1,
                s,
                ground (arith, packed, small, failed),
                Kept-refl s,
                record {
                  object = q;
                  frame = frame;
                  packed = packed;
                  posted = inr (inl (online, failed, refl, refl));
                },
              )
            ]
        | inr offline ↦ (
          negsuc 0,
          s,
          ground (arith, offline),
          Kept-refl s,
          record { object = q; frame = frame; packed = packed; posted = inl (offline, refl, refl) },
        )
      ]

  -- An acknowledgement with at most 900 additional bytes, all of them there, from a send buffer of 2048
  -- bytes, is handled without a fault. The message, of eight bytes and the additional ones, is packed into
  -- the send buffer and from there into a frame; with no connection -1 is returned and nothing is sent;
  -- if the write fails, -2, and nothing is sent; else 0, and that one frame is sent. The events, the path,
  -- the command awaited, the heart beat counter and the size of the send buffer stay.
  pub send_ack_to_server-Kept :
      (cmd result n : ℕ) (extra : Option (List ℕ)) (s : Scheduler)
      → length s.send_buf ≡ 2048
      → n ≤ 900
      → ((n ≡ 0) × (extra ≡ none)) ⊎ ((bytes : List ℕ) × (extra ≡ some bytes) × (n ≤ length bytes))
      → (ret : ℤ) × (s' : Scheduler) × (send_ack_to_server out cmd result extra n s
          ≡ some (ret, s'))
        × Kept s s'
        × (buf : List ℕ) × (ack_to_server_pack
              record {
                id = s.agv_id;
                cmd = u16 cmd;
                result = u16 result;
                data_length = n;
                extra = extra;
              }
              (some s.send_buf)
              2048
            ≡ some (pos (8 + n), some buf))
        × IsPosted out agv_cmd_ack buf (8 + n) ret s s'
  unfolding send_ack_to_server send_packed
  send_ack_to_server-Kept cmd result n extra s room h fits =
      let ack : ℕ → AckToServer = λ k. record {
        id = s.agv_id;
        cmd = u16 cmd;
        result = u16 result;
        data_length = k;
        extra = extra;
      } in
      let small : u16 n ≡ n = omega arith in
      let (buf, packed, size) = ack_to_server_pack_lem (ack n) s.send_buf room (omega arith) fits in
      let stored : ack_to_server_pack (ack (u16 n)) (some s.send_buf) 2048
          ≡ some (pos (8 + n), some buf) =
        ap (λ k. ack_to_server_pack (ack k) (some s.send_buf) 2048) small ∙ packed in
      let bytes = take (8 + n) buf in
      let whole : buf ≡ bytes ++ drop (8 + n) buf = sym (take-append-drop (8 + n) buf) in
      let count : length bytes ≡ 8 + n = omega (arith, length-take (8 + n) buf) in
      let (ret, s', sent, kept, posted) =
        send_cmd-Kept agv_cmd_ack bytes (drop (8 + n) buf) (record s { send_buf = buf })
          (omega arith) in
      let s2 : Scheduler = record s { send_buf = buf } in
      let called : send_ack_to_server out cmd result extra n s
          ≡ send_cmd out agv_cmd_ack (external buf) (u16 (8 + n)) s2 =
        rw (stored, send_ack_to_server, send_packed) in
      let short : u16 (8 + n) ≡ length bytes = omega (arith, count) in
      (
        ret,
        s',
        called ∙ ap₂ (λ b k. send_cmd out agv_cmd_ack (external b) k s2) whole short ∙ sent,
        record {
          events_kept = kept.events_kept;
          path_kept = kept.path_kept;
          cmd_kept = kept.cmd_kept;
          timeout_kept = kept.timeout_kept;
          room_kept = kept.room_kept ∙ size ∙ sym room;
        },
        buf,
        packed,
        record {
          object = posted.object;
          frame = posted.frame;
          packed =
              ap₂ (λ b k. pack_data (new_cmd agv_cmd_ack (external b) k)) whole (sym count)
              ∙ posted.packed;
          posted = posted.posted;
        },
      )
