-- ===== src/Scheduler/Frames.antt =====
-- controler/AgvScheduler.cpp: a round of ParseReceiveData's loop on a frame that was packed.
use hxdl_driving_control.Prelude.{
  ℕ, suc, ◌+◌, ◌-◌, ◌≤◌, ◌<◌, ◌≡◌, sym, ap, ◌∙◌, inl, inr, List, ◌++◌, false, none, some, arith,
  ltb, if◌then◌else◌, length, take, drop, take-append-drop, Bool-cases, Option-cases,
}
use hxdl_driving_control.Prelude.Int.{ℤ, pos}
use hxdl_driving_control.Protocol.{
  Protocol, external, Reply, deref, new_cmd, pack_data, unpack_data,
}
use hxdl_driving_control.Protocol.Stuffing.{flag}
use hxdl_driving_control.Protocol.Scan.{Lacks}
use hxdl_driving_control.Protocol.Fields.{payload}
use hxdl_driving_control.Protocol.RoundTrip.{unpack_data-pack_data}
use hxdl_driving_control.Scheduler.{Outside, Scheduler, M}
use hxdl_driving_control.Scheduler.Receive.{data_bytes, handle_cmd, parse_loop, is_negative}

-- The readers of a payload find its bytes at the front.
pub data_bytes-payload :
    (p : Protocol) (bytes : List ℕ)
    → payload p ≡ some bytes
    → p.data_length ≡ length bytes
    → 0 < length bytes
    → (more : List ℕ) × (data_bytes p ≡ bytes ++ more)
unfolding data_bytes
data_bytes-payload p bytes e n h = elim (Option-cases (deref p.buffer p.data_ptr)) [
  | inl bad ↦ absurd (ground (arith, bad))
  | inr (found, there) ↦
      let front : take p.data_length found ≡ bytes = ground (arith, there) in
      (
        drop p.data_length found,
        rw (there, data_bytes)
            (sym (take-append-drop p.data_length found)
              ∙ ap (λ (b : List ℕ). b ++ drop p.data_length found) front),
      )
]

module _ (out : Outside) where
  -- The command is handled; then comes the next round, or the end if no bytes are left.
  unfoldable pub go_on : ℕ → Protocol → List ℕ → ℕ → ℕ → M ℤ
  go_on fuel p packet left cnt s = elim (handle_cmd out p s) [
    | none ↦ none
    | some (_, s') ↦
        if ltb 0 left
        then parse_loop out fuel p packet left (cnt + 1) s'
        else some (pos (cnt + 1), s')
  ]

  -- A round whose frame was accepted.
  round_of :
      (fuel : ℕ) (p : Protocol) (bytes : List ℕ) (left cnt : ℕ) (s : Scheduler) (r : Reply)
      → unpack_data p (drop (length bytes - left) bytes) left ≡ some r
      → is_negative r.ret ≡ false
      → parse_loop out (suc fuel) p bytes left cnt s ≡ go_on fuel r.state bytes r.left cnt s
  unfolding parse_loop go_on
  round_of fuel p bytes left cnt s r e fine = elim (Option-cases (handle_cmd out r.state s)) [
    | inl bad ↦ rw (e, parse_loop, fine, go_on, bad)
    | inr ((u, s'), done) ↦ elim (Bool-cases (ltb 0 r.left)) [
      | inl more ↦ rw (e, parse_loop, fine, go_on, done, more)
      | inr last ↦ rw (e, parse_loop, fine, go_on, done, last)
    ]
  ]

  -- A packet with, behind bytes that are no flag, a frame that an object built for a command packed: the
  -- round handles the command with the payload that was packed, and goes on with the bytes behind the
  -- frame, or ends with the count if there are none. The command fits an unsigned short, the payload has
  -- at most 2040 bytes, and the receiving object has the two flags.
  pub parse_loop-pack_data :
      (cmd cnt : ℕ) (bytes more noise rest : List ℕ) (p : Protocol) (s : Scheduler)
      → cmd < 65536
      → length bytes ≤ 2040
      → Lacks noise
      → p.head ≡ flag
      → p.tail ≡ flag
      → (q p' : Protocol) × (frame : List ℕ) × (pack_data
            (new_cmd cmd (external (bytes ++ more)) (length bytes))
          ≡ some (q, frame))
        × (p'.cmd ≡ cmd)
        × (p'.data_length ≡ length bytes)
        × (payload p' ≡ some bytes)
        × (p'.head ≡ flag)
        × (p'.tail ≡ flag)
        × ((fuel : ℕ)
            → let packet = noise ++ (frame ++ rest) in
              parse_loop out (suc fuel) p packet (length packet) cnt s
              ≡ go_on fuel p' packet (length rest) cnt s)
  unfolding parse_loop go_on
  parse_loop-pack_data cmd cnt bytes more noise rest p s hc room ln ph pt =
      let (q, frame, r, packed, read, ret, l, type, same, n, got, h, t) =
        unpack_data-pack_data cmd bytes more noise rest p hc room ln ph pt in
      let packet = noise ++ (frame ++ rest) in
      let all_left : drop (length packet - length packet) packet ≡ packet =
        ap (λ k. drop k packet) {y = 0} (omega arith) in
      let read_here : unpack_data p (drop (length packet - length packet) packet) (length packet)
          ≡ some r =
        ap (λ b. unpack_data p b (length packet)) all_left ∙ read (length packet) in
      let fine : is_negative r.ret ≡ false = ap is_negative ret in
      (
        q,
        r.state,
        frame,
        packed,
        same,
        n,
        got,
        h,
        t,
        λ fuel.
            round_of fuel p packet (length packet) cnt s r read_here fine
            ∙ ap (λ k. go_on fuel r.state packet k cnt s) l,
      )
