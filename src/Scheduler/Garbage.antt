-- ===== src/Scheduler/Garbage.antt =====
-- controler/AgvScheduler.cpp: ParseReceiveData on a packet in which no frame is found.
use mathlib.Core.List.{append-nil}
use hxdl_driving_control.Prelude.{
  ℕ, suc, ◌-◌, ◌≡◌, refl, ap, sym, ◌∙◌, List, [], none, some, arith, ltb, length, drop, Bool-cases,
  inl, inr, if◌then◌else◌,
}
use hxdl_driving_control.Prelude.Int.{negsuc}
use hxdl_driving_control.Protocol.{new, scan, check_protocol, unpack_data}
use hxdl_driving_control.Protocol.Stuffing.{flag}
use hxdl_driving_control.Protocol.Scan.{Lacks, scan-skip_none}
use hxdl_driving_control.Scheduler.{Outside, Scheduler}
use hxdl_driving_control.Scheduler.Receive.{error_length, parse_loop, parse_receive_data}

-- CheckProtocol finds no frame where there is no flag.
check_protocol-Lacks : (bytes : List ℕ) → Lacks bytes → check_protocol new bytes ≡ none
unfolding check_protocol new scan
check_protocol-Lacks bytes h = elim (Bool-cases (ltb (length bytes) 10)) [
  | inl short ↦ rw short refl
  | inr long ↦
      let nothing : scan flag flag 0 bytes none ≡ none =
        ap (λ l. scan flag flag 0 l none) (sym (append-nil bytes))
        ∙ scan-skip_none bytes [] 0 (length bytes) h (omega arith) in
      rw long nothing
]

error_length-fits : (n : ℕ) → ltb (error_length n) 2048 ≡ ltb n 678
unfolding error_length
error_length-fits n = ground arith

module _ (out : Outside) (bytes : List ℕ) (s : Scheduler) (h : Lacks bytes) where
  unpacked :
      unpack_data new (drop (length bytes - length bytes) bytes) (length bytes)
      ≡ some (record { state = new; ret = negsuc 0; left = length bytes })
  unfolding unpack_data
  unpacked =
      ap (λ k. unpack_data new (drop k bytes) (length bytes)) {y = 0} (omega arith)
      ∙ rw (check_protocol-Lacks bytes h, unpack_data)

  loop_once :
      parse_loop out (suc (length bytes)) new bytes (length bytes) 0 s
      ≡ (if ltb (length bytes) 678 then some (negsuc 0, s) else none)
  unfolding parse_loop
  loop_once = elim (Bool-cases (ltb (error_length (length bytes)) 2048)) [
    | inl fits ↦ rw (unpacked, parse_loop, fits, ← error_length-fits (length bytes), fits) refl
    | inr long ↦ rw (unpacked, parse_loop, long, ← error_length-fits (length bytes), long) refl
  ]

  -- A packet with no flag in it: ParseReceiveData returns -1 and changes nothing if it has fewer than 678
  -- bytes, and else is a fault: the text that it prints for the log does not fit its array.
  pub parse_receive_data-Lacks :
      parse_receive_data out bytes s ≡ (if ltb (length bytes) 678 then some (negsuc 0, s) else none)
  unfolding parse_receive_data
  parse_receive_data-Lacks =
      ap (λ k. parse_loop out k new bytes (length bytes) 0 s) {y = suc (length bytes)} (omega arith)
      ∙ loop_once
