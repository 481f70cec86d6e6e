-- ===== src/Scheduler/Parse.antt =====
-- controler/AgvScheduler.cpp: the loop of ParseReceiveData and its fuel.
use hxdl_driving_control.Prelude.{
  ℕ, zero, suc, ◌+◌, ◌-◌, ◌≤◌, ◌<◌, ◌≡◌, ap, ◌∙◌, inl, inr, List, true, false, some, arith, ltb,
  length, length-drop, drop, Bool-cases, Option-cases,
}
use hxdl_driving_control.Protocol.{Protocol, Reply, unpack_data}
use hxdl_driving_control.Protocol.Stuffing.{flag}
use hxdl_driving_control.Protocol.Progress.{length-IsFrame, unpack_data-Outcome}
use hxdl_driving_control.Scheduler.{Outside, Scheduler}
use hxdl_driving_control.Scheduler.Receive.{handle_cmd, parse_loop, is_negative}

-- A frame that is accepted leaves less to parse, and the object keeps its flags.
accepted_shrinks :
    (p : Protocol) (bytes : List ℕ) (left : ℕ) (r : Reply)
    → p.head ≡ flag
    → p.tail ≡ flag
    → left ≤ length bytes
    → unpack_data p (drop (length bytes - left) bytes) left ≡ some r
    → is_negative r.ret ≡ false
    → (r.left < left) × (r.state.head ≡ flag) × (r.state.tail ≡ flag)
accepted_shrinks p bytes left r ph pt h e ok =
    elim (unpack_data-Outcome p ph pt (drop (length bytes - left) bytes) left r e) [
      | inl failed ↦
          let bad : is_negative r.ret ≡ true = ap (λ (q : Reply). is_negative q.ret) failed in cc
      | inr (i, j, f, stored, fits, o, rest) ↦ (
        omega (
          arith,
          rest,
          length-IsFrame (drop (length bytes - left) bytes) i j f,
          length-drop (length bytes - left) bytes,
        ),
        o.head_kept ∙ ph,
        o.tail_kept ∙ pt,
      )
    ]

module _ (out : Outside) where
  loop_step :
      (f g : ℕ) (p : Protocol) (bytes : List ℕ) (left cnt : ℕ) (s : Scheduler)
      → ((r : Reply) (s' : Scheduler)
          → unpack_data p (drop (length bytes - left) bytes) left ≡ some r
          → is_negative r.ret ≡ false
          → parse_loop out f r.state bytes r.left (cnt + 1) s'
            ≡ parse_loop out g r.state bytes r.left (cnt + 1) s')
      → parse_loop out (suc f) p bytes left cnt s ≡ parse_loop out (suc g) p bytes left cnt s
  unfolding parse_loop
  loop_step f g p bytes left cnt s same =
      elim (Option-cases (unpack_data p (drop (length bytes - left) bytes) left)) [
        | inl bad ↦ rw (bad, parse_loop)
        | inr (r, e) ↦ elim (Bool-cases (is_negative r.ret)) [
          | inl failed ↦ rw (e, parse_loop, failed)
          | inr fine ↦ elim (Option-cases (handle_cmd out r.state s)) [
            | inl bad ↦ rw (e, parse_loop, fine, bad)
            | inr ((u, s'), done) ↦ elim (Bool-cases (ltb 0 r.left)) [
              | inl more ↦ rw (e, parse_loop, fine, done, more) (same r s' e fine)
              | inr last ↦ rw (e, parse_loop, fine, done, last)
            ]
          ]
        ]
      ]

  -- More fuel than bytes is enough: any two such amounts give the same result, so the loop ends by its
  -- own test.
  pub parse_loop-fuel :
      (f g : ℕ) (p : Protocol) (bytes : List ℕ) (left cnt : ℕ) (s : Scheduler)
      → p.head ≡ flag
      → p.tail ≡ flag
      → left ≤ length bytes
      → left < f
      → left < g
      → parse_loop out f p bytes left cnt s ≡ parse_loop out g p bytes left cnt s
  parse_loop-fuel zero g p bytes left cnt s ph pt h a b = absurd (omega arith)
  parse_loop-fuel (suc f) zero p bytes left cnt s ph pt h a b = absurd (omega arith)
  parse_loop-fuel (suc f) (suc g) p bytes left cnt s ph pt h a b =
      loop_step f g p bytes left cnt s λ r s' e fine.
        let (less, rh, rt) = accepted_shrinks p bytes left r ph pt h e fine in
        parse_loop-fuel f g r.state bytes r.left (cnt + 1) s' rh rt (omega arith) (omega arith)
          (omega arith)
