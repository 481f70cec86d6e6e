-- ===== src/Can/Sending.antt =====
-- devices/canbus/AgvCanOperator.cpp and AgvSocketCan.cpp: SendData and Write, from a sensor's bytes to the
-- frame that the operating system is given. The wait of two milliseconds is left out.
use Prim.Native.Nat.{bit_and, bit_or}
use hxdl_driving_control.Prelude.{
  ℕ, List, [], ◌∷◌, ◌++◌, Bool, true, ltb, ◌==◌, if◌then◌else◌, length,
}
use hxdl_driving_control.Prelude.Int.{ℤ, pos, negsuc}
use hxdl_driving_control.Wire.{unsigned_of}
use hxdl_driving_control.Can.{can_eff_mask}

abbrev pub can_eff_flag : ℕ
can_eff_flag = 0x80000000

-- The identifier with its flag, and the `can_dlc` bytes.
pub record CanFrame : Type 0 where
  pub can_id : ℕ
  pub payload : List ℕ

-- Whether the system call `write` fails, after the frames that it took before.
abbrev pub SystemWrite : Type 0
SystemWrite = List CanFrame → CanFrame → Bool

unfoldable pub write : SystemWrite → ℕ → List ℕ → List CanFrame → ℤ × List CanFrame
write fails can_id bytes frames =
    if ltb 8 (length bytes)
    then (negsuc 0, frames)
    else let frame : CanFrame = record {
      can_id = bit_or (bit_and can_id can_eff_mask) can_eff_flag;
      payload = bytes;
    } in
      if fails frames frame then (negsuc 0, frames) else (pos 0, frames ++ frame ∷ [])

-- `canId <= 0`.
unfoldable pub is_no_id : ℤ → Bool
is_no_id (pos n) = n == 0
is_no_id (negsuc n) = true

unfoldable pub send_data : SystemWrite → ℤ → List ℕ → List CanFrame → ℤ × List CanFrame
unfolding is_no_id
send_data fails can_id bytes frames =
    if is_no_id can_id then (negsuc 0, frames) else write fails (unsigned_of can_id) bytes frames
