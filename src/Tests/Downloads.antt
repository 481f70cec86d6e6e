-- ===== src/Tests/Downloads.antt =====
-- A file sent to a board: devices/canbus/AgvDownloadBin.cpp on small inputs.
use hxdl_driving_control.Prelude.{ℕ, ◌≡◌, ap, List, [], ◌∷◌, ◌++◌, arith}
use hxdl_driving_control.Prelude.Int.{pos}
use hxdl_driving_control.Download.{Link, transfer}
use hxdl_driving_control.Download.Acknowledged.{frame_of, image, carried, end_bytes}
use hxdl_driving_control.Download.Transfer.{transfer-image}
use hxdl_driving_control.Download.Echo.{takes_all, echo, transfer-echo}

abbrev firmware : List ℕ
firmware = 1 ∷ 2 ∷ 3 ∷ 4 ∷ 5 ∷ 6 ∷ 7 ∷ 8 ∷ 9 ∷ 10 ∷ []

abbrev idle_link : Link
idle_link = record { frames = []; reads = 0 }

transfer-echo_example :
    (l1 : Link) × (transfer takes_all echo (pos 3) firmware idle_link ≡ (pos 0, l1))
transfer-echo_example = transfer-echo (pos 3) firmware idle_link

firmware_sent : (transfer takes_all echo (pos 3) firmware idle_link).0 ≡ pos 0
firmware_sent = ap (λ o. o.0) (transfer-echo (pos 3) firmware idle_link).1

transfer-image_example :
    (sent : List (List ℕ × ℕ)) × ((transfer takes_all echo (pos 3) firmware idle_link).1.frames
      ≡ [] ++ (image sent ++ frame_of 0x10 (end_bytes (pos 3)) ∷ []))
    × (carried sent ≡ firmware)
transfer-image_example =
    transfer-image takes_all echo (pos 3) 0 firmware idle_link (omega arith) firmware_sent
