-- ===== src/CheckSum/Laws.antt =====
-- utils/AgvCheckSum.cpp: which bytes the sum of GetCrc16 reads.
use Prim.Native.Nat.{bit_xor}
use hxdl_driving_control.Prelude.{
  ℕ, zero, suc, ◌%◌, ◌≤◌, ◌<◌, ◌≡◌, refl, sym, ap₂, ◌∙◌, take, drop, length-take, take-append-drop,
  List, [], ◌∷◌, ◌++◌, none, some, length, arith,
}
use hxdl_driving_control.CheckSum.{crc_loop, get_crc16}

crc_loop-append :
    (xs ys : List ℕ) (crc : ℕ) → crc_loop (length xs) (xs ++ ys) crc ≡ crc_loop (length xs) xs crc
unfolding crc_loop
crc_loop-append [] ys crc = refl
crc_loop-append (x ∷ xs) ys crc = crc_loop-append xs ys _

crc_loop-some : (xs : List ℕ) (crc : ℕ) → (s : ℕ) × (crc_loop (length xs) xs crc ≡ some s)
unfolding crc_loop
crc_loop-some [] crc = (crc, refl)
crc_loop-some (x ∷ xs) crc = crc_loop-some xs _

crc_loop-none : (n : ℕ) (xs : List ℕ) (crc : ℕ) → length xs < n → crc_loop n xs crc ≡ none
unfolding crc_loop
crc_loop-none zero xs crc h = absurd (omega arith)
crc_loop-none (suc n) [] crc h = refl
crc_loop-none (suc n) (x ∷ xs) crc h = crc_loop-none n xs _ (omega arith)

-- Only the bytes that are summed matter.
pub get_crc16-append :
    (xs ys : List ℕ) (pwd : ℕ)
    → length xs < 65536
    → get_crc16 (xs ++ ys) (length xs) pwd ≡ get_crc16 xs (length xs) pwd
unfolding get_crc16
get_crc16-append xs ys pwd h =
    let e : length xs % 65536 ≡ length xs = omega arith in rw (e, crc_loop-append xs ys 0)

-- The sum of a buffer exists, and fits an unsigned short.
pub get_crc16-some :
    (xs : List ℕ) (pwd : ℕ)
    → length xs < 65536
    → (s : ℕ) × (get_crc16 xs (length xs) pwd ≡ some s) × (s < 65536)
unfolding get_crc16
get_crc16-some xs pwd h =
    let e : length xs % 65536 ≡ length xs = omega arith in
    let (s, p) = crc_loop-some xs 0 in (bit_xor s pwd % 65536, rw (e, p), omega arith)

-- A sum over more bytes than the buffer has reads behind it.
pub get_crc16-none :
    (xs : List ℕ) (len pwd : ℕ) → len < 65536 → length xs < len → get_crc16 xs len pwd ≡ none
unfolding get_crc16
get_crc16-none xs len pwd h k =
    let e : len % 65536 ≡ len = omega arith in rw (e, crc_loop-none len xs 0 k)

-- A sum over the front of a buffer.
pub get_crc16-take :
    (xs : List ℕ) (n pwd : ℕ)
    → n ≤ length xs
    → n < 65536
    → get_crc16 xs n pwd ≡ get_crc16 (take n xs) (length (take n xs)) pwd
get_crc16-take xs n pwd h k =
    let front : length (take n xs) ≡ n = omega (arith, length-take n xs) in
    ap₂ (λ b m. get_crc16 b m pwd) (sym (take-append-drop n xs)) (sym front)
    ∙ get_crc16-append (take n xs) (drop n xs) pwd (omega arith)
