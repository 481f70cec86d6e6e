-- ===== src/Sensor/Hmi/Address.antt =====
-- devices/canbus/AgvSensor.cpp: an address that the display sets, in eight parts of two bytes.
use native.Mathlib.Nat.{suc-add}
use hxdl_driving_control.Prelude.{
  ℕ, zero, suc, ◌+◌, ◌-◌, ◌*◌, ◌≤◌, ◌<◌, ◌≡◌, ◌≢◌, refl, sym, ap, ◌∙◌, List, [], ◌∷◌, ◌++◌,
  replicate, true, false, ◌&&◌, Option, some, arith, All, append_assoc, leb, ◌==◌, length,
  length-append, length-replicate, take, take_at, set,
}
use hxdl_driving_control.Wire.{◌>>=◌}
use hxdl_driving_control.Sensor.Hmi.{
  Section, Effect, save_text, parse_address, count_text, until_zero, address_text, address_part,
}

-- A byte of an address: not its end, and not a space.
abbrev pub IsText : ℕ → Type 0
IsText b = (b ≢ 0) × (b ≢ 0x20)

count_text-padded :
    (ip : List ℕ) (k : ℕ) → All IsText ip → count_text (ip ++ replicate k 0x20) ≡ length ip
unfolding count_text
count_text-padded [] zero h = refl
count_text-padded [] (suc k) h = count_text-padded [] k h
count_text-padded (b ∷ ip) k h =
    let no_space : (b == 0x20) ≡ false = ground (arith, h.0) in
    rw no_space (ap suc (count_text-padded ip k h.1))

until_zero-text : (ip : List ℕ) → All IsText ip → until_zero ip ≡ ip
unfolding until_zero
until_zero-text [] h = refl
until_zero-text (b ∷ ip) h =
    let no_end : (b == 0) ≡ false = ground (arith, h.0) in
    rw no_end (ap (λ l. b ∷ l) (until_zero-text ip h.1))

address_text-padded :
    (ip : List ℕ) (k : ℕ) → All IsText ip → 1 ≤ k → address_text (ip ++ replicate k 0x20) ≡ some ip
unfolding address_text
address_text-padded ip k h some_space =
    let whole = ip ++ replicate k 0x20 in
    let count = count_text-padded ip k h in
    let room : leb (count_text whole + 1) (length whole) ≡ true =
      ground (arith, count, length-append ip (replicate k 0x20), length-replicate {A = ℕ} k 0x20) in
    rw (room) (
      ap (λ n. some (until_zero (take n whole))) count
      ∙ ap (λ l. some (until_zero l)) (take_at (length ip) ip (replicate k 0x20) refl)
      ∙ ap some (until_zero-text ip h))

set_two :
    (done todo : List ℕ) (x y a b : ℕ)
    → set (set (done ++ x ∷ y ∷ todo) (length done) a) (length done + 1) b ≡ done ++ a ∷ b ∷ todo
set_two [] todo x y a b = refl
set_two (d ∷ done) todo x y a b = rw suc-add (ap (λ l. d ∷ l) (set_two done todo x y a b))

-- The display's commands for an address, from the given part on: two bytes each, behind any code.
unfoldable pub feed : Section → ℕ → ℕ → List (ℕ × ℕ) → List ℕ → Option (List ℕ × List Effect)
feed section code part [] ip = some (ip, [])
feed section code part ((a, b) ∷ ps) ip =
    parse_address section (code ∷ part ∷ a ∷ b ∷ []) ip >>= λ (ip1, effects).
    feed section code (part + 1) ps ip1 >>= λ (ip2, more). some (ip2, effects ++ more)

abbrev pub flat : List (ℕ × ℕ) → List ℕ
flat [] = []
flat ((a, b) ∷ ps) = a ∷ b ∷ flat ps

part-middle :
    (section : Section) (code part a b x y : ℕ) (done todo : List ℕ)
    → 1 ≤ part
    → part < 8
    → length done ≡ 2 * (part - 1)
    → parse_address section (code ∷ part ∷ a ∷ b ∷ []) (done ++ x ∷ y ∷ todo)
      ≡ some (done ++ a ∷ b ∷ todo, [])
unfolding parse_address address_part
part-middle section code part a b x y done todo low high size =
    let inside : (leb 1 part && leb part 8) ≡ true = ground arith in
    let middle : (part == 8) ≡ false = ground arith in
    rw (inside, middle)
      (ap (λ n. some (set (set (done ++ x ∷ y ∷ todo) n a) (n + 1) b, [])) (sym size)
        ∙ ap (λ l. some (l, [])) (set_two done todo x y a b))

part-last :
    (section : Section) (code a b x y : ℕ) (done text : List ℕ)
    → length done ≡ 14
    → address_text (done ++ a ∷ b ∷ []) ≡ some text
    → parse_address section (code ∷ 8 ∷ a ∷ b ∷ []) (done ++ x ∷ y ∷ [])
      ≡ some (done ++ a ∷ b ∷ [], save_text section text ∷ [])
unfolding parse_address address_part
part-last section code a b x y done text size e =
    ap
      (λ n. address_text (set (set (done ++ x ∷ y ∷ []) n a) (n + 1) b) >>= λ t.
        some (set (set (done ++ x ∷ y ∷ []) n a) (n + 1) b, save_text section t ∷ []))
      (sym size)
    ∙ ap (λ l. address_text l >>= λ t. some (l, save_text section t ∷ [])) (set_two done [] x y a b)
    ∙ ap (λ o. o >>= λ t. some (done ++ a ∷ b ∷ [], save_text section t ∷ [])) e

feed-flat :
    (section : Section) (code part : ℕ) (a b : ℕ) (ps : List (ℕ × ℕ)) (done todo text : List ℕ)
    → 1 ≤ part
    → part + length ps ≡ 8
    → length done ≡ 2 * (part - 1)
    → length todo ≡ 2 * suc (length ps)
    → address_text (done ++ flat ((a, b) ∷ ps)) ≡ some text
    → feed section code part ((a, b) ∷ ps) (done ++ todo)
      ≡ some (done ++ flat ((a, b) ∷ ps), save_text section text ∷ [])
unfolding feed
feed-flat section code part a b ps done [] text low count size room e = absurd (omega arith)
feed-flat section code part a b ps done (x ∷ []) text low count size room e = absurd (omega arith)
feed-flat section code part a b [] done (x ∷ y ∷ []) text low count size room e =
    let last : part ≡ 8 = omega (arith, count) in
    ap
      (λ k. parse_address section (code ∷ k ∷ a ∷ b ∷ []) (done ++ x ∷ y ∷ []) >>= λ (ip1, effects).
        some (ip1, effects ++ []))
      last
    ∙ ap (λ o. o >>= λ (ip1, effects). some (ip1, effects ++ []))
        (part-last section code a b x y done text (omega (arith, size, last)) e)
feed-flat section code part a b [] done (x ∷ y ∷ z ∷ todo) text low count size room e =
    absurd (omega arith)
feed-flat section code part a b ((c, d) ∷ ps) done (x ∷ y ∷ todo) text low count size room e =
    let regroup = append_assoc done (a ∷ b ∷ []) in
    let whole = regroup (flat ((c, d) ∷ ps)) in
    let rest =
      feed-flat section code (part + 1) c d ps (done ++ a ∷ b ∷ []) todo text (omega arith)
        (omega arith) (omega (arith, length-append done (a ∷ b ∷ []))) (omega arith)
        (ap address_text whole ∙ e) in
    ap
      (λ o. o >>= λ (ip1, effects).
        feed section code (part + 1) ((c, d) ∷ ps) ip1 >>= λ (ip2, more).
        some (ip2, effects ++ more))
      (part-middle section code part a b x y done todo low (omega arith) size)
    ∙ ap (λ l. feed section code (part + 1) ((c, d) ∷ ps) l >>= λ (ip2, more). some (ip2, more))
        (sym (regroup todo))
    ∙ ap (λ o. o >>= λ (ip2, more). some (ip2, more)) rest
    ∙ ap (λ l. some (l, save_text section text ∷ [])) whole

-- An address of at most 15 bytes, none of them zero or a space, that comes from the display in eight parts
-- of two bytes, filled up with spaces, is saved as it is once the last part is there, whatever the array
-- of 16 bytes held before.
pub feed-address :
    (section : Section) (code : ℕ) (ip : List ℕ) (k : ℕ) (ps : List (ℕ × ℕ)) (before : List ℕ)
    → All IsText ip
    → 1 ≤ k
    → length ps ≡ 8
    → flat ps ≡ ip ++ replicate k 0x20
    → length before ≡ 16
    → feed section code 1 ps before ≡ some (flat ps, save_text section ip ∷ [])
feed-address section code ip k [] before h some_space eight same size = absurd (omega arith)
feed-address section code ip k ((a, b) ∷ ps) before h some_space eight same size =
    feed-flat section code 1 a b ps [] before ip (omega arith) (omega arith) refl (omega arith)
      (ap address_text same ∙ address_text-padded ip k h some_space)
