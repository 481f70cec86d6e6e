-- ===== src/Wire/Sections.antt =====
-- comm/AgvSchProtocol.cpp: the section macros on a buffer that has room.
use mathlib.Core.List.{append_assoc}
use hxdl_driving_control.Prelude.{
  ℕ, ◌+◌, ◌*◌, ◌^◌, ◌≤◌, ◌<◌, ◌≡◌, refl, sym, ap, ap₂, ◌∙◌, List, [], ◌∷◌, ◌++◌, Option, some,
  arith, length, length-append, take, drop, take-append_length, drop-append_length, drop-drop,
  drop_at, length-take, length-drop, take-append-drop,
}
use hxdl_driving_control.Wire.{
  bin2buffer, memcpy, Section, value, empty, pack_sections, unpack_section, buffer2bin,
}
use hxdl_driving_control.Wire.RoundTrip.{length-bin2buffer, buffer2bin-bin2buffer}

-- A copy that fits leaves the buffer's size.
pub length-memcpy :
    (buf bytes buf' : List ℕ) (i : ℕ) → memcpy buf i bytes ≡ some buf' → length buf' ≡ length buf
unfolding memcpy
length-memcpy buf bytes buf' i e = ground (
  arith,
  length-append (take i buf) (bytes ++ drop (i + length bytes) buf),
  length-append bytes (drop (i + length bytes) buf),
  length-take i buf,
  length-drop (i + length bytes) buf,
)

-- And a copy within the buffer succeeds.
pub memcpy-some :
    (buf bytes : List ℕ) (i : ℕ)
    → i + length bytes ≤ length buf
    → (buf' : List ℕ) × (memcpy buf i bytes ≡ some buf') × (length buf' ≡ length buf)
memcpy-some buf bytes i h =
    let buf' = take i buf ++ (bytes ++ drop (i + length bytes) buf) in
    let e : memcpy buf i bytes ≡ some buf' = unfold memcpy in ground arith in
    (buf', e, length-memcpy buf bytes buf' i e)

-- A copy into the middle of a buffer that has room for it.
pub memcpy-append :
    (done todo bytes : List ℕ) (i : ℕ)
    → length done ≡ i
    → length bytes ≤ length todo
    → memcpy (done ++ todo) i bytes ≡ some (done ++ (bytes ++ drop (length bytes) todo))
unfolding memcpy
memcpy-append done todo bytes i e h =
    let n = length bytes in
    let whole = done ++ todo in
    let front : take i whole ≡ done =
      ap (λ k. take k whole) (sym e) ∙ take-append_length done todo in
    let back : drop (i + n) whole ≡ drop n todo =
      sym (drop-drop n i whole)
      ∙ ap (λ k. drop n (drop k whole)) (sym e)
      ∙ ap (drop n) (drop-append_length done todo) in
    ground (arith, length-append done todo, front, back)

abbrev pub size : List Section → ℕ
size [] = 0
size (value v n ∷ sections) = n + size sections
size (empty n ∷ sections) = n + size sections

-- The buffer `todo` with the sections laid over it.
abbrev pub image : List Section → List ℕ → List ℕ
image [] todo = todo
image (value v n ∷ sections) todo = bin2buffer v n ++ image sections (drop n todo)
image (empty n ∷ sections) todo = take n todo ++ image sections (drop n todo)

regroup :
    (i n k : ℕ) (xs ys zs : List ℕ)
    → ◌≡◌ {A = Option (ℕ × List ℕ)}
        (some (i + n + k, (xs ++ ys) ++ zs))
        (some (i + (n + k), xs ++ (ys ++ zs)))
regroup i n k xs ys zs = ap₂ (λ j b. some (j, b)) (omega arith) (append_assoc xs ys zs)

length-take_le : (n : ℕ) (todo : List ℕ) → n ≤ length todo → length (take n todo) ≡ n
length-take_le n todo h = omega (arith, length-take n todo)

-- Sections that fit are stored one behind the other, and the bytes behind them stay.
pub pack_sections-image :
    (sections : List Section) (done todo : List ℕ) (i : ℕ)
    → length done ≡ i
    → size sections ≤ length todo
    → pack_sections sections i (done ++ todo)
      ≡ some (i + size sections, done ++ image sections todo)
unfolding pack_sections
pack_sections-image [] done todo i e h = ap (λ k. some (k, done ++ todo)) (omega arith)
pack_sections-image (value v n ∷ sections) done todo i e h =
    rw
      (
        memcpy-append done todo (bin2buffer v n) i e (omega (arith, length-bin2buffer v n)),
        ← append_assoc done (bin2buffer v n) (drop (length (bin2buffer v n)) todo),
        length-bin2buffer v n,
      )
      (pack_sections-image sections (done ++ bin2buffer v n) (drop n todo) (i + n)
          (omega (arith, length-append done (bin2buffer v n), length-bin2buffer v n))
          (omega (arith, length-drop n todo))
        ∙ regroup i n (size sections) done (bin2buffer v n) (image sections (drop n todo)))
pack_sections-image (empty n ∷ sections) done todo i e h =
    let whole : done ++ todo ≡ (done ++ take n todo) ++ drop n todo =
      ap (◌++◌ done) (sym (take-append-drop n todo))
      ∙ sym (append_assoc done (take n todo) (drop n todo)) in
    ap (pack_sections sections (i + n)) whole
    ∙ pack_sections-image sections (done ++ take n todo) (drop n todo) (i + n)
        (omega (arith, length-append done (take n todo), length-take_le n todo (omega arith)))
        (omega (arith, length-drop n todo))
    ∙ regroup i n (size sections) done (take n todo) (image sections (drop n todo))

-- A field that was stored at an offset is read there.
pub unpack_section-stored :
    (done rest : List ℕ) (n v i : ℕ)
    → length done ≡ i
    → 0 < n
    → n ≤ 4
    → v < 2 ^ (8 * n)
    → unpack_section n (done ++ (bin2buffer v n ++ rest)) i ≡ some v
unfolding unpack_section
unpack_section-stored done rest n v i e p q h =
    let at_field : drop i (done ++ (bin2buffer v n ++ rest)) ≡ bin2buffer v n ++ rest =
      ap (λ k. drop k (done ++ (bin2buffer v n ++ rest))) (sym e)
      ∙ drop-append_length done (bin2buffer v n ++ rest) in
    ap (λ d. buffer2bin d n) at_field ∙ buffer2bin-bin2buffer n v rest p q h

pub length-image :
    (sections : List Section) (todo : List ℕ)
    → size sections ≤ length todo
    → length (image sections todo) ≡ length todo
length-image [] todo h = refl
length-image (value v n ∷ sections) todo h = omega (
  arith,
  length-append (bin2buffer v n) (image sections (drop n todo)),
  length-bin2buffer v n,
  length-drop n todo,
  length-image sections (drop n todo),
)
length-image (empty n ∷ sections) todo h = omega (
  arith,
  length-append (take n todo) (image sections (drop n todo)),
  length-take n todo,
  length-drop n todo,
  length-image sections (drop n todo),
)

-- Past `n` bytes that are laid down, the rest shows.
drop-laid :
    (k n : ℕ) (laid rest todo : List ℕ)
    → length laid ≡ n
    → drop k rest ≡ drop k (drop n todo)
    → drop (n + k) (laid ++ rest) ≡ drop (n + k) todo
drop-laid k n laid rest todo e h =
    sym (drop-drop k n (laid ++ rest))
    ∙ ap (drop k) (drop_at n laid rest e)
    ∙ h
    ∙ drop-drop k n todo

pub drop-image :
    (sections : List Section) (todo : List ℕ)
    → size sections ≤ length todo
    → drop (size sections) (image sections todo) ≡ drop (size sections) todo
drop-image [] todo h = refl
drop-image (value v n ∷ sections) todo h =
    drop-laid (size sections) n (bin2buffer v n) (image sections (drop n todo)) todo
      (length-bin2buffer v n)
      (drop-image sections (drop n todo) (omega (arith, length-drop n todo)))
drop-image (empty n ∷ sections) todo h =
    drop-laid (size sections) n (take n todo) (image sections (drop n todo)) todo
      (length-take_le n todo (omega arith))
      (drop-image sections (drop n todo) (omega (arith, length-drop n todo)))
