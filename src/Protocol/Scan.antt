-- ===== src/Protocol/Scan.antt =====
-- comm/AgvSchProtocol.cpp: CheckProtocol, and what a frame of a buffer is.
use mathlib.Core.List.{append_assoc}
use hxdl_driving_control.Prelude.{
  ℕ, ◌+◌, ◌-◌, ◌≤◌, ◌<◌, ◌≡◌, ◌≢◌, refl, sym, ap, ap₂, ◌∙◌, List, [], ◌∷◌, ◌++◌, Option, none, some,
  All, All-append, length, length-append, arith, ◌==◌, ltb, if◌then◌else◌, Bool-cases, inl, inr,
}
use hxdl_driving_control.Protocol.{Protocol, scan, check_protocol}
use hxdl_driving_control.Protocol.Stuffing.{flag}

abbrev pub Lacks : List ℕ → Type 0
Lacks = All (λ b. b ≢ flag)

-- A frame of `buf` between the flags at `s` and `e`.
pub record IsFrame (buf : List ℕ) (s e : ℕ) : Type 0 where
  pub before : List ℕ
  pub body : List ℕ
  pub after : List ℕ
  pub parts : buf ≡ before ++ flag ∷ (body ++ flag ∷ after)
  pub starts : length before ≡ s
  pub ends : s + 1 + length body ≡ e
  pub plain : Lacks body
  pub long : 8 ≤ length body

pub scan-skip_none :
    (xs ys : List ℕ) (i j : ℕ)
    → Lacks xs
    → i + length xs ≡ j
    → scan flag flag i (xs ++ ys) none ≡ scan flag flag j ys none
unfolding scan
scan-skip_none [] ys i j l e = ap (λ k. scan flag flag k ys none) (omega arith)
scan-skip_none (x ∷ xs) ys i j l e = ground (arith, scan-skip_none xs ys (i + 1) j l.1)

scan-skip_some :
    (xs ys : List ℕ) (i j h : ℕ)
    → Lacks xs
    → i + length xs ≡ j
    → scan flag flag i (xs ++ ys) (some h) ≡ scan flag flag j ys (some h)
unfolding scan
scan-skip_some [] ys i j h l e = ap (λ k. scan flag flag k ys (some h)) (omega arith)
scan-skip_some (x ∷ xs) ys i j h l e = ground (arith, scan-skip_some xs ys (i + 1) j h l.1)

-- From the head flag on: the body is passed over, and the tail flag ends the search.
scan-body :
    (body rest : List ℕ) (i h e : ℕ)
    → Lacks body
    → i + length body ≡ e
    → h + 8 < e
    → scan flag flag i (body ++ flag ∷ rest) (some h) ≡ some (h, e)
unfolding scan
scan-body body rest i h e l n k = scan-skip_some body (flag ∷ rest) i e h l n ∙ ground arith

scan-flag :
    (ys : List ℕ) (i : ℕ) → scan flag flag i (flag ∷ ys) none ≡ scan flag flag (i + 1) ys (some i)
unfolding scan
scan-flag ys i = ground arith

pub scan-frame :
    (noise body rest : List ℕ) (s e : ℕ)
    → Lacks noise
    → Lacks body
    → length noise ≡ s
    → s + 1 + length body ≡ e
    → 8 ≤ length body
    → scan flag flag 0 (noise ++ flag ∷ (body ++ flag ∷ rest)) none ≡ some (s, e)
scan-frame noise body rest s e l m p q k =
    scan-skip_none noise (flag ∷ (body ++ flag ∷ rest)) 0 s l (omega arith)
    ∙ scan-flag (body ++ flag ∷ rest) s
    ∙ scan-body body rest (s + 1) s e m (omega arith) (omega arith)

module _ (whole : List ℕ) (r : ℕ × ℕ) where
  scan-found :
      (before mid buf : List ℕ) (i h : ℕ)
      → whole ≡ before ++ flag ∷ (mid ++ buf)
      → length before ≡ h
      → h + 1 + length mid ≡ i
      → Lacks mid
      → scan flag flag i buf (some h) ≡ some r
      → IsFrame whole r.0 r.1
  unfolding scan
  scan-found before mid [] i h w p q l e = cc
  scan-found before mid (b ∷ buf) i h w p q l e = elim (Bool-cases (b == flag)) [
    | inl hit ↦
        let is_flag : b ≡ flag = ground arith in
        let w' : whole ≡ before ++ flag ∷ (mid ++ flag ∷ buf) =
          w ∙ ap (λ c. before ++ flag ∷ (mid ++ c ∷ buf)) is_flag in
        elim (Bool-cases (ltb 8 (i - h))) [
          | inl far ↦ record {
            before = before;
            body = mid;
            after = buf;
            parts = w';
            starts = ground arith;
            ends = ground arith;
            plain = l;
            long = ground arith;
          }
          | inr near ↦
              scan-found (before ++ flag ∷ mid) [] buf (i + 1) i
                (w' ∙ sym (append_assoc before (flag ∷ mid) (flag ∷ buf)))
                (omega (arith, length-append before (flag ∷ mid))) (omega arith) tt (ground arith)
        ]
    | inr miss ↦
        scan-found before (mid ++ b ∷ []) buf (i + 1) h
          (w ∙ ap (λ t. before ++ flag ∷ t) (sym (append_assoc mid (b ∷ []) buf))) p
          (omega (arith, length-append mid (b ∷ [])))
          (All-append (λ c. c ≢ flag) mid (b ∷ []) l (ground arith)) (ground arith)
  ]

  scan_sound :
      (noise buf : List ℕ) (i : ℕ)
      → whole ≡ noise ++ buf
      → length noise ≡ i
      → scan flag flag i buf none ≡ some r
      → IsFrame whole r.0 r.1
  unfolding scan
  scan_sound noise [] i w p e = cc
  scan_sound noise (b ∷ buf) i w p e = elim (Bool-cases (b == flag)) [
    | inl hit ↦
        let is_flag : b ≡ flag = ground arith in
        scan-found noise [] buf (i + 1) i (w ∙ ap (λ c. noise ++ c ∷ buf) is_flag) p (omega arith)
          tt (ground arith)
    | inr miss ↦
        scan_sound (noise ++ b ∷ []) buf (i + 1) (w ∙ sym (append_assoc noise (b ∷ []) buf))
          (omega (arith, length-append noise (b ∷ []))) (ground arith)
  ]

-- Once a frame lies ahead, the search cannot fail.
scan-hits :
    (before body after : List ℕ) (i : ℕ) (hi : Option ℕ)
    → Lacks body
    → 8 ≤ length body
    → scan flag flag i (before ++ flag ∷ (body ++ flag ∷ after)) hi ≢ none
unfolding scan
scan-hits [] body after i none l k =
    ground (arith, scan-body body after (i + 1) i (i + 1 + length body) l)
scan-hits [] body after i (some h) l k =
    ground (arith, scan-body body after (i + 1) i (i + 1 + length body) l)
scan-hits (b ∷ before) body after i none l k = ground (
  arith,
  scan-hits before body after (i + 1) none l k,
  scan-hits before body after (i + 1) (some i) l k,
)
scan-hits (b ∷ before) body after i (some h) l k = ground (
  arith,
  scan-hits before body after (i + 1) (some h) l k,
  scan-hits before body after (i + 1) (some i) l k,
)

pub check_protocol_flags :
    (p : Protocol) (buf : List ℕ)
    → p.head ≡ flag
    → p.tail ≡ flag
    → check_protocol p buf ≡ (if ltb (length buf) 10 then none else scan flag flag 0 buf none)
unfolding check_protocol
check_protocol_flags p buf ph pt =
    ap₂ (λ h t. if ltb (length buf) 10 then none else scan h t 0 buf none) ph pt

length-frame : (buf : List ℕ) (s e : ℕ) → IsFrame buf s e → 10 ≤ length buf
length-frame buf s e f = omega (
  arith,
  ap length f.parts,
  length-append f.before (flag ∷ (f.body ++ flag ∷ f.after)),
  length-append f.body (flag ∷ f.after),
)

-- What `CheckProtocol` reports, of an object whose head and tail are the flag, is a frame of the
-- buffer: a flag at `start`, a flag at `end`, none between, and at least eight bytes between.
pub check_protocol-IsFrame :
    (p : Protocol) (buf : List ℕ) (s e : ℕ)
    → p.head ≡ flag
    → p.tail ≡ flag
    → check_protocol p buf ≡ some (s, e)
    → IsFrame buf s e
check_protocol-IsFrame p buf s e ph pt h =
    scan_sound buf (s, e) [] buf 0 refl refl (ground (arith, check_protocol_flags p buf ph pt))

-- And it reports one wherever the buffer holds a frame at all.
check_protocol-ne-none :
    (p : Protocol) (buf : List ℕ) (s e : ℕ)
    → p.head ≡ flag
    → p.tail ≡ flag
    → IsFrame buf s e
    → check_protocol p buf ≢ none
check_protocol-ne-none p buf s e ph pt f = ground (
  arith,
  check_protocol_flags p buf ph pt,
  length-frame buf s e f,
  ap (λ b. scan flag flag 0 b none) f.parts,
  scan-hits f.before f.body f.after 0 none f.plain f.long,
)
