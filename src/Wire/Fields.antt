-- ===== src/Wire/Fields.antt =====
-- comm/AgvSchProtocol.cpp: reading a row of fields back, by their sizes.
use mathlib.Core.List.{append_assoc}
use hxdl_driving_control.Prelude.{
  ℕ, ◌+◌, ◌*◌, ◌^◌, ◌≤◌, ◌<◌, ◌≡◌, refl, sym, ap, ◌∙◌, List, [], ◌∷◌, ◌++◌, Option, some, arith,
  length, length-append, drop,
}
use hxdl_driving_control.Wire.{◌>>=◌, Section, value, empty, bin2buffer, unpack_section}
use hxdl_driving_control.Wire.RoundTrip.{length-bin2buffer}
use hxdl_driving_control.Wire.Sections.{image, unpack_section-stored}

unfoldable pub read_fields : List ℕ → List ℕ → ℕ → Option (List ℕ)
read_fields [] bytes i = some []
read_fields (n ∷ sizes) bytes i =
    unpack_section n bytes i >>= λ v. read_fields sizes bytes (i + n) >>= λ vs. some (v ∷ vs)

-- The fields before the first gap: their sizes, their values, and that the values fit.
abbrev pub sizes : List Section → List ℕ
sizes [] = []
sizes (value v n ∷ sections) = n ∷ sizes sections
sizes (empty n ∷ sections) = []

abbrev pub values : List Section → List ℕ
values [] = []
values (value v n ∷ sections) = v ∷ values sections
values (empty n ∷ sections) = []

abbrev pub Fit : List Section → Type 0
Fit [] = Unit
Fit (value v n ∷ sections) = (0 < n) × (n ≤ 4) × (v < 2 ^ (8 * n)) × Fit sections
Fit (empty n ∷ sections) = Unit

-- The bytes of the fields before the first gap.
abbrev pub laid : List Section → List ℕ
laid [] = []
laid (value v n ∷ sections) = bin2buffer v n ++ laid sections
laid (empty n ∷ sections) = []

-- Fields that stand in a buffer are read back.
pub read_fields-laid :
    (sections : List Section) (done rest : List ℕ) (i : ℕ)
    → length done ≡ i
    → Fit sections
    → read_fields (sizes sections) (done ++ (laid sections ++ rest)) i ≡ some (values sections)
unfolding read_fields
read_fields-laid [] done rest i e f = refl
read_fields-laid (empty n ∷ sections) done rest i e f = refl
read_fields-laid (value v n ∷ sections) done rest i e f =
    let bytes = bin2buffer v n in
    let more = laid sections ++ rest in
    let regrouped : done ++ ((bytes ++ laid sections) ++ rest) ≡ done ++ (bytes ++ more) =
      ap (◌++◌ done) (append_assoc bytes (laid sections) rest) in
    let ih : read_fields (sizes sections) (done ++ (bytes ++ more)) (i + n)
        ≡ some (values sections) =
      ap (λ b. read_fields (sizes sections) b (i + n)) (sym (append_assoc done bytes more))
      ∙ read_fields-laid sections (done ++ bytes) rest (i + n)
          (omega (arith, length-append done bytes, length-bin2buffer v n)) f.3 in
    rw (regrouped, unpack_section-stored done more n v i e f.0 f.1 f.2, ih)

image-laid :
    (sections : List Section) (todo : List ℕ)
    → (rest : List ℕ) × (image sections todo ≡ laid sections ++ rest)
image-laid [] todo = (todo, refl)
image-laid (empty n ∷ sections) todo = (_, refl)
image-laid (value v n ∷ sections) todo =
    let (rest, e) = image-laid sections (drop n todo) in
    (rest, ap (◌++◌ (bin2buffer v n)) e ∙ sym (append_assoc (bin2buffer v n) (laid sections) rest))

pub read_fields-image :
    (sections : List Section) (todo : List ℕ)
    → Fit sections
    → read_fields (sizes sections) (image sections todo) 0 ≡ some (values sections)
read_fields-image sections todo f =
    let (rest, e) = image-laid sections todo in
    ap (λ b. read_fields (sizes sections) b 0) e ∙ read_fields-laid sections [] rest 0 refl f

-- How many bytes the fields take.
abbrev pub total : List ℕ → ℕ
total [] = 0
total (n ∷ ns) = n + total ns

pub length-laid : (sections : List Section) → length (laid sections) ≡ total (sizes sections)
length-laid [] = refl
length-laid (empty n ∷ sections) = refl
length-laid (value v n ∷ sections) = omega (
  arith,
  length-append (bin2buffer v n) (laid sections),
  length-bin2buffer v n,
  length-laid sections,
)
