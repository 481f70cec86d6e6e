-- ===== src/Wire/After.antt =====
-- What holds after a step that goes through: rules for the ways in which the steps are put together.
use hxdl_driving_control.Prelude.{Bool, true, false, Option, none, some, if◌then◌else◌}
use hxdl_driving_control.Wire.{◌>>=◌}

-- A fault leaves nothing to hold.
abbrev pub After : {A : Type 0} (P : A → Type 0) → Option A → Type 0
After P none = Unit
After P (some a) = P a

pub After-bind :
    {A B : Type 0} (P : A → Type 0) (Q : B → Type 0) (o : Option A) (f : A → Option B)
    → After P o
    → ((a : A) → P a → After Q (f a))
    → After Q (o >>= f)
After-bind P Q none f h g = tt
After-bind P Q (some a) f h g = g a h

pub After-if :
    {A : Type 0} (P : A → Type 0) (b : Bool) (x y : Option A)
    → After P x
    → After P y
    → After P (if b then x else y)
After-if P true x y h k = h
After-if P false x y h k = k

-- Nothing is known of the value, and the step after it needs nothing.
pub After-any :
    {A B : Type 0} (Q : B → Type 0) (o : Option A) (f : A → Option B)
    → ((a : A) → After Q (f a))
    → After Q (o >>= f)
After-any Q none f g = tt
After-any Q (some a) f g = g a

pub After-top : {A : Type 0} (P : A → Type 0) (o : Option A) → ((a : A) → P a) → After P o
After-top P none h = tt
After-top P (some a) h = h a
