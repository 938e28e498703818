-- ===== src/Base/Results.antt =====
-- What holds of a result that may be missing.
use mathlib.Core.Bool.{Bool, true, false}
use mathlib.Core.Option.{Option, none, some}
use etcp.Base.Tests.{◌>>=◌, if◌then◌else◌}

-- What a result has if it is there.
abbrev pub All : {X : Type 0} → (X → Type 0) → Option X → Type 0
All P none = Unit
All P (some x) = P x

pub All-bind :
    {X Y : Type 0} (P : Y → Type 0) (o : Option X) (f : X → Option Y)
    → ((x : X) → All P (f x))
    → All P (o >>= f)
All-bind P none f h = tt
All-bind P (some x) f h = h x

pub All-then :
    {X Y : Type 0} (P : X → Type 0) (Q : Y → Type 0) (o : Option X) (f : X → Option Y)
    → All P o
    → ((x : X) → P x → All Q (f x))
    → All Q (o >>= f)
All-then P Q none f p h = tt
All-then P Q (some x) f p h = h x p

pub All-map :
    {X : Type 0} (P Q : X → Type 0) (o : Option X) → ((x : X) → P x → Q x) → All P o → All Q o
All-map P Q none h p = tt
All-map P Q (some x) h p = h x p

pub All-if :
    {X : Type 0} (P : X → Type 0) (b : Bool) (x y : Option X)
    → All P x
    → All P y
    → All P (if b then x else y)
All-if P true x y hx hy = hx
All-if P false x y hx hy = hy

-- Either branch of a test.
pub if-both {ℓ} :
    {X : Type ℓ} (P : X → Type 0) (b : Bool) {x y : X} → P x → P y → P (if b then x else y)
if-both P true px py = px
if-both P false px py = py
