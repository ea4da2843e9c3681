-- ===== src/Schema/Parser/Ends.antt =====
-- The results of the parser of src/schema/parser.rs: an error of the source, or a value.
use kind.Prelude.{ℕ, ◌≤◌, ◌<◌, ◌≡◌, refl, Bool, true, false, arith, if◌then◌else◌}
use kind.Prelude.Result.{Result, ok, err, ◌>>=◌}
use kind.Schema.Parser.{ParseError, out_of_fuel}

abbrev pub IsRealError : ParseError → Type 0
IsRealError out_of_fuel = ⊥
IsRealError _ = Unit

-- An error of the source, or a result behind which less than `n` tokens are left.
abbrev pub Ends : {B : Type 0} → (B → ℕ) → ℕ → Result ParseError B → Type 0
Ends left n (ok b) = left b < n
Ends left n (err e) = IsRealError e

pub Ends->>= :
    {B C : Type 0} (left : B → ℕ) (left' : C → ℕ) (n m : ℕ) (r : Result ParseError B)
    (f : B → Result ParseError C)
    → Ends left n r
    → ((b : B) → left b < n → Ends left' m (f b))
    → Ends left' m (r >>= f)
Ends->>= left left' n m (ok b) f h k = k b h
Ends->>= left left' n m (err e) f h k = h

pub Ends-if :
    {B : Type 0} (left : B → ℕ) (n : ℕ) (b : Bool) (x y : Result ParseError B)
    → (b ≡ true → Ends left n x)
    → (b ≡ false → Ends left n y)
    → Ends left n (if b then x else y)
Ends-if left n true x y hx hy = hx refl
Ends-if left n false x y hx hy = hy refl

pub Ends-weaken :
    {B : Type 0} (left : B → ℕ) (n m : ℕ) (r : Result ParseError B)
    → n ≤ m
    → Ends left n r
    → Ends left m r
Ends-weaken left n m (ok b) h e = omega (arith, h, e)
Ends-weaken left n m (err x) h e = e
