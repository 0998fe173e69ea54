-- ===== src/Prelude/Fallible.antt =====
-- Code that may run into undefined behaviour: a value, or the fault that stops the model.
use mathlib.Core.Path.{◌≡◌, refl, subst}
use mathlib.Core.Logic.{◌⊎◌, inl, inr}

-- What goes wrong: an access outside an array, a number that its type does not hold, a use of
-- NULL, a read of memory that was never written, a mutex that its own holder locks again, a
-- remainder by zero, a pointer to no allocated memory.
pub data Fault : Type 0 where
  out_of_bounds int_overflow null_pointer uninitialised : Fault
  deadlock division_by_zero bad_pointer : Fault

-- `ok` carries the value of a run that ended, `fault` what stopped one.
pub data Run {ℓ} (V : Type ℓ) : Type ℓ where
  fault : Fault → Run V
  ok : V → Run V

infixl 5 ◌>>=◌
abbrev pub ◌>>=◌ {ℓ κ} : {V : Type ℓ} {W : Type κ} → Run V → (V → Run W) → Run W
fault why >>= next = fault why
ok v >>= next = next v

pub ok-injective {ℓ} : {V : Type ℓ} {v w : V} → ok v ≡ ok w → v ≡ w
ok-injective same = cc

pub >>=_assoc {ℓ} :
    {U V W : Type ℓ} (first : Run U) (second : U → Run V) (third : V → Run W)
    → first >>= second >>= third ≡ first >>= (λ u. second u >>= third)
>>=_assoc (fault why) second third = refl
>>=_assoc (ok u) second third = refl

-- The run ends with no fault, in a value of which `Q` holds.
abbrev pub Returns {ℓ κ} : {V : Type ℓ} → Run V → (V → Type κ) → Type (ℓ ⊔ κ)
Returns {V} run Q = (v : V) × (run ≡ ok v) × Q v

pub Run-cases {ℓ} :
    {V : Type ℓ} (run : Run V) → ((v : V) × (run ≡ ok v)) ⊎ ((why : Fault) × (run ≡ fault why))
Run-cases (fault why) = inr (why, refl)
Run-cases (ok v) = inl (v, refl)

-- Every value that the run can end in satisfies `Q`.
abbrev pub Always {ℓ κ} : {V : Type ℓ} → Run V → (V → Type κ) → Type (ℓ ⊔ κ)
Always {V} run Q = (v : V) → run ≡ ok v → Q v

pub Always-ok {ℓ κ} : {V : Type ℓ} (Q : V → Type κ) (v : V) → Q v → Always (ok v) Q
Always-ok Q v q w e = subst Q (ok-injective e) q

-- Behind any run: what the rest ensures whatever the value is.
pub Always-bind {ℓ κ ι} :
    {V : Type ℓ} {W : Type κ} (Q : W → Type ι) (run : Run V) (next : V → Run W)
    → ((v : V) → Always (next v) Q)
    → Always (run >>= next) Q
Always-bind Q (fault why) next h w e = cc
Always-bind Q (ok v) next h w e = h v w e

-- The same, where something is known of the values of the run.
pub Always-then {ℓ κ ι μ} :
    {V : Type ℓ} {W : Type κ} (P : V → Type μ) (Q : W → Type ι) (run : Run V) (next : V → Run W)
    → Always run P
    → ((v : V) → P v → Always (next v) Q)
    → Always (run >>= next) Q
Always-then P Q (fault why) next p h w e = cc
Always-then P Q (ok v) next p h w e = h v (p v refl) w e
