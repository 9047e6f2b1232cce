-- ===== src/Prelude/Results.antt =====
-- What a run of Go code ends with: a value, a run-time panic, or, for a loop that the model runs on
-- fuel, no answer.

use mathlib.Core.Path.{◌≡◌, refl}

pub data Result {ℓ} (A : Type ℓ) : Type ℓ where
  ok : A → Result A
  panic : Result A
  out_of_fuel : Result A

infixl 5 ◌>>=◌
abbrev pub ◌>>=◌ {ℓ κ} : {A : Type ℓ} {B : Type κ} → Result A → (A → Result B) → Result B
ok a >>= f = f a
panic >>= f = panic
out_of_fuel >>= f = out_of_fuel

-- `h` does what `f` and then `g` do.
pub bind-bind :
    {A : Type 0} (m : Result A) (f g h : A → Result A)
    → ((a : A) → h a ≡ f a >>= g)
    → m >>= h ≡ (m >>= f) >>= g
bind-bind (ok a) f g h e = e a
bind-bind panic f g h e = refl
bind-bind out_of_fuel f g h e = refl
