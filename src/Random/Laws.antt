-- ===== src/Random/Laws.antt =====
-- The two widths of the generator agree, and a step can be undone.
use valk.Prelude.{ℕ, ◌+◌, ◌-◌, ◌*◌, ◌%◌, ◌<◌, ◌≡◌, arith}
use valk.Random.{increment, modulus, next32, next64}

pub next32-lt : (r : ℕ) → next32 r < modulus
unfolding next32
next32-lt r = omega arith

pub next64-lt : (r : ℕ) → next64 r < modulus
unfolding next64
next64-lt r = omega arith

-- On a state below the modulus the uint32 closure and the uint64 line compute the same value:
-- neither wrap-around is visible.
pub next32-next64 : (r : ℕ) → r < modulus → next32 r ≡ next64 r
unfolding next32 next64
next32-next64 r h = omega arith

-- The multiplier's inverse modulo 2 ^ 31.
abbrev inverse : ℕ
inverse = 1857678181

unfoldable pub previous : ℕ → ℕ
previous r = ((r + modulus - increment) * inverse) % modulus

-- A step is undone by `previous`, so no two states have the same successor and the generator
-- never falls into a shorter cycle from outside.
pub previous-next64 : (r : ℕ) → r < modulus → previous (next64 r) ≡ r
unfolding previous next64
previous-next64 r h = omega arith
