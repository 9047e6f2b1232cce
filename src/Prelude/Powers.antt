-- ===== src/Prelude/Powers.antt =====
-- Powers of two.
use native.Mathlib.Nat.{two-pow-succ, pow-le-pow_right, add-zero, add-suc}
use native.Mathlib.Numerals.{towards_suc}
use valk.Prelude.{ℕ, zero, suc, ◌+◌, ◌*◌, ◌^◌, ◌≤◌, ◌<◌, ◌≡◌, arith}

-- One more level doubles a power of two.
pub two-pow_double : (d : ℕ) → 2 ^ (suc d + 1) ≡ 2 * 2 ^ (d + 1)
two-pow_double d = simp towards_suc (rw (two-pow-succ (suc d)) (omega arith))

pub two-pow-add : (a b : ℕ) → 2 ^ (a + b) ≡ 2 ^ a * 2 ^ b
two-pow-add a zero = rw add-zero (omega arith)
two-pow-add a (suc b) =
    rw (add-suc a b, two-pow-succ (a + b), two-pow-succ b) (grind (arith, two-pow-add a b))

pub two-pow_pos : (a : ℕ) → 0 < 2 ^ a
two-pow_pos zero = omega arith
two-pow_pos (suc a) = rw two-pow-succ (omega (arith, two-pow_pos a))

pub two-pow_mono : {a b : ℕ} → a ≤ b → 2 ^ a ≤ 2 ^ b
two-pow_mono h = pow-le-pow_right (omega arith) h

-- The powers that an `int` of 64 bits holds.
pub two-pow-lt_int : (k : ℕ) → k < 63 → 2 ^ k < 2 ^ 63
two-pow-lt_int k h =
    let bound : 2 ^ k ≤ 2 ^ 62 = two-pow_mono {a = k} {b = 62} (omega arith) in omega arith
