-- ===== src/Prelude/Masks.antt =====
-- `x & (2 ^ k - 1)` is the remainder by 2 ^ k.
use Prim.Native.Nat.{bit_and, bit_and-bitwise, digits, min}
use native.Mathlib.Nat.{
  div-add-mod, mul-add-mod_self_left, mod-eq_of_lt, mul_assoc, pow-succ', mod-lt,
}
use valk.Prelude.{ℕ, zero, suc, ◌+◌, ◌-◌, ◌*◌, ◌/◌, ◌%◌, ◌^◌, ◌≤◌, ◌<◌, ◌≡◌, sym, ap, ◌∙◌, arith}
use valk.Prelude.Powers.{two-pow_pos}

-- A number below a power of two, with a lowest digit added on both sides.
mod_double : (x r p : ℕ) → 0 < p → r < 2 → (2 * x + r) % (2 * p) ≡ x % p * 2 + r
mod_double x r p pos small =
    let d = div-add-mod x p in
    let below : x % p < p = mod-lt x pos in
    let e : 2 * x + r ≡ 2 * p * (x / p) + (x % p * 2 + r) =
      grind (arith, d, mul_assoc 2 p (x / p)) in
    rw (e) (mul-add-mod_self_left (2 * p) (x / p) (x % p * 2 + r) ∙ mod-eq_of_lt (omega arith))

digits-mask : (fuel a k : ℕ) → a ≤ fuel → digits (λ b. zero) min fuel a (2 ^ k - 1) ≡ a % 2 ^ k
digits-mask zero zero k h = sym (mod-eq_of_lt (two-pow_pos k))
digits-mask zero (suc a) k h = absurd (omega arith)
digits-mask (suc fuel) zero k h = sym (mod-eq_of_lt (two-pow_pos k))
digits-mask (suc fuel) (suc a) zero h =
    let rest = digits-mask fuel (suc a / 2) 0 (omega arith) in omega (arith, rest)
digits-mask (suc fuel) (suc a) (suc k) h =
    let pos = two-pow_pos k in
    let twice = pow-succ' 2 k in
    let rest = digits-mask fuel (suc a / 2) k (omega arith) in
    let half : (2 ^ suc k - 1) / 2 ≡ 2 ^ k - 1 = omega arith in
    let odd : (2 ^ suc k - 1) % 2 ≡ 1 = omega arith in
    let split : suc a ≡ 2 * (suc a / 2) + suc a % 2 = omega arith in
    let low : min (suc a % 2) 1 ≡ suc a % 2 = omega arith in
    let m = mod_double (suc a / 2) (suc a % 2) (2 ^ k) pos (omega arith) in
    let e = ap (λ t. suc a % t) twice in
    let f = ap (λ t. t % (2 * 2 ^ k)) split in rw (half, rest, odd) (omega (arith, low, m, e, f))

-- The mask of `k` ones.
pub bit_and-mask : (a k : ℕ) → bit_and a (2 ^ k - 1) ≡ a % 2 ^ k
bit_and-mask a k = (λ i. bit_and-bitwise a (2 ^ k - 1) i) ∙ digits-mask a a k (omega arith)
