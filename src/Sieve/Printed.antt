-- ===== src/Sieve/Printed.antt =====
-- What `is_prime` means, and what `main` prints.
use Prim.Native.String.{String}
use valk.Prelude.{
  ℕ, zero, suc, ◌-◌, ◌*◌, ◌%◌, ◌^◌, ◌≤◌, ◌<◌, ◌≡◌, refl, ◌≢◌, ◌↔◌, List, [], ◌∷◌, true, false,
  arith, ok, ◌>>=◌, ltb, ◌==◌, Bool-cases, inl, inr,
}
use valk.Prelude.Int.{ℤ, pos, signed64}
use valk.Prelude.Output.{int, Line, printf}
use valk.Prelude.Powers.{two-pow_mono, two-pow_pos}
use valk.Sieve.{nsieve, shift_limit, parse_args, main}
use valk.Sieve.Primes.{composite_below, is_prime, primes_from, nsieve-primes}

no_divisor : (m k : ℕ) → composite_below m k ≡ false → (d : ℕ) → 2 ≤ d → d < m → d < k → k % d ≢ 0
unfolding composite_below
no_divisor zero k h d two lt below = absurd (omega arith)
no_divisor (suc m) k h d two lt below = elim (Bool-cases (d == m)) [
  | inl here ↦ ground arith
  | inr other ↦ ground (arith, no_divisor m k (ground arith) d two (ground arith) below)
]

composite_below-false :
    (m k : ℕ) → m ≤ k → ((d : ℕ) → 2 ≤ d → d < k → k % d ≢ 0) → composite_below m k ≡ false
unfolding composite_below
composite_below-false zero k le h = refl
composite_below-false (suc m) k le h =
    ground (arith, h m, composite_below-false m k (omega arith) h)

-- `is_prime k` says that `k` is at least 2 and that no number from 2 to below `k` divides it.
pub is_prime_iff : (k : ℕ) → (is_prime k ≡ true) ↔ ((2 ≤ k) × ((d : ℕ) → 2 ≤ d → d < k → k % d ≢ 0))
unfolding is_prime
is_prime_iff k = (
  λ h. (ground arith, λ d two lt. no_divisor k k (ground arith) d two lt lt),
  λ (two, none_divides). ground (arith, composite_below-false k k (omega arith) none_divides),
)

-- One line of `main`.
abbrev pub primes_line : ℕ → Line
primes_line n =
    printf "Primes up to %8d %8d\n" (int (pos n) ∷ int (pos (primes_from (n - 2) 2)) ∷ [])

limit_line :
    (n i : ℕ)
    → i ≤ n
    → n ≤ 48
    → (shift_limit (pos n) i >>= nsieve) ≡ ok (primes_line (10000 * 2 ^ (n - i)))
unfolding shift_limit
limit_line n i le small =
    let m = 10000 * 2 ^ (n - i) in
    let top : 2 ^ (n - i) ≤ 2 ^ 48 = two-pow_mono {a = n - i} {b = 48} (omega arith) in
    let fits : signed64 (m % 2 ^ 64) ≡ pos m = ground arith in
    let inside : ltb n i ≡ false = ground arith in
    rw (inside, shift_limit, fits)
      (nsieve-primes m (omega (arith, two-pow_pos (n - i))) (omega arith))

-- For an argument from 2 to 48 `main` ends without a panic and prints three lines: the numbers of primes below
-- 10000 * 2 ^ n, half of that, and a quarter of it.
pub main-primes :
    (atoi : String → ℤ) (args : List String) (n : ℕ)
    → parse_args atoi args ≡ pos n
    → 2 ≤ n
    → n ≤ 48
    → main atoi args
      ≡ ok (
          primes_line (10000 * 2 ^ n)
          ∷ primes_line (10000 * 2 ^ (n - 1))
          ∷ primes_line (10000 * 2 ^ (n - 2))
          ∷ [])
unfolding main
main-primes atoi args n parsed two small =
    let same : n - 0 ≡ n = omega arith in
    rw
      (
        parsed,
        limit_line n 0 (omega arith) small,
        limit_line n 1 (omega arith) small,
        limit_line n 2 (omega arith) small,
      )
      (rw same)
