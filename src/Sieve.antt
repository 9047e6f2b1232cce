-- ===== src/Sieve.antt =====
-- examples/bench/nsieve/main.go: the sieve of Eratosthenes. The slice `flags` is a list. The outer index
-- and the counter stay below its length, which is an `int`; the inner index is an `int` that may wrap.
pub mod Marks
pub mod Primes
pub mod Printed
use Prim.Native.String.{String}
use valk.Prelude.{
  ℕ, zero, suc, ◌+◌, ◌-◌, ◌*◌, ◌%◌, ◌^◌, List, [], ◌∷◌, Bool, true, false, Result, ok, panic,
  out_of_fuel, ◌>>=◌, ltb, if◌then◌else◌, set, get_or, replicate,
}
use valk.Prelude.Int.{ℤ, pos, negsuc, signed64}
use valk.Prelude.Output.{int, Line, printf}

-- `for j := ...; j < n; j += i { flags[j] = true }`, on fuel. A `j` that has wrapped around is negative:
-- it is below `n`, and the write panics.
unfoldable pub mark : ℕ → ℕ → ℤ → ℕ → List Bool → Result (List Bool)
mark zero i j n flags = out_of_fuel
mark (suc fuel) i (negsuc m) n flags = panic
mark (suc fuel) i (pos j) n flags = elim (ltb j n) [
  | true ↦ mark fuel i (signed64 ((j + i) % 2 ^ 64)) n (set flags j true)
  | false ↦ ok flags
]

-- `i << 1`.
abbrev pub twice : ℕ → ℤ
twice i = signed64 (2 * i % 2 ^ 64)

-- The outer loop, on the rounds left; it returns `count`.
unfoldable pub sieve_loop : ℕ → ℕ → ℕ → List Bool → ℕ → Result ℕ
unfolding mark
sieve_loop zero n i flags count = ok count
sieve_loop (suc k) n i flags count = elim (get_or flags i false) [
  | true ↦ sieve_loop k n (i + 1) flags count
  | false ↦ do marked ← mark n i (twice i) n flags; sieve_loop k n (i + 1) marked (count + 1)
]

-- `make([]bool, n)` panics at a negative length; that it panics where the memory does not hold the flags
-- is not modelled.
unfoldable pub nsieve : ℤ → Result Line
unfolding sieve_loop
nsieve (negsuc m) = panic
nsieve (pos n) = do
  count ← sieve_loop (n - 2) n 2 (replicate n false) 0
  ok (printf "Primes up to %8d %8d\n" (int (pos n) ∷ int (pos count) ∷ []))

-- `10000 << (n - i)`: a negative shift count panics.
unfoldable pub shift_limit : ℤ → ℕ → Result ℤ
shift_limit (negsuc m) i = panic
shift_limit (pos n) i = if ltb n i then panic else ok (signed64 (10000 * 2 ^ (n - i) % 2 ^ 64))

-- `atoi` is `strconv.Atoi`: the number that it returns, whose error is ignored.
unfoldable pub parse_args : (String → ℤ) → List String → ℤ
parse_args atoi (program ∷ arg ∷ rest) = atoi arg
parse_args atoi _ = pos 4

unfoldable pub main : (String → ℤ) → List String → Result (List Line)
unfolding nsieve shift_limit parse_args
main atoi args = do
  let n = parse_args atoi args
  first ← shift_limit n 0 >>= nsieve
  second ← shift_limit n 1 >>= nsieve
  third ← shift_limit n 2 >>= nsieve
  ok (first ∷ second ∷ third ∷ [])
