-- ===== src/Random.antt =====
-- The linear congruential generator of the benchmarks: `lcg` of examples/bench/lru/main.go on
-- uint32, and the line `r = (r*1103515245 + 12345) % 2147483648` of the shared benchmarks on uint64.
pub mod Laws
use valk.Prelude.{ℕ, ◌+◌, ◌*◌, ◌%◌, ◌^◌}

abbrev pub multiplier : ℕ
multiplier = 1103515245

abbrev pub increment : ℕ
increment = 12345

-- `1 << 31`
abbrev pub modulus : ℕ
modulus = 2147483648

-- One call of the closure that `lcg` returns: the captured `r` after the call, which is also
-- the result. Each operation on uint32 wraps.
unfoldable pub next32 : ℕ → ℕ
next32 r = ((multiplier * r) % 2 ^ 32 + increment) % 2 ^ 32 % modulus

-- The same line on uint64, with its wrap-around.
unfoldable pub next64 : ℕ → ℕ
next64 r = ((r * multiplier) % 2 ^ 64 + increment) % 2 ^ 64 % modulus
