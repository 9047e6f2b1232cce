-- ===== src/Lru/Main.antt =====
-- `main` of examples/bench/lru/main.go: a stream of writes and reads at pseudo-random keys. `atoi` is
-- `strconv.Atoi`. A counter goes up at most once in a round, of which there are fewer than 2 ^ 63.
pub mod Hits
use Prim.Native.String.{String}
use valk.Prelude.{
  ℕ, zero, suc, ◌+◌, ◌*◌, ◌%◌, ◌^◌, ◌≡◌, refl, ◌≢◌, ◌<◌, Option, none, some, List, [], ◌∷◌, Bool,
  true, false, arith, Result, ok, panic, ◌>>=◌, ◌==◌, if◌then◌else◌,
}
use valk.Prelude.Int.{ℤ, pos, pos_part, bits64}
use valk.Prelude.Output.{int, Line, printf}
use valk.Random.{next32}
use valk.Lru.{Cache, new_lru, get, put}
use valk.Lru.Abstract.{Pairs, lookup, after_get, get_result, after_put, pairs_of}
use valk.Lru.Refines.{new_lru-IsValid, get-after_get, put-after_put}
use valk.Lru.Valid.{IsValid}

-- `uint32(size) * 10`
unfoldable pub key_range : ℤ → ℕ
key_range size = bits64 size % 2 ^ 32 * 10 % 2 ^ 32

-- `n % m` on uint32: a run-time panic at 0.
unfoldable pub mod32 : ℕ → ℕ → Result ℕ
mod32 n m = if m == 0 then panic else ok (n % m)

-- The loop, on the rounds left, with the states of both generators; it returns hits and misses.
unfoldable pub rounds_loop : ℕ → ℕ → ℕ → ℕ → Cache → ℕ → ℕ → Result (ℕ × ℕ)
rounds_loop zero range r0 r1 lru hit missed = ok (hit, missed)
rounds_loop (suc n) range r0 r1 lru hit missed = do
  let r0' = next32 r0
  n0 ← mod32 r0' range
  lru ← put lru n0 n0
  let r1' = next32 r1
  n1 ← mod32 r1' range
  (lru, (value, found)) ← get lru n1
  rounds_loop n range r0' r1' lru (if found then hit + 1 else hit)
      (if found then missed else missed + 1)

-- An argument that is no number leaves the default.
unfoldable pub int_or : (String → Option ℤ) → String → ℤ → ℤ
int_or atoi arg default = elim (atoi arg) [ none ↦ default | some n ↦ n ]

unfoldable pub parse_args : (String → Option ℤ) → List String → ℤ × ℤ
unfolding int_or
parse_args atoi (program ∷ a ∷ b ∷ rest) = (int_or atoi a (pos 100), int_or atoi b (pos 10000))
parse_args atoi (program ∷ a ∷ []) = (int_or atoi a (pos 100), pos 10000)
parse_args atoi _ = (pos 100, pos 10000)

unfoldable pub run : ℤ → ℤ → Result (ℕ × ℕ)
unfolding rounds_loop
run size n = rounds_loop (pos_part n) (key_range size) 0 1 (new_lru size) 0 0

unfoldable pub main : (String → Option ℤ) → List String → Result (List Line)
unfolding run parse_args
main atoi args = do
  let parsed = parse_args atoi args
  (hit, missed) ← run parsed.0 parsed.1
  ok (printf "%d\n%d\n" (int (pos hit) ∷ int (pos missed) ∷ []) ∷ [])
