-- ===== src/Prelude/Rounds.antt =====
-- The loop that the tree benchmarks share: `iterations` rounds that each add one result to an `int`.
use valk.Prelude.{ℕ, zero, suc, ◌+◌, ◌*◌, ◌%◌, ◌^◌, ◌<◌, ◌≡◌, ap, ◌∙◌, arith, Result, ok, ◌>>=◌}
use valk.Prelude.Powers.{two-pow-lt_int}
use valk.Prelude.Int.{pos, pos_part, signed64, add64}

-- `for i := 1; i <= iterations; i++ { sum += work() }`, on the rounds that are left.
unfoldable pub repeat_add : ℕ → Result ℕ → ℕ → Result ℕ
repeat_add zero work sum = ok sum
repeat_add (suc k) work sum = do value ← work; repeat_add k work (add64 sum value)

-- `1 << uint(k)` as the pattern of an `int`.
unfoldable pub shift_one : ℕ → ℕ
shift_one k = 2 ^ k % 2 ^ 64

-- The rounds of a loop from 1 to an `int`, or from 0 to below it: none when it is negative.
unfoldable pub rounds : ℕ → ℕ
rounds iterations = pos_part (signed64 iterations)

pub repeat_add-ok :
    (k v sum : ℕ) → sum < 2 ^ 64 → repeat_add k (ok v) sum ≡ ok ((sum + k * v) % 2 ^ 64)
unfolding repeat_add
repeat_add-ok zero v sum h = ap ok (omega arith)
repeat_add-ok (suc k) v sum h = repeat_add-ok k v (add64 sum v) (omega arith) ∙ ap ok (omega arith)

pub shift_one-pow : (k : ℕ) → k < 63 → shift_one k ≡ 2 ^ k
unfolding shift_one
shift_one-pow k h = omega (arith, two-pow-lt_int k h)

pub rounds-pow : (k : ℕ) → k < 63 → rounds (2 ^ k) ≡ 2 ^ k
unfolding rounds
rounds-pow k h = ground (arith, two-pow-lt_int k h)

pub signed64-small : (w : ℕ) → w < 2 ^ 63 → signed64 w ≡ pos w
signed64-small w h = ground arith
