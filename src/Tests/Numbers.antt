-- ===== src/Tests/Numbers.antt =====
-- The generator and the sieve.
use valk.Prelude.{◌+◌, panic, ◌-◌, ◌*◌, ◌^◌, ◌≡◌, refl, [], ◌∷◌, arith, ok}
use valk.Prelude.Int.{pos}
use valk.Prelude.Output.{int, printf}
use valk.Sieve
use valk.Sieve.Primes.{primes_from, nsieve-primes}
use valk.Sieve.Printed.{primes_line, main-primes}

nsieve_thirty :
    Sieve.nsieve (pos 30) ≡ ok (printf "Primes up to %8d %8d\n" (int (pos 30) ∷ int (pos 10) ∷ []))
unfolding Sieve.nsieve
nsieve_thirty = refl

nsieve-primes_example :
    Sieve.nsieve (pos 30)
    ≡ ok (printf "Primes up to %8d %8d\n" (int (pos 30) ∷ int (pos (primes_from 28 2)) ∷ []))
nsieve-primes_example = nsieve-primes 30 (omega arith) (omega arith)

main-primes_example :
    Sieve.main (λ s. pos 4) ("nsieve" ∷ "4" ∷ [])
    ≡ ok (
        primes_line (10000 * 2 ^ 4)
        ∷ primes_line (10000 * 2 ^ (4 - 1))
        ∷ primes_line (10000 * 2 ^ (4 - 2))
        ∷ [])
unfolding Sieve.parse_args
main-primes_example =
    main-primes (λ s. pos 4) ("nsieve" ∷ "4" ∷ []) 4 refl (omega arith) (omega arith)

-- From an index of 2 ^ 62 on, `i << 1` is negative, and the write panics.
mark_wraps : Sieve.mark 1 (2 ^ 62) (Sieve.twice (2 ^ 62)) (2 ^ 62 + 1) [] ≡ panic
unfolding Sieve.mark
mark_wraps = refl
