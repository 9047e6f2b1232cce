-- ===== src/Sieve/Primes.antt =====
-- The sieve counts the primes.
use native.Mathlib.Nat.{
  zero-add, mod-eq-sub-mod, mod-eq_of_lt, dvd_trans, dvd_of_mod-eq-zero, mod-eq-zero_of_dvd,
}
use native.Mathlib.Numerals.{add-one}
use valk.Prelude.{
  ◌^◌, ℕ, zero, suc, ◌+◌, ◌-◌, ◌*◌, ◌%◌, ◌≤◌, ◌<◌, ◌≡◌, refl, sym, ap, ◌∙◌, List, [], ◌∷◌, Bool,
  true, false, not, ◌&&◌, ◌||◌, arith, ok, ltb, leb, ◌==◌, if◌then◌else◌, length, get_or, replicate,
  length-replicate, Bool-cases, inl, inr,
}
use valk.Prelude.Int.{pos}
use valk.Prelude.Output.{int, printf}
use valk.Sieve.{mark, twice, sieve_loop, nsieve}
use valk.Sieve.Marks.{hits, mark-Marks, twice_fits}

-- `d` divides `k` properly, and is not 1.
abbrev divides : ℕ → ℕ → Bool
divides d k = leb 2 d && (ltb d k && (k % d == 0))

-- Some number below `m` is a proper divisor of `k` other than 1.
unfoldable pub composite_below : ℕ → ℕ → Bool
composite_below zero k = false
composite_below (suc d) k = divides d k || composite_below d k

unfoldable pub is_prime : ℕ → Bool
unfolding composite_below
is_prime k = leb 2 k && not (composite_below k k)

-- A divisor of `i` divides the multiples of `i`.
divides_trans : (d i k : ℕ) → divides d i ≡ true → i < k → k % i ≡ 0 → divides d k ≡ true
divides_trans d i k h lt e =
    let i_by_d = dvd_of_mod-eq-zero d {n = i} (ground arith) in
    let e' : k % d ≡ 0 =
      mod-eq-zero_of_dvd d (dvd_trans d i_by_d (dvd_of_mod-eq-zero i {n = k} e)) in
    ground arith

-- So the multiples of a composite number are marked already.
composite_below-multiple :
    (m i k : ℕ) → composite_below m i ≡ true → i < k → k % i ≡ 0 → composite_below m k ≡ true
unfolding composite_below
composite_below-multiple zero i k h lt e = cc
composite_below-multiple (suc d) i k h lt e =
    ground (arith, divides_trans d i k, composite_below-multiple d i k)

-- The multiples of `i` from `2 * i` on are what `i` divides properly.
hits-divides : (i k : ℕ) → 2 ≤ i → hits i (2 * i) k ≡ divides i k
hits-divides i k two =
    let once : i ≤ k → k % i ≡ (k - i) % i = mod-eq-sub-mod in
    let twice : i ≤ k - i → (k - i) % i ≡ (k - i - i) % i = mod-eq-sub-mod in
    let near : k - i < i → (k - i) % i ≡ k - i = mod-eq_of_lt in
    let same : k - i - i ≡ k - 2 * i = omega arith in
    let same' : (k - i - i) % i ≡ (k - 2 * i) % i = ap (λ (n : ℕ). n % i) same in ground arith

-- The slice before round `i`.
abbrev Marked : ℕ → ℕ → List Bool → Type 0
Marked n i flags = (k : ℕ) → k < n → get_or flags k false ≡ composite_below i k

Marked-composite :
    (n i : ℕ) (flags : List Bool)
    → Marked n i flags
    → composite_below i i ≡ true
    → Marked n (i + 1) flags
unfolding composite_below
Marked-composite n i flags marked composite k h =
    rw (add-one i) (ground (arith, marked k h, composite_below-multiple i i k composite))

Marked-prime :
    (n i : ℕ) (flags : List Bool)
    → 2 ≤ i
    → i < n
    → n ≤ 2 ^ 62
    → length flags ≡ n
    → Marked n i flags
    → (out : List Bool) × (mark n i (twice i) n flags ≡ ok out)
      × (length out ≡ n)
      × Marked n (i + 1) out
unfolding composite_below
Marked-prime n i flags two below small len marked =
    let (out, run, length-out, hit) =
      mark-Marks n i (2 * i) n flags (omega arith) below small len (omega arith) (omega arith) in
    let start = twice_fits i n small below in
    (
      out,
      ap (λ j. mark n i j n flags) start ∙ run,
      length-out,
      λ k h. rw (add-one i) (ground (arith, marked k h, hit k h, hits-divides i k two)),
    )

-- The primes among `count` numbers from `i` on.
unfoldable pub primes_from : ℕ → ℕ → ℕ
primes_from zero i = 0
primes_from (suc count) i = (if is_prime i then 1 else 0) + primes_from count (i + 1)

sieve_loop-primes_from :
    (k n i : ℕ) (flags : List Bool) (count : ℕ)
    → 2 ≤ i
    → i + k ≡ n
    → n ≤ 2 ^ 62
    → length flags ≡ n
    → Marked n i flags
    → sieve_loop k n i flags count ≡ ok (count + primes_from k i)
unfolding sieve_loop primes_from is_prime
sieve_loop-primes_from zero n i flags count two end small len marked = ap ok (omega arith)
sieve_loop-primes_from (suc k) n i flags count two end small len marked =
    elim (Bool-cases (composite_below i i)) [
      | inl composite ↦
          let next = Marked-composite n i flags marked composite in
          let here = marked i (omega arith) ∙ composite in
          let rest =
            sieve_loop-primes_from k n (i + 1) flags count (omega arith) (omega arith) small len
              next in
          let sum : count + primes_from k (i + 1) ≡ count + primes_from (suc k) i = ground arith in
          rw (sieve_loop, here) (rest ∙ ap ok sum)
      | inr prime ↦
          let here = marked i (omega arith) ∙ prime in
          let (out, run, length-out, next) =
            Marked-prime n i flags two (omega arith) small len marked in
          let rest =
            sieve_loop-primes_from k n (i + 1) out (count + 1) (omega arith) (omega arith) small
              length-out next in
          let sum : count + 1 + primes_from k (i + 1) ≡ count + primes_from (suc k) i =
            ground arith in
          rw (sieve_loop, here, run) (rest ∙ ap ok sum)
    ]

get_or-replicate : (n k : ℕ) → get_or (replicate n false) k false ≡ false
get_or-replicate zero k = refl
get_or-replicate (suc n) zero = refl
get_or-replicate (suc n) (suc k) = get_or-replicate n k

-- No number is below 2 and above 1.
composite_below-two : (k : ℕ) → composite_below 2 k ≡ false
unfolding composite_below
composite_below-two k = ground arith

-- For every length from 2 to 2 ^ 62, `nsieve` ends without a panic and prints the number of primes below
-- `n`.
pub nsieve-primes :
    (n : ℕ)
    → 2 ≤ n
    → n ≤ 2 ^ 62
    → nsieve (pos n)
      ≡ ok (printf "Primes up to %8d %8d\n" (int (pos n) ∷ int (pos (primes_from (n - 2) 2)) ∷ []))
unfolding nsieve
nsieve-primes n two small =
    let count =
      sieve_loop-primes_from (n - 2) n 2 (replicate n false) 0 (omega arith) (omega arith) small
        (length-replicate n false) (λ k h. get_or-replicate n k ∙ sym (composite_below-two k)) in
    rw (count) (rw zero-add)
