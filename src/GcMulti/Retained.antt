-- ===== src/GcMulti/Retained.antt =====
-- The nodes that `benchNatural` and `benchFragment` of examples/bench/gc-multi/main.go keep.
use native.Mathlib.Nat.{add-mul, mul-le-mul_left}
use valk.Prelude.{
  ℕ, zero, suc, ◌+◌, ◌-◌, ◌*◌, ◌/◌, ◌%◌, ◌^◌, ◌≤◌, ◌<◌, ◌≡◌, refl, ap, inl, inr, List, [], ◌∷◌,
  ◌++◌, Bool, true, false, arith, length, length-append, ◌==◌, if◌then◌else◌, Bool-cases,
}
use valk.Prelude.Int.{pos, add64}
use valk.Prelude.Rounds.{signed64-small}
use valk.GcMulti.{
  Stats, natural, natural_lines, fragment, fragment_lines, Memory, heap_node, heap_node_pair,
  natural_loop, fragment_round, fragment_batch, fragment_loop,
}

length-keep :
    {A : Type 0} (b : Bool) (xs : List A) (x : A)
    → length (if b then xs ++ x ∷ [] else xs) ≡ length xs + (if b then 1 else 0)
length-keep true xs x = length-append xs (x ∷ [])
length-keep false xs x = omega arith

-- `benchNatural` keeps one node in 64, the first of each 64.
pub natural_loop-length :
    (left i : ℕ) (keep : List ℕ) (m : Memory)
    → length (natural_loop left i keep m).0 + (i + 63) / 64 ≡ length keep + (i + left + 63) / 64
unfolding natural_loop
natural_loop-length zero i keep m = let e : i + 0 ≡ i = omega arith in rw (e) refl
natural_loop-length (suc left) i keep m =
    let (n, m1) = heap_node i m in
    let keep' = if i % 64 == 0 then keep ++ n ∷ [] else keep in
    let rest = natural_loop-length left (i + 1) keep' m1 in
    ground (arith, rest, length-keep (i % 64 == 0) keep n)

-- The nodes of the first `i` rounds of a batch that are kept: in an even round of the outer loop
-- every second one and the odd multiples of 3, in an odd round the multiples of 6.
unfoldable pub kept : (r i : ℕ) → ℕ
kept r i = if r % 2 == 0 then (i + 1) / 2 + (i + 2) / 6 else (i + 5) / 6

fragment_round-length :
    (r i : ℕ) (keep : List ℕ) (m : Memory)
    → length (fragment_round r i keep m).0 + kept r i ≡ length keep + kept r (i + 1)
unfolding fragment_round kept
fragment_round-length r i keep m =
    let one = length-keep (i % 2 == 0) keep (heap_node i m).0 in
    let pair = length-keep (i % 3 == 0) keep (heap_node_pair i m).0 in ground (arith, one, pair)

fragment_batch-length :
    (r left i : ℕ) (keep : List ℕ) (m : Memory)
    → length (fragment_batch r left i keep m).0 + kept r i ≡ length keep + kept r (i + left)
unfolding fragment_batch
fragment_batch-length r zero i keep m = let e : i + 0 ≡ i = omega arith in rw (e) refl
fragment_batch-length r (suc left) i keep m =
    let step = fragment_round-length r i keep m in
    let rest =
      fragment_batch-length r left (i + 1) (fragment_round r i keep m).0
        (fragment_round r i keep m).1 in
    let e : i + suc left ≡ i + 1 + left = omega arith in rw (e) (omega (arith, step, rest))

-- The even and the odd rounds among `n` rounds from round `r` on.
abbrev evens : (r n : ℕ) → ℕ
evens r n = (r + n + 1) / 2 - (r + 1) / 2

abbrev odds : (r n : ℕ) → ℕ
odds r n = (r + n) / 2 - r / 2

-- What they keep.
kept_from : (batch r n : ℕ) → ℕ
kept_from batch r n = evens r n * kept 0 batch + odds r n * kept 1 batch

kept_from-suc :
    (batch r n : ℕ) → kept_from batch r (suc n) ≡ kept r batch + kept_from batch (r + 1) n
unfolding kept_from kept
kept_from-suc batch r n = elim (Bool-cases (r % 2 == 0)) [
  | inl z ↦
      let e : evens r (suc n) ≡ suc (evens (r + 1) n) = ground arith in
      let o : odds r (suc n) ≡ odds (r + 1) n = ground arith in
      let k : kept r batch ≡ kept 0 batch = rw (z) refl in rw (e, o, k) (grind arith)
  | inr z ↦
      let e : evens r (suc n) ≡ evens (r + 1) n = ground arith in
      let o : odds r (suc n) ≡ suc (odds (r + 1) n) = ground arith in
      let k : kept r batch ≡ kept 1 batch = rw (z) refl in rw (e, o, k) (grind arith)
]

kept_from-zero : (batch r : ℕ) → kept_from batch r 0 ≡ 0
unfolding kept_from
kept_from-zero batch r =
    let e : evens r 0 ≡ 0 = omega arith in let o : odds r 0 ≡ 0 = omega arith in grind (arith, e, o)

kept-zero : (r : ℕ) → kept r 0 ≡ 0
unfolding kept
kept-zero r = ground arith

fragment_loop-kept :
    (batch left r checksum : ℕ) (m : Memory)
    → checksum < 2 ^ 64
    → (fragment_loop batch left r checksum m).0 ≡ (checksum + kept_from batch r left) % 2 ^ 64
unfolding fragment_loop
fragment_loop-kept batch zero r checksum m small = omega (arith, kept_from-zero batch r)
fragment_loop-kept batch (suc left) r checksum m small =
    let one = fragment_batch-length r batch 0 [] m in
    let zero_add : 0 + batch ≡ batch = omega arith in
    let batch_kept : length (fragment_batch r batch 0 [] m).0 ≡ kept r batch =
      omega (arith, one, kept-zero r, ap (kept r) zero_add) in
    let rest =
      fragment_loop-kept batch left (r + 1)
        (add64 checksum (length (fragment_batch r batch 0 [] m).0))
        (fragment_batch r batch 0 [] m).1 (omega arith) in
    omega (arith, batch_kept, rest, kept_from-suc batch r left)

kept_from_start :
    (batch rounds : ℕ)
    → kept_from batch 0 rounds ≡ (rounds + 1) / 2 * kept 0 batch + rounds / 2 * kept 1 batch
unfolding kept_from
kept_from_start batch rounds =
    let e : evens 0 rounds ≡ (rounds + 1) / 2 = omega arith in
    let o : odds 0 rounds ≡ rounds / 2 = omega arith in rw (e, o) refl

kept_from-le : (batch rounds : ℕ) → kept_from batch 0 rounds ≤ rounds * batch
unfolding kept
kept_from-le batch rounds =
    let even_le : kept 0 batch ≤ batch = ground arith in
    let odd_le : kept 1 batch ≤ batch = ground arith in
    let even = mul-le-mul_left ((rounds + 1) / 2) even_le in
    let odd = mul-le-mul_left (rounds / 2) odd_le in
    let all = add-mul ((rounds + 1) / 2) (rounds / 2) batch in
    let sum : (rounds + 1) / 2 + rounds / 2 ≡ rounds = omega arith in
    let whole = ap (λ n. n * batch) sum in
    omega (arith, even, odd, all, whole, kept_from_start batch rounds)

-- As long as the nodes of all rounds are an `int`: the checksum that `benchFragment` prints is what
-- the rounds keep, for each even round every second node and the odd multiples of 3 of its batch, and
-- for each odd round the multiples of 6.
pub fragment-checksum :
    (rounds batch : ℕ) (s : Stats) (m : Memory)
    → rounds * batch < 2 ^ 63
    → (fragment rounds batch s m).0
      ≡ fragment_lines rounds batch
          (pos (
            (rounds + 1) / 2 * ((batch + 1) / 2 + (batch + 2) / 6)
            + rounds / 2 * ((batch + 5) / 6)))
          s
unfolding fragment kept
fragment-checksum rounds batch s m h =
    let small = kept_from-le batch rounds in
    let run = fragment_loop-kept batch rounds 0 0 m (omega arith) in
    let same : (0 + kept_from batch 0 rounds) % 2 ^ 64 ≡ kept_from batch 0 rounds = omega arith in
    rw
      (
        run,
        same,
        signed64-small (kept_from batch 0 rounds) (omega arith),
        kept_from_start batch rounds,
      )
      refl

-- `benchNatural` keeps one node of each 64, and prints that number.
pub natural-retained :
    (amount : ℕ) (s : Stats) (m : Memory)
    → (natural amount s m).0 ≡ natural_lines amount ((amount + 63) / 64) s
unfolding natural
natural-retained amount s m =
    let run = natural_loop-length amount 0 [] m in
    let same : length (natural_loop amount 0 [] m).0 ≡ (amount + 63) / 64 = omega arith in
    rw (same) refl
