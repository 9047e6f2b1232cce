-- ===== src/Lru/Main/Hits.antt =====
-- The stream of `main` against the abstract list.
use valk.Prelude.{
  ℕ, zero, suc, ◌+◌, ◌-◌, ◌%◌, ◌≤◌, ◌≡◌, ap, ◌∙◌, ◌≢◌, inl, inr, [], Bool, true, false, arith,
  Result, ok, if◌then◌else◌, Bool-cases,
}
use valk.Prelude.Int.{ℤ, pos, pos_part}
use valk.Random.{next32}
use valk.Lru.{Cache, new_lru}
use valk.Lru.Abstract.{Pairs, after_get, get_result, after_put, pairs_of}
use valk.Lru.Main.{key_range, mod32, rounds_loop, run}
use valk.Lru.Refines.{new_lru-IsValid, get-after_get, put-after_put}
use valk.Lru.Valid.{IsValid}

-- The hits among `n` rounds on the abstract list.
unfoldable pub ideal_hits : ℕ → ℤ → ℕ → ℕ → ℕ → Pairs → ℕ
ideal_hits zero size range r0 r1 pairs = 0
ideal_hits (suc n) size range r0 r1 pairs =
    let written = after_put size (next32 r0 % range) (next32 r0 % range) pairs in
    (if (get_result (next32 r1 % range) written).1 then 1 else 0)
    + ideal_hits n size range (next32 r0) (next32 r1) (after_get (next32 r1 % range) written)

ideal_hits-le :
    (n : ℕ) (size : ℤ) (range r0 r1 : ℕ) (pairs : Pairs) → ideal_hits n size range r0 r1 pairs ≤ n
unfolding ideal_hits
ideal_hits-le zero size range r0 r1 pairs = omega arith
ideal_hits-le (suc n) size range r0 r1 pairs =
    let k = next32 r1 % range in
    let written = after_put size (next32 r0 % range) (next32 r0 % range) pairs in
    let rest = ideal_hits-le n size range (next32 r0) (next32 r1) (after_get k written) in
    elim (Bool-cases (get_result k written).1) [
      | inl hit ↦ rw hit (omega arith)
      | inr miss ↦ rw miss (omega arith)
    ]

mod32-ok : (n m : ℕ) → m ≢ 0 → mod32 n m ≡ ok (n % m)
unfolding mod32
mod32-ok n m h = ground arith

-- One counter goes up.
count_one :
    (b : Bool) (n i hit missed : ℕ)
    → i ≤ n
    → ◌≡◌ {A = Result (ℕ × ℕ)}
        (ok ((if b then hit + 1 else hit) + i, (if b then missed else missed + 1) + (n - i)))
        (ok (hit + ((if b then 1 else 0) + i), missed + (suc n - ((if b then 1 else 0) + i))))
count_one true n i hit missed h = ground arith
count_one false n i hit missed h = ground arith

rounds_loop-ideal_hits :
    (n range r0 r1 hit missed : ℕ) (c : Cache)
    → IsValid c
    → c.size ≢ pos 0
    → range ≢ 0
    → rounds_loop n range r0 r1 c hit missed
      ≡ ok (
        hit + ideal_hits n c.size range r0 r1 (pairs_of c.entries),
        missed + (n - ideal_hits n c.size range r0 r1 (pairs_of c.entries)),
      )
unfolding rounds_loop ideal_hits
rounds_loop-ideal_hits zero range r0 r1 hit missed c valid sized ranged = ground arith
rounds_loop-ideal_hits (suc n) range r0 r1 hit missed c valid sized ranged =
    let k0 = next32 r0 % range in
    let k1 = next32 r1 % range in
    let (c1, wrote, valid1, pairs1, size1) = put-after_put c k0 valid k0 sized in
    let (c2, read, valid2, pairs2, size2) = get-after_get c1 k1 valid1 in
    let written = after_put c.size k0 k0 (pairs_of c.entries) in
    let b = (get_result k1 written).1 in
    let same_size : c2.size ≡ c.size = size2 ∙ size1 in
    let same_pairs : pairs_of c2.entries ≡ after_get k1 written =
      pairs2 ∙ ap (after_get k1) pairs1 in
    let rest =
      rounds_loop-ideal_hits n range (next32 r0) (next32 r1) (if b then hit + 1 else hit)
        (if b then missed else missed + 1) c2 valid2 (rw same_size sized) ranged in
    rw (mod32-ok (next32 r0) range ranged, wrote, mod32-ok (next32 r1) range ranged, read, pairs1)
      (rest
        ∙ rw (same_size, same_pairs)
            (count_one b n
              (ideal_hits n c.size range (next32 r0) (next32 r1) (after_get k1 written)) hit missed
              (ideal_hits-le n c.size range (next32 r0) (next32 r1) (after_get k1 written))))

-- A run of a size other than 0, with a range of keys other than 0, does not panic. It counts the
-- hits of the abstract list, and hits and misses together are the number of rounds.
pub run-ideal_hits :
    (size n : ℤ)
    → size ≢ pos 0
    → key_range size ≢ 0
    → (h : ℕ) × (m : ℕ) × (run size n ≡ ok (h, m))
      × (h ≡ ideal_hits (pos_part n) size (key_range size) 0 1 [])
      × (h + m ≡ pos_part n)
unfolding run new_lru
run-ideal_hits size n sized ranged =
    let i = ideal_hits (pos_part n) size (key_range size) 0 1 [] in
    (
      0 + i,
      0 + (pos_part n - i),
      rounds_loop-ideal_hits (pos_part n) (key_range size) 0 1 0 0 (new_lru size)
          (new_lru-IsValid size) sized ranged,
      omega arith,
      omega (arith, ideal_hits-le (pos_part n) size (key_range size) 0 1 []),
    )
