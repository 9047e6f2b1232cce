-- ===== src/Lock/Counted.antt =====
-- How often each key comes up in the streams of examples/bench/shared-lock/main.go, and the invariant
-- of its map of counts.
use valk.Prelude.{
  ℕ, zero, suc, ◌+◌, ◌*◌, ◌≤◌, ◌≡◌, refl, List, [], ◌∷◌, true, arith, if◌then◌else◌, inl, inr,
  Bool-cases,
}
use valk.Prelude.Bytes.{same_bytes, same_bytes_iff}
use valk.Random.{next64}
use valk.Lock.{Items, value_at, set_value, test, lock, read, write, unlock, Phase, Worker, key_at}

-- 1 for the key that is looked for.
abbrev pub hit : List ℕ → List ℕ → ℕ
hit key k = if same_bytes key k then 1 else 0

-- How often `k` is among the `n` keys that the generator picks from state `r`.
unfoldable pub occurrences : List (List ℕ) → List ℕ → ℕ → ℕ → ℕ
occurrences keys k zero r = 0
occurrences keys k (suc n) r = let r' = next64 r in hit (key_at keys r') k + occurrences keys k n r'

-- The increments of `k` that a goroutine has still to write.
unfoldable pub pending : List (List ℕ) → List ℕ → Worker → ℕ
unfolding occurrences
pending keys k w = occurrences keys k w.left w.r + elim w.phase [
  | test ↦ 0
  | lock key ↦ hit key k
  | read key ↦ hit key k
  | write key value ↦ hit key k
  | unlock ↦ 0
]

-- The increments of any key that it has still to write.
unfoldable pub pending_all : Worker → ℕ
pending_all w =
    w.left
    + elim w.phase [ test ↦ 0 | lock key ↦ 1 | read key ↦ 1 | write key value ↦ 1 | unlock ↦ 0 ]

-- 1 between `Lock` and `Unlock`.
unfoldable pub holding : Worker → ℕ
holding w = elim w.phase [
  | test ↦ 0
  | lock key ↦ 0
  | read key ↦ 1
  | write key value ↦ 1
  | unlock ↦ 1
]

unfoldable pub steps : Worker → ℕ
steps w =
    w.left * 5
    + elim w.phase [ test ↦ 0 | lock key ↦ 4 | read key ↦ 3 | write key value ↦ 2 | unlock ↦ 1 ]

unfoldable pub sum_values : Items → ℕ
sum_values [] = 0
sum_values ((k, v) ∷ items) = v + sum_values items

-- No key stands twice in the map.
unfoldable pub IsDistinct : Items → Type 0
IsDistinct [] = true ≡ true
IsDistinct ((k, v) ∷ items) = (value_at k items ≡ 0) × IsDistinct items

-- What a goroutine has read is still there when it writes.
unfoldable pub IsFresh : Items → Phase → Type 0
IsFresh items (write key value) = value ≡ value_at key items
IsFresh items test = true ≡ true
IsFresh items (lock key) = true ≡ true
IsFresh items (read key) = true ≡ true
IsFresh items unlock = true ≡ true

pub value_at-set_value :
    (key k : List ℕ) (v : ℕ) (items : Items)
    → value_at k (set_value key v items) ≡ (if same_bytes key k then v else value_at k items)
unfolding value_at set_value
value_at-set_value key k v [] = refl
value_at-set_value key k v ((j, w) ∷ items) = ground (
  arith,
  same_bytes_iff key k,
  same_bytes_iff j key,
  same_bytes_iff j k,
  value_at-set_value key k v items,
)

pub value_at-le : (k : List ℕ) (items : Items) → value_at k items ≤ sum_values items
unfolding value_at sum_values
value_at-le k [] = omega arith
value_at-le k ((j, w) ∷ items) = ground (arith, value_at-le k items)

pub sum_values-set_value :
    (key : List ℕ) (v : ℕ) (items : Items)
    → sum_values (set_value key v items) + value_at key items ≡ sum_values items + v
unfolding value_at set_value sum_values
sum_values-set_value key v [] = omega arith
sum_values-set_value key v ((j, w) ∷ items) = ground (arith, sum_values-set_value key v items)

pub IsDistinct-set_value :
    (key : List ℕ) (v : ℕ) (items : Items) → IsDistinct items → IsDistinct (set_value key v items)
unfolding IsDistinct set_value value_at
IsDistinct-set_value key v [] d = (refl, refl)
IsDistinct-set_value key v ((j, w) ∷ items) d = elim (Bool-cases (same_bytes j key)) [
  | inl e ↦ rw (e) d
  | inr e ↦ rw (e) (
    ground
        (arith, value_at-set_value key j v items, same_bytes_iff key j, same_bytes_iff j key, d.0),
    IsDistinct-set_value key v items d.1,
  )
]
