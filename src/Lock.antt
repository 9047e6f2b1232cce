-- ===== src/Lock.antt =====
-- The goroutines of examples/bench/shared-lock/main.go on one map of counts behind a mutex. The
-- increment of a count is a read and then a write, so that it is the mutex that keeps it whole.
-- `format_uint` is `strconv.FormatUint` in base 10, as bytes.
pub mod Counted
pub mod Main
pub mod Steps
pub mod Visited
pub mod Printed
use valk.Prelude.{
  ℕ, zero, suc, ◌+◌, ◌%◌, List, [], ◌∷◌, ◌++◌, Bool, true, false, length, get_or, ◌==◌,
  if◌then◌else◌,
}
use valk.Prelude.Bytes.{same_bytes}
use valk.Prelude.Int.{add64}
use valk.Prelude.Threads.{moved, blocked, finished, panicked, Move}
use valk.Random.{next64}

-- The bytes of "word".
abbrev word_prefix : List ℕ
word_prefix = 119 ∷ 111 ∷ 114 ∷ 100 ∷ []

-- The loop of `words`, on the iterations left.
unfoldable pub words_loop : (ℕ → List ℕ) → ℕ → ℕ → List (List ℕ) → List (List ℕ)
words_loop format_uint zero i result = result
words_loop format_uint (suc n) i result =
    words_loop format_uint n (i + 1) (result ++ (word_prefix ++ format_uint i) ∷ [])

unfoldable pub words : (ℕ → List ℕ) → ℕ → List (List ℕ)
unfolding words_loop
words format_uint count = words_loop format_uint count 0 []

abbrev pub Items : Type 0
Items = List (List ℕ × ℕ)

-- The value of a key in the map, or 0.
unfoldable pub value_at : List ℕ → Items → ℕ
value_at key [] = 0
value_at key ((k, v) ∷ items) = if same_bytes k key then v else value_at key items

unfoldable pub set_value : List ℕ → ℕ → Items → Items
set_value key value [] = (key, value) ∷ []
set_value key value ((k, v) ∷ items) =
    if same_bytes k key then (k, value) ∷ items else (k, v) ∷ set_value key value items

pub record Counts : Type 0 where
  pub held : Bool
  pub items : Items

-- Where a goroutine stands in an iteration of `work`: at the loop's test, before `Lock`, before the
-- read of `counts.items[key]++`, before its write, and before `Unlock`.
pub data Phase : Type 0 where
  test : Phase
  lock : List ℕ → Phase
  read : List ℕ → Phase
  write : List ℕ → ℕ → Phase
  unlock : Phase

pub record Worker : Type 0 where
  pub left : ℕ
  pub r : ℕ
  pub phase : Phase

-- `keys[r%uint64(len(keys))]`
unfoldable pub key_at : List (List ℕ) → ℕ → List ℕ
key_at keys r = get_or keys (r % length keys) []

-- The loop's test and the lines up to the lock; with no keys the remainder panics.
unfoldable pub next_update : List (List ℕ) → Counts → Worker → Move Counts Worker
next_update keys c w = elim w.left [
  | zero ↦ finished
  | suc n ↦
      if length keys == 0
      then panicked
      else (let r = next64 w.r in
          moved c (record { left = n; r = r; phase = lock (key_at keys r) }))
]

unfoldable pub advance : List (List ℕ) → Counts → Worker → Move Counts Worker
unfolding next_update
advance keys c w = elim w.phase [
  | test ↦ next_update keys c w
  | lock key ↦
      if c.held
      then blocked
      else moved (record { held = true; items = c.items }) (record w { phase = read key })
  | read key ↦ moved c (record w { phase = write key (value_at key c.items) })
  | write key value ↦
      moved (record { held = c.held; items = set_value key (add64 value 1) c.items })
        (record w { phase = unlock })
  | unlock ↦
      if c.held
      then moved (record { held = false; items = c.items }) (record w { phase = test })
      else panicked
]
