-- ===== src/Shared.antt =====
-- The goroutines of examples/bench/shared-cache/main.go: each is a state machine whose steps are the
-- statements on the shared cache, so that a lock held by one goroutine stops the others.
-- `format_uint` is `strconv.FormatUint` in base 10, as bytes.
pub mod Alone
pub mod Main
pub mod Printed
pub mod Progress
pub mod Schedules
use valk.Prelude.{
  ℕ, zero, suc, ◌+◌, ◌*◌, ◌%◌, ◌^◌, Option, none, some, List, [], ◌∷◌, ◌++◌, Bool, true, false,
  length, ◌==◌, if◌then◌else◌,
}
use valk.Prelude.Int.{add64}
use valk.Random.{next64}

pub record Entry : Type 0 where
  pub key : ℕ
  pub name : List ℕ
  pub values : List ℕ

-- The loop of `entry`, on the iterations left.
unfoldable pub append_data : ℕ → ℕ → ℕ → List ℕ → List ℕ
append_data zero i key values = values
append_data (suc n) i key values =
    append_data n (i + 1) key (values ++ add64 ((key * 31) % 2 ^ 64) i ∷ [])

-- The bytes of "entry".
abbrev entry_prefix : List ℕ
entry_prefix = 101 ∷ 110 ∷ 116 ∷ 114 ∷ 121 ∷ []

unfoldable pub entry : (ℕ → List ℕ) → ℕ → Entry
entry format_uint key = record {
  key = key;
  name = entry_prefix ++ format_uint key;
  values = append_data 16 0 key [];
}

abbrev pub Items : Type 0
Items = ℕ → Option Entry

unfoldable pub store_item : ℕ → Entry → Items → Items
store_item key fresh items k = if k == key then some fresh else items k

-- `held` is the mutex.
pub record Cache : Type 0 where
  pub held : Bool
  pub items : Items

unfoldable pub add_all : ℕ → List ℕ → ℕ
add_all total [] = total
add_all total (value ∷ rest) = add_all (add64 total value) rest

-- What a read adds to the total: nothing for a missing key.
unfoldable pub add_found : ℕ → Option Entry → ℕ
add_found total none = total
add_found total (some found) =
    add_all (add64 total (add64 found.key (length found.name))) found.values

-- Where a goroutine stands in an iteration of `work`: at the loop's test, or before a statement of
-- the branch that writes or of the branch that reads.
pub data Phase : Type 0 where
  test : Phase
  write_lock : ℕ → Entry → Phase
  write : ℕ → Entry → Phase
  write_unlock : Phase
  read_lock : ℕ → Phase
  read : ℕ → Phase
  read_unlock : Option Entry → Phase

pub record Worker : Type 0 where
  pub left : ℕ
  pub r : ℕ
  pub total : ℕ
  pub phase : Phase

pub data Move : Type 0 where
  moved : Cache → Worker → Move
  blocked : Move
  finished : Move
  panicked : Move

-- The loop's test and the lines up to the lock; a remainder by 0 panics.
unfoldable pub next_operation : (ℕ → List ℕ) → ℕ → Cache → Worker → Move
next_operation format_uint slots c w = elim w.left [
  | zero ↦ finished
  | suc n ↦
      if slots == 0
      then panicked
      else (let r = next64 w.r in
          let key = r % slots in
          moved c (record {
            left = n;
            r = r;
            total = w.total;
            phase = if r % 10 == 0 then write_lock key (entry format_uint key) else read_lock key;
          }))
]

-- `Lock` waits for the mutex.
unfoldable pub lock : Cache → Worker → Phase → Move
lock c w next = elim c.held [
  | true ↦ blocked
  | false ↦ moved (record { held = true; items = c.items }) (record w { phase = next })
]

-- `Unlock` of a mutex that is not held is an error.
unfoldable pub unlock : Cache → Worker → Move
unlock c w = elim c.held [
  | true ↦ moved (record { held = false; items = c.items }) w
  | false ↦ panicked
]

unfoldable pub advance : (ℕ → List ℕ) → ℕ → Cache → Worker → Move
unfolding next_operation lock unlock
advance format_uint slots c w = elim w.phase [
  | test ↦ next_operation format_uint slots c w
  | write_lock key fresh ↦ lock c w (write key fresh)
  | write key fresh ↦
      moved (record { held = c.held; items = store_item key fresh c.items })
        (record w { phase = write_unlock })
  | write_unlock ↦ unlock c (record w { phase = test })
  | read_lock key ↦ lock c w (read key)
  | read key ↦ moved c (record w { phase = read_unlock (c.items key) })
  | read_unlock found ↦ unlock c (record w { phase = test; total = add_found w.total found })
]
