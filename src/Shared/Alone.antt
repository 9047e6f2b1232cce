-- ===== src/Shared/Alone.antt =====
-- What a goroutine of examples/bench/shared-cache/main.go would compute if every key kept its first
-- entry, and the invariant of its steps on the shared cache.
use valk.Prelude.{
  ℕ, zero, suc, ◌+◌, ◌*◌, ◌%◌, ◌<◌, ◌≤◌, ◌≡◌, refl, ap, some, List, Bool, true, false, arith, ◌==◌,
  if◌then◌else◌,
}
use valk.Random.{next64}
use valk.Shared.{
  entry, Items, store_item, add_found, Cache, test, write_lock, write, write_unlock, read_lock,
  read, read_unlock, Phase, Worker, moved, blocked, finished, panicked, Move, advance,
}
use valk.Shared.Main.{is_done}

module _ (format_uint : ℕ → List ℕ) (slots : ℕ) where
  -- The total after `n` more operations from state `r`, with no cache at all.
  unfoldable pub alone : ℕ → ℕ → ℕ → ℕ
  alone zero r total = total
  alone (suc n) r total =
      let r' = next64 r in
      alone n r'
        (if r' % 10 == 0 then total else add_found total (some (entry format_uint (r' % slots))))

  -- The total that a goroutine has at its end, from where it stands.
  unfoldable pub final : Worker → ℕ
  unfolding alone
  final w = alone w.left w.r (elim w.phase [
    | read_lock key ↦ add_found w.total (some (entry format_uint key))
    | read key ↦ add_found w.total (some (entry format_uint key))
    | read_unlock found ↦ add_found w.total found
    | _ ↦ w.total
  ])

  -- Every key has the entry that it started with.
  unfoldable pub IsFilled : Items → Type 0
  IsFilled items = (key : ℕ) → key < slots → items key ≡ some (entry format_uint key)

  -- A write is of that entry, a read of a key in range.
  unfoldable pub IsReady : Phase → Type 0
  IsReady (write_lock key fresh) = fresh ≡ entry format_uint key
  IsReady (write key fresh) = fresh ≡ entry format_uint key
  IsReady (read_lock key) = key < slots
  IsReady (read key) = key < slots
  IsReady test = true ≡ true
  IsReady write_unlock = true ≡ true
  IsReady (read_unlock found) = true ≡ true

-- 1 between `Lock` and `Unlock`.
unfoldable pub holding : Worker → ℕ
holding w = elim w.phase [
  | write key fresh ↦ 1
  | write_unlock ↦ 1
  | read key ↦ 1
  | read_unlock found ↦ 1
  | _ ↦ 0
]

unfoldable pub bit : Bool → ℕ
bit true = 1
bit false = 0

-- The steps that a goroutine has left.
unfoldable pub steps : Worker → ℕ
steps w = w.left * 4 + elim w.phase [
  | test ↦ 0
  | write_lock key fresh ↦ 3
  | write key fresh ↦ 2
  | write_unlock ↦ 1
  | read_lock key ↦ 3
  | read key ↦ 2
  | read_unlock found ↦ 1
]

-- What the invariant asks of a move.
module _ (format_uint : ℕ → List ℕ) (slots : ℕ) (c : Cache) (w : Worker) where
  unfoldable pub IsFine : Move → Type 0
  unfolding final IsFilled IsReady holding bit steps is_done
  IsFine (moved c' w') =
      IsFilled format_uint slots c'.items
      × IsReady format_uint slots w'.phase
      × (final format_uint slots w' ≡ final format_uint slots w)
      × (bit c'.held + holding w ≡ bit c.held + holding w')
      × (steps w ≡ suc (steps w'))
  IsFine blocked = (c.held ≡ true) × (holding w ≡ 0)
  IsFine finished = is_done w ≡ true
  IsFine panicked = ⊥

store-IsFilled :
    (format_uint : ℕ → List ℕ) (slots key : ℕ) (items : Items)
    → IsFilled format_uint slots items
    → IsFilled format_uint slots (store_item key (entry format_uint key) items)
unfolding IsFilled store_item
store-IsFilled format_uint slots key items filled k h = let f = filled k h in ground arith

-- Every statement, with the goroutine and the cache by their fields.
statement-IsFine :
    (format_uint : ℕ → List ℕ) (slots : ℕ)
    → 0 < slots
    → (left r total : ℕ) (held : Bool) (items : Items) (phase : Phase)
    → IsFilled format_uint slots items
    → IsReady format_uint slots phase
    → let w : Worker = record { left = left; r = r; total = total; phase = phase } in
      let c : Cache = record { held = held; items = items } in
      holding w ≤ bit held → IsFine format_uint slots c w (advance format_uint slots c w)
unfolding IsFine advance alone store_item
statement-IsFine format_uint slots h zero r total held items test filled ready le = refl
statement-IsFine format_uint slots h (suc n) r total held items test filled ready le =
    let k : next64 r % slots < slots = omega arith in ground arith
statement-IsFine format_uint slots h left r total true items (write_lock key fresh) filled ready
      le =
    (refl, refl)
statement-IsFine format_uint slots h left r total false items (write_lock key fresh) filled ready
      le =
    (filled, ready, refl, omega arith, omega arith)
statement-IsFine format_uint slots h left r total held items (write key fresh) filled ready le =
    let f = store-IsFilled format_uint slots key items filled in
    (rw (ready) f, refl, refl, refl, omega arith)
statement-IsFine format_uint slots h left r total true items write_unlock filled ready le =
    (filled, refl, refl, omega arith, omega arith)
statement-IsFine format_uint slots h left r total false items write_unlock filled ready le =
    omega arith
statement-IsFine format_uint slots h left r total true items (read_lock key) filled ready le =
    (refl, refl)
statement-IsFine format_uint slots h left r total false items (read_lock key) filled ready le =
    (filled, ready, refl, omega arith, omega arith)
statement-IsFine format_uint slots h left r total held items (read key) filled ready le = (
  filled,
  refl,
  ap (λ found. alone format_uint slots left r (add_found total found)) (filled key ready),
  refl,
  omega arith,
)
statement-IsFine format_uint slots h left r total true items (read_unlock found) filled ready le =
    (filled, refl, refl, omega arith, omega arith)
statement-IsFine format_uint slots h left r total false items (read_unlock found) filled ready le =
    omega arith

-- A step keeps the invariant, whichever statement it is.
pub advance-IsFine :
    (format_uint : ℕ → List ℕ) (slots : ℕ)
    → 0 < slots
    → (c : Cache) (w : Worker) → IsFilled format_uint slots c.items
    → IsReady format_uint slots w.phase
    → holding w ≤ bit c.held
    → IsFine format_uint slots c w (advance format_uint slots c w)
advance-IsFine format_uint slots h c w =
    statement-IsFine format_uint slots h w.left w.r w.total c.held c.items w.phase
