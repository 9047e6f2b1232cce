-- ===== src/Deque.antt =====
-- The double-ended queue of lib/src/core/deque.valk: a ring over the storage of an array. Where the
-- items hold references of the collector (`T.$has_gc_refs`) a slot that is left is cleared; both
-- variants are modelled, by the parameter `has_gc_refs`. `nought` is the zero value of a slot. A `uint`
-- is a number with its wrap-around at 2 ^ 64 written out.
pub mod Valid
pub mod Grown
pub mod Ring
pub mod Zeros
pub mod Fitted
pub mod Ends
pub mod Moves
pub mod Items
pub mod Calls
pub mod Cleared
pub mod Refines
pub mod Clean
pub mod Copies
pub mod Clones
use Prim.Native.Nat.{bit_and}
use valk.Prelude.{
  ℕ, zero, suc, ◌+◌, ◌-◌, ◌*◌, ◌%◌, ◌^◌, Option, none, some, List, [], ◌∷◌, ◌++◌, Bool, true, false,
  Result, ok, panic, out_of_fuel, ◌>>=◌, length, get_elem?, get_or, set, take, drop, replicate, ltb,
  leb, ◌==◌, if◌then◌else◌,
}
use valk.Prelude.Int.{add64}

-- `items` are the slots of the array, as many as the capacity.
pub record Deque (A : Type 0) : Type 0 where
  pub items : List A
  pub capacity : ℕ
  pub head : ℕ
  pub count : ℕ

-- `a - 1`.
abbrev pub before64 : ℕ → ℕ
before64 a = (a + (2 ^ 64 - 1)) % 2 ^ 64

-- The slot of a position: `at & (this.capacity - 1)`.
unfoldable pub slot : ℕ → ℕ → ℕ
slot capacity at = bit_and at (before64 capacity)

-- `while size < minimum`, on fuel: each round doubles a 64-bit size, so 64 rounds are enough.
unfoldable pub size_loop : (fuel minimum size : ℕ) → Result ℕ
size_loop zero minimum size = out_of_fuel
size_loop (suc fuel) minimum size = elim (ltb size minimum) [
  | false ↦ ok size
  | true ↦
      let next = size * 2 % 2 ^ 64 in
      elim (leb next size) [ true ↦ panic | false ↦ size_loop fuel minimum next ]
]

-- `mem.copy_bytes(data, data + at * size_of(T), n * size_of(T))`: the first `n` slots over those from
-- `at` on.
unfoldable pub copy_slots : {A : Type 0} → (n at : ℕ) → List A → List A
copy_slots n at items = take at items ++ take n items ++ drop (at + n) items

-- `mem.clear_bytes` of the first `n` slots.
unfoldable pub clear_slots : {A : Type 0} → A → ℕ → List A → List A
clear_slots nought n items = replicate n nought ++ drop n items

module _ {A : Type 0} (nought : A) where
  unfoldable pub empty : Deque A
  empty = record { items = []; capacity = 0; head = 0; count = 0 }

  -- The rest of `grow`, from the new size on. `increase_size` and `fill_to_capacity` leave the slots that
  -- there were and add slots of zeros. The panic of `increase_size` where the slots take more bytes than a
  -- `uint` counts is not modelled, as memory that runs out is not.
  unfoldable pub move_wrapped : Deque A → ℕ → Deque A
  unfolding copy_slots clear_slots
  move_wrapped d size =
      let items = d.items ++ replicate (size - d.capacity) nought in
      let end = add64 d.head d.count in
      if ltb d.capacity end
      then (let wrapped = end - d.capacity in
          record d {
            items = clear_slots nought wrapped (copy_slots wrapped d.capacity items);
            capacity = size;
          })
      else record d { items = items; capacity = size }

  unfoldable pub grow : Deque A → ℕ → Result (Deque A)
  unfolding size_loop move_wrapped
  grow d minimum = do
    size ← size_loop 65 minimum (if d.capacity == 0 then 8 else d.capacity)
    ok (if size == d.capacity then d else move_wrapped d size)

  unfoldable pub new : ℕ → Result (Deque A)
  unfolding grow empty
  new capacity = if ltb 0 capacity then grow empty capacity else ok empty

  -- The guard of both pushes.
  unfoldable pub fit : Deque A → Result (Deque A)
  unfolding grow
  fit d = if d.count == d.capacity then grow d (add64 d.count 1) else ok d

  unfoldable pub push_back : Deque A → A → Result (Deque A)
  unfolding fit slot
  push_back d item = do
    d ← fit d
    let at = slot d.capacity (add64 d.head d.count)
    ok (record d { items = set d.items at item; count = add64 d.count 1 })

  unfoldable pub push_front : Deque A → A → Result (Deque A)
  unfolding fit slot
  push_front d item = do
    d ← fit d
    let at = slot d.capacity (before64 (add64 d.head d.capacity))
    ok (record d { items = set d.items at item; head = at; count = add64 d.count 1 })

  module _ (has_gc_refs : Bool) where
    unfoldable pub release : List A → ℕ → List A
    release items at = if has_gc_refs then set items at nought else items

    -- `none` stands for the error `missing`.
    unfoldable pub pop_front : Deque A → Option A × Deque A
    unfolding release slot
    pop_front d =
        if d.count == 0
        then (none, d)
        else (let at = d.head in
            (
              some (get_or d.items at nought),
              record d {
                items = release d.items at;
                head = slot d.capacity (add64 at 1);
                count = d.count - 1;
              },
            ))

    unfoldable pub pop_back : Deque A → Option A × Deque A
    unfolding release slot
    pop_back d =
        if d.count == 0
        then (none, d)
        else (let at = slot d.capacity (before64 (add64 d.head d.count)) in
            (
              some (get_or d.items at nought),
              record d { items = release d.items at; count = d.count - 1 },
            ))

    -- The loop of `clear`, on the rounds left.
    unfoldable pub clear_loop : (left i : ℕ) → Deque A → List A → List A
    unfolding release slot
    clear_loop zero i d items = items
    clear_loop (suc left) i d items =
        clear_loop left (i + 1) d (release items (slot d.capacity (add64 d.head i)))

    unfoldable pub clear : Deque A → Deque A
    unfolding clear_loop
    clear d = record d {
      items = if has_gc_refs then clear_loop d.count 0 d d.items else d.items;
      head = 0;
      count = 0;
    }

  unfoldable pub get : Deque A → ℕ → Option A
  unfolding slot
  get d index =
      if leb d.count index
      then none
      else some (get_or d.items (slot d.capacity (add64 d.head index)) nought)

  -- The value that is returned, `none` for `missing`, and the deque after.
  unfoldable pub set_item : Deque A → ℕ → A → Option (Deque A)
  unfolding slot
  set_item d index value =
      if leb d.count index
      then none
      else some (record d { items = set d.items (slot d.capacity (add64 d.head index)) value })

  unfoldable pub peek_front : Deque A → Option A
  unfolding get
  peek_front d = get d 0

  unfoldable pub peek_back : Deque A → Option A
  unfolding get
  peek_back d = if d.count == 0 then none else get d (d.count - 1)

  -- The loop of `to_array`, on the rounds left: it stops where `get` throws.
  unfoldable pub array_loop : (left i : ℕ) → Deque A → List A → List A
  unfolding get
  array_loop zero i d result = result
  array_loop (suc left) i d result = elim (get d i) [
    | none ↦ result
    | some item ↦ array_loop left (i + 1) d (result ++ item ∷ [])
  ]

  unfoldable pub to_array : Deque A → List A
  unfolding array_loop
  to_array d = array_loop d.count 0 d []

  -- The loop of `copy`, on the rounds left.
  unfoldable pub copy_loop : (left i : ℕ) → Deque A → Deque A → Result (Deque A)
  unfolding get push_back
  copy_loop zero i d copy = ok copy
  copy_loop (suc left) i d copy = elim (get d i) [
    | none ↦ ok copy
    | some item ↦ do copy ← push_back copy item; copy_loop left (i + 1) d copy
  ]

  unfoldable pub copy : Deque A → Result (Deque A)
  unfolding copy_loop new
  copy d = do fresh ← new d.count; copy_loop d.count 0 d fresh

  -- The loop of `clone`, on the rounds left; `clone_item` is `clone` on an item.
  unfoldable pub clone_loop : (A → A) → (left i : ℕ) → Deque A → Deque A → Result (Deque A)
  unfolding get push_back
  clone_loop clone_item zero i d copy = ok copy
  clone_loop clone_item (suc left) i d copy = elim (get d i) [
    | none ↦ ok copy
    | some item ↦ do
      copy ← push_back copy (clone_item item)
      clone_loop clone_item left (i + 1) d copy
  ]

  unfoldable pub clone : (A → A) → Deque A → Result (Deque A)
  unfolding clone_loop new
  clone clone_item d = do fresh ← new d.count; clone_loop clone_item d.count 0 d fresh

  -- `_next`, `none` for `end`.
  unfoldable pub next : Deque A → ℕ → Option (A × ℕ)
  unfolding get
  next d index = elim (get d index) [ none ↦ none | some item ↦ some (item, index) ]

  -- The loop of `contains`, on the rounds left; `same` is `==` on the items.
  unfoldable pub contains_loop : (A → A → Bool) → (left i : ℕ) → Deque A → A → Bool
  unfolding get
  contains_loop same zero i d value = false
  contains_loop same (suc left) i d value = elim (get d i) [
    | none ↦ false
    | some item ↦ elim (same item value) [
      | true ↦ true
      | false ↦ contains_loop same left (i + 1) d value
    ]
  ]

  unfoldable pub contains : (A → A → Bool) → Deque A → A → Bool
  unfolding contains_loop
  contains same d value = contains_loop same d.count 0 d value
