-- ===== src/Heap.antt =====
-- The binary heap of lib/src/core/heap.valk. `earlier` is its order: the function `before`, or `<` where
-- there is none. Where the items hold references of the collector (`T.$has_gc_refs`) a sift swaps, else
-- it carries the item through a hole; both variants are modelled, by the parameter `has_gc_refs`. A get
-- below the length of the array does not throw, so a read that a guard has put there has no error; its
-- `nought` is never read. An index is below the length of an array, so that its double is a `uint`.
pub mod Order
pub mod Holes
pub mod Up
pub mod Down
pub mod Bottom
pub mod Least
pub mod Queue
pub mod Chosen
pub mod Lowered
pub mod Replaced
use valk.Prelude.{
  ℕ, zero, suc, ◌+◌, ◌-◌, ◌*◌, ◌/◌, Option, none, some, List, [], ◌∷◌, ◌++◌, Bool, true, false,
  ◌&&◌, Result, ok, out_of_fuel, ◌>>=◌, length, get_or, set, take, ltb, ◌==◌, if◌then◌else◌,
}

abbrev pub parent : ℕ → ℕ
parent index = (index - 1) / 2

module _ {A : Type 0} (nought : A) where
  abbrev pub at : List A → ℕ → A
  at items index = get_or items index nought

  -- `swap` of lib/src/core/array.valk, on two indices below the length.
  abbrev pub swap : List A → ℕ → ℕ → List A
  swap items a b = set (set items a (at items b)) b (at items a)

  module _ (earlier : A → A → Bool) where
    -- The loop of `sift_up` with references.
    unfoldable pub swap_up : (fuel : ℕ) → List A → ℕ → Result (List A)
    swap_up zero items index = out_of_fuel
    swap_up (suc fuel) items index = elim (ltb 0 index) [
      | false ↦ ok items
      | true ↦ elim (earlier (at items index) (at items (parent index))) [
        | false ↦ ok items
        | true ↦ swap_up fuel (swap items index (parent index)) (parent index)
      ]
    ]

    -- The loop of `sift_up` on plain values, also the end of `sift_down_to_bottom`: `item` goes up
    -- through a hole.
    unfoldable pub float_up : (fuel : ℕ) → List A → ℕ → A → Result (List A)
    float_up zero items index item = out_of_fuel
    float_up (suc fuel) items index item = elim (ltb 0 index) [
      | false ↦ ok (set items index item)
      | true ↦ elim (earlier item (at items (parent index))) [
        | false ↦ ok (set items index item)
        | true ↦ float_up fuel (set items index (at items (parent index))) (parent index) item
      ]
    ]

    -- The child that comes first, of one or of two.
    unfoldable pub first_child : List A → ℕ → ℕ
    first_child items index =
        let child = index * 2 + 1 in
        if ltb (child + 1) (length items) && earlier (at items (child + 1)) (at items child)
        then child + 1
        else child

    -- The item at `index` or the child of it that comes first.
    unfoldable pub first_of_three : List A → ℕ → ℕ
    first_of_three items index =
        let child = index * 2 + 1 in
        let best = if earlier (at items child) (at items index) then child else index in
        if ltb (child + 1) (length items) && earlier (at items (child + 1)) (at items best)
        then child + 1
        else best

    -- The loop of `sift_down` with references.
    unfoldable pub swap_down : (fuel : ℕ) → List A → ℕ → Result (List A)
    unfolding first_of_three
    swap_down zero items index = out_of_fuel
    swap_down (suc fuel) items index = elim (ltb (index * 2 + 1) (length items)) [
      | false ↦ ok items
      | true ↦
          let best = first_of_three items index in
          elim (best == index) [
            | true ↦ ok items
            | false ↦ swap_down fuel (swap items index best) best
          ]
    ]

    -- The loop of `sift_down` on plain values.
    unfoldable pub sink_down : (fuel : ℕ) → List A → ℕ → A → Result (List A)
    unfolding first_child
    sink_down zero items index item = out_of_fuel
    sink_down (suc fuel) items index item = elim (ltb (index * 2 + 1) (length items)) [
      | false ↦ ok (set items index item)
      | true ↦
          let child = first_child items index in
          elim (earlier (at items child) item) [
            | false ↦ ok (set items index item)
            | true ↦ sink_down fuel (set items index (at items child)) child item
          ]
    ]

    module _ (has_gc_refs : Bool) where
      unfoldable pub sift_up : List A → ℕ → Result (List A)
      unfolding swap_up float_up
      sift_up items index =
          if has_gc_refs
          then swap_up (index + 1) items index
          else float_up (index + 1) items index (at items index)

      -- One level down: the item at `index` changes places with the child, or the hole does.
      unfoldable pub sink : List A → (index child : ℕ) → List A
      sink items index child =
          if has_gc_refs then swap items index child else set items index (at items child)

      -- The first loop of `sift_down_to_bottom`: the items, and the index at the bottom.
      unfoldable pub sink_loop : (fuel : ℕ) → List A → ℕ → Result (List A × ℕ)
      unfolding first_child sink
      sink_loop zero items index = out_of_fuel
      sink_loop (suc fuel) items index = elim (ltb (index * 2 + 1) (length items)) [
        | false ↦ ok (items, index)
        | true ↦
            let child = first_child items index in sink_loop fuel (sink items index child) child
      ]

      unfoldable pub sift_down_to_bottom : List A → A → Result (List A)
      unfolding sink_loop swap_up float_up
      sift_down_to_bottom items item =
          if has_gc_refs
          then (do r ← sink_loop (length items + 1) (set items 0 item) 0; swap_up (r.1 + 1) r.0 r.1)
          else (do r ← sink_loop (length items + 1) items 0; float_up (r.1 + 1) r.0 r.1 item)

      unfoldable pub sift_down : List A → ℕ → Result (List A)
      unfolding swap_down sink_down
      sift_down items index =
          if has_gc_refs
          then swap_down (length items) items index
          else if ltb index (length items)
          then sink_down (length items) items index (at items index)
          else ok items

      -- The item that is returned, `none` for `empty`, and the items after.
      unfoldable pub replace : List A → A → Result (Option A × List A)
      unfolding sift_down
      replace items item =
          let first = at items 0 in
          if length items == 0
          then ok (none, items)
          else if earlier item first
          then ok (some item, items)
          else (do moved ← sift_down (set items 0 item) 0; ok (some first, moved))

      unfoldable pub push : List A → A → Result (List A)
      unfolding sift_up
      push items item = sift_up (items ++ item ∷ []) (length (items ++ item ∷ []) - 1)

      -- The item that is returned, `none` for `empty`, and the items after.
      unfoldable pub pop : List A → Result (Option A × List A)
      unfolding sift_down_to_bottom
      pop items =
          let first = at items 0 in
          let last = at items (length items - 1) in
          let rest = take (length items - 1) items in
          if length items == 0
          then ok (none, items)
          else if ltb 0 (length rest)
          then (do moved ← sift_down_to_bottom rest last; ok (some first, moved))
          else ok (some first, rest)

      -- The loop of `drain`, which ends where `pop` throws.
      unfoldable pub drain_loop : (fuel : ℕ) → List A → List A → Result (List A × List A)
      unfolding pop
      drain_loop zero items result = out_of_fuel
      drain_loop (suc fuel) items result = do
        popped ← pop items
        elim (popped.0) [
          | none ↦ ok (result, popped.1)
          | some item ↦ drain_loop fuel (popped.1) (result ++ item ∷ [])
        ]

      -- The sorted items, and what is left in the heap.
      unfoldable pub drain : List A → Result (List A × List A)
      unfolding drain_loop
      drain items = drain_loop (length items + 1) items []

    unfoldable pub peek : List A → Option A
    peek items = if length items == 0 then none else some (at items 0)
