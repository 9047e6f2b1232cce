-- ===== src/Heap/Bottom.antt =====
-- The loops of `sift_down_to_bottom` of lib/src/core/heap.valk together, with swaps and with a hole.
use mathlib.Core.List.Perm
use mathlib.Core.List.{Perm}
use valk.Prelude.{
  ℕ, zero, suc, ◌+◌, ◌*◌, ◌≤◌, ◌<◌, ◌≡◌, ◌≢◌, refl, sym, ap, ◌∙◌, inl, inr, List, Bool, true, false,
  arith, Result, ok, length, set, length-set, ltb, Bool-cases,
}
use valk.Prelude.Slots.{get_or-set_ne}
use valk.Heap.{parent, at, swap, first_child, sink, sink_loop, sift_down_to_bottom}
use valk.Heap.Order.{IsOrder, IsHeap}
use valk.Heap.Holes.{filled, swap-hole, moved-Perm}
use valk.Heap.Up.{IsFloating, float_up-Risen}
use valk.Heap.Down.{IsSinking, first_child-IsFirst, next, next-IsSinking}

module _ {A : Type 0} (nought : A) (earlier : A → A → Bool) (order : IsOrder earlier) where
  -- At the bottom nothing is below the hole, so the item may be anything there.
  bottom-IsFloating :
      (items : List A) (index : ℕ) (item : A)
      → length items ≤ index * 2 + 1
      → IsSinking nought earlier order items index
      → IsFloating nought earlier order items index item
  bottom-IsFloating items index item low s = record {
    edges = λ c one lt ne.
        let above : parent c ≢ index = λ e. absurd (omega arith) in
        let here : filled nought items index item c ≡ at nought items c =
          get_or-set_ne items index c item nought (λ e. ne (sym e)) in
        let there : filled nought items index item (parent c) ≡ at nought items (parent c) =
          get_or-set_ne items index (parent c) item nought (λ e. above (sym e)) in
        rw (here, there) (s.edges c one lt ne above);
    over = λ c one lt q pos. absurd (omega arith);
  }

  -- The item that fills the hole does not change which child comes first.
  first_child-filled :
      (items : List A) (index : ℕ) (item : A)
      → first_child nought earlier (set items index item) index
        ≡ first_child nought earlier items index
  unfolding first_child
  first_child-filled items index item =
      let left =
        get_or-set_ne items index (index * 2 + 1) item nought (λ e. absurd (omega arith)) in
      let right =
        get_or-set_ne items index (index * 2 + 1 + 1) item nought (λ e. absurd (omega arith)) in
      rw (length-set items index item, left, right) refl

  -- What both variants of the loop end with: the items with a hole, the items with the hole filled.
  abbrev Sunk : (items : List A) (item : A) (n : ℕ) (r s : Result (List A × ℕ)) → Type 0
  Sunk items item n r s =
      (bottom : List A) × (j : ℕ) × (r ≡ ok (bottom, j))
      × (s ≡ ok (set bottom j item, j))
      × (j < length bottom)
      × (length bottom ≡ n)
      × IsFloating nought earlier order bottom j item
      × Perm (set bottom j item) items

  swapping_end :
      (fuel : ℕ) (items : List A) (index : ℕ) (item : A)
      → length items ≤ index * 2 + 1
      → sink_loop nought earlier true (suc fuel) (set items index item) index
        ≡ ok (set items index item, index)
  unfolding sink_loop
  swapping_end fuel items index item low =
      let n = length-set items index item in
      let end : ltb (index * 2 + 1) (length items) ≡ false = ground arith in
      rw (sink_loop, n, end) refl

  swapping_step :
      (fuel : ℕ) (items : List A) (index : ℕ) (item : A)
      → index * 2 + 1 < length items
      → sink_loop nought earlier true (suc fuel) (set items index item) index
        ≡ sink_loop nought earlier true fuel
            (swap nought (set items index item) index (first_child nought earlier items index))
            (first_child nought earlier items index)
  unfolding sink_loop sink
  swapping_step fuel items index item more =
      let n = length-set items index item in
      let go : ltb (index * 2 + 1) (length items) ≡ true = ground arith in
      rw (sink_loop, n, go, first_child-filled items index item) refl

  sink_loop-Sunk :
      (fuel : ℕ) (items : List A) (index : ℕ) (item : A)
      → index < length items
      → length items ≤ fuel + index
      → IsSinking nought earlier order items index
      → Sunk
          (set items index item)
          item
          (length items)
          (sink_loop nought earlier false fuel items index)
          (sink_loop nought earlier true fuel (set items index item) index)
  unfolding sink_loop sink
  sink_loop-Sunk zero items index item inside enough s = absurd (omega arith)
  sink_loop-Sunk (suc fuel) items index item inside enough s =
      let n = length-set items index item in
      elim (Bool-cases (ltb (index * 2 + 1) (length items))) [
        | inr low ↦ (
          items,
          index,
          rw (sink_loop, low) refl,
          swapping_end fuel items index item (ground arith),
          inside,
          refl,
          bottom-IsFloating items index item (ground arith) s,
          Perm.refl _,
        )
        | inl more ↦
            let f = first_child-IsFirst nought earlier order items index (ground arith) in
            let child = first_child nought earlier items index in
            let deep : index < child = f.deeper in
            let below : child < length items = f.inside in
            let ne : index ≢ child = λ e. absurd (omega arith) in
            let m = length-set items index (at nought items child) in
            let (bottom, j, a, b, h, len, floating, perm) =
              sink_loop-Sunk fuel (next nought earlier order items index child s f) child item
                (omega arith) (omega arith)
                (next-IsSinking nought earlier order items index child s f) in
            let swapped = swap-hole nought items index child item inside ne in
            (
              bottom,
              j,
              rw (sink_loop, more) a,
              swapping_step fuel items index item (ground arith)
                  ∙ ap (λ l. sink_loop nought earlier true fuel l child) swapped
                  ∙ b,
              h,
              len ∙ m,
              floating,
              Perm.trans perm (moved-Perm nought items index child item inside ne below),
            )
      ]

  -- The order of a heap where the first item has gone.
  pub IsHeap-IsSinking :
      (items : List A) → IsHeap nought earlier items → IsSinking nought earlier order items 0
  IsHeap-IsSinking items heap = record {
    edges = λ c one lt a b. heap c one lt;
    over = λ c one lt q pos. absurd (omega arith);
  }

  pub sift_down_to_bottom-IsHeap :
      (refs : Bool) (items : List A) (item : A)
      → 1 ≤ length items
      → IsHeap nought earlier items
      → (result : List A) × (sift_down_to_bottom nought earlier refs items item ≡ ok result)
        × IsHeap nought earlier result
        × Perm result (set items 0 item)
  unfolding sift_down_to_bottom
  sift_down_to_bottom-IsHeap refs items item some heap =
      let (bottom, j, a, b, h, len, floating, perm) =
        sink_loop-Sunk (length items + 1) items 0 item some (omega arith)
          (IsHeap-IsSinking items heap) in
      let (r, floated, swapped, ordered, perm') =
        float_up-Risen nought earlier order (j + 1) bottom j item h (omega arith) floating in
      let n = length-set items 0 item in
      elim (Bool-cases refs) [
        | inl refs-true ↦ (r, rw (refs-true, b) swapped, ordered, Perm.trans perm' perm)
        | inr plain ↦ (r, rw (plain, a) floated, ordered, Perm.trans perm' perm)
      ]
