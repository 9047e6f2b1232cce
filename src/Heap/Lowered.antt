-- ===== src/Heap/Lowered.antt =====
-- The loop of `sift_down` of lib/src/core/heap.valk, with swaps and with a hole.
use mathlib.Core.List.Perm
use valk.Prelude.{
  ℕ, zero, suc, ◌+◌, ◌*◌, ◌≤◌, ◌<◌, ◌≡◌, ◌≢◌, refl, sym, ap, ◌∙◌, inl, inr, List, Bool, true, false,
  arith, ok, length, set, length-set, ltb, ◌==◌, Bool-cases,
}
use valk.Prelude.Slots.{get_or-set_self, get_or-set_ne}
use valk.Heap.{parent, at, swap, first_child, first_of_three, swap_down, sink_down}
use valk.Heap.Order.{IsOrder, IsHeap}
use valk.Heap.Holes.{equal_cases, swap-hole, moved-Perm}
use valk.Heap.Up.{Risen, parent_less}
use valk.Heap.Down.{IsSinking, first_child-IsFirst, next, next-IsSinking}
use valk.Heap.Chosen.{first_of_three-first_child}

module _ {A : Type 0} (nought : A) (earlier : A → A → Bool) (order : IsOrder earlier) where
  -- An item that no child comes before settles in the hole.
  settled :
      (items : List A) (index : ℕ) (item : A)
      → index < length items
      → IsSinking nought earlier order items index
      → (1 ≤ index → earlier item (at nought items (parent index)) ≡ false)
      → ((c : ℕ)
          → 1 ≤ c
          → c < length items
          → parent c ≡ index
          → earlier (at nought items c) item ≡ false)
      → IsHeap nought earlier (set items index item)
  settled items index item inside s above below c one lt =
      let n = length-set items index item in
      let less = parent_less nought earlier order c one in
      let here = get_or-set_self items index item nought inside in
      elim (equal_cases c index) [
        | inl e ↦
            let ne : index ≢ parent index = λ q. absurd (omega arith) in
            let there = get_or-set_ne items index (parent index) item nought ne in
            rw (e, here, there) (above (omega arith))
        | inr other ↦
            let same = get_or-set_ne items index c item nought (λ q. other (sym q)) in
            elim (equal_cases (parent c) index) [
              | inl q ↦ rw (same, q, here) (below c one (omega arith) q)
              | inr q ↦
                  let there = get_or-set_ne items index (parent c) item nought (λ r. q (sym r)) in
                  rw (same, there) (s.edges c one (omega arith) other q)
            ]
      ]

  module _ (fuel : ℕ) (items : List A) (index : ℕ) (item : A) where
    swap_down-end :
        length items ≤ index * 2 + 1
        → swap_down nought earlier (suc fuel) (set items index item) index
          ≡ ok (set items index item)
    unfolding swap_down
    swap_down-end low =
        let n = length-set items index item in
        let end : ltb (index * 2 + 1) (length items) ≡ false = ground arith in
        rw (swap_down, n, end) refl

    swap_down-stop :
        index * 2 + 1 < length items
        → earlier (at nought items (first_child nought earlier items index)) item ≡ false
        → swap_down nought earlier (suc fuel) (set items index item) index
          ≡ ok (set items index item)
    unfolding swap_down
    swap_down-stop more stop =
        let n = length-set items index item in
        let go : ltb (index * 2 + 1) (length items) ≡ true = ground arith in
        let best : first_of_three nought earlier (set items index item) index ≡ index =
          first_of_three-first_child nought earlier order items index item more ∙ rw (stop) refl in
        let same : (index == index) ≡ true = ground arith in rw (swap_down, n, go, best, same) refl

    swap_down-step :
        index * 2 + 1 < length items
        → earlier (at nought items (first_child nought earlier items index)) item ≡ true
        → swap_down nought earlier (suc fuel) (set items index item) index
          ≡ swap_down nought earlier fuel
              (swap nought (set items index item) index (first_child nought earlier items index))
              (first_child nought earlier items index)
    unfolding swap_down
    swap_down-step more move =
        let n = length-set items index item in
        let child = first_child nought earlier items index in
        let f = first_child-IsFirst nought earlier order items index more in
        let go : ltb (index * 2 + 1) (length items) ≡ true = ground arith in
        let best : first_of_three nought earlier (set items index item) index ≡ child =
          first_of_three-first_child nought earlier order items index item more ∙ rw (move) refl in
        let other : (child == index) ≡ false = ground (arith, f.deeper) in
        rw (swap_down, n, go, best, other)
          (ap (λ b. swap_down nought earlier fuel (swap nought (set items index item) index b) b)
            best)

  pub sink_down-Risen :
      (fuel : ℕ) (items : List A) (index : ℕ) (item : A)
      → index < length items
      → length items ≤ fuel + index
      → IsSinking nought earlier order items index
      → (1 ≤ index → earlier item (at nought items (parent index)) ≡ false)
      → Risen nought earlier order
          (set items index item)
          (sink_down nought earlier fuel items index item)
          (swap_down nought earlier fuel (set items index item) index)
  unfolding sink_down
  sink_down-Risen zero items index item inside enough s above = absurd (omega arith)
  sink_down-Risen (suc fuel) items index item inside enough s above =
      let child = first_child nought earlier items index in
      elim (Bool-cases (ltb (index * 2 + 1) (length items))) [
        | inr low ↦ (
          set items index item,
          rw (sink_down, low) refl,
          swap_down-end fuel items index item (ground arith),
          settled items index item inside s above (λ c one lt q. absurd (ground arith)),
          Perm.refl _,
        )
        | inl more ↦
            let f = first_child-IsFirst nought earlier order items index (ground arith) in
            elim (Bool-cases (earlier (at nought items child) item)) [
              | inr stop ↦ (
                set items index item,
                rw (sink_down, more, stop) refl,
                swap_down-stop fuel items index item (ground arith) stop,
                settled items index item inside s above (λ c one lt q.
                    order.transitive item (at nought items child) (at nought items c) stop
                      (f.least c one lt q)),
                Perm.refl _,
              )
              | inl move ↦
                  let deep : index < child = f.deeper in
                  let below : child < length items = f.inside in
                  let ne : index ≢ child = λ e. absurd (omega arith) in
                  let m = length-set items index (at nought items child) in
                  let here = get_or-set_self items index (at nought items child) nought inside in
                  let lower : at nought (next nought earlier order items index child s f)
                        (parent child)
                      ≡ at nought items child =
                    ap (at nought (next nought earlier order items index child s f)) f.under
                    ∙ here in
                  let (r, a, b, heap, perm) =
                    sink_down-Risen fuel (next nought earlier order items index child s f) child
                      item (omega arith) (omega arith)
                      (next-IsSinking nought earlier order items index child s f)
                      (λ pos. rw (lower) (order.one_way _ _ move)) in
                  let swapped = swap-hole nought items index child item inside ne in
                  (
                    r,
                    rw (sink_down, more, move) a,
                    swap_down-step fuel items index item (ground arith) move
                        ∙ ap (λ l. swap_down nought earlier fuel l child) swapped
                        ∙ b,
                    heap,
                    Perm.trans perm (moved-Perm nought items index child item inside ne below),
                  )
            ]
      ]
