-- ===== src/Heap/Queue.antt =====
-- `push`, `pop` and `drain` of lib/src/core/heap.valk as a queue: which items there are, and which comes
-- out.
use mathlib.Core.List.Perm
use mathlib.Core.List.{Perm, append_assoc, append-nil, mem-cons_of_mem}
use mathlib.Core.Path.{subst}
use valk.Prelude.{
  ℕ, zero, suc, ◌+◌, ◌-◌, ◌≤◌, ◌<◌, ◌≡◌, refl, sym, ap, ◌∙◌, ◌⊎◌, inl, inr, none, some, List, [],
  ◌∷◌, ◌++◌, Bool, false, arith, Result, ok, length, length-append, take, length-take, ltb, ◌==◌,
  Bool-cases,
}
use valk.Prelude.Slots.{get_or-append_left}
use valk.Heap.{parent, at, swap_up, sift_up, push, pop, drain_loop, drain}
use valk.Heap.Order.{IsOrder, IsHeap, length-Perm}
use valk.Heap.Holes.{set-at}
use valk.Heap.Up.{IsFloating, float_up-Risen, parent_less}
use valk.Heap.Bottom.{sift_down_to_bottom-IsHeap}
use valk.Heap.Least.{IsLeast, IsSorted, root-IsLeast, take-IsHeap, replaced-Perm}

module _ {A : Type 0} (nought : A) (earlier : A → A → Bool) (order : IsOrder earlier) where
  -- An item that is appended is the only one that may be out of order.
  appended-IsFloating :
      (items : List A) (item : A)
      → IsHeap nought earlier items
      → (index : ℕ) → index ≡ length items
      → IsFloating nought earlier order
          (items ++ item ∷ [])
          index
          (at nought (items ++ item ∷ []) index)
  appended-IsFloating items item heap index e =
      let more = items ++ item ∷ [] in
      let n = length-append items (item ∷ []) in
      record {
        edges = λ c one lt ne.
            let old : c < length items = elim (Bool-cases (ltb c (length items))) [
              | inl inside ↦ ground arith
              | inr past ↦ absurd (ne (ground arith))
            ] in
            let less = parent_less nought earlier order c one in
            let here = get_or-append_left items (item ∷ []) c nought old in
            let there = get_or-append_left items (item ∷ []) (parent c) nought (omega arith) in
            rw (set-at nought more index, here, there) (heap c one old);
        over = λ c one lt q pos.
            let less = parent_less nought earlier order c one in absurd (omega arith);
      }

module _ {A : Type 0} (nought : A) (earlier : A → A → Bool) (order : IsOrder earlier)
    (refs : Bool) where
  -- A push onto a heap ends, whichever variant of the sift runs, and leaves a heap of the items that there
  -- were and the new one, for any order in which no two items each come out before the other and in which
  -- not to come out before is transitive.
  pub push-IsHeap :
      (items : List A) (item : A)
      → IsHeap nought earlier items
      → (r : List A) × (push nought earlier refs items item ≡ ok r)
        × IsHeap nought earlier r
        × Perm r (items ++ item ∷ [])
  unfolding push sift_up
  push-IsHeap items item heap =
      let more = items ++ item ∷ [] in
      let index = length more - 1 in
      let n = length-append items (item ∷ []) in
      let floating = appended-IsFloating nought earlier order items item heap index (omega arith) in
      let (r, floated, swapped, ordered, perm) =
        float_up-Risen nought earlier order (index + 1) more index (at nought more index)
          (omega arith) (omega arith) floating in
      let same = set-at nought more index in
      let all = subst (λ l. Perm r l) same perm in
      elim (Bool-cases refs) [
        | inl references ↦ (
          r,
          rw (references)
              (ap (λ l. swap_up nought earlier (index + 1) l index) (sym same) ∙ swapped),
          ordered,
          all,
        )
        | inr plain ↦ (r, rw (plain) floated, ordered, all)
      ]

  single :
      (items : List A)
      → length items ≡ 1
      → Perm (at nought items 0 ∷ take (length items - 1) items) items
  single [] e = absurd (omega arith)
  single (x ∷ []) e = Perm.refl _
  single (x ∷ y ∷ items) e = absurd (omega arith)

  -- A pop from a heap that is not empty.
  pop-step :
      (items : List A)
      → IsHeap nought earlier items
      → 1 ≤ length items
      → (rest : List A) × (pop nought earlier refs items ≡ ok (some (at nought items 0), rest))
        × IsHeap nought earlier rest
        × Perm (at nought items 0 ∷ rest) items
  unfolding pop
  pop-step items heap one =
      let n = length items - 1 in
      let rest = take n items in
      let last = at nought items n in
      let m = length-take n items in
      let held : (length items == 0) ≡ false = ground arith in
      let less = take-IsHeap nought earlier order items heap n in
      elim (Bool-cases (ltb 0 (length rest))) [
        | inl two ↦
            let (r, down, ordered, perm) =
              sift_down_to_bottom-IsHeap nought earlier order refs rest last (ground arith) less in
            (
              r,
              rw (held, two, down) refl,
              ordered,
              Perm.trans (Perm.cons (at nought items 0) perm)
                  (replaced-Perm nought items (ground arith)),
            )
        | inr alone ↦ (rest, rw (held, alone) refl, less, single items (ground arith))
      ]

  -- What comes out of a heap that is not empty is such that nothing left comes out before it, and what is
  -- left is a heap of the other items, whichever variant of the sift runs, for any order in which no two
  -- items each come out before the other and in which not to come out before is transitive; an empty heap
  -- gives nothing.
  pub pop-IsLeast :
      (items : List A)
      → IsHeap nought earlier items
      → ((items ≡ []) × (pop nought earlier refs items ≡ ok (none, [])))
        ⊎ ((first : A) × (rest : List A) × (pop nought earlier refs items ≡ ok (some first, rest))
            × IsHeap nought earlier rest
            × Perm (first ∷ rest) items
            × IsLeast nought earlier first rest)
  unfolding pop
  pop-IsLeast [] heap = inl (refl, refl)
  pop-IsLeast (x ∷ items) heap =
      let (rest, popped, ordered, perm) = pop-step (x ∷ items) heap (omega arith) in
      inr (
        x,
        rest,
        popped,
        ordered,
        perm,
        λ y m.
            root-IsLeast nought earlier order (x ∷ items) heap y
              ((Perm.mem_iff perm).0 (mem-cons_of_mem x m)),
      )

  abbrev Drained : Result (List A × List A) → (result items : List A) → Type 0
  Drained r result items =
      (out : List A) × (r ≡ ok (result ++ out, [])) × IsSorted nought earlier out × Perm out items

  drain_loop-Drained :
      (fuel : ℕ) (items result : List A)
      → length items < fuel
      → IsHeap nought earlier items
      → Drained (drain_loop nought earlier refs fuel items result) result items
  unfolding drain_loop
  drain_loop-Drained zero items result h heap = absurd (omega arith)
  drain_loop-Drained (suc fuel) items result h heap = elim (pop-IsLeast items heap) [
    | inl (e, popped) ↦ (
      [],
      rw (popped) (ap (λ l. ok (l, [])) (sym (append-nil result))),
      tt,
      subst (λ l. Perm [] l) (sym e) (Perm.refl _),
    )
    | inr (first, rest, popped, ordered, perm, least) ↦
        let n = length-Perm perm in
        let (out, drained, sorted, same) =
          drain_loop-Drained fuel rest (result ++ first ∷ []) (omega arith) ordered in
        (
          first ∷ out,
          rw (popped) (drained ∙ ap (λ l. ok (l, [])) (append_assoc result (first ∷ []) out)),
          (λ y m. least y ((Perm.mem_iff same).0 m), sorted),
          Perm.trans (Perm.cons first same) perm,
        )
  ]

  -- The drain of a heap ends and empties it: what it returns are the items of the heap, each of them once,
  -- none behind one that it comes out before, whichever variant of the sift runs, for any order in which no
  -- two items each come out before the other and in which not to come out before is transitive.
  pub drain-IsSorted :
      (items : List A)
      → IsHeap nought earlier items
      → (out : List A) × (drain nought earlier refs items ≡ ok (out, []))
        × IsSorted nought earlier out
        × Perm out items
  unfolding drain
  drain-IsSorted items heap = drain_loop-Drained (length items + 1) items [] (omega arith) heap
