-- ===== src/Deque/Cleared.antt =====
-- `clear` of lib/src/core/deque.valk on references: the loop clears the slots of all items.
use native.Mathlib.Nat.{mod-lt, mod-eq_of_lt, add-mod-mod, add-mod_right}
use valk.Prelude.{
  ℕ, zero, suc, ◌+◌, ◌-◌, ◌%◌, ◌≤◌, ◌<◌, ◌≡◌, ◌≢◌, sym, ap, ◌∙◌, ◌⊎◌, inl, inr, List, arith, true,
  length, get_or, set, length-set, ltb, ◌==◌, ==→eq, Bool-cases,
}
use valk.Prelude.Slots.{get_or-set_self, get_or-set_ne}
use valk.Deque.{Deque, release, clear_loop, clear}
use valk.Deque.Valid.{IsValid, IsClean}
use valk.Deque.Ring.{head_inside, slot_at, ring_apart}

module _ {A : Type 0} (nought : A) (d : Deque A) (v : IsValid d) (pos : 1 ≤ d.capacity) where
  -- The slots of the positions that are cleared already, or have no item, are zero.
  abbrev AreZero : (i left : ℕ) → List A → Type 0
  AreZero i left items =
      (j : ℕ)
      → j < d.capacity
      → (j < i) ⊎ (i + left ≤ j)
      → get_or items ((d.head + j) % d.capacity) nought ≡ nought

  cleared_one :
      (i left : ℕ) (items : List A)
      → i < d.capacity
      → length items ≡ d.capacity
      → AreZero i (suc left) items
      → AreZero (i + 1) left (set items ((d.head + i) % d.capacity) nought)
  cleared_one i left items li n zeros j lj place = elim (Bool-cases (j == i)) [
    | inl e ↦
        let same : j ≡ i = ==→eq j i e in
        let less = mod-lt (d.head + i) pos in
        rw (same) (get_or-set_self items ((d.head + i) % d.capacity) nought nought (omega arith))
    | inr other ↦
        let ne : i ≢ j = λ e. absurd (ground arith) in
        get_or-set_ne items ((d.head + i) % d.capacity) ((d.head + j) % d.capacity) nought nought
          (ring_apart d.capacity d.head i j (head_inside nought d v pos) li lj ne)
        ∙ zeros j lj (elim place [ inl a ↦ inl (ground arith) | inr b ↦ inr (omega arith) ])
  ]

  clear_loop-AreZero :
      (left i : ℕ) (items : List A)
      → i + left ≤ d.capacity
      → length items ≡ d.capacity
      → AreZero i left items
      → (j : ℕ) → j < d.capacity
      → get_or (clear_loop nought true left i d items) ((d.head + j) % d.capacity) nought ≡ nought
  unfolding clear_loop release
  clear_loop-AreZero zero i items h n zeros j lj =
      zeros j lj
        (elim (Bool-cases (ltb j i)) [ inl a ↦ inl (ground arith) | inr b ↦ inr (ground arith) ])
  clear_loop-AreZero (suc left) i items h n zeros j lj =
      let at = slot_at nought d v pos i (omega arith) in
      ap
        (λ p.
          get_or (clear_loop nought true left (i + 1) d (set items p nought))
            ((d.head + j) % d.capacity) nought)
        at
      ∙ clear_loop-AreZero left (i + 1) (set items ((d.head + i) % d.capacity) nought) (omega arith)
          (length-set items ((d.head + i) % d.capacity) nought ∙ n)
          (cleared_one i left items (omega arith) n zeros) j lj

  pub clear-IsClean : IsClean nought d → IsClean nought (clear nought true d)
  unfolding clear
  clear-IsClean clean i past inside =
      let head = head_inside nought d v pos in
      let j = (i + d.capacity - d.head) % d.capacity in
      let less = mod-lt (i + d.capacity - d.head) pos in
      let items = clear_loop nought true d.count 0 d d.items in
      let sum : d.head + (i + d.capacity - d.head) ≡ i + d.capacity = omega arith in
      let here : (d.head + j) % d.capacity ≡ i =
        add-mod-mod d.head (i + d.capacity - d.head) d.capacity
        ∙ ap (λ s. s % d.capacity) sum
        ∙ add-mod_right i d.capacity
        ∙ mod-eq_of_lt inside in
      let there : (0 + i) % d.capacity ≡ i =
        ap (λ s. s % d.capacity) (omega arith) ∙ mod-eq_of_lt inside in
      ap (λ p. get_or items p nought) (there ∙ sym here)
      ∙ clear_loop-AreZero d.count 0 d.items (omega (arith, v.count_in)) v.storage
          (λ k lk place. elim place [
            | inl a ↦ absurd (omega arith)
            | inr b ↦ clean k (omega arith) lk
          ])
          j less
