-- ===== src/Deque/Zeros.antt =====
-- The slots that `grow` of lib/src/core/deque.valk leaves without an item are zero.
use valk.Prelude.{
  ℕ, zero, suc, ◌+◌, ◌-◌, ◌*◌, ◌%◌, ◌^◌, ◌≤◌, ◌<◌, ◌≡◌, refl, ap, ◌∙◌, ◌⊎◌, inl, inr, List, ◌++◌,
  arith, length, length-append, length-take, length-replicate, get_or, take, drop, replicate, ltb,
  Bool-cases,
}
use valk.Prelude.Int.{add64}
use valk.Prelude.Slots.{get_or-append_left, get_or-append_right, get_or-drop}
use valk.Deque.{Deque, copy_slots, clear_slots, move_wrapped}
use valk.Deque.Valid.{IsValid, ring_position, item_at, IsClean}
use valk.Deque.Grown.{grown, length-grown, wraps, cleared_past, move_wrapped-fields}

module _ {A : Type 0} (nought : A) where
  replicate_nought : (n i : ℕ) → get_or (replicate n nought) i nought ≡ nought
  replicate_nought zero i = refl
  replicate_nought (suc n) zero = refl
  replicate_nought (suc n) (suc i) = replicate_nought n i

  pub cleared_below :
      (n i : ℕ) (items : List A) → i < n → get_or (clear_slots nought n items) i nought ≡ nought
  unfolding clear_slots
  cleared_below n i items h =
      get_or-append_left (replicate n nought) (drop n items) i nought
        (omega (arith, length-replicate n nought))
      ∙ replicate_nought n i

  copied_past :
      (n at : ℕ) (items : List A)
      → n ≤ at
      → at + n ≤ length items
      → (i : ℕ) → at + n ≤ i
      → get_or (copy_slots n at items) i nought ≡ get_or items i nought
  unfolding copy_slots
  copied_past n at items h room i past =
      let front = length-take at items in
      let middle = length-take n items in
      let both = length-append (take at items) (take n items) in
      let same : at + n + (i - length (take at items ++ take n items)) ≡ i = omega arith in
      get_or-append_right (take at items ++ take n items) (drop (at + n) items) i nought
        (omega arith)
      ∙ get_or-drop (at + n) items (i - length (take at items ++ take n items)) nought
      ∙ ap (λ k. get_or items k nought) same

  -- The slots that a full ring gains.
  module _ (d : Deque A) (size : ℕ) (v : IsValid d) (small : size ≤ 2 ^ 63)
      (double : 2 * d.capacity ≤ size) (full : d.count ≡ d.capacity) where
    grown_new :
        (i : ℕ) → d.capacity ≤ i → get_or (grown nought d size v small double) i nought ≡ nought
    unfolding grown
    grown_new i h =
        get_or-append_right d.items (replicate (size - d.capacity) nought) i nought
          (omega (arith, v.storage))
        ∙ replicate_nought (size - d.capacity) (i - length d.items)

    unused_slot :
        (p : ℕ)
        → (p < d.head) ⊎ (d.head + d.capacity ≤ p)
        → get_or (move_wrapped nought d size).items p nought ≡ nought
    unfolding move_wrapped grown
    unused_slot p place =
        let sum = wraps nought d size v small double in
        let cap = d.capacity in
        elim (Bool-cases (ltb cap (add64 d.head d.count))) [
          | inr inside ↦
              let first : d.head ≡ 0 = ground arith in
              let past : cap ≤ p = elim place [
                | inl less ↦ absurd (omega arith)
                | inr more ↦ omega arith
              ] in
              rw (inside) (grown_new p past)
          | inl round ↦
              let n = add64 d.head d.count - cap in
              let all : n ≡ d.head = omega arith in
              let items = grown nought d size v small double in
              let length-items = length-grown nought d size v small double in
              rw (round) (elim place [
                | inl less ↦ cleared_below n p (copy_slots n cap items) (omega arith)
                | inr more ↦
                    cleared_past nought n p (copy_slots n cap items) (omega arith)
                    ∙ copied_past n cap items (omega (arith, v.head_in)) (omega (arith, v.head_in))
                        p (omega arith)
                    ∙ grown_new p (omega arith)
              ])
        ]

    pub move_wrapped-IsClean : IsClean nought (move_wrapped nought d size)
    move_wrapped-IsClean i past inside =
        let d' = move_wrapped nought d size in
        let (ec, eh, en) = move_wrapped-fields nought d size in
        let here : item_at nought d' i ≡ get_or d'.items ((d.head + i) % size) nought =
          (λ j. get_or d'.items ((eh j + i) % ec j) nought) in
        here ∙ elim (ring_position size d.head i (omega (arith, v.head_in)) (omega arith)) [
          | inl (lt, e) ↦
              ap (λ p. get_or d'.items p nought) e ∙ unused_slot (d.head + i) (inr (omega arith))
          | inr (le, e) ↦
              ap (λ p. get_or d'.items p nought) e
              ∙ unused_slot (d.head + i - size) (inl (omega arith))
        ]
