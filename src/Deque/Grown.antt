-- ===== src/Deque/Grown.antt =====
-- `grow` of lib/src/core/deque.valk: the items that went round the old end are moved behind it, so the
-- ring reads as before in the larger storage.
use valk.Prelude.{
  ℕ, ◌+◌, ◌-◌, ◌*◌, ◌^◌, ◌≤◌, ◌<◌, ◌≡◌, refl, sym, ap, ◌∙◌, inl, inr, List, ◌++◌, arith, length,
  length-append, get_or, take, drop, replicate, length-take, length-drop, length-replicate, ltb,
  Bool-cases,
}
use valk.Prelude.Int.{add64}
use valk.Prelude.Slots.{get_or-append_left, get_or-append_right, get_or-take, get_or-drop}
use valk.Deque.{Deque, copy_slots, clear_slots, move_wrapped}
use valk.Deque.Valid.{IsValid, ring_position, item_at}

module _ {A : Type 0} (nought : A) where
  module _ (n at : ℕ) (items : List A) (h : n ≤ at) (room : at + n ≤ length items) where
    copied_left : (i : ℕ) → i < at → get_or (copy_slots n at items) i nought ≡ get_or items i nought
    unfolding copy_slots
    copied_left i l =
        let front = length-take at items in
        get_or-append_left (take at items ++ take n items) (drop (at + n) items) i nought
          (omega (arith, length-append (take at items) (take n items)))
        ∙ get_or-append_left (take at items) (take n items) i nought (omega arith)
        ∙ get_or-take at items i nought l

    copied_middle :
        (i : ℕ)
        → at ≤ i
        → i < at + n
        → get_or (copy_slots n at items) i nought ≡ get_or items (i - at) nought
    unfolding copy_slots
    copied_middle i l m =
        let front = length-take at items in
        let middle = length-take n items in
        let same : i - length (take at items) ≡ i - at = omega arith in
        get_or-append_left (take at items ++ take n items) (drop (at + n) items) i nought
          (omega (arith, length-append (take at items) (take n items)))
        ∙ get_or-append_right (take at items) (take n items) i nought (omega arith)
        ∙ ap (λ k. get_or (take n items) k nought) same
        ∙ get_or-take n items (i - at) nought (omega arith)

    length-copy_slots : length (copy_slots n at items) ≡ length items
    unfolding copy_slots
    length-copy_slots = omega (
      arith,
      length-append (take at items ++ take n items) (drop (at + n) items),
      length-append (take at items) (take n items),
      length-take at items,
      length-take n items,
      length-drop (at + n) items,
    )

  pub cleared_past :
      (n i : ℕ) (items : List A)
      → n ≤ i
      → get_or (clear_slots nought n items) i nought ≡ get_or items i nought
  unfolding clear_slots
  cleared_past n i items past =
      let zeros = length-replicate n nought in
      let same : n + (i - length (replicate n nought)) ≡ i = omega arith in
      get_or-append_right (replicate n nought) (drop n items) i nought (omega arith)
      ∙ get_or-drop n items (i - length (replicate n nought)) nought
      ∙ ap (λ k. get_or items k nought) same

  length-clear_slots :
      (n : ℕ) (items : List A)
      → n ≤ length items
      → length (clear_slots nought n items) ≡ length items
  unfolding clear_slots
  length-clear_slots n items h = omega (
    arith,
    length-append (replicate n nought) (drop n items),
    length-replicate n nought,
    length-drop n items,
  )

  -- `move_wrapped` on a ring whose new size is twice the old one or more.
  module _ (d : Deque A) (size : ℕ) (v : IsValid d) (small : size ≤ 2 ^ 63)
      (double : 2 * d.capacity ≤ size) where
    unfoldable pub grown : List A
    grown = d.items ++ replicate (size - d.capacity) nought

    pub length-grown : length grown ≡ size
    unfolding grown
    length-grown = omega (
      arith,
      length-append d.items (replicate (size - d.capacity) nought),
      length-replicate (size - d.capacity) nought,
      v.storage,
    )

    grown_old : (i : ℕ) → i < d.capacity → get_or grown i nought ≡ get_or d.items i nought
    unfolding grown
    grown_old i l =
        get_or-append_left d.items (replicate (size - d.capacity) nought) i nought
          (omega (arith, v.storage))

    pub wraps : add64 d.head d.count ≡ d.head + d.count
    wraps = omega (arith, v.head_in, v.count_in)

    pub length-move_wrapped : length (move_wrapped nought d size).items ≡ size
    unfolding move_wrapped grown
    length-move_wrapped = elim (Bool-cases (ltb d.capacity (add64 d.head d.count))) [
      | inr inside ↦ rw (inside) length-grown
      | inl round ↦
          let n = add64 d.head d.count - d.capacity in
          let fits : n ≤ d.capacity = ground (arith, v.head_in, v.count_in) in
          let c = length-copy_slots n d.capacity grown fits (omega (arith, length-grown)) in
          rw (round) (
            length-clear_slots n (copy_slots n d.capacity grown) (omega (arith, c, length-grown))
            ∙ c
            ∙ length-grown)
    ]

    -- Where an item is read: neither the old ring nor the new one goes round twice.
    pub moved_item :
        1 ≤ d.capacity
        → (i : ℕ) → i < d.count
        → get_or (move_wrapped nought d size).items (d.head + i) nought ≡ item_at nought d i
    unfolding move_wrapped grown
    moved_item pos i l =
        let cap = d.capacity in
        let fits : (d.head < cap) × (i ≤ cap) =
          (omega (arith, v.head_in), omega (arith, v.count_in)) in
        let position = ring_position cap d.head i fits.0 fits.1 in
        elim (Bool-cases (ltb cap (add64 d.head d.count))) [
          | inr inside ↦ elim position [
            | inl (lt, e) ↦ rw (inside, e) (grown_old (d.head + i) lt)
            | inr (le, e) ↦ absurd (ground (arith, wraps))
          ]
          | inl round ↦
              let n = add64 d.head d.count - cap in
              let most : n ≤ d.head = omega (arith, wraps, v.count_in) in
              let room : cap + n ≤ length grown = omega (arith, length-grown, v.head_in) in
              let moved = copy_slots n cap grown in
              let kept : get_or (clear_slots nought n moved) (d.head + i) nought
                  ≡ get_or moved (d.head + i) nought =
                cleared_past n (d.head + i) moved (omega arith) in
              rw (round) (
                kept ∙ elim position [
                  | inl (lt, e) ↦
                      copied_left n cap grown (omega arith) room (d.head + i) lt
                      ∙ grown_old (d.head + i) lt
                      ∙ ap (λ k. get_or d.items k nought) (sym e)
                  | inr (le, e) ↦
                      copied_middle n cap grown (omega arith) room (d.head + i) le
                        (ground (arith, wraps))
                      ∙ grown_old (d.head + i - cap) (omega arith)
                      ∙ ap (λ k. get_or d.items k nought) (sym e)
                ])
        ]

  pub move_wrapped-fields :
      (d : Deque A) (size : ℕ)
      → ((move_wrapped nought d size).capacity ≡ size)
        × ((move_wrapped nought d size).head ≡ d.head)
        × ((move_wrapped nought d size).count ≡ d.count)
  unfolding move_wrapped
  move_wrapped-fields d size = elim (Bool-cases (ltb d.capacity (add64 d.head d.count))) [
    | inl round ↦ rw (round) (refl, refl, refl)
    | inr inside ↦ rw (inside) (refl, refl, refl)
  ]
