-- ===== src/Deque/Clean.antt =====
-- The calls of lib/src/core/deque.valk on references leave no slot that holds no item but is not zero.
use native.Mathlib.Nat.{mod-eq_of_lt, mod-add-mod, add-mod_right}
use valk.Prelude.{
  ℕ, ◌+◌, ◌-◌, ◌%◌, ◌≤◌, ◌==◌, ==→eq, ◌<◌, ◌≡◌, ◌≢◌, sym, ap, ◌∙◌, inl, inr, arith, get_or, set,
  ltb, Bool-cases,
}
use valk.Deque.{Deque}
use valk.Deque.Valid.{IsValid, item_at, IsClean}
use valk.Deque.Ring.{before_first, head_inside, written_self, written_other}
use valk.Deque.Ends.{at_back, at_front}

module _ {A : Type 0} (nought : A) where
  module _ (d : Deque A) (v : IsValid d) (room : d.count < d.capacity) (x : A)
      (clean : IsClean nought d) where
    pos : 1 ≤ d.capacity
    pos = omega arith

    pub written_back-IsClean :
        IsClean nought
          (record d { items = set d.items (at_back nought d v room x) x; count = d.count + 1 })
    written_back-IsClean i past inside =
        written_other nought d v pos d.count i x room inside (λ e. absurd (omega arith))
        ∙ clean i (omega arith) inside

    pub written_front-IsClean : IsClean nought (record d {
      items = set d.items (at_front nought d v room x) x;
      head = at_front nought d v room x;
      count = d.count + 1;
    })
    written_front-IsClean i past inside =
        let d' = record d {
          items = set d.items (at_front nought d v room x) x;
          head = at_front nought d v room x;
          count = d.count + 1;
        } in
        let same : i ≡ i - 1 + 1 = omega arith in
        ap (item_at nought d') same
        ∙ ap (λ p. get_or d'.items p nought)
            (before_first d.capacity d.head (i - 1) (head_inside nought d v pos))
        ∙ written_other nought d v pos (d.capacity - 1) (i - 1) x (omega arith) (omega arith)
            (λ e. absurd (omega arith))
        ∙ clean (i - 1) (omega arith) (omega arith)

  module _ (d : Deque A) (v : IsValid d) (many : 1 ≤ d.count) (clean : IsClean nought d) where
    held : 1 ≤ d.capacity
    held = omega (arith, v.count_in)

    -- A slot that is cleared stays zero or is that of another position.
    cleared_at :
        (k i : ℕ)
        → k < d.capacity
        → i < d.capacity
        → (i ≢ k → item_at nought d i ≡ nought)
        → get_or (set d.items ((d.head + k) % d.capacity) nought) ((d.head + i) % d.capacity) nought
          ≡ nought
    cleared_at k i lk li rest = elim (Bool-cases (i == k)) [
      | inl e ↦ let same : i ≡ k = ==→eq i k e in rw (same) (written_self nought d v held k nought)
      | inr other ↦
          let ne : i ≢ k = λ e. absurd (ground arith) in
          written_other nought d v held k i nought lk li (λ e. ne (sym e)) ∙ rest ne
    ]

    pub popped_back-IsClean : IsClean nought (record d {
      items = set d.items ((d.head + (d.count - 1)) % d.capacity) nought;
      count = d.count - 1;
    })
    popped_back-IsClean i past inside =
        cleared_at (d.count - 1) i (omega (arith, v.count_in)) inside (λ ne.
          elim (Bool-cases (ltb i d.count)) [
            | inl last ↦ absurd (ne (ground arith))
            | inr out ↦ clean i (ground arith) inside
          ])

    pub popped_front-IsClean : IsClean nought (record d {
      items = set d.items d.head nought;
      head = (d.head + 1) % d.capacity;
      count = d.count - 1;
    })
    popped_front-IsClean i past inside =
        let here : (d.head + 0) % d.capacity ≡ d.head =
          ap (λ p. p % d.capacity) (omega arith) ∙ mod-eq_of_lt (head_inside nought d v held) in
        let items = set d.items d.head nought in
        let cleared : items ≡ set d.items ((d.head + 0) % d.capacity) nought =
          ap (λ h. set d.items h nought) (sym here) in
        mod_step i
        ∙ ap (λ l. get_or l ((d.head + (1 + i)) % d.capacity) nought) cleared
        ∙ elim (Bool-cases (ltb (1 + i) d.capacity)) [
          | inl before ↦
              cleared_at 0 (1 + i) held (ground arith)
                (λ ne. clean (1 + i) (omega arith) (ground arith))
          | inr end ↦
              let round : 1 + i ≡ d.capacity = ground arith in
              let back : (d.head + (1 + i)) % d.capacity ≡ (d.head + 0) % d.capacity =
                ap (λ c. (d.head + c) % d.capacity) round
                ∙ add-mod_right d.head d.capacity
                ∙ ap (λ p. p % d.capacity) (omega arith) in
              ap (λ p. get_or (set d.items ((d.head + 0) % d.capacity) nought) p nought) back
              ∙ written_self nought d v held 0 nought
        ]
      where
        mod_step :
            (i : ℕ)
            → get_or
                (set d.items d.head nought)
                (((d.head + 1) % d.capacity + i) % d.capacity)
                nought
              ≡ get_or (set d.items d.head nought) ((d.head + (1 + i)) % d.capacity) nought
        mod_step i =
            ap (λ p. get_or (set d.items d.head nought) p nought)
              (mod-add-mod (d.head + 1) d.capacity i)
            ∙ ap (λ s. get_or (set d.items d.head nought) (s % d.capacity) nought) (omega arith)

  pub set-IsClean :
      (d : Deque A) (v : IsValid d) (index : ℕ) (x : A)
      → index < d.count
      → IsClean nought d
      → IsClean nought (record d { items = set d.items ((d.head + index) % d.capacity) x })
  set-IsClean d v index x l clean i past inside =
      written_other nought d v (omega arith) index i x (omega (arith, v.count_in)) inside
        (λ e. absurd (omega arith))
      ∙ clean i past inside
