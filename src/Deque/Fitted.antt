-- ===== src/Deque/Fitted.antt =====
-- `grow` and `fit` of lib/src/core/deque.valk: a push finds a free slot, in a ring that reads as before.
use native.Mathlib.Nat.{mod-eq_of_lt, pow-succ'}
use valk.Prelude.{
  ℕ, suc, ◌+◌, ◌*◌, ◌^◌, ◌≤◌, ◌<◌, ◌≡◌, refl, sym, ap, ◌∙◌, inl, inr, arith, ok, get_or, false, ltb,
  ◌==◌, ==→eq, if◌then◌else◌, Bool-cases,
}
use valk.Prelude.Int.{add64}
use valk.Prelude.Powers.{two-pow_pos, two-pow_mono}
use valk.Prelude.Slots.{values, values-same}
use valk.Deque.{Deque, move_wrapped, size_loop, grow, fit}
use valk.Deque.Valid.{IsValid, item_at, contents, IsClean, size_loop-IsPower}
use valk.Deque.Grown.{length-move_wrapped, moved_item, move_wrapped-fields}
use valk.Deque.Zeros.{move_wrapped-IsClean}

module _ {A : Type 0} (nought : A) where
  -- A deque with room for one more item, that reads as the one before.
  pub record HasRoom (d d' : Deque A) : Type 0 where
    pub valid : IsValid d'
    pub same : contents nought d' ≡ contents nought d
    pub kept : d'.count ≡ d.count
    pub room : d'.count < d'.capacity
    pub clean : IsClean nought d → IsClean nought d'

  item_flat :
      (d : Deque A) (i : ℕ)
      → d.head + i < d.capacity
      → item_at nought d i ≡ get_or d.items (d.head + i) nought
  item_flat d i h = ap (λ k. get_or d.items k nought) (mod-eq_of_lt h)

  pub move_wrapped-HasRoom :
      (d : Deque A) (j : ℕ)
      → IsValid d
      → j ≤ 63
      → 2 * d.capacity ≤ 2 ^ j
      → d.count < 2 ^ j
      → d.count ≡ d.capacity
      → HasRoom d (move_wrapped nought d (2 ^ j))
  move_wrapped-HasRoom d j v h double room full =
      let small = two-pow_mono {a = j} {b = 63} h in
      let (ec, eh, en) = move_wrapped-fields nought d (2 ^ j) in
      let pos = two-pow_pos j in
      let d' = move_wrapped nought d (2 ^ j) in
      record {
        valid = record {
          storage = length-move_wrapped nought d (2 ^ j) v small double ∙ sym ec;
          power = inr (j, h, ec);
          head_in = omega (arith, v.head_in);
          count_in = omega (arith, v.count_in);
        };
        same =
            ap (values (item_at nought d') 0) en
            ∙ values-same _ _ d.count (λ i l.
              item_flat d' i (omega (arith, v.head_in, v.count_in))
              ∙ ap (λ h. get_or d'.items (h + i) nought) eh
              ∙ moved_item nought d (2 ^ j) v small double (omega (arith, v.count_in)) i l);
        kept = en;
        room = omega arith;
        clean = λ c. move_wrapped-IsClean nought d (2 ^ j) v small double full;
      }

  smaller_power : (k j : ℕ) → 2 ^ k < 2 ^ j → k < j
  smaller_power k j h = elim (Bool-cases (ltb k j)) [
    | inl less ↦ ground arith
    | inr not ↦ let back = two-pow_mono {a = j} {b = k} (ground arith) in absurd (omega arith)
  ]

  pub larger : (n c : ℕ) → 1 ≤ n → 2 * c ≤ n → (n == c) ≡ false
  larger n c pos twice = ground arith

  -- The size that `grow` ends with.
  grown_size :
      (d : Deque A)
      → IsValid d
      → d.count ≡ d.capacity
      → d.count < 2 ^ 63
      → (j : ℕ) × (j ≤ 63)
        × (2 * d.capacity ≤ 2 ^ j)
        × (d.count < 2 ^ j)
        × (size_loop 65 (add64 d.count 1) (if d.capacity == 0 then 8 else d.capacity) ≡ ok (2 ^ j))
  grown_size d v full small =
      let more : add64 d.count 1 ≡ d.count + 1 = omega arith in
      elim v.power [
        | inl none ↦
            let (j, a, b, c, e) =
              size_loop-IsPower 65 (add64 d.count 1) 3 (omega arith) (omega arith) (omega arith) in
            let pos = two-pow_pos j in
            let start : (if d.capacity == 0 then 8 else d.capacity) ≡ 2 ^ 3 = rw (none) refl in
            (j, a, omega arith, omega arith, ap (size_loop 65 (add64 d.count 1)) start ∙ e)
        | inr (k, h, size) ↦
            let pos = two-pow_pos k in
            let some : (d.capacity == 0) ≡ false = ground arith in
            let (j, a, b, c, e) =
              size_loop-IsPower 65 (add64 d.count 1) k h (omega arith) (omega arith) in
            let less = smaller_power k j (omega arith) in
            let twice = two-pow_mono {a = suc k} {b = j} less in
            let two = pow-succ' 2 k in
            let start : (if d.capacity == 0 then 8 else d.capacity) ≡ 2 ^ k = rw (some) size in
            (j, a, omega arith, omega arith, ap (size_loop 65 (add64 d.count 1)) start ∙ e)
      ]

  pub fit-HasRoom :
      (d : Deque A)
      → IsValid d
      → d.count < 2 ^ 63
      → (d' : Deque A) × (fit nought d ≡ ok d') × HasRoom d d'
  unfolding fit grow
  fit-HasRoom d v small = elim (Bool-cases (d.count == d.capacity)) [
    | inr not ↦ (
      d,
      rw (not) refl,
      record {
        valid = v;
        same = refl;
        kept = refl;
        room = ground (arith, v.count_in);
        clean = λ c. c;
      },
    )
    | inl full ↦
        let (j, a, b, c, e) = grown_size d v (==→eq d.count d.capacity full) small in
        let new = larger (2 ^ j) d.capacity (two-pow_pos j) b in
        (
          move_wrapped nought d (2 ^ j),
          rw (full, e, new) refl,
          move_wrapped-HasRoom d j v a b c (==→eq d.count d.capacity full),
        )
  ]
