-- ===== src/Heap/Down.antt =====
-- `sift_down_to_bottom` of lib/src/core/heap.valk: the hole goes down along the children that come first.

use mathlib.Core.Path.{subst}
use valk.Prelude.{
  ℕ, ◌+◌, ◌*◌, ◌≤◌, ◌<◌, ◌≡◌, ◌≢◌, sym, ◌⊎◌, inl, inr, List, Bool, false, arith, length, set,
  length-set, ltb, Bool-cases,
}
use valk.Prelude.Slots.{get_or-set_self, get_or-set_ne}
use valk.Heap.{parent, at, first_child}
use valk.Heap.Order.{IsOrder}
use valk.Heap.Holes.{equal_cases}

module _ {A : Type 0} (nought : A) (earlier : A → A → Bool) (order : IsOrder earlier) where
  pub not_itself : (a : A) → earlier a a ≡ false
  not_itself a = elim (Bool-cases (earlier a a)) [ inl e ↦ order.one_way a a e | inr e ↦ e ]

  -- All is in order around the hole, and the items below it do not belong above it.
  pub record IsSinking (items : List A) (index : ℕ) : Type 0 where
    pub edges :
        (c : ℕ)
        → 1 ≤ c
        → c < length items
        → c ≢ index
        → parent c ≢ index
        → earlier (at nought items c) (at nought items (parent c)) ≡ false
    pub over :
        (c : ℕ)
        → 1 ≤ c
        → c < length items
        → parent c ≡ index
        → 1 ≤ index
        → earlier (at nought items c) (at nought items (parent index)) ≡ false

  -- A child that its sibling does not come before.
  pub record IsFirst (items : List A) (index child : ℕ) : Type 0 where
    pub under : parent child ≡ index
    pub deeper : index < child
    pub inside : child < length items
    pub least :
        (c : ℕ)
        → 1 ≤ c
        → c < length items
        → parent c ≡ index
        → earlier (at nought items c) (at nought items child) ≡ false

  pub first_child-IsFirst :
      (items : List A) (index : ℕ)
      → index * 2 + 1 < length items
      → IsFirst items index (first_child nought earlier items index)
  unfolding first_child
  first_child-IsFirst items index h =
      let left = index * 2 + 1 in
      let two : (c : ℕ) → 1 ≤ c → parent c ≡ index → (c ≡ left) ⊎ (c ≡ left + 1) =
        λ c one q. elim (equal_cases c left) [ inl e ↦ inl e | inr ne ↦ inr (ground arith) ] in
      elim (Bool-cases (ltb (left + 1) (length items))) [
        | inr alone ↦ rw (alone) (record {
          under = omega arith;
          deeper = omega arith;
          inside = h;
          least = λ c one lt q. elim (two c one q) [
            | inl e ↦ rw (e) (not_itself (at nought items left))
            | inr e ↦ absurd (ground arith)
          ];
        })
        | inl both ↦
            elim (Bool-cases (earlier (at nought items (left + 1)) (at nought items left))) [
              | inl right ↦
                  rw (both, right)
                    (record {
                      under = omega arith;
                      deeper = omega arith;
                      inside = ground arith;
                      least = λ c one lt q. elim (two c one q) [
                        | inl e ↦ rw (e) (order.one_way _ _ right)
                        | inr e ↦ rw (e) (not_itself (at nought items (left + 1)))
                      ];
                    })
              | inr stays ↦
                  rw (both, stays)
                    (record {
                      under = omega arith;
                      deeper = omega arith;
                      inside = h;
                      least = λ c one lt q. elim (two c one q) [
                        | inl e ↦ rw (e) (not_itself (at nought items left))
                        | inr e ↦ rw (e) stays
                      ];
                    })
            ]
      ]

  module _ (items : List A) (index child : ℕ) (s : IsSinking items index)
      (f : IsFirst items index child) where
    abbrev pub next : List A
    next = set items index (at nought items child)

    next_index : index < length items → at nought next index ≡ at nought items child
    next_index h = get_or-set_self items index (at nought items child) nought h

    next_other : (k : ℕ) → k ≢ index → at nought next k ≡ at nought items k
    next_other k ne = get_or-set_ne items index k (at nought items child) nought (λ e. ne (sym e))

    next_edges :
        (c : ℕ)
        → 1 ≤ c
        → c < length items
        → c ≢ child
        → parent c ≢ child
        → earlier (at nought next c) (at nought next (parent c)) ≡ false
    next_edges c one lt a b =
        let inside : index < length items = omega (arith, f.inside, f.deeper) in
        elim (equal_cases c index) [
          | inl e ↦
              let here = next_index inside in
              let above = next_other (parent index) (λ q. absurd (omega arith)) in
              rw (e, here, above)
                (s.over child (omega (arith, f.deeper)) f.inside f.under (omega arith))
          | inr ne ↦
              let same = next_other c ne in
              elim (equal_cases (parent c) index) [
                | inl q ↦ let here = next_index inside in rw (same, q, here) (f.least c one lt q)
                | inr q ↦
                    let above = next_other (parent c) q in rw (same, above) (s.edges c one lt ne q)
              ]
        ]

    pub next-IsSinking : IsSinking next child
    next-IsSinking =
        let n = length-set items index (at nought items child) in
        record {
          edges = λ c one lt a b. next_edges c one (omega arith) a b;
          over = λ c one lt q pos.
              let deep = f.deeper in
              let same = next_other c (λ e. absurd (omega arith)) in
              let here = next_index (omega (arith, f.inside)) in
              let edge =
                s.edges c one (omega arith) (λ e. absurd (omega arith))
                  (λ e. absurd (omega arith)) in
              rw (same, f.under, here)
                (subst (λ k. earlier (at nought items c) (at nought items k) ≡ false) q edge);
        }
