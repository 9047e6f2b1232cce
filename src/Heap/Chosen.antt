-- ===== src/Heap/Chosen.antt =====
-- Which way `sift_down` of lib/src/core/heap.valk goes: the two variants compare the item and its children
-- in another order, and choose the same.
use valk.Prelude.{
  ℕ, ◌+◌, ◌*◌, ◌<◌, ◌≡◌, refl, inl, inr, List, Bool, true, false, arith, length, set, length-set,
  ltb, Bool-cases, if◌then◌else◌,
}
use valk.Prelude.Slots.{get_or-set_self, get_or-set_ne}
use valk.Heap.{at, first_child, first_of_three}
use valk.Heap.Order.{IsOrder}

module _ {A : Type 0} (nought : A) (earlier : A → A → Bool) (order : IsOrder earlier) where
  clash : {B : Type 0} (b : Bool) → b ≡ true → b ≡ false → B
  clash b t f = absurd (ground arith)

  -- An item that comes before one that comes before a third comes before the third.
  before_all : (a b c : A) → earlier b a ≡ true → earlier c b ≡ true → earlier c a ≡ true
  before_all a b c p q = elim (Bool-cases (earlier c a)) [
    | inl yes' ↦ yes'
    | inr no' ↦ clash (earlier b a) p (order.transitive a c b no' (order.one_way c b q))
  ]

  pub first_of_three-first_child :
      (items : List A) (index : ℕ) (item : A)
      → index * 2 + 1 < length items
      → first_of_three nought earlier (set items index item) index ≡ (
          if earlier (at nought items (first_child nought earlier items index)) item
          then first_child nought earlier items index
          else index)
  unfolding first_of_three first_child
  first_of_three-first_child items index item h =
      let child = index * 2 + 1 in
      let left = at nought items child in
      let right = at nought items (child + 1) in
      let n = length-set items index item in
      let here = get_or-set_self items index item nought (omega arith) in
      let l = get_or-set_ne items index child item nought (λ e. absurd (omega arith)) in
      let r = get_or-set_ne items index (child + 1) item nought (λ e. absurd (omega arith)) in
      elim (Bool-cases (ltb (child + 1) (length items))) [
        | inr alone ↦ rw (n, here, l, alone) refl
        | inl both ↦ elim (Bool-cases (earlier left item)) [
          | inl a ↦ elim (Bool-cases (earlier right left)) [
            | inl b ↦
                let c = before_all item left right a b in rw (n, here, l, r, both, a, l, b, c) refl
            | inr b ↦ rw (n, here, l, r, both, a, l, b, a) refl
          ]
          | inr a ↦ elim (Bool-cases (earlier right left)) [
            | inl b ↦ rw (n, here, l, r, both, a, here, b) refl
            | inr b ↦
                let c = order.transitive item left right a b in
                rw (n, here, l, r, both, a, here, b, c, a) refl
          ]
        ]
      ]
