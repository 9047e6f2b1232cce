-- ===== src/Heap/Up.antt =====
-- `sift_up` of lib/src/core/heap.valk: the hole goes up until its item does not come out before the one
-- above.
use mathlib.Core.List.Perm
use mathlib.Core.List.{Perm}
use mathlib.Core.Path.{subst}
use valk.Prelude.{
  ℕ, zero, suc, ◌≤◌, ◌<◌, ◌≡◌, ◌≢◌, refl, sym, ap, ◌∙◌, inl, inr, List, Bool, true, false, arith,
  Result, ok, length, set, length-set, ltb, Bool-cases,
}
use valk.Prelude.Slots.{get_or-set_self, get_or-set_ne}
use valk.Heap.{parent, at, swap_up, float_up}
use valk.Heap.Order.{IsOrder, IsHeap}
use valk.Heap.Holes.{
  equal_cases, filled, moved, swap-hole, moved-Perm, moved_from, moved_to, moved_other,
}

module _ {A : Type 0} (nought : A) (earlier : A → A → Bool) (order : IsOrder earlier) where
  -- All is in order but for the item in the hole, which may belong higher up.
  pub record IsFloating (items : List A) (index : ℕ) (item : A) : Type 0 where
    pub edges :
        (c : ℕ)
        → 1 ≤ c
        → c < length items
        → c ≢ index
        → earlier (filled nought items index item c) (filled nought items index item (parent c))
          ≡ false
    pub over :
        (c : ℕ)
        → 1 ≤ c
        → c < length items
        → parent c ≡ index
        → 1 ≤ index
        → earlier (filled nought items index item c) (filled nought items index item (parent index))
          ≡ false

  pub parent_less : (c : ℕ) → 1 ≤ c → parent c < c
  parent_less c h = omega arith

  module _ (items : List A) (index : ℕ) (item : A) (inside : index < length items) (pos : 1 ≤ index)
      (f : IsFloating items index item)
      (up : earlier item (at nought items (parent index)) ≡ true) where
    abbrev p : ℕ
    p = parent index

    apart : index ≢ p
    apart e = absurd (omega (arith, parent_less index pos))

    abbrev next : List A
    next = moved nought items index p item inside apart

    p_inside : p < length items
    p_inside = omega (arith, parent_less index pos)

    abbrev old : ℕ → A
    old = filled nought items index item

    abbrev new : ℕ → A
    new = filled nought next p item

    new_index : new index ≡ old p
    new_index = moved_from nought items index p item inside apart

    new-p : new p ≡ old index
    new-p = moved_to nought items index p item inside apart p_inside

    new_other : (k : ℕ) → k ≢ index → k ≢ p → new k ≡ old k
    new_other = moved_other nought items index p item inside apart

    below_p : earlier (old p) (old index) ≡ false
    below_p =
        let there : old p ≡ at nought items p = get_or-set_ne items index p item nought apart in
        let here : old index ≡ item = get_or-set_self items index item nought inside in
        rw (there, here) (order.one_way item (at nought items p) up)

    length-next : length next ≡ length items
    length-next = length-set items index (at nought items p)

    new_edges :
        (c : ℕ) → 1 ≤ c → c < length items → c ≢ p → earlier (new c) (new (parent c)) ≡ false
    new_edges c one lt ne = elim (equal_cases c index) [
      | inl e ↦ rw (e, new_index, new-p) below_p
      | inr other ↦
          let same = new_other c other ne in
          elim (equal_cases (parent c) p) [
            | inl q ↦
                let edge = f.edges c one lt other in
                rw (same, q, new-p)
                  (order.transitive (old index) (old p) (old c) below_p
                    (subst (λ k. earlier (old c) (old k) ≡ false) q edge))
            | inr q ↦ elim (equal_cases (parent c) index) [
              | inl r ↦ rw (same, r, new_index) (f.over c one lt r pos)
              | inr r ↦ rw (same, new_other (parent c) r q) (f.edges c one lt other)
            ]
          ]
    ]

    new_over :
        (c : ℕ)
        → 1 ≤ c
        → c < length items
        → parent c ≡ p
        → 1 ≤ p
        → earlier (new c) (new (parent p)) ≡ false
    new_over c one lt q high =
        let less = parent_less p high in
        let less' = parent_less index pos in
        let less'' = parent_less c one in
        let top = new_other (parent p) (λ e. absurd (omega arith)) (λ e. absurd (omega arith)) in
        let above = f.edges p high p_inside (λ e. apart (sym e)) in
        elim (equal_cases c index) [
          | inl e ↦ rw (e, new_index, top) above
          | inr other ↦
              let same = new_other c other (λ e. absurd (omega arith)) in
              let edge = f.edges c one lt other in
              rw (same, top)
                (order.transitive (old (parent p)) (old p) (old c) above
                  (subst (λ k. earlier (old c) (old k) ≡ false) q edge))
        ]

    step-IsFloating : IsFloating next p item
    step-IsFloating = record {
      edges = λ c one lt ne. new_edges c one (omega (arith, length-next)) ne;
      over = λ c one lt q high. new_over c one (omega (arith, length-next)) q high;
    }

  -- What both variants of the loop end with.
  abbrev pub Risen : (items : List A) (r s : Result (List A)) → Type 0
  Risen items r s =
      (result : List A) × (r ≡ ok result)
      × (s ≡ ok result)
      × IsHeap nought earlier result
      × Perm result items

  settled :
      (items : List A) (index : ℕ) (item : A)
      → index < length items
      → IsFloating items index item
      → (1 ≤ index → earlier item (at nought items (parent index)) ≡ false)
      → IsHeap nought earlier (set items index item)
  settled items index item inside f stops c one lt = elim (equal_cases c index) [
    | inr other ↦ f.edges c one (omega (arith, length-set items index item)) other
    | inl e ↦
        let pos : 1 ≤ index = omega arith in
        let less = parent_less index pos in
        let there : filled nought items index item (parent index) ≡ at nought items (parent index) =
          get_or-set_ne items index (parent index) item nought (λ q. absurd (omega arith)) in
        let here : filled nought items index item index ≡ item =
          get_or-set_self items index item nought inside in
        rw (e, here, there) (stops pos)
  ]

  pub float_up-Risen :
      (fuel : ℕ) (items : List A) (index : ℕ) (item : A)
      → index < length items
      → index < fuel
      → IsFloating items index item
      → Risen
          (set items index item)
          (float_up nought earlier fuel items index item)
          (swap_up nought earlier fuel (set items index item) index)
  unfolding float_up swap_up
  float_up-Risen zero items index item inside enough f = absurd (omega arith)
  float_up-Risen (suc fuel) items index item inside enough f = elim (Bool-cases (ltb 0 index)) [
    | inr top ↦ (
      set items index item,
      rw (float_up, top) refl,
      rw (swap_up, top) refl,
      settled items index item inside f (λ pos. absurd (ground arith)),
      Perm.refl _,
    )
    | inl under ↦
        let pos : 1 ≤ index = ground arith in
        let above = at nought items (parent index) in
        let less = parent_less index pos in
        let there : filled nought items index item (parent index) ≡ above =
          get_or-set_ne items index (parent index) item nought (λ q. absurd (omega arith)) in
        let here : filled nought items index item index ≡ item =
          get_or-set_self items index item nought inside in
        let test : earlier (filled nought items index item index)
              (filled nought items index item (parent index))
            ≡ earlier item above =
          (λ i. earlier (here i) (there i)) in
        elim (Bool-cases (earlier item above)) [
          | inr stop ↦ (
            set items index item,
            rw (float_up, under, stop) refl,
            rw (swap_up, under, test, stop) refl,
            settled items index item inside f (λ q. stop),
            Perm.refl _,
          )
          | inl up ↦
              let ne = apart items index item inside pos f up in
              let next = moved nought items index (parent index) item inside ne in
              let n = length-set items index above in
              let (r, a, b, heap, perm) =
                float_up-Risen fuel next (parent index) item (omega arith) (omega arith)
                  (step-IsFloating items index item inside pos f up) in
              let swapped = swap-hole nought items index (parent index) item inside ne in
              (
                r,
                rw (float_up, under, up) a,
                rw (swap_up, under, test, up)
                    (ap (λ l. swap_up nought earlier fuel l (parent index)) swapped ∙ b),
                heap,
                Perm.trans perm
                    (moved-Perm nought items index (parent index) item inside ne (omega arith)),
              )
        ]
  ]
