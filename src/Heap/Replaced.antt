-- ===== src/Heap/Replaced.antt =====
-- `replace` of lib/src/core/heap.valk, and `sift_down`, which it calls.
use mathlib.Core.List.Perm
use mathlib.Core.List.{Perm, mem-cons_of_mem, eq-or-mem_of_mem-cons}
use mathlib.Core.Bool.{Bool-set}
use mathlib.Core.Logic.Or
use mathlib.Core.Path.{subst}
use valk.Prelude.{
  ℕ, ◌≤◌, ◌≡◌, ◌≢◌, refl, sym, ap, ◌∙◌, inl, inr, Option, some, List, ◌∷◌, Bool, true, false, arith,
  Result, ok, length, set, length-set, ltb, ◌==◌, Bool-cases,
}
use valk.Prelude.Slots.{get_or-set_ne}
use valk.Heap.{parent, at, swap_down, sift_down, replace}
use valk.Heap.Order.{IsOrder, IsHeap, set-Perm}
use valk.Heap.Holes.{set-at}
use valk.Heap.Down.{IsSinking}
use valk.Heap.Least.{IsLeast, root-IsLeast}
use valk.Heap.Lowered.{sink_down-Risen}

module _ {A : Type 0} (nought : A) (earlier : A → A → Bool) (order : IsOrder earlier) where
  module _ (items : List A) (item : A) (heap : IsHeap nought earlier items)
      (some : 1 ≤ length items) where
    placed-IsSinking : IsSinking nought earlier order (set items 0 item) 0
    placed-IsSinking =
        let n = length-set items 0 item in
        let same : (k : ℕ) → k ≢ 0 → at nought (set items 0 item) k ≡ at nought items k =
          λ k ne. get_or-set_ne items 0 k item nought (λ e. ne (sym e)) in
        record {
          edges = λ c one lt a b.
              let here = same c a in
              let there = same (parent c) b in rw (here, there) (heap c one (omega arith));
          over = λ c one lt q pos. absurd (omega arith);
        }

    sift_down-IsHeap :
        (refs : Bool)
        → (r : List A) × (sift_down nought earlier refs (set items 0 item) 0 ≡ ok r)
          × IsHeap nought earlier r
          × Perm r (set items 0 item)
    unfolding sift_down
    sift_down-IsHeap refs =
        let placed = set items 0 item in
        let n = length-set items 0 item in
        let inside : ltb 0 (length placed) ≡ true = ground arith in
        let (r, down, swapped, ordered, perm) =
          sink_down-Risen nought earlier order (length placed) placed 0 (at nought placed 0)
            (omega arith) (omega arith) placed-IsSinking (λ pos. absurd (omega arith)) in
        let same = set-at nought placed 0 in
        let all = subst (λ l. Perm r l) same perm in
        elim (Bool-cases refs) [
          | inl references ↦ (
            r,
            rw (references)
                (ap (λ l. swap_down nought earlier (length placed) l 0) (sym same) ∙ swapped),
            ordered,
            all,
          )
          | inr plain ↦ (r, rw (plain, inside) down, ordered, all)
        ]

  -- What a `replace` of a heap gives back.
  abbrev Replaced : Result (Option A × List A) → (item : A) (items : List A) → Type 0
  Replaced r item items =
      (first : A) × (rest : List A) × (r ≡ ok (some first, rest))
      × IsHeap nought earlier rest
      × Perm (first ∷ rest) (item ∷ items)
      × IsLeast nought earlier first rest

  -- To replace on a heap that is not empty ends: what it returns and what is left are the items that there
  -- were and the new one, nothing left comes out before what is returned, and what is left is a heap,
  -- whichever variant of the sift runs, for any order in which no two items each come out before the other
  -- and in which not to come out before is transitive.
  pub replace-IsLeast :
      (refs : Bool) (items : List A) (item : A)
      → IsHeap nought earlier items
      → 1 ≤ length items
      → Replaced (replace nought earlier refs items item) item items
  unfolding replace
  replace-IsLeast refs items item heap some' =
      let first = at nought items 0 in
      let held : (length items == 0) ≡ false = ground arith in
      let least = root-IsLeast nought earlier order items heap in
      elim (Bool-cases (earlier item first)) [
        | inl before ↦ (
          item,
          items,
          rw (held, before) refl,
          heap,
          Perm.refl _,
          λ x m. order.transitive item first x (order.one_way item first before) (least x m),
        )
        | inr after ↦
            let (r, down, ordered, perm) = sift_down-IsHeap items item heap some' refs in
            let all : Perm (first ∷ r) (item ∷ items) =
              Perm.trans (Perm.cons first perm) (set-Perm nought items 0 item some') in
            (
              first,
              r,
              rw (held, after, down) refl,
              ordered,
              all,
              λ x m.
                  Or.elim (Bool-set _ _)
                    (eq-or-mem_of_mem-cons ((Perm.mem_iff all).0 (mem-cons_of_mem first m)))
                    (λ e. ap (λ z. earlier z first) e ∙ after) (λ m'. least x m'),
            )
      ]
