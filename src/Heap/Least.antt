-- ===== src/Heap/Least.antt =====
-- The first item of a heap comes out before all others; the last one can be taken away.
use mathlib.Core.List.Perm
use mathlib.Core.List.{Mem, Perm, not-mem-nil, eq-or-mem_of_mem-cons}
use mathlib.Core.Bool.{Bool-set}
use mathlib.Core.Logic.Or
use mathlib.Core.Path.{subst}
use valk.Prelude.{
  ℕ, zero, suc, ◌-◌, ◌≤◌, ◌<◌, ◌≡◌, refl, sym, ap, ◌∙◌, inl, inr, List, [], ◌∷◌, ◌++◌, Bool, false,
  arith, length, set, take, length-take, ltb, Bool-cases,
}
use valk.Prelude.Slots.{get_or-take}
use valk.Heap.{parent, at}
use valk.Heap.Order.{IsOrder, IsHeap, set-Perm}
use valk.Heap.Down.{not_itself}

pub snoc-Perm : {A : Type 0} (xs : List A) (x : A) → Perm (xs ++ x ∷ []) (x ∷ xs)
snoc-Perm [] x = Perm.refl _
snoc-Perm (y ∷ xs) x = Perm.trans (Perm.cons y (snoc-Perm xs x)) (Perm.swap x y xs)

module _ {A : Type 0} (nought : A) where
  last_item :
      (xs : List A)
      → 1 ≤ length xs
      → take (length xs - 1) xs ++ at nought xs (length xs - 1) ∷ [] ≡ xs
  last_item [] h = absurd (omega arith)
  last_item (x ∷ []) h = refl
  last_item (x ∷ y ∷ xs) h =
      let e : length (x ∷ y ∷ xs) - 1 ≡ suc (length (y ∷ xs) - 1) = omega arith in
      rw (e) (ap (λ l. x ∷ l) (last_item (y ∷ xs) (omega arith)))

  module _ (earlier : A → A → Bool) where
    -- No item of the list comes out before `first`.
    abbrev pub IsLeast : A → List A → Type 0
    IsLeast first xs = (x : A) → Mem x xs → earlier x first ≡ false

    -- Each item comes out before none of those behind it.
    abbrev pub IsSorted : List A → Type 0
    IsSorted [] = Unit {0}
    IsSorted (x ∷ xs) = IsLeast x xs × IsSorted xs

    all_at :
        (first : A) (xs : List A)
        → ((k : ℕ) → k < length xs → earlier (at nought xs k) first ≡ false)
        → IsLeast first xs
    all_at first [] h x m = absurd (not-mem-nil m)
    all_at first (y ∷ xs) h x m =
        Or.elim (Bool-set _ _) (eq-or-mem_of_mem-cons m)
          (λ e. ap (λ z. earlier z first) e ∙ h 0 (omega arith))
          (λ m'. all_at first xs (λ k l. h (suc k) (omega arith)) x m')

    module _ (order : IsOrder earlier) (items : List A) (heap : IsHeap nought earlier items) where
      root_below :
          (fuel k : ℕ)
          → k < fuel
          → k < length items
          → earlier (at nought items k) (at nought items 0) ≡ false
      root_below zero k less lt = absurd (omega arith)
      root_below (suc fuel) k less lt = elim (Bool-cases (ltb 0 k)) [
        | inl pos ↦
            order.transitive (at nought items 0) (at nought items (parent k)) (at nought items k)
              (root_below fuel (parent k) (ground arith) (ground arith)) (heap k (ground arith) lt)
        | inr root ↦
            let none_above : k ≡ 0 = ground arith in
            rw (none_above) (not_itself nought earlier order (at nought items 0))
      ]

      pub root-IsLeast : IsLeast (at nought items 0) items
      root-IsLeast = all_at (at nought items 0) items (λ k l. root_below (suc k) k (omega arith) l)

      pub take-IsHeap : (n : ℕ) → IsHeap nought earlier (take n items)
      take-IsHeap n c one lt =
          let m = length-take n items in
          let here = get_or-take n items c nought (omega arith) in
          let there = get_or-take n items (parent c) nought (omega arith) in
          rw (here, there) (heap c one (omega arith))

  -- The last item takes the place of the first one.
  pub replaced-Perm :
      (items : List A)
      → 2 ≤ length items
      → Perm
          (at nought items 0
            ∷ set (take (length items - 1) items) 0 (at nought items (length items - 1)))
          items
  replaced-Perm items two =
      let n = length items - 1 in
      let rest = take n items in
      let last = at nought items n in
      let m = length-take n items in
      let same : at nought rest 0 ≡ at nought items 0 =
        get_or-take n items 0 nought (omega arith) in
      Perm.trans (Perm.cons' (sym same) (Perm.refl _)) (
        Perm.trans (set-Perm nought rest 0 last (omega arith)) (
          subst (λ l. Perm (last ∷ rest) l) (last_item items (omega arith))
            (Perm.symm (snoc-Perm rest last))))
