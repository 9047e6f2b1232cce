-- ===== src/Heap/Holes.antt =====
-- A hole in the items of lib/src/core/heap.valk and the item that is to fill it.

use mathlib.Core.List.{Perm}
use mathlib.Core.Path.{subst}
use valk.Prelude.{
  ℕ, zero, suc, ◌<◌, ◌≡◌, ◌≢◌, refl, sym, ap, ◌∙◌, ◌⊎◌, inl, inr, List, [], ◌∷◌, arith, length, set,
  length-set, ◌==◌, ==→eq, Bool-cases,
}
use valk.Prelude.Slots.{get_or-set_self, get_or-set_ne}
use valk.Heap.{at, swap}
use valk.Heap.Order.{swap-Perm}

pub equal_cases : (i j : ℕ) → (i ≡ j) ⊎ (i ≢ j)
equal_cases i j = elim (Bool-cases (i == j)) [
  | inl same ↦ inl (==→eq i j same)
  | inr other ↦ inr (λ e. absurd (ground arith))
]

module _ {A : Type 0} where
  pub set-set : (xs : List A) (i : ℕ) (a b : A) → set (set xs i a) i b ≡ set xs i b
  set-set [] i a b = refl
  set-set (x ∷ xs) zero a b = refl
  set-set (x ∷ xs) (suc i) a b = ap (λ l. x ∷ l) (set-set xs i a b)

  pub set-at : (nought : A) (xs : List A) (i : ℕ) → set xs i (at nought xs i) ≡ xs
  set-at nought [] i = refl
  set-at nought (x ∷ xs) zero = refl
  set-at nought (x ∷ xs) (suc i) = ap (λ l. x ∷ l) (set-at nought xs i)

module _ {A : Type 0} (nought : A) where
  -- The item at a position, where the hole at `index` is filled with `item`.
  abbrev pub filled : List A → ℕ → A → ℕ → A
  filled items index item k = at nought (set items index item) k

  -- A hole that moves from `index` to `to`.
  module _ (items : List A) (index to : ℕ) (item : A) (inside : index < length items)
      (ne : index ≢ to) where
    abbrev pub moved : List A
    moved = set items index (at nought items to)

    pub swap-hole : swap nought (set items index item) index to ≡ set moved to item
    swap-hole =
        let there : at nought (set items index item) to ≡ at nought items to =
          get_or-set_ne items index to item nought ne in
        let here : at nought (set items index item) index ≡ item =
          get_or-set_self items index item nought inside in
        ap
          (λ v.
            set (set (set items index item) index v) to (at nought (set items index item) index))
          there
        ∙ ap (λ v. set (set (set items index item) index (at nought items to)) to v) here
        ∙ ap (λ l. set l to item) (set-set items index item (at nought items to))

    pub moved-Perm : to < length items → Perm (set moved to item) (set items index item)
    moved-Perm h =
        let n = length-set items index item in
        subst (λ l. Perm l (set items index item)) swap-hole
          (swap-Perm nought (set items index item) index to (omega arith) (omega arith) ne)

    pub moved_from : filled moved to item index ≡ filled items index item to
    moved_from =
        get_or-set_ne moved to index item nought (λ e. ne (sym e))
        ∙ get_or-set_self items index (at nought items to) nought inside
        ∙ sym (get_or-set_ne items index to item nought ne)

    pub moved_to : to < length items → filled moved to item to ≡ filled items index item index
    moved_to h =
        let n = length-set items index (at nought items to) in
        get_or-set_self moved to item nought (omega arith)
        ∙ sym (get_or-set_self items index item nought inside)

    pub moved_other :
        (k : ℕ) → k ≢ index → k ≢ to → filled moved to item k ≡ filled items index item k
    moved_other k a b =
        get_or-set_ne moved to k item nought (λ e. b (sym e))
        ∙ get_or-set_ne items index k (at nought items to) nought (λ e. a (sym e))
        ∙ sym (get_or-set_ne items index k item nought (λ e. a (sym e)))
