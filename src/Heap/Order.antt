-- ===== src/Heap/Order.antt =====
-- The order of a heap, and lists of the same items.
use mathlib.Core.List.Perm
use mathlib.Core.List.{Perm, Permᴰ}
use mathlib.Core.Logic.{∥∥₁_elim}
use native.Mathlib.Nat.{ℕ_set}
use valk.Prelude.{
  ℕ, zero, suc, ◌≤◌, ◌<◌, ◌≡◌, ◌≢◌, refl, sym, ap, ◌∙◌, List, [], ◌∷◌, Bool, true, false, arith,
  length, set, length-set,
}
use valk.Prelude.Slots.{get_or-set_ne}
use valk.Heap.{parent, at, swap}

-- What the order of a heap is documented to be: some items come out before others, and the relation "not
-- after" is transitive.
pub record IsOrder {A : Type 0} (earlier : A → A → Bool) : Type 0 where
  pub one_way : (a b : A) → earlier a b ≡ true → earlier b a ≡ false
  pub transitive : (a b c : A) → earlier b a ≡ false → earlier c b ≡ false → earlier c a ≡ false

module _ {A : Type 0} (nought : A) (earlier : A → A → Bool) where
  -- No item comes out before its parent.
  abbrev pub IsHeap : List A → Type 0
  IsHeap items =
      (c : ℕ)
      → 1 ≤ c
      → c < length items
      → earlier (at nought items c) (at nought items (parent c)) ≡ false

module _ {A : Type 0} where
  -- A write over an item gives it up for the value written.
  pub set-Perm :
      (nought : A) (xs : List A) (i : ℕ) (v : A)
      → i < length xs
      → Perm (at nought xs i ∷ set xs i v) (v ∷ xs)
  set-Perm nought [] i v h = absurd (omega arith)
  set-Perm nought (x ∷ xs) zero v h = Perm.swap v x xs
  set-Perm nought (x ∷ xs) (suc i) v h =
      Perm.trans (Perm.swap x (at nought xs i) (set xs i v))
        (Perm.trans (Perm.cons x (set-Perm nought xs i v (omega arith))) (Perm.swap v x xs))

  pub swap-Perm :
      (nought : A) (xs : List A) (i j : ℕ)
      → i < length xs
      → j < length xs
      → i ≢ j
      → Perm (swap nought xs i j) xs
  swap-Perm nought xs i j hi hj ne =
      let x = at nought xs i in
      let y = at nought xs j in
      let ys = set xs i y in
      let there : at nought ys j ≡ y = get_or-set_ne xs i j y nought ne in
      let first = set-Perm nought xs i y hi in
      let second = set-Perm nought ys j x (omega (arith, length-set xs i y)) in
      Perm.cons_inv {a = y}
        (Perm.trans (Perm.cons' (sym there) (Perm.refl _)) (Perm.trans second first))

  length-Permᴰ : {xs ys : List A} → Permᴰ xs ys → length xs ≡ length ys
  length-Permᴰ Permᴰ.nil = refl
  length-Permᴰ (Permᴰ.cons e d) = ap suc (length-Permᴰ d)
  length-Permᴰ (Permᴰ.swap e f) = refl
  length-Permᴰ (Permᴰ.trans c d) = length-Permᴰ c ∙ length-Permᴰ d

  pub length-Perm : {xs ys : List A} → Perm xs ys → length xs ≡ length ys
  length-Perm {xs} {ys} p = ∥∥₁_elim p (ℕ_set (length xs) (length ys)) length-Permᴰ
