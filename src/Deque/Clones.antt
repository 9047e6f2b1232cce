-- ===== src/Deque/Clones.antt =====
-- `clone` of lib/src/core/deque.valk: the loop of `copy` with every item cloned.
use mathlib.Core.List.{append-nil, append_assoc, map}
use valk.Prelude.{
  ℕ, zero, suc, ◌+◌, ◌^◌, ◌≤◌, ◌≡◌, refl, sym, ap, ◌∙◌, List, [], ◌∷◌, ◌++◌, arith, ok,
}
use valk.Prelude.Slots.{values}
use valk.Deque.{Deque, to_array, clone_loop, clone}
use valk.Deque.Valid.{IsValid, item_at, contents}
use valk.Deque.Ends.{Reads}
use valk.Deque.Moves.{push_back-Reads}
use valk.Deque.Copies.{get_item, new-Reads, to_array-contents}

module _ {A : Type 0} (nought : A) (clone_item : A → A) (d : Deque A) (v : IsValid d) where
  clone_loop-Reads :
      (left i : ℕ) (c : Deque A) (xs : List A)
      → i + left ≤ d.count
      → c.count + left ≤ 2 ^ 63
      → Reads nought c xs
      → (c' : Deque A) × (clone_loop nought clone_item left i d c ≡ ok c')
        × Reads nought c' (xs ++ map clone_item (values (item_at nought d) i left))
  unfolding clone_loop values
  clone_loop-Reads zero i c xs h small r =
      (c, refl, record { valid = r.valid; same = r.same ∙ sym (append-nil xs) })
  clone_loop-Reads (suc left) i c xs h small r =
      let e = get_item nought d v i (omega arith) in
      let x = clone_item (item_at nought d i) in
      let (c', pushed, n, r', clean) = push_back-Reads nought c x r.valid (omega arith) in
      let read : contents nought c' ≡ xs ++ x ∷ [] = r'.same ∙ ap (λ l. l ++ x ∷ []) r.same in
      let (f, cloned, s) =
        clone_loop-Reads left (i + 1) c' (xs ++ x ∷ []) (omega arith) (omega arith)
          (record { valid = r'.valid; same = read }) in
      (
        f,
        rw (clone_loop, e, pushed) cloned,
        record {
          valid = s.valid;
          same =
              s.same
              ∙ append_assoc xs (x ∷ []) (map clone_item (values (item_at nought d) (i + 1) left));
        },
      )

  -- A deep copy of a well-formed deque of at most 2 ^ 63 items is made, is well formed, and its array is that
  -- of the deque with every item cloned.
  pub clone-to_array :
      d.count ≤ 2 ^ 63
      → (c : Deque A) × (clone nought clone_item d ≡ ok c)
        × IsValid c
        × (to_array nought c ≡ map clone_item (to_array nought d))
  unfolding clone
  clone-to_array small =
      let (e, made, n, r) = new-Reads nought d.count small in
      let (c, cloned, s) = clone_loop-Reads d.count 0 e [] (omega arith) (omega arith) r in
      (
        c,
        rw (made) cloned,
        s.valid,
        to_array-contents nought c s.valid
            ∙ s.same
            ∙ ap (map clone_item) (sym (to_array-contents nought d v)),
      )
