-- ===== src/Deque/Copies.antt =====
-- `new`, `to_array`, `copy` and `contains` of lib/src/core/deque.valk: the loops over all items.
use mathlib.Core.List.{append-nil, append_assoc}
use valk.Prelude.{
  ℕ, zero, suc, ◌+◌, ◌^◌, ◌≤◌, ◌<◌, ◌≡◌, refl, sym, ap, ◌∙◌, inl, inr, some, List, [], ◌∷◌, ◌++◌,
  arith, Bool, ◌||◌, ok, false, ltb, Bool-cases,
}
use valk.Prelude.Powers.{two-pow_pos}
use valk.Prelude.Slots.{values, get_elem?-values}
use valk.Deque.{
  Deque, empty, move_wrapped, grow, new, get, array_loop, to_array, copy_loop, copy, contains_loop,
  contains,
}
use valk.Deque.Valid.{IsValid, empty-IsValid, item_at, contents, size_loop-IsPower}
use valk.Deque.Fitted.{move_wrapped-HasRoom, larger}
use valk.Deque.Ends.{Reads}
use valk.Deque.Moves.{push_back-Reads}
use valk.Deque.Items.{get-get_elem?}

module _ {A : Type 0} (nought : A) where
  pub new-Reads :
      (n : ℕ)
      → n ≤ 2 ^ 63
      → (d : Deque A) × (new nought n ≡ ok d) × (d.count ≡ 0) × Reads nought d []
  unfolding new grow empty values
  new-Reads n small = elim (Bool-cases (ltb 0 n)) [
    | inr nothing ↦ (
      empty nought,
      rw (nothing) refl,
      refl,
      record { valid = empty-IsValid nought; same = refl },
    )
    | inl many ↦
        let (j, a, b, c, e) = size_loop-IsPower 65 n 3 (omega arith) (omega arith) small in
        let pos = two-pow_pos j in
        let f =
          move_wrapped-HasRoom nought (empty nought) j (empty-IsValid nought) a (omega arith) pos
            refl in
        let fresh = larger nought (2 ^ j) 0 pos (omega arith) in
        (
          move_wrapped nought (empty nought) (2 ^ j),
          rw (many, e, fresh) refl,
          f.kept,
          record { valid = f.valid; same = f.same },
        )
  ]

  module _ (d : Deque A) (v : IsValid d) where
    pub get_item : (i : ℕ) → i < d.count → get nought d i ≡ some (item_at nought d i)
    get_item i l =
        get-get_elem? nought d v i
        ∙ get_elem?-values (item_at nought d) 0 d.count i l
        ∙ ap (λ k. some (item_at nought d k)) (omega arith)

    array_loop-values :
        (left i : ℕ) (result : List A)
        → i + left ≤ d.count
        → array_loop nought left i d result ≡ result ++ values (item_at nought d) i left
    unfolding array_loop values
    array_loop-values zero i result h = sym (append-nil result)
    array_loop-values (suc left) i result h =
        let e = get_item i (omega arith) in
        rw (array_loop, e)
          (array_loop-values left (i + 1) (result ++ item_at nought d i ∷ []) (omega arith)
            ∙ append_assoc result (item_at nought d i ∷ [])
                (values (item_at nought d) (i + 1) left))

    copy_loop-Reads :
        (left i : ℕ) (c : Deque A) (xs : List A)
        → i + left ≤ d.count
        → c.count + left ≤ 2 ^ 63
        → Reads nought c xs
        → (c' : Deque A) × (copy_loop nought left i d c ≡ ok c')
          × Reads nought c' (xs ++ values (item_at nought d) i left)
    unfolding copy_loop values
    copy_loop-Reads zero i c xs h small r =
        (c, refl, record { valid = r.valid; same = r.same ∙ sym (append-nil xs) })
    copy_loop-Reads (suc left) i c xs h small r =
        let e = get_item i (omega arith) in
        let x = item_at nought d i in
        let (c', pushed, n, r', clean) = push_back-Reads nought c x r.valid (omega arith) in
        let read : contents nought c' ≡ xs ++ x ∷ [] = r'.same ∙ ap (λ l. l ++ x ∷ []) r.same in
        let (f, copied, s) =
          copy_loop-Reads left (i + 1) c' (xs ++ x ∷ []) (omega arith) (omega arith)
            (record { valid = r'.valid; same = read }) in
        (
          f,
          rw (copy_loop, e, pushed) copied,
          record {
            valid = s.valid;
            same = s.same ∙ append_assoc xs (x ∷ []) (values (item_at nought d) (i + 1) left);
          },
        )

  -- The array of a well-formed deque holds its items from front to back.
  pub to_array-contents : (d : Deque A) → IsValid d → to_array nought d ≡ contents nought d
  unfolding to_array
  to_array-contents d v = array_loop-values d v d.count 0 [] (omega arith)

  -- A copy of a well-formed deque of at most 2 ^ 63 items is made, is well formed, and gives the same array.
  pub copy-to_array :
      (d : Deque A)
      → IsValid d
      → d.count ≤ 2 ^ 63
      → (c : Deque A) × (copy nought d ≡ ok c) × IsValid c × (to_array nought c ≡ to_array nought d)
  unfolding copy
  copy-to_array d v small =
      let (e, made, n, r) = new-Reads d.count small in
      let (c, copied, s) = copy_loop-Reads d v d.count 0 e [] (omega arith) (omega arith) r in
      (
        c,
        rw (made) copied,
        s.valid,
        to_array-contents c s.valid ∙ s.same ∙ sym (to_array-contents d v),
      )

  -- Whether a list holds an item that is the same as a value.
  unfoldable pub list_contains : (A → A → Bool) → List A → A → Bool
  list_contains same [] value = false
  list_contains same (x ∷ xs) value = same x value || list_contains same xs value

  contains_loop-values :
      (same : A → A → Bool) (value : A) (d : Deque A)
      → IsValid d
      → (left i : ℕ) → i + left ≤ d.count
      → contains_loop nought same left i d value
        ≡ list_contains same (values (item_at nought d) i left) value
  unfolding contains_loop values list_contains
  contains_loop-values same value d v zero i h = refl
  contains_loop-values same value d v (suc left) i h =
      let e = get_item d v i (omega arith) in
      let rest = contains_loop-values same value d v left (i + 1) (omega arith) in
      rw (contains_loop, e)
        (elim (Bool-cases (same (item_at nought d i) value)) [
          | inl found ↦ rw (found) refl
          | inr other ↦ rw (other) rest
        ])

  contains-list_contains :
      (same : A → A → Bool) (value : A) (d : Deque A)
      → IsValid d
      → contains nought same d value ≡ list_contains same (contents nought d) value
  unfolding contains
  contains-list_contains same value d v =
      contains_loop-values same value d v d.count 0 (omega arith)
