-- ===== src/Deque/Ends.antt =====
-- The pushes and pops of lib/src/core/deque.valk through the items that they leave.
use native.Mathlib.Nat.{mod-lt, mod-eq_of_lt}
use valk.Prelude.{
  ℕ, suc, ◌+◌, ◌-◌, ◌%◌, ◌≤◌, ◌<◌, ◌≡◌, ap, ◌∙◌, List, [], ◌∷◌, ◌++◌, arith, get_or, set,
  length-set,
}
use valk.Prelude.Slots.{values, values-same, values-shift, values-snoc}
use valk.Deque.{Deque}
use valk.Deque.Valid.{IsValid, item_at, contents}
use valk.Deque.Ring.{before_first, head_inside, written_self, written_other}

-- A deque that is well formed and reads as a list.
pub record Reads {A : Type 0} (nought : A) (d : Deque A) (xs : List A) : Type 0 where
  pub valid : IsValid d
  pub same : contents nought d ≡ xs

module _ {A : Type 0} (nought : A) where
  -- The two writes of the pushes, once there is room.
  module _ (d : Deque A) (v : IsValid d) (room : d.count < d.capacity) (x : A) where
    abbrev pub at_back : ℕ
    at_back = (d.head + d.count) % d.capacity

    pub written_back-Reads :
        Reads nought
          (record d { items = set d.items at_back x; count = d.count + 1 })
          (contents nought d ++ x ∷ [])
    written_back-Reads =
        let pos : 1 ≤ d.capacity = omega arith in
        let d' = record d { items = set d.items at_back x; count = d.count + 1 } in
        let one : d.count + 1 ≡ suc d.count = omega arith in
        let old : values (item_at nought d') 0 d.count ≡ contents nought d =
          values-same _ _ d.count (λ i l.
            written_other nought d v pos d.count i x room (omega arith)
              (λ e. absurd (omega arith))) in
        let last : item_at nought d' (0 + d.count) ≡ x =
          ap (item_at nought d') (omega arith) ∙ written_self nought d v pos d.count x in
        record {
          valid = record {
            storage = length-set d.items at_back x ∙ v.storage;
            power = v.power;
            head_in = v.head_in;
            count_in = omega arith;
          };
          same =
              ap (values (item_at nought d') 0) one
              ∙ values-snoc (item_at nought d') 0 d.count
              ∙ (λ i. old i ++ last i ∷ []);
        }

    abbrev pub at_front : ℕ
    at_front = (d.head + (d.capacity - 1)) % d.capacity

    pub written_front-Reads :
        Reads nought
          (record d { items = set d.items at_front x; head = at_front; count = d.count + 1 })
          (x ∷ contents nought d)
    unfolding values
    written_front-Reads =
        let pos : 1 ≤ d.capacity = omega arith in
        let d' = record d {
          items = set d.items at_front x;
          head = at_front;
          count = d.count + 1;
        } in
        let less = mod-lt (d.head + (d.capacity - 1)) pos in
        let one : d.count + 1 ≡ suc d.count = omega arith in
        let first : item_at nought d' 0 ≡ x =
          let z : at_front + 0 ≡ at_front = omega arith in
          ap (λ k. get_or d'.items k nought) (ap (λ p. p % d.capacity) z ∙ mod-eq_of_lt less)
          ∙ written_self nought d v pos (d.capacity - 1) x in
        let rest : values (item_at nought d') 1 d.count ≡ contents nought d =
          values-shift _ _ 1 0 d.count (λ i l.
            let swap : 1 + i ≡ i + 1 = omega arith in
            let z : i ≡ 0 + i = omega arith in
            ap (item_at nought d') swap
            ∙ ap (λ k. get_or d'.items k nought)
                (before_first d.capacity d.head i (head_inside nought d v pos))
            ∙ written_other nought d v pos (d.capacity - 1) i x (omega arith) (omega arith)
                (λ e. absurd (omega arith))
            ∙ ap (item_at nought d) z) in
        record {
          valid = record {
            storage = length-set d.items at_front x ∙ v.storage;
            power = v.power;
            head_in = omega arith;
            count_in = omega arith;
          };
          same = ap (values (item_at nought d') 0) one ∙ (λ i. first i ∷ rest i);
        }
