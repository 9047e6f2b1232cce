-- ===== src/Deque/Items.antt =====
-- `get`, `set`, `clear` and the peeks of lib/src/core/deque.valk on the items of the deque.
use valk.Prelude.{
  ℕ, zero, suc, ◌+◌, ◌-◌, ◌%◌, ◌≤◌, ◌<◌, ◌≡◌, ◌≢◌, refl, sym, ap, ◌∙◌, inl, inr, none, some, List,
  [], arith, Bool, length, get_elem?, set, true, false, leb, ◌==◌, ==→eq, Bool-cases, length-set,
}
use valk.Prelude.Int.{add64}
use valk.Prelude.Slots.{values, length-values, get_elem?-values, get_elem?-values_past, values-set}
use valk.Deque.{Deque, slot, clear_loop, clear, get, set_item, peek_front, peek_back}
use valk.Deque.Valid.{IsValid, item_at, contents, IsClean}
use valk.Deque.Clean.{set-IsClean}
use valk.Deque.Ring.{slot_at, written_self, written_other, length-release}
use valk.Deque.Ends.{Reads}

module _ {A : Type 0} (nought : A) where
  pub length-contents : (d : Deque A) → length (contents nought d) ≡ d.count
  length-contents d = length-values (item_at nought d) 0 d.count

  length-clear_loop :
      (refs : Bool) (left i : ℕ) (d : Deque A) (items : List A)
      → length (clear_loop nought refs left i d items) ≡ length items
  unfolding clear_loop
  length-clear_loop refs zero i d items = refl
  length-clear_loop refs (suc left) i d items =
      length-clear_loop refs left (i + 1) d _ ∙ length-release nought refs items _

  pub clear-Reads : (refs : Bool) (d : Deque A) → IsValid d → Reads nought (clear nought refs d) []
  unfolding clear values
  clear-Reads true d v = record {
    valid = record {
      storage = length-clear_loop true d.count 0 d d.items ∙ v.storage;
      power = v.power;
      head_in = omega arith;
      count_in = omega arith;
    };
    same = refl;
  }
  clear-Reads false d v = record {
    valid = record {
      storage = v.storage;
      power = v.power;
      head_in = omega arith;
      count_in = omega arith;
    };
    same = refl;
  }

  clear-count : (refs : Bool) (d : Deque A) → (clear nought refs d).count ≡ 0
  unfolding clear
  clear-count refs d = refl

  module _ (d : Deque A) (v : IsValid d) where
    at_index :
        (index : ℕ)
        → index < d.count
        → slot d.capacity (add64 d.head index) ≡ (d.head + index) % d.capacity
    at_index index l =
        slot_at nought d v (omega (arith, v.count_in)) index (omega (arith, v.count_in))

    pub get-get_elem? : (index : ℕ) → get nought d index ≡ get_elem? (contents nought d) index
    unfolding get
    get-get_elem? index = elim (Bool-cases (leb d.count index)) [
      | inl past ↦
          rw (past) (sym (get_elem?-values_past (item_at nought d) 0 d.count index (ground arith)))
      | inr inside ↦
          let l : index < d.count = ground arith in
          let z : index ≡ 0 + index = omega arith in
          rw (inside, at_index index l)
            (ap (λ i. some (item_at nought d i)) z
              ∙ sym (get_elem?-values (item_at nought d) 0 d.count index l))
    ]

    pub peek_front-get_elem? : peek_front nought d ≡ get_elem? (contents nought d) 0
    unfolding peek_front
    peek_front-get_elem? = get-get_elem? 0

    pub peek_back-get_elem? : peek_back nought d ≡ get_elem? (contents nought d) (d.count - 1)
    unfolding peek_back
    peek_back-get_elem? = elim (Bool-cases (d.count == 0)) [
      | inr held ↦ rw (held) (get-get_elem? (d.count - 1))
      | inl empty ↦
          let zeros = ==→eq d.count 0 empty in
          rw (empty)
            (sym (get_elem?-values_past (item_at nought d) 0 d.count (d.count - 1) (omega arith)))
    ]

    pub set_item-past : (index : ℕ) (x : A) → d.count ≤ index → set_item nought d index x ≡ none
    unfolding set_item
    set_item-past index x past = let e : leb d.count index ≡ true = ground arith in rw (e) refl

    pub set_item-Reads :
        (index : ℕ) (x : A)
        → index < d.count
        → (d' : Deque A) × (set_item nought d index x ≡ some d')
          × (d'.count ≡ d.count)
          × Reads nought d' (set (contents nought d) index x)
          × (IsClean nought d → IsClean nought d')
    unfolding set_item
    set_item-Reads index x l =
        let inside : leb d.count index ≡ false = ground arith in
        let pos : 1 ≤ d.capacity = omega (arith, v.count_in) in
        let d' = record d { items = set d.items ((d.head + index) % d.capacity) x } in
        let here : item_at nought d' (0 + index) ≡ x =
          ap (item_at nought d') (omega arith) ∙ written_self nought d v pos index x in
        let others : (j : ℕ)
            → j < d.count
            → j ≢ index
            → item_at nought d' (0 + j) ≡ item_at nought d (0 + j) =
          λ j lj ne.
            let z : 0 + j ≡ j = omega arith in
            ap (item_at nought d') z
            ∙ written_other nought d v pos index j x (omega (arith, v.count_in))
                (omega (arith, v.count_in)) (λ e. ne (sym e))
            ∙ ap (item_at nought d) (sym z) in
        (
          d',
          rw (inside, at_index index l) refl,
          refl,
          record {
            valid = record {
              storage = length-set d.items _ x ∙ v.storage;
              power = v.power;
              head_in = v.head_in;
              count_in = v.count_in;
            };
            same =
                values-set (item_at nought d) (item_at nought d') 0 d.count index l others
                ∙ ap (set (contents nought d) index) here;
          },
          λ c. set-IsClean nought d v index x l c,
        )
