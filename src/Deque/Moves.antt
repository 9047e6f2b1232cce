-- ===== src/Deque/Moves.antt =====
-- `push_back`, `push_front`, `pop_front` and `pop_back` of lib/src/core/deque.valk as they are called.
use native.Mathlib.Nat.{mod-lt, mod-eq_of_lt, mod-add-mod}
use valk.Prelude.{
  true, false, ℕ, ◌+◌, ◌-◌, ◌%◌, ◌^◌, ◌≤◌, ◌<◌, ◌≡◌, refl, sym, ap, ◌∙◌, inl, inr, Option, some,
  List, [], ◌∷◌, ◌++◌, arith, Bool, Result, ok, get_elem?, get_or, set, take, drop, ◌==◌, ==→eq,
  Bool-cases,
}
use valk.Prelude.Int.{add64}
use valk.Prelude.Slots.{
  values, values-same, values-shift, values-next, get_elem?-values, get_elem?-values_past,
  take-values, drop-values,
}
use valk.Deque.{Deque, before64, slot, release, push_back, push_front, pop_front, pop_back}
use valk.Deque.Valid.{IsValid, item_at, contents, IsClean}
use valk.Deque.Clean.{
  written_back-IsClean, written_front-IsClean, popped_back-IsClean, popped_front-IsClean,
}
use mathlib.Core.Path.{subst}
use valk.Deque.Fitted.{fit-HasRoom}
use valk.Deque.Ring.{head_inside, slot_at, slot_before, released_other, length-release}
use valk.Deque.Ends.{Reads, at_back, at_front, written_back-Reads, written_front-Reads}

module _ {A : Type 0} (nought : A) where
  -- A push answers, with a deque of one more item.
  abbrev pub Pushed : Result (Deque A) → Deque A → List A → Type 0
  Pushed r d xs =
      (d' : Deque A) × (r ≡ ok d')
      × (d'.count ≡ d.count + 1)
      × Reads nought d' xs
      × (IsClean nought d → IsClean nought d')

  pub push_back-Reads :
      (d : Deque A) (x : A)
      → IsValid d
      → d.count < 2 ^ 63
      → Pushed (push_back nought d x) d (contents nought d ++ x ∷ [])
  unfolding push_back
  push_back-Reads d x v small =
      let (e, made, f) = fit-HasRoom nought d v small in
      let pos : 1 ≤ e.capacity = omega (arith, f.room) in
      let at : slot e.capacity (add64 e.head e.count) ≡ at_back nought e f.valid f.room x =
        slot_at nought e f.valid pos e.count (omega (arith, f.room)) in
      let n : add64 e.count 1 ≡ e.count + 1 = omega (arith, f.kept) in
      let written = written_back-Reads nought e f.valid f.room x in
      (
        record e { items = set e.items (at_back nought e f.valid f.room x) x; count = e.count + 1 },
        rw (made, at, n) refl,
        ap (λ m. m + 1) f.kept,
        record { valid = written.valid; same = written.same ∙ ap (λ l. l ++ x ∷ []) f.same },
        λ c. written_back-IsClean nought e f.valid f.room x (f.clean c),
      )

  pub push_front-Reads :
      (d : Deque A) (x : A)
      → IsValid d
      → d.count < 2 ^ 63
      → Pushed (push_front nought d x) d (x ∷ contents nought d)
  unfolding push_front
  push_front-Reads d x v small =
      let (e, made, f) = fit-HasRoom nought d v small in
      let pos : 1 ≤ e.capacity = omega (arith, f.room) in
      let at : slot e.capacity (before64 (add64 e.head e.capacity))
          ≡ at_front nought e f.valid f.room x =
        slot_before nought e f.valid pos e.capacity pos (omega arith) in
      let n : add64 e.count 1 ≡ e.count + 1 = omega (arith, f.kept) in
      let written = written_front-Reads nought e f.valid f.room x in
      (
        record e {
          items = set e.items (at_front nought e f.valid f.room x) x;
          head = at_front nought e f.valid f.room x;
          count = e.count + 1;
        },
        rw (made, at, n) refl,
        ap (λ m. m + 1) f.kept,
        record { valid = written.valid; same = written.same ∙ ap (λ l. x ∷ l) f.same },
        λ c. written_front-IsClean nought e f.valid f.room x (f.clean c),
      )

  -- A pop hands out an item, `none` for `missing`, and leaves the others.
  pub record Popped (refs : Bool) (r : Option A × Deque A) (d : Deque A) (item : Option A)
      (xs : List A) : Type 0 where
    pub handed : r.0 ≡ item
    pub left : r.1.count ≡ d.count - 1
    pub rest : Reads nought r.1 xs
    pub clean : refs ≡ true → IsClean nought d → IsClean nought r.1

  release_all :
      (refs : Bool) (items : List A) (at : ℕ)
      → refs ≡ true
      → release nought refs items at ≡ set items at nought
  unfolding release
  release_all true items at e = refl
  release_all false items at e = cc

  module _ (refs : Bool) (d : Deque A) (v : IsValid d) where
    pub pop_back-Popped :
        Popped refs
          (pop_back nought refs d)
          d
          (get_elem? (contents nought d) (d.count - 1))
          (take (d.count - 1) (contents nought d))
    unfolding pop_back
    pop_back-Popped = elim (Bool-cases (d.count == 0)) [
      | inl empty ↦
          let zeros = ==→eq d.count 0 empty in
          let past : d.count ≤ d.count - 1 = omega arith in
          rw (empty) (record {
            handed = sym (get_elem?-values_past (item_at nought d) 0 d.count (d.count - 1) past);
            left = omega arith;
            clean = λ references c. c;
            rest = record {
              valid = v;
              same =
                  ap (values (item_at nought d) 0) (omega arith)
                  ∙ sym (take-values (item_at nought d) 0 d.count (d.count - 1) (omega arith));
            };
          })
      | inr held ↦
          let many : 1 ≤ d.count = ground arith in
          let pos : 1 ≤ d.capacity = omega (arith, v.count_in) in
          let at = slot_before nought d v pos d.count many v.count_in in
          let z : d.count - 1 ≡ 0 + (d.count - 1) = omega arith in
          let items = release nought refs d.items ((d.head + (d.count - 1)) % d.capacity) in
          rw (held, at)
            (record {
              handed =
                  ap (λ i. some (item_at nought d i)) z
                  ∙ sym (get_elem?-values (item_at nought d) 0 d.count (d.count - 1) (omega arith));
              left = refl;
              clean = λ references c.
                  subst (λ l. IsClean nought (record d { items = l; count = d.count - 1 }))
                    (sym (release_all refs d.items _ references))
                    (popped_back-IsClean nought d v many c);
              rest = record {
                valid = record {
                  storage = length-release nought refs d.items _ ∙ v.storage;
                  power = v.power;
                  head_in = v.head_in;
                  count_in = omega (arith, v.count_in);
                };
                same =
                    values-same _ _ (d.count - 1) (λ i l.
                      released_other nought d v pos refs (d.count - 1) i (omega (arith, v.count_in))
                        (omega (arith, v.count_in)) (λ e. absurd (omega arith)))
                    ∙ sym (take-values (item_at nought d) 0 d.count (d.count - 1) (omega arith));
              };
            })
    ]

    pub pop_front-Popped :
        Popped refs
          (pop_front nought refs d)
          d
          (get_elem? (contents nought d) 0)
          (drop 1 (contents nought d))
    unfolding pop_front
    pop_front-Popped = elim (Bool-cases (d.count == 0)) [
      | inl empty ↦
          let zeros = ==→eq d.count 0 empty in
          rw (empty) (record {
            handed = sym (get_elem?-values_past (item_at nought d) 0 d.count 0 (omega arith));
            left = omega arith;
            clean = λ references c. c;
            rest = record {
              valid = v;
              same =
                  values-shift (item_at nought d) (item_at nought d) 0 1 d.count
                    (λ i l. absurd (omega arith))
                  ∙ ap (values (item_at nought d) 1) (omega arith)
                  ∙ sym (drop-values (item_at nought d) 0 d.count);
            };
          })
      | inr held ↦
          let many : 1 ≤ d.count = ground arith in
          let pos : 1 ≤ d.capacity = omega (arith, v.count_in) in
          let inside = head_inside nought d v pos in
          let here : (d.head + 0) % d.capacity ≡ d.head =
            ap (λ p. p % d.capacity) (omega arith) ∙ mod-eq_of_lt inside in
          let at = slot_at nought d v pos 1 pos in
          let less = mod-lt (d.head + 1) pos in
          let items = release nought refs d.items d.head in
          let others : (i : ℕ)
              → i < d.count - 1
              → get_or items (((d.head + 1) % d.capacity + i) % d.capacity) nought
                ≡ item_at nought d (1 + i) =
            λ i l.
              ap (λ p. get_or items p nought) (mod-add-mod (d.head + 1) d.capacity i)
              ∙ ap (λ p. get_or items (p % d.capacity) nought) (omega arith)
              ∙ ap
                  (λ h.
                    get_or (release nought refs d.items h) ((d.head + (1 + i)) % d.capacity) nought)
                  (sym here)
              ∙ released_other nought d v pos refs 0 (1 + i) pos (omega (arith, v.count_in))
                  (λ e. absurd (omega arith)) in
          rw (held, at)
            (record {
              handed =
                  ap (λ p. some (get_or d.items p nought)) (sym here)
                  ∙ sym (get_elem?-values (item_at nought d) 0 d.count 0 many);
              left = refl;
              clean = λ references c.
                  subst
                    (λ l. IsClean nought (record d {
                      items = l;
                      head = (d.head + 1) % d.capacity;
                      count = d.count - 1;
                    }))
                    (sym (release_all refs d.items _ references))
                    (popped_front-IsClean nought d v many c);
              rest = record {
                valid = record {
                  storage = length-release nought refs d.items d.head ∙ v.storage;
                  power = v.power;
                  head_in = omega arith;
                  count_in = omega (arith, v.count_in);
                };
                same =
                    values-next _ (item_at nought d) (d.count - 1) others
                    ∙ sym (drop-values (item_at nought d) 0 d.count);
              };
            })
    ]
