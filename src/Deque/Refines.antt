-- ===== src/Deque/Refines.antt =====
-- A deque under any sequence of the calls of lib/src/core/deque.valk, next to a list under the same
-- calls.
use valk.Prelude.{
  true, ◌+◌, ◌^◌, ◌≤◌, ◌<◌, ◌≡◌, refl, ap, ◌∙◌, inl, inr, Option, List, [], ◌∷◌, arith, Bool,
  Result, ok, ◌>>=◌, length, set, leb, Bool-cases,
}
use valk.Deque.{Deque, clear}
use valk.Deque.Valid.{IsValid, contents, IsClean}
use valk.Deque.Cleared.{clear-IsClean}
use valk.Deque.Ends.{Reads}
use valk.Deque.Moves.{
  Pushed, Popped, push_back-Reads, push_front-Reads, pop_front-Popped, pop_back-Popped,
}
use valk.Deque.Items.{
  length-contents, clear-Reads, get-get_elem?, peek_front-get_elem?, peek_back-get_elem?,
  set_item-past, set_item-Reads,
}
use valk.Deque.Calls.{
  Call, call_push_back, call_push_front, call_pop_front, call_pop_back, call_get, call_set,
  call_peek_front, call_peek_back, call_clear, Reply, done, missing, reply, written, call, calls,
  list_call, list_calls,
}

module _ {A : Type 0} (nought : A) (refs : Bool) where
  -- A call answers as the list does, the deque after it reads as the list, and one of references stays
  -- clean.
  abbrev Agrees : Result (Reply A × Deque A) → Deque A → Reply A × List A → Type 0
  Agrees r d s =
      (d' : Deque A) × (r ≡ ok (s.0, d'))
      × (d'.count ≤ d.count + 1)
      × Reads nought d' (s.1)
      × (refs ≡ true → IsClean nought d → IsClean nought d')

  Pushed-Agrees :
      (r : Result (Deque A)) (d : Deque A) (xs : List A)
      → Pushed nought r d xs
      → Agrees (r >>= (λ d. ok (done, d))) d (done, xs)
  Pushed-Agrees r d xs (d', e, n, reads, clean) = (d', rw (e) refl, omega arith, reads, λ q. clean)

  Popped-Agrees :
      (r : Option A × Deque A) (d : Deque A) (x : Option A) (xs : List A)
      → Popped nought refs r d x xs
      → Agrees (ok (reply r.0, r.1)) d (reply x, xs)
  Popped-Agrees r d x xs p =
      (r.1, ap (λ o. ok (reply o, r.1)) p.handed, omega (arith, p.left), p.rest, p.clean)

  read-Agrees :
      (d : Deque A) (o p : Option A)
      → IsValid d
      → o ≡ p
      → Agrees (ok (reply o, d)) d (reply p, contents nought d)
  read-Agrees d o p v e =
      (d, ap (λ o. ok (reply o, d)) e, omega arith, record { valid = v; same = refl }, λ q c. c)

  equal-Agrees :
      (d : Deque A) (r : Result (Reply A × Deque A)) (d' : Deque A) (s t : Reply A × List A)
      → r ≡ ok (s.0, d')
      → t ≡ s
      → d'.count ≤ d.count + 1
      → Reads nought d' s.1
      → (IsClean nought d → IsClean nought d')
      → Agrees r d t
  equal-Agrees d r d' s t e f n reads clean = rw (f) (d', e, n, reads, λ q. clean)

  cleared-Agrees :
      (d : Deque A) (v : IsValid d)
      → refs ≡ true
      → IsClean nought d
      → IsClean nought (clear nought refs d)
  unfolding clear
  cleared-Agrees d v references clean i past inside =
      rw (references) (clear-IsClean nought d v (omega arith) clean i past inside)

  call-Agrees :
      (c : Call A) (d : Deque A)
      → IsValid d
      → d.count < 2 ^ 63
      → Agrees (call nought refs c d) d (list_call c (contents nought d))
  unfolding call list_call written clear
  call-Agrees (call_push_back x) d v small =
      Pushed-Agrees _ d _ (push_back-Reads nought d x v small)
  call-Agrees (call_push_front x) d v small =
      Pushed-Agrees _ d _ (push_front-Reads nought d x v small)
  call-Agrees call_pop_front d v small = Popped-Agrees _ d _ _ (pop_front-Popped nought refs d v)
  call-Agrees call_pop_back d v small =
      rw (length-contents nought d) (Popped-Agrees _ d _ _ (pop_back-Popped nought refs d v))
  call-Agrees (call_get i) d v small = read-Agrees d _ _ v (get-get_elem? nought d v i)
  call-Agrees call_peek_front d v small = read-Agrees d _ _ v (peek_front-get_elem? nought d v)
  call-Agrees call_peek_back d v small =
      rw (length-contents nought d) (read-Agrees d _ _ v (peek_back-get_elem? nought d v))
  call-Agrees call_clear d v small =
      (clear nought refs d, refl, omega arith, clear-Reads nought refs d v, cleared-Agrees d v)
  call-Agrees (call_set i x) d v small =
      let n = length-contents nought d in
      elim (Bool-cases (leb (length (contents nought d)) i)) [
        | inl past ↦
            let s : list_call (call_set i x) (contents nought d) ≡ (missing, contents nought d) =
              rw (past) refl in
            equal-Agrees d _ d (missing, contents nought d) _
              (ap (written d) (set_item-past nought d v i x (ground arith))) s (omega arith)
              (record { valid = v; same = refl }) (λ c. c)
        | inr inside ↦
            let (d', e, m, reads, clean) = set_item-Reads nought d v i x (ground arith) in
            let s : list_call (call_set i x) (contents nought d)
                ≡ (done, set (contents nought d) i x) =
              rw (inside) refl in
            equal-Agrees d _ d' (done, set (contents nought d) i x) _ (ap (written d) e) s
              (omega arith) reads clean
      ]

  -- A deque of the collector's or of plain values, well formed and with room in a `uint` for the calls to
  -- come, answers every sequence of pushes, pops, reads, writes and clears as a list of its items from
  -- front to back does, never runs out of the fuel of `grow`, and is well formed and reads as that list
  -- afterwards.
  pub calls-list_calls :
      (cs : List (Call A)) (d : Deque A)
      → IsValid d
      → d.count + length cs ≤ 2 ^ 63
      → (d' : Deque A) × (calls nought refs cs d ≡ ok ((list_calls cs (contents nought d)).0, d'))
        × IsValid d'
        × (contents nought d' ≡ (list_calls cs (contents nought d)).1)
  unfolding calls list_calls
  calls-list_calls [] d v small = (d, refl, v, refl)
  calls-list_calls (c ∷ cs) d v small =
      let (e, first, n, reads, clean) = call-Agrees c d v (omega arith) in
      let (f, rest, w, same) = calls-list_calls cs e reads.valid (omega arith) in
      let next = ap (list_calls cs) reads.same in
      (
        f,
        rw (first, rest) (ap (λ r. ok ((list_call c (contents nought d)).0 ∷ r.0, f)) next),
        w,
        same ∙ ap (λ r. r.1) next,
      )

-- A deque of references, well formed, with room in a `uint` for the calls to come and with all slots zero
-- that hold no item, answers every sequence of calls, and has then again all slots zero that hold no item:
-- no call leaves a reference to an item that was popped, overwritten, moved or cleared.
pub calls-IsClean :
    {A : Type 0} (nought : A) (cs : List (Call A)) (d : Deque A)
    → IsValid d
    → IsClean nought d
    → d.count + length cs ≤ 2 ^ 63
    → (answers : List (Reply A)) × (d' : Deque A) × (calls nought true cs d ≡ ok (answers, d'))
      × IsClean nought d'
unfolding calls
calls-IsClean nought [] d v clean small = ([], d, refl, clean)
calls-IsClean nought (c ∷ cs) d v clean small =
    let (e, first, n, reads, kept) = call-Agrees nought true c d v (omega arith) in
    let (answers, f, rest, all) =
      calls-IsClean nought cs e reads.valid (kept refl clean) (omega arith) in
    ((list_call c (contents nought d)).0 ∷ answers, f, rw (first, rest) refl, all)
