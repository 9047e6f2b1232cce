-- ===== src/Tests/Deques.antt =====
-- lib/src/core/deque.valk on small rings: a ring of eight slots that goes round its end and grows.
use valk.Prelude.{◌>>=◌, ◌+◌, ℕ, ◌≡◌, refl, inr, List, [], ◌∷◌, true, arith, ok}
use valk.Prelude.Slots.{values}
use valk.Deque.{clone, Deque, copy, to_array, push_back}
use valk.Deque.Valid.{IsValid, contents, IsClean}
use valk.Deque.Calls.{
  Call, Reply, call_push_back, call_push_front, call_pop_front, call_pop_back, call_get, call_set,
  done, missing, item, calls, list_calls, list_call, reply,
}
use valk.Deque.Refines.{calls-list_calls, calls-IsClean}
use valk.Deque.Copies.{copy-to_array}

-- A full ring that goes round its end: 1 … 8 from slot 6 on.
abbrev round : Deque ℕ
round = record { items = 3 ∷ 4 ∷ 5 ∷ 6 ∷ 7 ∷ 8 ∷ 1 ∷ 2 ∷ []; capacity = 8; head = 6; count = 8 }

round-IsValid : IsValid round
round-IsValid = record {
  storage = refl;
  power = inr (3, omega arith, refl);
  head_in = omega arith;
  count_in = omega arith;
}

abbrev one_more : List (Call ℕ)
one_more =
    call_push_back 9
    ∷ call_pop_front
    ∷ call_push_front 0
    ∷ call_set 8 7
    ∷ call_pop_back
    ∷ call_get 8
    ∷ []

calls-list_calls_example :
    (d' : Deque ℕ) × (calls 0 true one_more round
      ≡ ok ((list_calls one_more (contents 0 round)).0, d'))
    × IsValid d'
    × (contents 0 d' ≡ (list_calls one_more (contents 0 round)).1)
calls-list_calls_example = calls-list_calls 0 true one_more round round-IsValid (omega arith)

replies :
    (list_calls one_more (contents 0 round)).0 ≡ done ∷ item 1 ∷ done ∷ done ∷ item 7 ∷ missing ∷ []
unfolding list_calls values list_call reply
replies = refl

round-IsClean : IsClean 0 round
round-IsClean i past inside = absurd (omega arith)

calls-IsClean_example :
    (answers : List (Reply ℕ)) × (d' : Deque ℕ) × (calls 0 true one_more round ≡ ok (answers, d'))
    × IsClean 0 d'
calls-IsClean_example = calls-IsClean 0 one_more round round-IsValid round-IsClean (omega arith)

copy-to_array_example :
    (c : Deque ℕ) × (copy 0 round ≡ ok c) × IsValid c × (to_array 0 c ≡ to_array 0 round)
copy-to_array_example = copy-to_array 0 round round-IsValid (omega arith)

round-to_array : to_array 0 round ≡ 1 ∷ 2 ∷ 3 ∷ 4 ∷ 5 ∷ 6 ∷ 7 ∷ 8 ∷ []
unfolding to_array
round-to_array = refl

-- The push moves 3 … 8 behind the old end and clears the slots they leave.
grown_round :
    push_back 0 round 9
    ≡ ok (record {
      items = 0 ∷ 0 ∷ 0 ∷ 0 ∷ 0 ∷ 0 ∷ 1 ∷ 2 ∷ 3 ∷ 4 ∷ 5 ∷ 6 ∷ 7 ∷ 8 ∷ 9 ∷ 0 ∷ [];
      capacity = 16;
      head = 6;
      count = 9;
    })
unfolding push_back
grown_round = refl

-- A deep copy whose items are all one more.
cloned_round :
    (clone 0 (λ n. n + 1) round >>= (λ c. ok (to_array 0 c)))
    ≡ ok (2 ∷ 3 ∷ 4 ∷ 5 ∷ 6 ∷ 7 ∷ 8 ∷ 9 ∷ [])
unfolding clone to_array
cloned_round = refl
