-- ===== src/Deque/Calls.antt =====
-- The calls of lib/src/core/deque.valk in a sequence, and the same calls on a list.
use valk.Prelude.{
  ℕ, ◌-◌, Option, none, some, List, [], ◌∷◌, ◌++◌, Bool, Result, ok, ◌>>=◌, length, get_elem?, set,
  take, drop, leb, if◌then◌else◌,
}
use valk.Deque.{
  Deque, push_back, push_front, pop_front, pop_back, clear, get, set_item, peek_front, peek_back,
}

pub data Call (A : Type 0) : Type 0 where
  call_push_back : A → Call A
  call_push_front : A → Call A
  call_pop_front : Call A
  call_pop_back : Call A
  call_get : ℕ → Call A
  call_set : ℕ → A → Call A
  call_peek_front : Call A
  call_peek_back : Call A
  call_clear : Call A

-- What a call answers.
pub data Reply (A : Type 0) : Type 0 where
  done : Reply A
  missing : Reply A
  item : A → Reply A

unfoldable pub reply : {A : Type 0} → Option A → Reply A
reply none = missing
reply (some x) = item x

unfoldable pub written : {A : Type 0} → Deque A → Option (Deque A) → Result (Reply A × Deque A)
written d none = ok (missing, d)
written d (some d') = ok (done, d')

unfoldable pub call : {A : Type 0} → A → Bool → Call A → Deque A → Result (Reply A × Deque A)
call nought refs (call_push_back x) d = do d ← push_back nought d x; ok (done, d)
call nought refs (call_push_front x) d = do d ← push_front nought d x; ok (done, d)
call nought refs call_pop_front d = let r = pop_front nought refs d in ok (reply r.0, r.1)
call nought refs call_pop_back d = let r = pop_back nought refs d in ok (reply r.0, r.1)
call nought refs (call_get i) d = ok (reply (get nought d i), d)
call nought refs (call_set i x) d = written d (set_item nought d i x)
call nought refs call_peek_front d = ok (reply (peek_front nought d), d)
call nought refs call_peek_back d = ok (reply (peek_back nought d), d)
call nought refs call_clear d = ok (done, clear nought refs d)

unfoldable pub calls :
    {A : Type 0} → A → Bool → List (Call A) → Deque A → Result (List (Reply A) × Deque A)
calls nought refs [] d = ok ([], d)
calls nought refs (c ∷ cs) d = do
  first ← call nought refs c d
  rest ← calls nought refs cs (first.1)
  ok (first.0 ∷ rest.0, rest.1)

-- The same call on a list.
unfoldable pub list_call : {A : Type 0} → Call A → List A → Reply A × List A
list_call (call_push_back x) xs = (done, xs ++ x ∷ [])
list_call (call_push_front x) xs = (done, x ∷ xs)
list_call call_pop_front xs = (reply (get_elem? xs 0), drop 1 xs)
list_call call_pop_back xs = (reply (get_elem? xs (length xs - 1)), take (length xs - 1) xs)
list_call (call_get i) xs = (reply (get_elem? xs i), xs)
list_call (call_set i x) xs = if leb (length xs) i then (missing, xs) else (done, set xs i x)
list_call call_peek_front xs = (reply (get_elem? xs 0), xs)
list_call call_peek_back xs = (reply (get_elem? xs (length xs - 1)), xs)
list_call call_clear xs = (done, [])

unfoldable pub list_calls : {A : Type 0} → List (Call A) → List A → List (Reply A) × List A
list_calls [] xs = ([], xs)
list_calls (c ∷ cs) xs =
    let first = list_call c xs in let rest = list_calls cs (first.1) in (first.0 ∷ rest.0, rest.1)
