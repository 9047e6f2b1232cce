-- ===== src/Broadcast.antt =====
-- The goroutines of examples/bench/shared-broadcast/main.go: `main` sends every message to each inbox
-- in turn, and a subscriber at each inbox adds up what it renders. `format_uint` is
-- `strconv.FormatUint` in base 10, as bytes.
pub mod Delivered
pub mod Main
pub mod Steps
pub mod Progress
pub mod Printed
use valk.Prelude.{
  ℕ, zero, suc, ◌+◌, ◌%◌, Option, none, some, List, [], ◌∷◌, ◌++◌, Bool, true, false, Result, ok,
  panic, ◌>>=◌, length, get_elem?, set, ltb, if◌then◌else◌,
}
use valk.Prelude.Bytes.{codes}
use valk.Prelude.Int.{add64}

pub record Message : Type 0 where
  pub id : ℕ
  pub room : ℕ
  pub body : List ℕ
  pub mentions : List ℕ

abbrev text : List ℕ
text = codes "The quick brown fox jumps over the lazy dog. "

unfoldable pub message : (ℕ → List ℕ) → ℕ → Message
message format_uint i = record {
  id = i;
  room = i % 10;
  body = text ++ (text ++ (text ++ (codes "message " ++ format_uint i)));
  mentions = i % 100 ∷ i % 1000 ∷ [];
}

unfoldable pub add_all : ℕ → List ℕ → ℕ
add_all sum [] = sum
add_all sum (x ∷ xs) = add_all (add64 sum x) xs

unfoldable pub render : Message → ℕ
unfolding add_all
render message = add_all (add_all (add64 message.id message.room) message.body) message.mentions

-- An inbox with its buffer and whether it is closed, and its subscriber's total and whether the
-- subscriber has returned.
pub record Inbox : Type 0 where
  pub buffer : List Message
  pub closed : Bool
  pub total : ℕ
  pub drained : Bool

-- The argument of `make(chan *Message, 1024)`.
abbrev pub capacity : ℕ
capacity = 1024

-- Where `main` stands: at the test of its loop with the messages left and the next id; in the inner
-- loop, with the message and the number of the inbox it is for; in the loop that closes; or waiting.
pub data Publisher : Type 0 where
  looping : ℕ → ℕ → Publisher
  sending : ℕ → ℕ → Message → ℕ → Publisher
  closing : ℕ → Publisher
  waiting : Publisher

pub record State : Type 0 where
  pub publisher : Publisher
  pub inboxes : List Inbox

-- A send waits for room; on a closed channel it panics. `none` is no step.
unfoldable pub send : Inbox → Message → Result (Option Inbox)
send b m = elim b.closed [
  | true ↦ panic
  | false ↦ ok (
      if ltb (length b.buffer) capacity
      then some (record b { buffer = b.buffer ++ m ∷ [] })
      else none)
]

-- `close` of a closed channel panics.
unfoldable pub close : Inbox → Result Inbox
close b = elim b.closed [ true ↦ panic | false ↦ ok (record b { closed = true }) ]

-- The state after a send from `main`, or the old one where it waits.
unfoldable pub sent : State → ℕ → ℕ → Message → ℕ → Option Inbox → State
sent s n i m k none = s
sent s n i m k (some b) = record { publisher = sending n i m (k + 1); inboxes = set s.inboxes k b }

unfoldable pub closed_at : State → ℕ → Inbox → State
closed_at s k b = record { publisher = closing (k + 1); inboxes = set s.inboxes k b }

-- The inner loop at inbox `k`; after the last inbox it ends.
unfoldable pub send_step : State → ℕ → ℕ → Message → ℕ → Result State
unfolding send sent
send_step s n i m k = elim (get_elem? s.inboxes k) [
  | none ↦ ok (record { publisher = looping n i; inboxes = s.inboxes })
  | some b ↦ do next ← send b m; ok (sent s n i m k next)
]

unfoldable pub close_step : State → ℕ → Result State
unfolding close closed_at
close_step s k = elim (get_elem? s.inboxes k) [
  | none ↦ ok (record { publisher = waiting; inboxes = s.inboxes })
  | some b ↦ do next ← close b; ok (closed_at s k next)
]

-- A step of `main`.
unfoldable pub publish : (ℕ → List ℕ) → State → Result State
unfolding send_step close_step
publish format_uint s = elim s.publisher [
  | looping left i ↦ elim left [
    | zero ↦ ok (record { publisher = closing 0; inboxes = s.inboxes })
    | suc n ↦
        ok (record { publisher = sending n (i + 1) (message format_uint i) 0; inboxes = s.inboxes })
  ]
  | sending n i m k ↦ send_step s n i m k
  | closing k ↦ close_step s k
  | waiting ↦ ok s
]

-- A step of `subscriber`: the next message; on an empty buffer the loop ends if the inbox is closed,
-- and waits if not.
unfoldable pub subscribe : Inbox → Inbox
subscribe b = elim b.drained [
  | true ↦ b
  | false ↦ elim b.buffer [
    | [] ↦ if b.closed then record b { drained = true } else b
    | m ∷ buffer ↦ record b { buffer = buffer; total = add64 b.total (render m) }
  ]
]
