-- ===== src/Channel.antt =====
-- One channel of examples/bench/shared-channel/main.go with its producer and its consumer, each a
-- state machine on the buffer. `format_uint` is `strconv.FormatUint` in base 10, as bytes.
pub mod Drained
pub mod Main
pub mod Printed
pub mod Progress
use valk.Prelude.{
  ℕ, zero, suc, ◌+◌, Option, none, some, List, [], ◌∷◌, ◌++◌, Bool, true, false, Result, ok, panic,
  length, ltb, if◌then◌else◌,
}
use valk.Prelude.Int.{add64}

pub record Message : Type 0 where
  pub id : ℕ
  pub text : List ℕ
  pub values : List ℕ

-- The inner loop of `produce`, on the iterations left.
unfoldable pub append_values : ℕ → ℕ → ℕ → List ℕ → List ℕ
append_values zero j id values = values
append_values (suc n) j id values = append_values n (j + 1) id (values ++ add64 id j ∷ [])

unfoldable pub message : (ℕ → List ℕ) → ℕ → Message
message format_uint id = record { id = id; text = format_uint id; values = append_values 8 0 id [] }

unfoldable pub add_values : ℕ → List ℕ → ℕ
add_values total [] = total
add_values total (value ∷ rest) = add_values (add64 total value) rest

-- The body of the loop of `consume`.
unfoldable pub add_message : ℕ → Message → ℕ
add_message total message =
    add_values (add64 total (add64 message.id (length message.text))) message.values

-- The channel's buffer and whether it is closed; of `produce` the first id, the messages sent and
-- those left, and whether it has returned; of `consume` the total and whether it has returned.
pub record Pipe : Type 0 where
  pub buffer : List Message
  pub closed : Bool
  pub first : ℕ
  pub sent : ℕ
  pub left : ℕ
  pub returned : Bool
  pub total : ℕ
  pub drained : Bool

-- The argument of `make(chan *Message, 1024)`.
abbrev pub capacity : ℕ
capacity = 1024

-- A send waits for room; on a closed channel it panics. `none` is no step.
unfoldable pub send : Pipe → Message → Result (Option Pipe)
send p m = elim p.closed [
  | true ↦ panic
  | false ↦ ok (
      if ltb (length p.buffer) capacity
      then some (record p { buffer = p.buffer ++ m ∷ [] })
      else none)
]

-- `close` of a closed channel panics.
unfoldable pub close : Pipe → Result (Option Pipe)
close p = elim p.closed [
  | true ↦ panic
  | false ↦ ok (some (record p { closed = true; returned = true }))
]

-- A step of `produce`: the next message, or the end of the loop.
unfoldable pub produce : (ℕ → List ℕ) → Pipe → Result (Option Pipe)
unfolding send close
produce format_uint p = elim p.returned [
  | true ↦ ok none
  | false ↦ elim p.left [
    | zero ↦ close p
    | suc n ↦
        send (record p { sent = p.sent + 1; left = n }) (message format_uint (add64 p.first p.sent))
  ]
]

-- A step of `consume`: the next message; on an empty buffer the loop ends if the channel is closed,
-- and waits if not.
unfoldable pub consume : Pipe → Result (Option Pipe)
consume p = elim p.drained [
  | true ↦ ok none
  | false ↦ elim p.buffer [
    | [] ↦ ok (if p.closed then some (record p { drained = true }) else none)
    | m ∷ buffer ↦ ok (some (record p { buffer = buffer; total = add_message p.total m }))
  ]
]
