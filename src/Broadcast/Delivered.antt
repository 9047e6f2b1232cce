-- ===== src/Broadcast/Delivered.antt =====
-- What a subscriber of examples/bench/shared-broadcast/main.go adds up in the end, and the invariant
-- of an inbox.
use valk.Prelude.{
  ℕ, zero, suc, ◌+◌, ◌-◌, ◌*◌, ◌≤◌, ◌≡◌, List, [], ◌∷◌, ◌++◌, Bool, true, false, length, ltb,
  if◌then◌else◌,
}
use valk.Prelude.Int.{add64}
use valk.Broadcast.{
  Message, message, render, Inbox, capacity, looping, sending, closing, waiting, Publisher,
}

-- The total after the messages of a list.
unfoldable pub add_messages : ℕ → List Message → ℕ
add_messages total [] = total
add_messages total (m ∷ ms) = add_messages (add64 total (render m)) ms

-- `n` messages from number `i` on.
unfoldable pub messages : (ℕ → List ℕ) → ℕ → ℕ → List Message
messages format_uint zero i = []
messages format_uint (suc n) i = message format_uint i ∷ messages format_uint n (i + 1)

-- What `main` has still to send to inbox `b`: in the inner loop the inboxes from `k` on are still to
-- get the message.
unfoldable pub to_come : (ℕ → List ℕ) → Publisher → ℕ → List Message
unfolding messages
to_come format_uint (looping left i) b = messages format_uint left i
to_come format_uint (sending n i m k) b =
    if ltb b k then messages format_uint n i else m ∷ messages format_uint n i
to_come format_uint (closing k) b = []
to_come format_uint waiting b = []

-- Whether `main` has closed inbox `b`.
unfoldable pub has_closed : Publisher → ℕ → Bool
has_closed (looping left i) b = false
has_closed (sending n i m k) b = false
has_closed (closing k) b = ltb b k
has_closed waiting b = true

-- The steps left, of `main` and of a subscriber.
unfoldable pub publish_steps : Publisher → ℕ
publish_steps (looping left i) = left * 10 + 6
publish_steps (sending n i m k) = n * 10 + 7 + (4 - k) * 2
publish_steps (closing k) = 1 + (4 - k)
publish_steps waiting = 0

unfoldable pub inbox_steps : Inbox → ℕ
inbox_steps b = length b.buffer + (if b.drained then 0 else 1)

-- Inbox number `b` with the state of `main`: `ideal` is its subscriber's total at the end.
pub record IsOpen (format_uint : ℕ → List ℕ) (ideal : ℕ) (p : Publisher) (b : ℕ) (inbox : Inbox)
    : Type 0 where
  pub closes : inbox.closed ≡ has_closed p b
  pub receives : inbox.drained ≡ true → (inbox.closed ≡ true) × (inbox.buffer ≡ [])
  pub room : length inbox.buffer ≤ capacity
  pub ends : add_messages inbox.total (inbox.buffer ++ to_come format_uint p b) ≡ ideal

-- The inner loop is at one of the four inboxes, or at its end.
unfoldable pub InRange : Publisher → Type 0
InRange (looping left i) = true ≡ true
InRange (sending n i m k) = k ≤ 4
InRange (closing k) = k ≤ 4
InRange waiting = true ≡ true
