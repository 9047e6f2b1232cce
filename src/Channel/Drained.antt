-- ===== src/Channel/Drained.antt =====
-- What the consumer of a channel of examples/bench/shared-channel/main.go adds up in the end, and the
-- invariant of the steps on the channel.
use valk.Prelude.{
  ℕ, zero, suc, ◌+◌, ◌*◌, ◌≤◌, ◌≡◌, refl, sym, ap, Option, none, some, List, [], ◌∷◌, ◌++◌, Bool,
  true, false, arith, tests, Result, ok, panic, out_of_fuel, length, length-append, ltb,
  if◌then◌else◌, inl, inr, Bool-cases,
}
use valk.Prelude.Int.{add64}
use valk.Channel.{Message, message, add_message, Pipe, capacity, send, close, produce, consume}
use valk.Channel.Main.{Turn, producer, consumer, move}

-- The total after the messages of a list.
unfoldable pub add_messages : ℕ → List Message → ℕ
add_messages total [] = total
add_messages total (m ∷ ms) = add_messages (add_message total m) ms

-- The messages that `produce` has still to send: `n` of them, from number `i` on.
unfoldable pub messages : (ℕ → List ℕ) → ℕ → ℕ → ℕ → List Message
messages format_uint first i zero = []
messages format_uint first i (suc n) =
    message format_uint (add64 first i) ∷ messages format_uint first (i + 1) n

-- The consumer's total at its end.
unfoldable pub final : (ℕ → List ℕ) → Pipe → ℕ
final format_uint p = add_messages p.total (p.buffer ++ messages format_uint p.first p.sent p.left)

-- The steps left.
unfoldable pub steps : Pipe → ℕ
steps p =
    p.left * 2 + length p.buffer + (if p.returned then 0 else 1) + (if p.drained then 0 else 1)

-- The producer closes the channel as it returns, with nothing left to send; the consumer returns
-- with the channel closed and empty; the buffer is within its capacity.
pub record IsOpen (p : Pipe) : Type 0 where
  pub closes : p.closed ≡ p.returned
  pub sends : p.returned ≡ true → p.left ≡ 0
  pub receives : p.drained ≡ true → (p.returned ≡ true) × (p.buffer ≡ [])
  pub room : length p.buffer ≤ capacity

unfoldable pub IsFine : (ℕ → List ℕ) → Pipe → Result (Option Pipe) → Type 0
IsFine format_uint p (ok (some p')) =
    IsOpen p' × (final format_uint p' ≡ final format_uint p) × (steps p ≡ suc (steps p'))
IsFine format_uint p (ok none) = true ≡ true
IsFine format_uint p panic = ⊥
IsFine format_uint p out_of_fuel = ⊥

append_assoc : (xs ys zs : List Message) → (xs ++ ys) ++ zs ≡ xs ++ (ys ++ zs)
append_assoc [] ys zs = refl
append_assoc (x ∷ xs) ys zs = ap (λ l. x ∷ l) (append_assoc xs ys zs)

produce-IsFine :
    (format_uint : ℕ → List ℕ) (buffer : List Message) (closed : Bool) (first sent left : ℕ)
    (returned : Bool) (total : ℕ) (drained : Bool)
    → let p : Pipe = record {
      buffer = buffer;
      closed = closed;
      first = first;
      sent = sent;
      left = left;
      returned = returned;
      total = total;
      drained = drained;
    } in
      IsOpen p → IsFine format_uint p (produce format_uint p)
unfolding IsFine produce send close final steps messages
produce-IsFine format_uint buffer closed first sent left true total drained h = refl
produce-IsFine format_uint buffer true first sent left false total drained h =
    absurd (let c = h.closes in cc)
produce-IsFine format_uint buffer false first sent zero false total drained h = (
  record {
    closes = refl;
    sends = λ e. refl;
    receives = λ e. (refl, (h.receives e).1);
    room = h.room;
  },
  refl,
  omega arith,
)
produce-IsFine format_uint buffer false first sent (suc left) false total drained h =
    elim (Bool-cases (ltb (length buffer) capacity)) [
      | inl d ↦
          let m = message format_uint (add64 first sent) in
          let rest = messages format_uint first (sent + 1) left in
          rw (d) (
            record {
              closes = refl;
              sends = λ e. cc;
              receives = λ e. absurd (let f = (h.receives e).0 in cc);
              room = omega (tests, length-append buffer (m ∷ []), d);
            },
            ap (add_messages total) (append_assoc buffer (m ∷ []) rest),
            omega (arith, length-append buffer (m ∷ [])),
          )
      | inr d ↦ rw (d) refl
    ]

consume-IsFine :
    (format_uint : ℕ → List ℕ) (buffer : List Message) (closed : Bool) (first sent left : ℕ)
    (returned : Bool) (total : ℕ) (drained : Bool)
    → let p : Pipe = record {
      buffer = buffer;
      closed = closed;
      first = first;
      sent = sent;
      left = left;
      returned = returned;
      total = total;
      drained = drained;
    } in
      IsOpen p → IsFine format_uint p (consume p)
unfolding IsFine consume final steps add_messages
consume-IsFine format_uint buffer closed first sent left returned total true h = refl
consume-IsFine format_uint [] false first sent left returned total false h = refl
consume-IsFine format_uint [] true first sent left returned total false h = (
  record {
    closes = h.closes;
    sends = h.sends;
    receives = λ e. (sym h.closes, refl);
    room = h.room;
  },
  refl,
  omega arith,
)
consume-IsFine format_uint (m ∷ buffer) closed first sent left returned total false h = (
  record { closes = h.closes; sends = h.sends; receives = λ e. cc; room = omega (arith, h.room) },
  refl,
  omega arith,
)

pub move-IsFine :
    (format_uint : ℕ → List ℕ) (turn : Turn) (p : Pipe)
    → IsOpen p
    → IsFine format_uint p (move format_uint turn p)
unfolding move
move-IsFine format_uint (producer t) p h =
    produce-IsFine format_uint p.buffer p.closed p.first p.sent p.left p.returned p.total p.drained
      h
move-IsFine format_uint (consumer t) p h =
    consume-IsFine format_uint p.buffer p.closed p.first p.sent p.left p.returned p.total p.drained
      h
