-- ===== src/Broadcast/Progress.antt =====
-- The turns of examples/bench/shared-broadcast/main.go: each keeps the invariant, and until the program
-- is done one of them advances it.
use valk.Prelude.{
  ℕ, zero, suc, ◌+◌, ◌≤◌, ◌<◌, ◌≡◌, refl, ◌⊎◌, inl, inr, none, some, List, [], ◌∷◌, ◌++◌, Bool,
  true, false, arith, ltb→lt, ok, length, length-append, get_elem?, set, ltb, if◌then◌else◌,
  Bool-cases, Option-cases,
}
use valk.Prelude.Gather.{get_elem?-lt}
use valk.Prelude.Turns.{Keeps, Advances, Rule}
use valk.Prelude.Updates.{sum_of-set, get_elem?-none_ge}
use valk.Broadcast.{
  Message, message, Inbox, capacity, looping, sending, closing, waiting, Publisher, State, send,
  close, sent, closed_at, send_step, close_step, publish, subscribe,
}
use valk.Broadcast.Delivered.{has_closed, publish_steps, inbox_steps, InRange}
use valk.Broadcast.Main.{Turn, main_turn, subscriber, try_turn, all_drained, is_done}
use valk.Broadcast.Steps.{
  steps, IsSound, change-IsSound, set-IsSound, subscribe-IsOpen, subscribe-steps, send-IsOpen,
  other-IsOpen, looping-IsOpen, looped-IsOpen, ended-IsOpen, closed-IsOpen, close-IsOpen,
  waited-IsOpen,
}

find_undrained :
    (bs : List Inbox)
    → all_drained bs ≡ false
    → (t : ℕ) × (b : Inbox) × (get_elem? bs t ≡ some b) × (b.drained ≡ false)
unfolding all_drained
find_undrained [] h = cc
find_undrained (b ∷ bs) h = elim (Bool-cases b.drained) [
  | inl d ↦ let (t, v, e, n) = find_undrained bs (ground arith) in (suc t, v, e, n)
  | inr d ↦ (0, b, refl, d)
]

undrained :
    (x : Inbox)
    → x.closed ≡ false
    → (x.drained ≡ true → (x.closed ≡ true) × (x.buffer ≡ []))
    → x.drained ≡ false
undrained x c r = elim (Bool-cases x.drained) [ inl d ↦ let e = (r d).0 in cc | inr d ↦ d ]

send-eq :
    (buffer : List Message) (closed : Bool) (total : ℕ) (drained : Bool) (m : Message) (r : Bool)
    → let x : Inbox = record {
      buffer = buffer;
      closed = closed;
      total = total;
      drained = drained;
    } in
      closed ≡ false
      → ltb (length buffer) capacity ≡ r
      → send x m ≡ ok (if r then some (record x { buffer = buffer ++ m ∷ [] }) else none)
unfolding send
send-eq buffer true total drained m r c l = cc
send-eq buffer false total drained m r c l = rw (l) refl

module _ (format_uint : ℕ → List ℕ) (ideal : ℕ) where
  looping-Goes :
      (left i : ℕ) (xs : List Inbox)
      → let s : State = record { publisher = looping left i; inboxes = xs } in
        IsSound format_uint ideal s
        → (s' : State) × (publish format_uint s ≡ ok s')
          × IsSound format_uint ideal s'
          × (steps s ≡ suc (steps s'))
  unfolding publish publish_steps InRange
  looping-Goes zero i xs sound = (
    _,
    refl,
    change-IsSound format_uint ideal _ (closing 0) sound (omega arith)
        (λ b x l o. ended-IsOpen format_uint ideal i b x o),
    omega arith,
  )
  looping-Goes (suc n) i xs sound = (
    _,
    refl,
    change-IsSound format_uint ideal _ (sending n (i + 1) (message format_uint i) 0) sound
        (omega arith) (λ b x l o. looping-IsOpen format_uint ideal n i b x o),
    omega arith,
  )

  -- In the inner loop `main` waits only for a full inbox.
  sending-Goes :
      (n i : ℕ) (m : Message) (k : ℕ) (xs : List Inbox)
      → let s : State = record { publisher = sending n i m k; inboxes = xs } in
        IsSound format_uint ideal s
        → ((s' : State) × (publish format_uint s ≡ ok s')
            × IsSound format_uint ideal s'
            × (steps s ≡ suc (steps s')))
          ⊎ ((publish format_uint s ≡ ok s)
              × ((x : Inbox) × (get_elem? xs k ≡ some x)
                  × (x.closed ≡ false)
                  × (0 < length x.buffer)))
  unfolding publish send_step sent publish_steps InRange inbox_steps
  sending-Goes n i m k xs sound = elim (Option-cases (get_elem? xs k)) [
    | inl e ↦
        let past : 4 ≤ k = omega (arith, get_elem?-none_ge xs k e, sound.four) in
        inl (
          _,
          rw (publish, send_step, e) refl,
          change-IsSound format_uint ideal _ (looping n i) sound refl
              (λ b x l o. looped-IsOpen format_uint ideal n i k b m x (omega arith) o),
          omega arith,
        )
    | inr (x, e) ↦
        let (open_yet, grown) = send-IsOpen format_uint ideal n i k m x (sound.opens k x e) in
        let l = get_elem?-lt xs k e in
        elim (Bool-cases (ltb (length x.buffer) capacity)) [
          | inl room ↦
              let x' : Inbox = record x { buffer = x.buffer ++ m ∷ [] } in
              inl (
                record { publisher = sending n i m (k + 1); inboxes = set xs k x' },
                rw
                    (
                      publish,
                      send_step,
                      e,
                      send-eq x.buffer x.closed x.total x.drained m true open_yet room,
                    )
                    refl,
                set-IsSound format_uint ideal _ (sending n i m (k + 1)) k x' sound
                    (omega (arith, l, sound.four)) (grown (ltb→lt _ _ room))
                    (λ b y ne o. other-IsOpen format_uint ideal n i k b m y ne o) x e,
                omega (
                  arith,
                  l,
                  sound.four,
                  sum_of-set inbox_steps xs k x x' e,
                  length-append x.buffer (m ∷ []),
                ),
              )
          | inr full ↦ inr (
            rw
                (
                  publish,
                  send_step,
                  e,
                  send-eq x.buffer x.closed x.total x.drained m false open_yet full,
                )
                refl,
            (x, e, open_yet, ground arith),
          )
        ]
  ]

  closing-Goes :
      (k : ℕ) (xs : List Inbox)
      → let s : State = record { publisher = closing k; inboxes = xs } in
        IsSound format_uint ideal s
        → (s' : State) × (publish format_uint s ≡ ok s')
          × IsSound format_uint ideal s'
          × (steps s ≡ suc (steps s'))
  unfolding publish close_step close closed_at publish_steps InRange inbox_steps
  closing-Goes k xs sound = elim (Option-cases (get_elem? xs k)) [
    | inl e ↦
        let past : 4 ≤ k = omega (arith, get_elem?-none_ge xs k e, sound.four) in
        (
          _,
          rw (publish, close_step, e) refl,
          change-IsSound format_uint ideal _ waiting sound refl
              (λ b x l o. waited-IsOpen format_uint ideal k b x (omega arith) o),
          omega (arith, sound.range),
        )
    | inr (x, e) ↦
        let (open_yet, shut) = close-IsOpen format_uint ideal k x (sound.opens k x e) in
        let l = get_elem?-lt xs k e in
        let x' : Inbox = record x { closed = true } in
        (
          record { publisher = closing (k + 1); inboxes = set xs k x' },
          rw (publish, close_step, e, close, open_yet) refl,
          set-IsSound format_uint ideal _ (closing (k + 1)) k x' sound
              (omega (arith, l, sound.four)) shut
              (λ b y ne o. closed-IsOpen format_uint ideal k b y ne o) x e,
          omega (arith, l, sound.four, sum_of-set inbox_steps xs k x x' e),
        )
  ]

  -- A step of the subscriber at inbox `k`.
  subscribed-IsSound :
      (s : State) (k : ℕ) (x : Inbox)
      → IsSound format_uint ideal s
      → get_elem? s.inboxes k ≡ some x
      → IsSound format_uint ideal
          (record { publisher = s.publisher; inboxes = set s.inboxes k (subscribe x) })
  subscribed-IsSound s k x sound e =
      set-IsSound format_uint ideal s s.publisher k (subscribe x) sound sound.range
        (subscribe-IsOpen format_uint ideal s.publisher k x.buffer x.closed x.total x.drained
          (sound.opens k x e))
        (λ b y ne o. o) x e

  subscriber-Advances :
      (s : State) (k : ℕ) (x : Inbox)
      → IsSound format_uint ideal s
      → get_elem? s.inboxes k ≡ some x
      → x.drained ≡ false
      → (x.closed ≡ true) ⊎ (0 < length x.buffer)
      → Advances (try_turn format_uint) (IsSound format_uint ideal) steps s
  unfolding try_turn
  subscriber-Advances s k x sound e d h =
      let less = subscribe-steps x.buffer x.closed x.total x.drained d h in
      (
        subscriber k,
        record { publisher = s.publisher; inboxes = set s.inboxes k (subscribe x) },
        rw (try_turn, e) refl,
        subscribed-IsSound s k x sound e,
        omega (arith, sum_of-set inbox_steps s.inboxes k x (subscribe x) e, less),
      )

  publish-Keeps :
      (p : Publisher) (xs : List Inbox)
      → let s : State = record { publisher = p; inboxes = xs } in
        IsSound format_uint ideal s
        → Keeps (try_turn format_uint) (IsSound format_uint ideal) s main_turn
  unfolding try_turn
  publish-Keeps (looping left i) xs sound =
      let (s', e, sound', less) = looping-Goes left i xs sound in (s', e, sound')
  publish-Keeps (sending n i m k) xs sound = elim (sending-Goes n i m k xs sound) [
    | inl (s', e, sound', less) ↦ (s', e, sound')
    | inr (e, full) ↦ (_, e, sound)
  ]
  publish-Keeps (closing k) xs sound =
      let (s', e, sound', less) = closing-Goes k xs sound in (s', e, sound')
  publish-Keeps waiting xs sound = (_, refl, sound)

  turn-Keeps :
      (s : State) (t : Turn)
      → IsSound format_uint ideal s
      → Keeps (try_turn format_uint) (IsSound format_uint ideal) s t
  unfolding try_turn
  turn-Keeps s main_turn sound = publish-Keeps s.publisher s.inboxes sound
  turn-Keeps s (subscriber k) sound = elim (Option-cases (get_elem? s.inboxes k)) [
    | inl e ↦ (s, rw (try_turn, e) refl, sound)
    | inr (x, e) ↦ (_, rw (try_turn, e) refl, subscribed-IsSound s k x sound e)
  ]

  turn-Advances :
      (p : Publisher) (xs : List Inbox)
      → let s : State = record { publisher = p; inboxes = xs } in
        IsSound format_uint ideal s
        → is_done s ≡ false
        → Advances (try_turn format_uint) (IsSound format_uint ideal) steps s
  unfolding try_turn is_done has_closed
  turn-Advances (looping left i) xs sound n =
      let (s', e, sound', less) = looping-Goes left i xs sound in (main_turn, s', e, sound', less)
  turn-Advances (sending n i m k) xs sound d = elim (sending-Goes n i m k xs sound) [
    | inl (s', e, sound', less) ↦ (main_turn, s', e, sound', less)
    | inr (e, (x, at, open_yet, some_left)) ↦
        subscriber-Advances _ k x sound at (undrained x open_yet (sound.opens k x at).receives)
          (inr some_left)
  ]
  turn-Advances (closing k) xs sound n =
      let (s', e, sound', less) = closing-Goes k xs sound in (main_turn, s', e, sound', less)
  turn-Advances waiting xs sound n =
      let (k, x, e, d) = find_undrained xs n in
      subscriber-Advances _ k x sound e d (inl (sound.opens k x e).closes)

  pub turn-Rule : Rule (try_turn format_uint) (IsSound format_uint ideal) steps is_done
  turn-Rule = record {
    keeps = turn-Keeps;
    moves = λ s sound n. turn-Advances s.publisher s.inboxes sound n;
  }
