-- ===== src/Channel/Progress.antt =====
-- No producer and no consumer of examples/bench/shared-channel/main.go waits for ever.
use mathlib.Core.Path.{subst}
use valk.Prelude.{
  ℕ, zero, suc, ◌≡◌, refl, ◌∙◌, ap, inl, inr, some, List, [], ◌∷◌, ◌++◌, Bool, true, false, arith,
  ok, map, get_elem?, set, Bool-cases,
}
use valk.Prelude.Updates.{sum_of, sum_of-set}
use valk.Prelude.Turns.{Advances, Rule, run_turns-completes}
use valk.Channel.{Message, Pipe, send, close, produce, consume}
use valk.Channel.Drained.{steps, IsFine, move-IsFine}
use valk.Channel.Main.{
  Turn, producer, consumer, channel_of, move, store, try_turn, open_pipe, numbers, all_drained, run,
}
use valk.Channel.Printed.{
  ideal_line, IsSound, store-IsSound, try_turn-IsSound, open_pipes-IsSound, run-end,
}

-- A step of the producer or of the consumer of the channel at `t`.
abbrev Moves : (ℕ → List ℕ) → ℕ → Pipe → Type 0
Moves format_uint t p =
    (turn : Turn) × (p' : Pipe) × (channel_of turn ≡ t) × (move format_uint turn p ≡ ok (some p'))

-- Before the consumer has returned: with a message there it receives; with none, the channel is
-- closed and it returns, or the producer sends or closes.
pipe-Moves :
    (format_uint : ℕ → List ℕ) (t : ℕ) (buffer : List Message) (closed : Bool) (first sent left : ℕ)
    (returned : Bool) (total : ℕ) (drained : Bool)
    → let p : Pipe = record {
      buffer = buffer;
      closed = closed;
      first = first;
      sent = sent;
      left = left;
      returned = returned;
      total = total;
      drained = drained;
    } in
      drained ≡ false → closed ≡ returned → Moves format_uint t p
unfolding move produce consume send close
pipe-Moves format_uint t buffer closed first sent left returned total true d e = cc
pipe-Moves format_uint t (m ∷ buffer) closed first sent left returned total false d e =
    (consumer t, _, refl, refl)
pipe-Moves format_uint t [] true first sent left returned total false d e =
    (consumer t, _, refl, refl)
pipe-Moves format_uint t [] false first sent left true total false d e = cc
pipe-Moves format_uint t [] false first sent zero false total false d e =
    (producer t, _, refl, refl)
pipe-Moves format_uint t [] false first sent (suc left) false total false d e =
    (producer t, _, refl, refl)

find_undrained :
    (ps : List Pipe)
    → all_drained ps ≡ false
    → (t : ℕ) × (p : Pipe) × (get_elem? ps t ≡ some p) × (p.drained ≡ false)
unfolding all_drained
find_undrained [] h = cc
find_undrained (p ∷ ps) h = elim (Bool-cases p.drained) [
  | inl d ↦ let (t, v, e, n) = find_undrained ps (ground arith) in (suc t, v, e, n)
  | inr d ↦ (0, p, refl, d)
]

module _ (format_uint : ℕ → List ℕ) (finals : List ℕ) where
  turn-Advances :
      (ps : List Pipe) (p : Pipe) (turn : Turn) (p' : Pipe)
      → get_elem? ps (channel_of turn) ≡ some p
      → IsSound format_uint finals ps
      → move format_uint turn p ≡ ok (some p')
      → Advances (try_turn format_uint) (IsSound format_uint finals) (sum_of steps) ps
  unfolding try_turn store IsFine
  turn-Advances ps p turn p' e sound m =
      let fine : IsFine format_uint p (ok (some p')) =
        subst (IsFine format_uint p) m (move-IsFine format_uint turn p (sound.opens _ p e)) in
      let t = channel_of turn in
      let less : steps p ≡ suc (steps p') = fine.2 in
      let (next, same, sound') =
        store-IsSound format_uint finals ps t p e sound (ok (some p')) fine in
      let n : next ≡ some p' = cc in
      (
        turn,
        set ps t p',
        rw (try_turn, e, m) refl,
        subst (λ o. IsSound format_uint finals (store ps t o)) n sound',
        omega (arith, sum_of-set steps ps t p p' e, less),
      )

  progress :
      (ps : List Pipe)
      → IsSound format_uint finals ps
      → all_drained ps ≡ false
      → Advances (try_turn format_uint) (IsSound format_uint finals) (sum_of steps) ps
  progress ps sound n =
      let (t, p, e, d) = find_undrained ps n in
      let (turn, p', at, m) =
        pipe-Moves format_uint t p.buffer p.closed p.first p.sent p.left p.returned p.total
          p.drained d (sound.opens t p e).closes in
      turn-Advances ps p turn p' (ap (get_elem? ps) at ∙ e) sound m

  step-Rule : Rule (try_turn format_uint) (IsSound format_uint finals) (sum_of steps) all_drained
  step-Rule = record { keeps = try_turn-IsSound format_uint finals; moves = progress }

-- Every schedule can be continued so that all four consumers return and the line with the sum of
-- their totals, each over all messages of its channel, is printed: full and empty buffers never
-- block the program for good.
pub run-completes :
    (format_uint : ℕ → List ℕ) (count : ℕ) (turns : List Turn)
    → (more : List Turn) × (run format_uint count (turns ++ more)
        ≡ ok (some (ideal_line format_uint count)))
run-completes format_uint count turns =
    let (more, ps, e, sound, end) =
      run_turns-completes (step-Rule format_uint _) (map (open_pipe count) numbers) turns
        (open_pipes-IsSound format_uint count) in
    (more, run-end format_uint count (turns ++ more) ps e sound ∙ rw (end) refl)
