-- ===== src/Channel/Printed.antt =====
-- What examples/bench/shared-channel/main.go prints under a schedule.
use mathlib.Core.Path.{subst}
use valk.Prelude.{
  ℕ, zero, suc, ◌*◌, ◌%◌, ◌^◌, ◌≡◌, refl, ◌∙◌, ◌⊎◌, inl, inr, Option, none, some, List, [], ◌∷◌,
  true, arith, Result, ok, panic, out_of_fuel, map, get_elem?, if◌then◌else◌, Bool-cases,
  Option-cases,
}
use valk.Prelude.Output.{Line}
use valk.Prelude.Updates.{map-set_same, get_elem?-set_cases}
use valk.Prelude.Turns.{Keeps, run_turns, run_turns-Keeps}
use valk.Channel.{Pipe, add_values}
use valk.Channel.Drained.{add_messages, messages, final, IsOpen, IsFine, move-IsFine}
use valk.Channel.Main.{
  Turn, channel_of, move, store, try_turn, open_pipe, numbers, all_drained, checksum_line, run,
}

-- The total of a consumer that is given the messages of channel `p` as one list.
unfoldable pub channel_total : (ℕ → List ℕ) → ℕ → ℕ → ℕ
channel_total format_uint count p =
    add_messages 0 (messages format_uint ((p * count) % 2 ^ 64) 0 count)

unfoldable pub ideal_line : (ℕ → List ℕ) → ℕ → Line
ideal_line format_uint count =
    checksum_line count (add_values 0 (map (channel_total format_uint count) numbers))

-- The invariant: `finals` are the totals at the end.
pub record IsSound (format_uint : ℕ → List ℕ) (finals : List ℕ) (pipes : List Pipe) : Type 0 where
  pub opens : (t : ℕ) (p : Pipe) → get_elem? pipes t ≡ some p → IsOpen p
  pub ends : map (final format_uint) pipes ≡ finals

module _ (format_uint : ℕ → List ℕ) (finals : List ℕ) where
  pub store-IsSound :
      (pipes : List Pipe) (t : ℕ) (p : Pipe)
      → get_elem? pipes t ≡ some p
      → IsSound format_uint finals pipes
      → (m : Result (Option Pipe)) → IsFine format_uint p m
      → (next : Option Pipe) × (m ≡ ok next) × IsSound format_uint finals (store pipes t next)
  unfolding IsFine store
  store-IsSound pipes t p e sound (ok (some p')) fine = (
    some p',
    refl,
    record {
      opens = λ u q d. elim (get_elem?-set_cases pipes t p' u q d) [
        | inl same ↦ subst IsOpen same fine.0
        | inr old ↦ sound.opens u q old
      ];
      ends = map-set_same (final format_uint) pipes t p p' e fine.1 ∙ sound.ends;
    },
  )
  store-IsSound pipes t p e sound (ok none) fine = (none, refl, sound)
  store-IsSound pipes t p e sound panic fine = absurd fine
  store-IsSound pipes t p e sound out_of_fuel fine = absurd fine

  pub try_turn-IsSound :
      (pipes : List Pipe) (turn : Turn)
      → IsSound format_uint finals pipes
      → Keeps (try_turn format_uint) (IsSound format_uint finals) pipes turn
  unfolding try_turn
  try_turn-IsSound pipes turn sound = elim (Option-cases (get_elem? pipes (channel_of turn))) [
    | inl e ↦ (pipes, rw (try_turn, e) refl, sound)
    | inr (p, e) ↦
        let (next, m, sound') =
          store-IsSound pipes (channel_of turn) p e sound (move format_uint turn p)
            (move-IsFine format_uint turn p (sound.opens _ p e)) in
        (store pipes (channel_of turn) next, rw (try_turn, e, m) refl, sound')
  ]

open_pipe-IsOpen :
    (count : ℕ) (ns : List ℕ) (t : ℕ) (p : Pipe)
    → get_elem? (map (open_pipe count) ns) t ≡ some p
    → IsOpen p
unfolding open_pipe
open_pipe-IsOpen count [] t p e = cc
open_pipe-IsOpen count (n ∷ ns) zero p e =
    let same : open_pipe count n ≡ p = cc in
    subst IsOpen same
      (record { closes = refl; sends = λ f. cc; receives = λ f. cc; room = omega arith })
open_pipe-IsOpen count (n ∷ ns) (suc t) p e = open_pipe-IsOpen count ns t p e

pub open_pipes-IsSound :
    (format_uint : ℕ → List ℕ) (count : ℕ)
    → IsSound format_uint
        (map (channel_total format_uint count) numbers)
        (map (open_pipe count) numbers)
unfolding final open_pipe channel_total
open_pipes-IsSound format_uint count = record {
  opens = open_pipe-IsOpen count numbers;
  ends = refl;
}

all_drained-totals :
    (format_uint : ℕ → List ℕ) (pipes : List Pipe)
    → ((t : ℕ) (p : Pipe) → get_elem? pipes t ≡ some p → IsOpen p)
    → all_drained pipes ≡ true
    → map (λ p. p.total) pipes ≡ map (final format_uint) pipes
unfolding all_drained final messages add_messages
all_drained-totals format_uint [] opens h = refl
all_drained-totals format_uint (p ∷ ps) opens h = elim (Bool-cases p.drained) [
  | inl d ↦
      let (r, b) = (opens 0 p refl).receives d in
      let l = (opens 0 p refl).sends r in
      let e : p.total ≡ final format_uint p = rw (final, b, l, messages) refl in
      let es = all_drained-totals format_uint ps (λ t. opens (suc t)) (ground arith) in cc
  | inr d ↦ absurd (ground arith)
]

pub run-end :
    (format_uint : ℕ → List ℕ) (count : ℕ) (turns : List Turn) (pipes : List Pipe)
    → run_turns (try_turn format_uint) (map (open_pipe count) numbers) turns ≡ ok pipes
    → IsSound format_uint (map (channel_total format_uint count) numbers) pipes
    → run format_uint count turns
      ≡ ok (if all_drained pipes then some (ideal_line format_uint count) else none)
unfolding ideal_line run all_drained
run-end format_uint count turns pipes e sound = elim (Bool-cases (all_drained pipes)) [
  | inl d ↦
      let t = all_drained-totals format_uint pipes sound.opens d ∙ sound.ends in
      rw (run, e, d, t) refl
  | inr d ↦ rw (run, e, d) refl
]

-- No schedule of the producers and the consumers panics (no send on a closed channel, no second
-- `close`), and one that lets every consumer return prints the checksum of consumers that are each
-- given all messages of their channel as one list: it does not depend on the schedule.
pub run-same_checksum :
    (format_uint : ℕ → List ℕ) (count : ℕ) (turns : List Turn)
    → (run format_uint count turns ≡ ok none)
      ⊎ (run format_uint count turns ≡ ok (some (ideal_line format_uint count)))
run-same_checksum format_uint count turns =
    let (pipes, e, sound) =
      run_turns-Keeps (try_turn-IsSound format_uint _) _ turns
        (open_pipes-IsSound format_uint count) in
    let r = run-end format_uint count turns pipes e sound in
    elim (Bool-cases (all_drained pipes)) [ inl d ↦ inr cc | inr d ↦ inl cc ]
