-- ===== src/Channel/Main.antt =====
-- `main` of examples/bench/shared-channel/main.go. The scheduler is a list of turns: a producer or a
-- consumer of one of the four channels tries a step, and stays where it is if it has to wait.
-- `parse_uint` is `strconv.ParseUint` on 64 bits, its error ignored.
use Prim.Native.String.{String}
use valk.Prelude.{
  ℕ, ◌*◌, ◌%◌, ◌^◌, Option, none, some, List, [], ◌∷◌, Bool, true, false, ◌&&◌, Result, ok, ◌>>=◌,
  map, get_elem?, set, if◌then◌else◌,
}
use valk.Prelude.Int.{pos}
use valk.Prelude.Output.{int, Line, printf}
use valk.Prelude.Turns.{run_turns}
use valk.Channel.{Pipe, produce, consume, add_values}

pub data Turn : Type 0 where
  producer : ℕ → Turn
  consumer : ℕ → Turn

abbrev pub channel_of : Turn → ℕ
channel_of (producer p) = p
channel_of (consumer p) = p

unfoldable pub move : (ℕ → List ℕ) → Turn → Pipe → Result (Option Pipe)
unfolding produce consume
move format_uint (producer p) pipe = produce format_uint pipe
move format_uint (consumer p) pipe = consume pipe

unfoldable pub store : List Pipe → ℕ → Option Pipe → List Pipe
store pipes p none = pipes
store pipes p (some pipe) = set pipes p pipe

unfoldable pub try_turn : (ℕ → List ℕ) → List Pipe → Turn → Result (List Pipe)
try_turn format_uint pipes turn = elim (get_elem? pipes (channel_of turn)) [
  | none ↦ ok pipes
  | some pipe ↦ do next ← move format_uint turn pipe; ok (store pipes (channel_of turn) next)
]

-- A channel with `produce(channel, p*count, count)` and `consume(channel)` at their start.
unfoldable pub open_pipe : ℕ → ℕ → Pipe
open_pipe count p = record {
  buffer = [];
  closed = false;
  first = (p * count) % 2 ^ 64;
  sent = 0;
  left = count;
  returned = false;
  total = 0;
  drained = false;
}

abbrev pub numbers : List ℕ
numbers = 0 ∷ 1 ∷ 2 ∷ 3 ∷ []

unfoldable pub all_drained : List Pipe → Bool
all_drained [] = true
all_drained (p ∷ ps) = p.drained && all_drained ps

abbrev pub checksum_line : ℕ → ℕ → Line
checksum_line count total =
    printf "messages: %d, checksum: %d\n" (int (pos ((count * 4) % 2 ^ 64)) ∷ int (pos total) ∷ [])

-- `wg.Wait` waits for the consumers.
unfoldable pub run : (ℕ → List ℕ) → ℕ → List Turn → Result (Option Line)
unfolding run_turns
run format_uint count turns = do
  pipes ← run_turns (try_turn format_uint) (map (open_pipe count) numbers) turns
  let total = add_values 0 (map (λ p. p.total) pipes)
  ok (if all_drained pipes then some (checksum_line count total) else none)

unfoldable pub main : (String → ℕ) → (ℕ → List ℕ) → List String → List Turn → Result (Option Line)
unfolding run
main parse_uint format_uint (program ∷ arg ∷ rest) turns = run format_uint (parse_uint arg) turns
main parse_uint format_uint _ turns = run format_uint 1000000 turns
