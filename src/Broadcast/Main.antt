-- ===== src/Broadcast/Main.antt =====
-- `main` of examples/bench/shared-broadcast/main.go. The scheduler is a list of turns: `main`, or the
-- subscriber of an inbox, tries a step, and stays where it is if it has to wait. `parse_uint` is
-- `strconv.ParseUint` on 64 bits, its error ignored.
use Prim.Native.String.{String}
use valk.Prelude.{
  ℕ, Option, none, some, List, [], ◌∷◌, Bool, true, false, ◌&&◌, Result, ok, ◌>>=◌, map, get_elem?,
  set, if◌then◌else◌,
}
use valk.Prelude.Int.{pos}
use valk.Prelude.Output.{int, Line, printf}
use valk.Prelude.Turns.{run_turns}
use valk.Broadcast.{Inbox, looping, sending, closing, waiting, State, publish, subscribe, add_all}

pub data Turn : Type 0 where
  main_turn : Turn
  subscriber : ℕ → Turn

unfoldable pub try_turn : (ℕ → List ℕ) → State → Turn → Result State
unfolding publish subscribe
try_turn format_uint s main_turn = publish format_uint s
try_turn format_uint s (subscriber k) = elim (get_elem? s.inboxes k) [
  | none ↦ ok s
  | some b ↦ ok (record { publisher = s.publisher; inboxes = set s.inboxes k (subscribe b) })
]

-- An empty inbox with its subscriber at its start, and the four of them.
abbrev pub new_inbox : Inbox
new_inbox = record { buffer = []; closed = false; total = 0; drained = false }

unfoldable pub start : ℕ → State
start count = record {
  publisher = looping count 0;
  inboxes = new_inbox ∷ new_inbox ∷ new_inbox ∷ new_inbox ∷ [];
}

unfoldable pub all_drained : List Inbox → Bool
all_drained [] = true
all_drained (b ∷ bs) = b.drained && all_drained bs

-- `main` is at `wg.Wait`, and every subscriber has returned.
unfoldable pub is_done : State → Bool
is_done s = elim s.publisher [
  | looping left i ↦ false
  | sending n i m k ↦ false
  | closing k ↦ false
  | waiting ↦ all_drained s.inboxes
]

abbrev pub checksum_line : ℕ → ℕ → Line
checksum_line count total =
    printf "messages: %d, subscribers: 4, checksum: %d\n" (int (pos count) ∷ int (pos total) ∷ [])

unfoldable pub run : (ℕ → List ℕ) → ℕ → List Turn → Result (Option Line)
unfolding start
run format_uint count turns = do
  s ← run_turns (try_turn format_uint) (start count) turns
  let total = add_all 0 (map (λ b. b.total) s.inboxes)
  ok (if is_done s then some (checksum_line count total) else none)

unfoldable pub main : (String → ℕ) → (ℕ → List ℕ) → List String → List Turn → Result (Option Line)
unfolding run
main parse_uint format_uint (program ∷ arg ∷ rest) turns = run format_uint (parse_uint arg) turns
main parse_uint format_uint _ turns = run format_uint 500000 turns
