-- ===== src/Shared/Printed.antt =====
-- What examples/bench/shared-cache/main.go prints under a schedule, and its mutex.
use valk.Prelude.{
  ℕ, zero, suc, ◌<◌, ◌≡◌, refl, ◌∙◌, ◌⊎◌, inl, inr, none, some, List, [], ◌∷◌, true, arith, ok, map,
  if◌then◌else◌, Bool-cases,
}
use valk.Prelude.Output.{Line}
use valk.Shared.{
  Phase, test, write_lock, write, write_unlock, read_lock, read, read_unlock, Worker, add_all,
}
use valk.Shared.Alone.{alone, final, holding, bit}
use valk.Shared.Main.{State, run_schedule, seeds, start, is_done, all_done, checksum_line, run}
use valk.Prelude.Updates.{sum_of}
use valk.Shared.Schedules.{IsSound, run_schedule-IsSound, start-IsSound}

-- The line with the sum of what the four goroutines compute alone.
unfoldable pub ideal_line : (ℕ → List ℕ) → ℕ → ℕ → Line
unfolding alone
ideal_line format_uint slots operations =
    checksum_line slots operations
      (add_all 0 (map (λ seed. alone format_uint slots operations seed 0) seeds))

is_done-total :
    (format_uint : ℕ → List ℕ) (slots left r total : ℕ) (phase : Phase)
    → let w : Worker = record { left = left; r = r; total = total; phase = phase } in
      is_done w ≡ true → total ≡ final format_uint slots w
unfolding is_done final alone
is_done-total format_uint slots zero r total test h = refl
is_done-total format_uint slots zero r total (write_lock key fresh) h = cc
is_done-total format_uint slots zero r total (write key fresh) h = cc
is_done-total format_uint slots zero r total write_unlock h = cc
is_done-total format_uint slots zero r total (read_lock key) h = cc
is_done-total format_uint slots zero r total (read key) h = cc
is_done-total format_uint slots zero r total (read_unlock found) h = cc
is_done-total format_uint slots (suc left) r total phase h = cc

all_done-totals :
    (format_uint : ℕ → List ℕ) (slots : ℕ) (ws : List Worker)
    → all_done ws ≡ true
    → map (λ w. w.total) ws ≡ map (final format_uint slots) ws
unfolding all_done
all_done-totals format_uint slots [] h = refl
all_done-totals format_uint slots (w ∷ ws) h = elim (Bool-cases (is_done w)) [
  | inl d ↦
      let e = is_done-total format_uint slots w.left w.r w.total w.phase d in
      let es = all_done-totals format_uint slots ws (ground arith) in cc
  | inr d ↦ absurd (ground arith)
]

pub run-end :
    (format_uint : ℕ → List ℕ) (slots operations : ℕ) (schedule : List ℕ) (s : State)
    → run_schedule format_uint slots (start format_uint slots operations) schedule ≡ ok s
    → IsSound format_uint slots (map (λ seed. alone format_uint slots operations seed 0) seeds) s
    → run format_uint slots operations schedule
      ≡ ok (if all_done s.workers then some (ideal_line format_uint slots operations) else none)
unfolding run ideal_line
run-end format_uint slots operations schedule s e sound = elim (Bool-cases (all_done s.workers)) [
  | inl d ↦
      let t = all_done-totals format_uint slots s.workers d ∙ sound.ends in rw (run, e, d, t) refl
  | inr d ↦ rw (run, e, d) refl
]

-- Over at least one slot, no schedule of the four goroutines panics, and a schedule that lets them
-- all finish prints the checksum that each computes with no other goroutine and every key still at
-- its first entry: it does not depend on the schedule.
pub run-same_line :
    (format_uint : ℕ → List ℕ) (slots operations : ℕ) (schedule : List ℕ)
    → 0 < slots
    → (run format_uint slots operations schedule ≡ ok none)
      ⊎ (run format_uint slots operations schedule
          ≡ ok (some (ideal_line format_uint slots operations)))
run-same_line format_uint slots operations schedule h0 =
    let (s, e, sound) =
      run_schedule-IsSound format_uint slots h0 _ (start format_uint slots operations) schedule
        (start-IsSound format_uint slots h0 operations) in
    let r = run-end format_uint slots operations schedule s e sound in
    elim (Bool-cases (all_done s.workers)) [ inl d ↦ inr cc | inr d ↦ inl cc ]

-- Over at least one slot, no schedule panics, and after it at most one goroutine stands between `Lock` and
-- `Unlock`: one exactly when the mutex is held.
pub run_schedule-exclusive :
    (format_uint : ℕ → List ℕ) (slots operations : ℕ) (schedule : List ℕ)
    → 0 < slots
    → (s : State) × (run_schedule format_uint slots (start format_uint slots operations) schedule
        ≡ ok s)
      × (sum_of holding s.workers ≡ bit s.cache.held)
run_schedule-exclusive format_uint slots operations schedule h0 =
    let (s, e, sound) =
      run_schedule-IsSound format_uint slots h0 _ (start format_uint slots operations) schedule
        (start-IsSound format_uint slots h0 operations) in
    (s, e, sound.mutex)
