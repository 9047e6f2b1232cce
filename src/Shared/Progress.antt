-- ===== src/Shared/Progress.antt =====
-- No goroutine of examples/bench/shared-cache/main.go waits for ever.
use valk.Prelude.{
  ℕ, zero, suc, ◌<◌, ◌≡◌, refl, ◌∙◌, ap, inl, inr, some, List, [], ◌∷◌, ◌++◌, true, false, arith,
  ok, get_elem?, set, ◌==◌, Bool-cases,
}
use valk.Prelude.Turns.{Advances, Rule, run_turns-completes}
use valk.Shared.{
  Phase, test, write_lock, write, write_unlock, read_lock, read, read_unlock, Worker, moved,
  blocked, finished, panicked, Move, advance,
}
use valk.Shared.Alone.{holding, bit, steps, IsFine}
use valk.Shared.Main.{State, apply, try_step, run_schedule, start, is_done, all_done, run}
use valk.Prelude.Updates.{sum_of, sum_of-set}
use valk.Shared.Schedules.{apply-IsSound, move-IsFine, IsSound, try_step-IsSound, start-IsSound}
use valk.Shared.Printed.{ideal_line, run-end}

find_undone :
    (ws : List Worker)
    → all_done ws ≡ false
    → (t : ℕ) × (w : Worker) × (get_elem? ws t ≡ some w) × (is_done w ≡ false)
unfolding all_done
find_undone [] h = cc
find_undone (w ∷ ws) h = elim (Bool-cases (is_done w)) [
  | inl d ↦ let (t, v, e, n) = find_undone ws (ground arith) in (suc t, v, e, n)
  | inr d ↦ (0, w, refl, d)
]

find_holding :
    (ws : List Worker)
    → 0 < sum_of holding ws
    → (t : ℕ) × (w : Worker) × (get_elem? ws t ≡ some w) × (0 < holding w)
unfolding sum_of
find_holding [] h = absurd (omega arith)
find_holding (w ∷ ws) h = elim (Bool-cases (holding w == 0)) [
  | inl d ↦ let (t, v, e, n) = find_holding ws (ground arith) in (suc t, v, e, n)
  | inr d ↦ (0, w, refl, ground arith)
]

is_done-holding :
    (left r total : ℕ) (phase : Phase)
    → let w : Worker = record { left = left; r = r; total = total; phase = phase } in
      is_done w ≡ true → holding w ≡ 0
unfolding is_done holding
is_done-holding zero r total test h = refl
is_done-holding zero r total (write_lock key fresh) h = cc
is_done-holding zero r total (write key fresh) h = cc
is_done-holding zero r total write_unlock h = cc
is_done-holding zero r total (read_lock key) h = cc
is_done-holding zero r total (read key) h = cc
is_done-holding zero r total (read_unlock found) h = cc
is_done-holding (suc left) r total phase h = cc

module _ (format_uint : ℕ → List ℕ) (slots : ℕ) (h0 : 0 < slots) (finals : List ℕ) where
  ok-injective : {s s' : State} → ok s ≡ ok s' → s ≡ s'
  ok-injective e = cc

  apply-less :
      (s : State) (t : ℕ) (w : Worker)
      → get_elem? s.workers t ≡ some w
      → (m : Move) → IsFine format_uint slots s.cache w m
      → (s.cache.held ≡ true → 0 < holding w)
      → is_done w ≡ false
      → (s' : State) → apply s t m ≡ ok s'
      → sum_of steps s.workers ≡ suc (sum_of steps s'.workers)
  unfolding IsFine apply
  apply-less s t w e (moved c w') fine free n s' a =
      let less : steps w ≡ suc (steps w') = fine.4 in
      let now : set s.workers t w' ≡ s'.workers = ap (λ s. s.workers) (ok-injective a) in
      rw⁻¹ (now) (omega (arith, sum_of-set steps s.workers t w w' e, less))
  apply-less s t w e blocked (h, z) free n s' a = let f = free h in omega arith
  apply-less s t w e finished fine free n s' a = cc
  apply-less s t w e panicked fine free n s' a = absurd fine

  move-Advances :
      (s : State) (t : ℕ) (w : Worker)
      → get_elem? s.workers t ≡ some w
      → IsSound format_uint slots finals s
      → (s.cache.held ≡ true → 0 < holding w)
      → is_done w ≡ false
      → Advances
          (try_step format_uint slots)
          (IsSound format_uint slots finals)
          (λ s. sum_of steps s.workers)
          s
  unfolding try_step
  move-Advances s t w e sound free n =
      let fine = move-IsFine format_uint slots h0 finals s t w e sound in
      let m : Move = advance format_uint slots s.cache w in
      let (s', a, sound') = apply-IsSound format_uint slots h0 finals s t w e sound m fine in
      (t, s', rw (try_step, e) a, sound', apply-less s t w e m fine free n s' a)

  -- The goroutine that holds the mutex can move, and with the mutex free any that is not done.
  progress :
      (s : State)
      → IsSound format_uint slots finals s
      → all_done s.workers ≡ false
      → Advances
          (try_step format_uint slots)
          (IsSound format_uint slots finals)
          (λ s. sum_of steps s.workers)
          s
  unfolding bit
  progress s sound n = elim (Bool-cases s.cache.held) [
    | inl d ↦
        let (t, w, e, p) =
          find_holding s.workers (let b = ap bit d in omega (arith, sound.mutex)) in
        move-Advances s t w e sound (λ x. p)
          (elim (Bool-cases (is_done w)) [
            | inl done ↦ absurd (omega (arith, is_done-holding w.left w.r w.total w.phase done))
            | inr n' ↦ n'
          ])
    | inr d ↦
        let (t, w, e, p) = find_undone s.workers n in move-Advances s t w e sound (λ x. absurd cc) p
  ]

  -- What the program shows of its steps.
  pub step-Rule :
      Rule
        (try_step format_uint slots)
        (IsSound format_uint slots finals)
        (λ s. sum_of steps s.workers)
        (λ s. all_done s.workers)
  step-Rule = record {
    keeps = λ s t sound. try_step-IsSound format_uint slots h0 finals s t sound;
    moves = progress;
  }

-- Over at least one slot, every schedule can be continued so that all four goroutines finish and the
-- line with the sum of their separate totals is printed: no state of the program is a deadlock.
pub run-finishes :
    (format_uint : ℕ → List ℕ) (slots operations : ℕ) (schedule : List ℕ)
    → 0 < slots
    → (more : List ℕ) × (run format_uint slots operations (schedule ++ more)
        ≡ ok (some (ideal_line format_uint slots operations)))
unfolding run_schedule
run-finishes format_uint slots operations schedule h0 =
    let (more, s, e, sound, end) =
      run_turns-completes (step-Rule format_uint slots h0 _) (start format_uint slots operations)
        schedule (start-IsSound format_uint slots h0 operations) in
    (more, run-end format_uint slots operations (schedule ++ more) s e sound ∙ rw (end) refl)
