-- ===== src/Shared/Schedules.antt =====
-- Schedules of examples/bench/shared-cache/main.go: the invariant of the whole program, and what it
-- prints.
use mathlib.Core.Path.{subst}
use valk.Prelude.{
  ℕ, zero, suc, ◌+◌, ◌<◌, ◌≡◌, refl, ◌∙◌, inl, inr, some, List, [], ◌∷◌, arith, ok, map, get_elem?,
  set, Option-cases,
}
use valk.Prelude.Turns.{Keeps, run_turns-Keeps}
use valk.Prelude.Updates.{sum_of, sum_of-set, sum_of-ge, map-set_same, get_elem?-set_cases}
use valk.Shared.{
  entry, Items, store_item, Worker, moved, blocked, finished, panicked, Move, advance,
}
use valk.Shared.Alone.{alone, final, IsFilled, IsReady, holding, bit, IsFine, advance-IsFine}
use valk.Shared.Main.{State, apply, try_step, run_schedule, fill, no_items, work, seeds, start}

unfoldable pub AllReady : (ℕ → List ℕ) → ℕ → List Worker → Type 0
AllReady format_uint slots ws =
    (t : ℕ) (w : Worker) → get_elem? ws t ≡ some w → IsReady format_uint slots w.phase

-- The invariant: `finals` are the totals at the end.
pub record IsSound (format_uint : ℕ → List ℕ) (slots : ℕ) (finals : List ℕ) (s : State)
    : Type 0 where
  pub filled : IsFilled format_uint slots s.cache.items
  pub ready : AllReady format_uint slots s.workers
  pub mutex : sum_of holding s.workers ≡ bit s.cache.held
  pub ends : map (final format_uint slots) s.workers ≡ finals

module _ (format_uint : ℕ → List ℕ) (slots : ℕ) (h0 : 0 < slots) where
  set-AllReady :
      (ws : List Worker) (t : ℕ) (w w' : Worker)
      → get_elem? ws t ≡ some w
      → AllReady format_uint slots ws
      → IsReady format_uint slots w'.phase
      → AllReady format_uint slots (set ws t w')
  unfolding AllReady
  set-AllReady ws t w w' h all r u v e = elim (get_elem?-set_cases ws t w' u v e) [
    | inl d ↦ subst (λ x. IsReady format_uint slots x.phase) d r
    | inr d ↦ all u v d
  ]

  pub apply-IsSound :
      (finals : List ℕ) (s : State) (t : ℕ) (w : Worker)
      → get_elem? s.workers t ≡ some w
      → IsSound format_uint slots finals s
      → (m : Move) → IsFine format_uint slots s.cache w m
      → (s' : State) × (apply s t m ≡ ok s') × IsSound format_uint slots finals s'
  unfolding IsFine apply
  apply-IsSound finals s t w e sound (moved c w') (filled, ready, ends, mutex, less) = (
    record { cache = c; workers = set s.workers t w' },
    refl,
    record {
      filled = filled;
      ready = set-AllReady s.workers t w w' e sound.ready ready;
      mutex = omega (arith, sum_of-set holding s.workers t w w' e, sound.mutex);
      ends = map-set_same (final format_uint slots) s.workers t w w' e ends ∙ sound.ends;
    },
  )
  apply-IsSound finals s t w e sound blocked fine = (s, refl, sound)
  apply-IsSound finals s t w e sound finished fine = (s, refl, sound)
  apply-IsSound finals s t w e sound panicked fine = absurd fine

  -- The move of the goroutine at `t`.
  pub move-IsFine :
      (finals : List ℕ) (s : State) (t : ℕ) (w : Worker)
      → get_elem? s.workers t ≡ some w
      → IsSound format_uint slots finals s
      → IsFine format_uint slots s.cache w (advance format_uint slots s.cache w)
  unfolding AllReady
  move-IsFine finals s t w e sound =
      advance-IsFine format_uint slots h0 s.cache w sound.filled (sound.ready t w e)
        (omega (arith, sum_of-ge holding s.workers t w e, sound.mutex))

  pub try_step-IsSound :
      (finals : List ℕ) (s : State) (t : ℕ)
      → IsSound format_uint slots finals s
      → Keeps (try_step format_uint slots) (IsSound format_uint slots finals) s t
  unfolding try_step
  try_step-IsSound finals s t sound = elim (Option-cases (get_elem? s.workers t)) [
    | inl e ↦ (s, rw (try_step, e) refl, sound)
    | inr (w, e) ↦
        rw (try_step, e)
          (apply-IsSound finals s t w e sound (advance format_uint slots s.cache w)
            (move-IsFine finals s t w e sound))
  ]

  pub run_schedule-IsSound :
      (finals : List ℕ) (s : State) (schedule : List ℕ)
      → IsSound format_uint slots finals s
      → (s' : State) × (run_schedule format_uint slots s schedule ≡ ok s')
        × IsSound format_uint slots finals s'
  unfolding run_schedule
  run_schedule-IsSound finals = run_turns-Keeps (try_step-IsSound finals)

  fill-get :
      (n i : ℕ) (items : Items) (k : ℕ)
      → (k < i → items k ≡ some (entry format_uint k))
      → k < i + n
      → fill format_uint n i items k ≡ some (entry format_uint k)
  unfolding fill store_item
  fill-get zero i items k below h = below (omega arith)
  fill-get (suc n) i items k below h =
      fill-get n (i + 1) (store_item i (entry format_uint i) items) k (λ l. ground arith)
        (omega arith)

  work-IsReady :
      (operations : ℕ) (xs : List ℕ) (t : ℕ) (w : Worker)
      → get_elem? (map (work operations) xs) t ≡ some w
      → IsReady format_uint slots w.phase
  unfolding work IsReady
  work-IsReady operations [] t w e = cc
  work-IsReady operations (x ∷ xs) zero w e =
      let d : work operations x ≡ w = cc in subst (λ v. IsReady format_uint slots v.phase) d refl
  work-IsReady operations (x ∷ xs) (suc t) w e = work-IsReady operations xs t w e

  pub start-IsSound :
      (operations : ℕ)
      → IsSound format_uint slots
          (map (λ seed. alone format_uint slots operations seed 0) seeds)
          (start format_uint slots operations)
  unfolding start IsFilled AllReady work sum_of holding bit final alone
  start-IsSound operations = record {
    filled = λ k h. fill-get slots 0 no_items k (λ l. absurd (omega arith)) (omega arith);
    ready = work-IsReady operations seeds;
    mutex = refl;
    ends = refl;
  }
